-- ===== src/RaftLog/Match.antt =====
-- What `maybeAppend` makes of a leader's entries.
use yaraft.Prelude.{
  ℕ, suc, ◌+◌, ◌≤◌, ◌<◌, ◌≡◌, ◌≢◌, refl, sym, ◌∙◌, ap, ◌⊎◌, inl, inr, min, max, true, false, List,
  [], ◌∷◌, ◌++◌, Option, none, some, ltb, leb, length, get_elem?, drop, length-append, subst, arith,
  u64_mod, dec_lt, add64, sub64, Bool-cases,
}
use yaraft.Outcome.{ok, bind-ok}
use yaraft.Idl.{Entry}
use yaraft.Entries.{IsRun, IsRun-back, IsRun-front}
use yaraft.Util.{slice_from}
use yaraft.RaftLog.{
  RaftLog, first_index, last_index, term, append, match_term, same_term, find_conflict, append_from,
  commit_to, maybe_append,
}
use yaraft.RaftLog.Append.{IsJoined, append_lem}

-- Every entry is in the log, by its index and its term.
abbrev pub HasAll : RaftLog → List Entry → Type 0
HasAll l [] = Unit {0}
HasAll l (e ∷ es) = (term l e.index ≡ ok e.term) × HasAll l es

match_term-true : (l : RaftLog) (i t : ℕ) → match_term l i t ≡ ok true → term l i ≡ ok t
unfolding match_term same_term
match_term-true l i t e = ground arith

match_term-false : (l : RaftLog) (i t : ℕ) → match_term l i t ≡ ok false → term l i ≢ ok t
unfolding match_term same_term
match_term-false l i t e = ground arith

-- The first entry that the log does not have.
abbrev Conflict : RaftLog → List Entry → ℕ → Type 0
Conflict l ents ci =
    ((ci ≡ 0) × HasAll l ents)
    ⊎ ((pre : List Entry) × (e : Entry) × (post : List Entry) × (ents ≡ pre ++ (e ∷ post))
        × (ci ≡ e.index)
        × HasAll l pre
        × (term l e.index ≢ ok e.term))

find_conflict-cons :
    (l : RaftLog) (e : Entry) (es : List Entry) {ci : ℕ}
    → find_conflict l (e ∷ es) ≡ ok ci
    → ((term l e.index ≡ ok e.term) × (find_conflict l es ≡ ok ci))
      ⊎ ((term l e.index ≢ ok e.term) × (ci ≡ e.index))
unfolding find_conflict
find_conflict-cons l e es h = grind (arith, match_term-true, match_term-false)

find_conflict-nil : (l : RaftLog) {ci : ℕ} → find_conflict l [] ≡ ok ci → ci ≡ 0
unfolding find_conflict
find_conflict-nil l h = ground arith

find_conflict-Conflict :
    (l : RaftLog) (ents : List Entry) {ci : ℕ} → find_conflict l ents ≡ ok ci → Conflict l ents ci
find_conflict-Conflict l [] h = inl (find_conflict-nil l h, tt)
find_conflict-Conflict l (e ∷ es) h = elim (find_conflict-cons l e es h) [
  | inr (other, at) ↦ inr ([], e, es, refl, at, tt, other)
  | inl (same, rest) ↦ elim (find_conflict-Conflict l es rest) [
    | inl (zero_at, all) ↦ inl (zero_at, (same, all))
    | inr (pre, e', post, split, at, all, other) ↦
        inr (e ∷ pre, e', post, ap (λ q. e ∷ q) split, at, (same, all), other)
  ]
]

HasAll-append : (l : RaftLog) (xs ys : List Entry) → HasAll l xs → HasAll l ys → HasAll l (xs ++ ys)
HasAll-append l [] ys h k = k
HasAll-append l (x ∷ xs) ys (m, h) k = (m, HasAll-append l xs ys h k)

-- Entries below `a` stay where the terms below `a` stay.
HasAll-front :
    (l l' : RaftLog) (a b : ℕ) (es : List Entry)
    → ((i : ℕ) → i < a → term l' i ≡ term l i)
    → IsRun b es
    → b + length es ≤ a
    → HasAll l es
    → HasAll l' es
HasAll-front l l' a b [] keeps r h k = tt
HasAll-front l l' a b (e ∷ es) keeps (at, r) h (m, k) =
    (keeps e.index (omega arith) ∙ m, HasAll-front l l' a (b + 1) es keeps r (omega arith) k)

HasAll-new :
    (l' : RaftLog) (a : ℕ) (es : List Entry)
    → ((k : ℕ) (e : Entry) → get_elem? es k ≡ some e → term l' (a + k) ≡ ok e.term)
    → IsRun a es
    → HasAll l' es
HasAll-new l' a [] new r = tt
HasAll-new l' a (e ∷ es) new (at, r) =
    let here : e.index ≡ a + 0 = omega arith in
    (
      rw here (new 0 e refl),
      HasAll-new l' (a + 1) es
          (λ k x f. let step : a + 1 + k ≡ a + suc k = omega arith in rw step (new (suc k) x f)) r,
    )

-- An entry that is not committed and of which the log has another term.
abbrev pub HasConflict : RaftLog → List Entry → Type 0
HasConflict l ents =
    (k : ℕ) × (e : Entry) × (get_elem? ents k ≡ some e)
    × (l.committed < e.index)
    × (term l e.index ≢ ok e.term)

get_elem?_middle :
    (pre : List Entry) (e : Entry) (post : List Entry)
    → get_elem? (pre ++ (e ∷ post)) (length pre) ≡ some e
get_elem?_middle [] e post = refl
get_elem?_middle (x ∷ pre) e post = get_elem?_middle pre e post

-- `l'` is `l` with the entries behind `index` merged in.
pub record IsMerged (l : RaftLog) (index : ℕ) (ents : List Entry) (l' : RaftLog) : Type 0 where
  pub joins : IsJoined l'
  pub commits : l'.committed ≡ l.committed
  pub applies : l'.applied ≡ l.applied
  pub begins : first_index l' ≡ first_index l
  pub has : HasAll l' ents
  pub kept : (i : ℕ) → i ≤ max index l.committed → term l' i ≡ term l i
  pub cut : (l' ≡ l) ⊎ HasConflict l ents

drop_front {ℓ} : {A : Type ℓ} (xs ys : List A) → drop (length xs) (xs ++ ys) ≡ ys
drop_front [] ys = refl
drop_front (x ∷ xs) ys = drop_front xs ys

-- The part from the conflict on.
slice-conflict :
    (pre : List Entry) (e : Entry) (post : List Entry) (index : ℕ)
    → index + 1 + length (pre ++ (e ∷ post)) < u64_mod
    → e.index ≡ index + 1 + length pre
    → slice_from (sub64 e.index (add64 index 1)) (pre ++ (e ∷ post)) ≡ ok (e ∷ post)
unfolding slice_from
slice-conflict pre e post index h at =
    let len = length-append pre (e ∷ post) in
    let place : sub64 e.index (add64 index 1) ≡ length pre = omega (arith, len) in
    let inside : ltb (length (pre ++ (e ∷ post))) (length pre) ≡ false = ground (arith, len) in
    rw (place, inside, drop_front pre (e ∷ post)) refl

append_from-conflict :
    (l : RaftLog) (index : ℕ) (ents : List Entry) (e : Entry) (post : List Entry) {l' : RaftLog}
    → 0 < e.index
    → slice_from (sub64 e.index (add64 index 1)) ents ≡ ok (e ∷ post)
    → append_from l index ents e.index ≡ ok l'
    → (l.committed < e.index) × (n : ℕ) × (append l (e ∷ post) ≡ ok (l', n))
unfolding append_from
append_from-conflict l index ents e post {l' = l'} h s run =
    elim (Bool-cases (leb e.index l.committed)) [
      | inl low ↦ absurd (ground arith)
      | inr high ↦
          let (p, one, two) =
            bind-ok (append l (e ∷ post)) (λ appended. ok appended.0) {b = l'}
              (ground (arith, s)) in
          (ground arith, p.1, one ∙ ap (λ m. ok (m, p.1)) (cc))
    ]

-- The part in front of the conflict stays, and the others are appended.
conflict-IsMerged :
    (l : RaftLog) (index : ℕ) (pre : List Entry) (e : Entry) (post : List Entry) {l' : RaftLog}
    → IsJoined l
    → index + 1 + length (pre ++ (e ∷ post)) < u64_mod
    → IsRun (index + 1) (pre ++ (e ∷ post))
    → HasAll l pre
    → term l e.index ≢ ok e.term
    → append_from l index (pre ++ (e ∷ post)) e.index ≡ ok l'
    → IsMerged l index (pre ++ (e ∷ post)) l'
conflict-IsMerged l index pre e post {l' = l'} v fits r all other run =
    let rest = IsRun-back (index + 1) pre (e ∷ post) r in
    let at : e.index ≡ index + 1 + length pre = rest.0 in
    let len = length-append pre (e ∷ post) in
    let (high, n, done) =
      append_from-conflict l index (pre ++ (e ∷ post)) e post (omega arith)
        (slice-conflict pre e post index fits at) run in
    elim (append_lem l e post v (omega arith) (omega (arith, len))) [
      | inl (bad, stop) ↦ cc
      | inr (inl (above, behind, inside, lost)) ↦ cc
      | inr (inr (l'', ran, high', ext)) ↦
          let same : l'' ≡ l' = cc in
          subst (λ m. IsMerged l index (pre ++ (e ∷ post)) m) same
            (record {
              joins = ext.joins;
              commits = ext.commits;
              applies = ext.applies;
              begins = ext.begins;
              has =
                  HasAll-append l'' pre (e ∷ post)
                    (HasAll-front l l'' e.index (index + 1) pre ext.front
                      (IsRun-front (index + 1) pre (e ∷ post) r) (omega arith) all)
                    (HasAll-new l'' e.index (e ∷ post) ext.new (refl, (rw (sym at) at rest.1)));
              kept = λ i h. ext.front i (omega arith);
              cut = inr (length pre, e, get_elem?_middle pre e post, high, other);
            })
    ]

append_from-none :
    (l : RaftLog) (index : ℕ) (ents : List Entry) {l' : RaftLog}
    → append_from l index ents 0 ≡ ok l'
    → l ≡ l'
unfolding append_from
append_from-none l index ents run = ground arith

append_from-IsMerged :
    (l : RaftLog) (index : ℕ) (ents : List Entry) (ci : ℕ) {l' : RaftLog}
    → IsJoined l
    → index + 1 + length ents < u64_mod
    → IsRun (index + 1) ents
    → Conflict l ents ci
    → append_from l index ents ci ≡ ok l'
    → IsMerged l index ents l'
append_from-IsMerged l index ents ci {l' = l'} v fits r (inl (none_at, all)) run =
    let same : l ≡ l' = append_from-none l index ents (rw none_at at run) in
    subst (λ m. IsMerged l index ents m) same
      (record {
        joins = v;
        commits = refl;
        applies = refl;
        begins = refl;
        has = all;
        kept = λ i h. refl;
        cut = inl refl;
      })
append_from-IsMerged l index ents ci {l' = l'} v fits r (inr (pre, e, post, split, at, all, other))
      run =
    subst (λ q. IsMerged l index q l') (sym split)
      (conflict-IsMerged l index pre e post v (rw split at fits) (rw split at r) all other
        (rw (split, at) at run))

-- Committing changes no entry.
module _ (l : RaftLog) (c : ℕ) where
  pub term-commit : (i : ℕ) → term (record l { committed = c }) i ≡ term l i
  unfolding term first_index last_index
  term-commit i = refl

  pub first_index-commit : first_index (record l { committed = c }) ≡ first_index l
  unfolding first_index
  first_index-commit = refl

  pub IsJoined-commit : l.committed ≤ c → IsJoined l → IsJoined (record l { committed = c })
  unfolding first_index last_index
  IsJoined-commit h v = record {
    small = v.small;
    behind = v.behind;
    first = v.first;
    starts = v.starts;
    positive = v.positive;
    fits = v.fits;
    reaches = omega (arith, v.reaches);
    joined = v.joined;
  }

  HasAll-commit : (es : List Entry) → HasAll l es → HasAll (record l { committed = c }) es
  HasAll-commit [] h = tt
  HasAll-commit (e ∷ es) (m, h) = (term-commit e.index ∙ m, HasAll-commit es h)

pub commit_to_lem :
    (l : RaftLog) (c : ℕ) {l' : RaftLog}
    → commit_to l c ≡ ok l'
    → l' ≡ record l { committed = max l.committed c }
unfolding commit_to
commit_to_lem l c run = elim (dec_lt l.committed c) [
  | yes h ↦ let top : max l.committed c ≡ c = omega arith in rw top (ground arith)
  | no h ↦ let top : max l.committed c ≡ l.committed = omega arith in rw top (ground arith)
]

-- `l'` is the log `l` after a leader's entries behind `index`.
pub record IsAppended (l : RaftLog) (index log_term committed : ℕ) (ents : List Entry)
    (l' : RaftLog) : Type 0 where
  pub joins : IsJoined l'
  pub matched : term l' index ≡ ok log_term
  pub has : HasAll l' ents
  pub kept : (i : ℕ) → i ≤ l.committed → term l' i ≡ term l i
  pub commits : l'.committed ≡ max l.committed (min committed (index + length ents))
  pub applies : l'.applied ≡ l.applied
  pub begins : first_index l' ≡ first_index l
  pub cut : (l' ≡ record l { committed = l'.committed }) ⊎ HasConflict l ents

merged-IsAppended :
    (l : RaftLog) (index log_term committed : ℕ) (ents : List Entry) (m l' : RaftLog)
    → term l index ≡ ok log_term
    → IsMerged l index ents m
    → commit_to m (min committed (index + length ents)) ≡ ok l'
    → IsAppended l index log_term committed ents l'
merged-IsAppended l index log_term committed ents m l' matched v run =
    let c = min committed (index + length ents) in
    let result : l' ≡ record m { committed = max m.committed c } = commit_to_lem m c run in
    subst (λ x. IsAppended l index log_term committed ents x) (sym result)
      (record {
        joins = IsJoined-commit m (max m.committed c) (omega arith) v.joins;
        matched = term-commit m (max m.committed c) index ∙ v.kept index (omega arith) ∙ matched;
        has = HasAll-commit m (max m.committed c) ents v.has;
        kept = λ i h. term-commit m (max m.committed c) i ∙ v.kept i (omega arith);
        commits = omega (arith, v.commits);
        applies = v.applies;
        begins = first_index-commit m (max m.committed c) ∙ v.begins;
        cut = elim v.cut [
          | inl same ↦ inl (
              ap {A = RaftLog} {B = RaftLog} (λ x. record x { committed = max m.committed c }) same)
          | inr other ↦ inr other
        ];
      })

-- The calls that `maybeAppend` makes.
maybe_append_calls :
    (l : RaftLog) (index log_term committed : ℕ) (ents : List Entry) {p : RaftLog × Option ℕ}
    → maybe_append l index log_term committed ents ≡ ok p
    → ((match_term l index log_term ≡ ok false) × (p ≡ (l, none)))
      ⊎ ((match_term l index log_term ≡ ok true)
          × (ci : ℕ) × (m : RaftLog) × (find_conflict l ents ≡ ok ci)
          × (append_from l index ents ci ≡ ok m)
          × (commit_to m (min committed (add64 index (length ents))) ≡ ok p.0)
          × (p.1 ≡ some (add64 index (length ents))))
unfolding maybe_append
maybe_append_calls l index log_term committed ents {p = p} run =
    let (same, found, rest) = bind-ok (match_term l index log_term) _ run in
    elim (Bool-cases same) [
      | inr no_match ↦ inl (rw no_match at found, ground arith)
      | inl is_match ↦
          let (ci, one, rest₁) = bind-ok (find_conflict l ents) _ (rw is_match at rest) in
          let (m, two, rest₂) = bind-ok (append_from l index ents ci) _ rest₁ in
          let (l', three, last) =
            bind-ok (commit_to m (min committed (add64 index (length ents)))) _ rest₂ in
          inr (
            rw is_match at found,
            ci,
            m,
            one,
            two,
            ground (arith, three, last),
            ground (arith, last),
          )
    ]

pub maybe_append_lem :
    (l : RaftLog) (index log_term committed : ℕ) (ents : List Entry) {p : RaftLog × Option ℕ}
    → IsJoined l
    → IsRun (index + 1) ents
    → index + 1 + length ents < u64_mod
    → maybe_append l index log_term committed ents ≡ ok p
    → ((p ≡ (l, none)) × (term l index ≢ ok log_term))
      ⊎ ((p.1 ≡ some (index + length ents)) × IsAppended l index log_term committed ents p.0)
maybe_append_lem l index log_term committed ents {p = p} v r fits run =
    let sum : add64 index (length ents) ≡ index + length ents = omega arith in
    elim (maybe_append_calls l index log_term committed ents run) [
      | inl (other, same) ↦ inl (same, match_term-false l index log_term other)
      | inr (found, ci, m, one, two, three, last) ↦ inr (
        last ∙ ap some sum,
        merged-IsAppended l index log_term committed ents m p.0
            (match_term-true l index log_term found)
            (append_from-IsMerged l index ents ci v fits r (find_conflict-Conflict l ents one) two)
            (rw sum at three),
      )
    ]
