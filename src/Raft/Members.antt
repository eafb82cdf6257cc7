-- ===== src/Raft/Members.antt =====
-- Who is a voter and who is a learner, and what adding a node makes of it.
mod Tests
use yaraft.Prelude.{
  ◌∙◌, ap, sym, subst, ℕ, ◌≡◌, refl, ◌⊎◌, inl, inr, Bool, true, false, not, ◌&&◌, ◌||◌, List, [],
  ◌∷◌, Option, none, some, ◌==◌, ==_iff, if◌then◌else◌, Option-cases, Bool-cases, add64, arith,
}
use yaraft.Outcome.{ok_is, ok, bind-ok, ◌>>=◌}
use yaraft.Assoc
use yaraft.Assoc.{find, insert, erase}
use yaraft.Assoc.Order.{IsOrdered, find-insert, find-erase, insert-IsOrdered, erase-IsOrdered}
use yaraft.Progress
use yaraft.Progress.{Progress}
use yaraft.RaftLog
use yaraft.Raft.State.{Raft, get_progress, put_progress, with_progress}
use yaraft.Raft.Membership.{set_progress, welcome, add_known, add_node_or_learner_node, same_bool}

-- The voters and the learners are apart, in the order of their ids, and marked as what they are.
pub record IsMembers (prs learner_prs : List (ℕ × Progress)) : Type 0 where
  pub voters : IsOrdered prs
  pub learners : IsOrdered learner_prs
  pub apart : (j : ℕ) → (find j prs ≡ none) ⊎ (find j learner_prs ≡ none)
  pub voting : (j : ℕ) (p : Progress) → find j prs ≡ some p → p.is_learner ≡ false
  pub learning : (j : ℕ) (p : Progress) → find j learner_prs ≡ some p → p.is_learner ≡ true

-- `some false` for a voter, `some true` for a learner.
unfoldable pub kind : List (ℕ × Progress) → List (ℕ × Progress) → ℕ → Option Bool
unfolding find
kind prs learner_prs j = elim (find j prs) [
  | some _ ↦ some false
  | none ↦ elim (find j learner_prs) [ some _ ↦ some true | none ↦ none ]
]

module _ (prs ls : List (ℕ × Progress)) (k : ℕ) (p : Progress) (m : IsMembers prs ls) where
  put_voter :
      p.is_learner ≡ false
      → find k ls ≡ none
      → IsMembers (insert k p prs) ls
        × ((j : ℕ) → kind (insert k p prs) ls j ≡ (if j == k then some false else kind prs ls j))
  unfolding kind
  put_voter h e = (
    record {
      voters = insert-IsOrdered k p prs m.voters;
      learners = m.learners;
      apart = λ j. ground (arith, find-insert k j p prs, m.apart j, e);
      voting = λ j q f. ground (arith, find-insert k j p prs, m.voting j q, f, h);
      learning = m.learning;
    },
    λ j. ground (arith, find-insert k j p prs),
  )

  put_learner :
      p.is_learner ≡ true
      → find k prs ≡ none
      → IsMembers prs (insert k p ls)
        × ((j : ℕ) → kind prs (insert k p ls) j ≡ (if j == k then some true else kind prs ls j))
  unfolding kind
  put_learner h e = (
    record {
      voters = m.voters;
      learners = insert-IsOrdered k p ls m.learners;
      apart = λ j. ground (arith, find-insert k j p ls, m.apart j, e);
      voting = m.voting;
      learning = λ j q f. ground (arith, find-insert k j p ls, m.learning j q, f, h);
    },
    λ j. ground (arith, find-insert k j p ls, e),
  )

  promote :
      p.is_learner ≡ false
      → IsMembers (insert k p prs) (erase k ls)
        × ((j : ℕ)
            → kind (insert k p prs) (erase k ls) j ≡ (if j == k then some false else kind prs ls j))
  unfolding kind
  promote h = (
    record {
      voters = insert-IsOrdered k p prs m.voters;
      learners = erase-IsOrdered k ls m.learners;
      apart = λ j. ground (arith, find-insert k j p prs, find-erase k j ls m.learners, m.apart j);
      voting = λ j q f. ground (arith, find-insert k j p prs, m.voting j q, f, h);
      learning = λ j q f. ground (arith, find-erase k j ls m.learners, m.learning j q, f);
    },
    λ j. ground (arith, find-insert k j p prs, find-erase k j ls m.learners),
  )

abbrev pub AreMembers : Raft → Type 0
AreMembers r = IsMembers r.prs r.learner_prs

abbrev pub kind_of : Raft → ℕ → Option Bool
kind_of r j = kind r.prs r.learner_prs j

-- Node `k` is a voter or a learner after, as `b` says, and all others are what they were.
abbrev pub Becomes : ℕ → Bool → Raft → Raft → Type 0
Becomes k b r r' =
    AreMembers r' × ((j : ℕ) → kind_of r' j ≡ (if j == k then some b else kind_of r j))

on_maps :
    (k : ℕ) (b : Bool) (r r' : Raft) {prs ls : List (ℕ × Progress)}
    → r'.prs ≡ prs
    → r'.learner_prs ≡ ls
    → IsMembers prs ls × ((j : ℕ) → kind prs ls j ≡ (if j == k then some b else kind_of r j))
    → Becomes k b r r'
on_maps k b r r' e f x = rw (sym e, sym f) at x

welcome_voter :
    (k : ℕ) (l : Bool) (p : Progress) (r : Raft) {r' : Raft}
    → find k r.prs ≡ some p
    → welcome k l r ≡ ok r'
    → (r'.prs ≡ insert k (record p { recent_active = true }) r.prs)
      × (r'.learner_prs ≡ r.learner_prs)
unfolding welcome with_progress get_progress put_progress Assoc.has_key
welcome_voter k l p r f e = ground (arith, f)

welcome_learner :
    (k : ℕ) (l : Bool) (p : Progress) (r : Raft) {r' : Raft}
    → find k r.prs ≡ none
    → find k r.learner_prs ≡ some p
    → welcome k l r ≡ ok r'
    → (r'.prs ≡ r.prs)
      × (r'.learner_prs ≡ insert k (record p { recent_active = true }) r.learner_prs)
unfolding welcome with_progress get_progress put_progress Assoc.has_key
welcome_learner k l p r f g e = ground (arith, f, g)

kind_some :
    (k : ℕ) (b : Bool) (r : Raft)
    → kind_of r k ≡ some b
    → ((p : Progress) × (find k r.prs ≡ some p) × (b ≡ false))
      ⊎ ((p : Progress) × (find k r.prs ≡ none) × (find k r.learner_prs ≡ some p) × (b ≡ true))
unfolding kind
kind_some k b r h = elim (Option-cases (find k r.prs)) [
  | inr (p, f) ↦ inl (p, f, ground (arith, f, h))
  | inl f ↦ elim (Option-cases (find k r.learner_prs)) [
    | inr (p, g) ↦ inr (p, f, g, ground (arith, f, g, h))
    | inl g ↦ absurd (ground (arith, f, g, h))
  ]
]

not_learner :
    (k : ℕ) (p : Progress) (r : Raft)
    → AreMembers r
    → find k r.prs ≡ some p
    → find k r.learner_prs ≡ none
not_learner k p r m f = ground (arith, m.apart k, f)

welcome-Becomes :
    (k : ℕ) (l b : Bool) (r : Raft) {r' : Raft}
    → AreMembers r
    → kind_of r k ≡ some b
    → welcome k l r ≡ ok r'
    → Becomes k b r r'
welcome-Becomes k l b r {r'} m h e = elim (kind_some k b r h) [
  | inl (p, f, same) ↦
      let (prs, ls) = welcome_voter k l p r f e in
      subst (λ z. Becomes k z r r') (sym same)
        (on_maps k false r r' prs ls
          (put_voter r.prs r.learner_prs k _ m (m.voting k p f) (not_learner k p r m f)))
  | inr (p, f, g, same) ↦
      let (prs, ls) = welcome_learner k l p r f g e in
      subst (λ z. Becomes k z r r') (sym same)
        (on_maps k true r r' prs ls (put_learner r.prs r.learner_prs k _ m (m.learning k p g) f))
]

-- Two steps, both of which make node `k` what `b` says.
Becomes-trans :
    (k : ℕ) (b : Bool) (q r t : Raft) → Becomes k b q r → Becomes k b r t → Becomes k b q t
Becomes-trans k b q r t (m, f) (m', g) = (m', λ j. ground (arith, f j, g j))

set_voter :
    (k matched next : ℕ) (r : Raft) {r' : Raft}
    → set_progress k matched next false r ≡ ok r'
    → (p : Progress) × (p.is_learner ≡ false)
      × (r'.prs ≡ insert k p r.prs)
      × (r'.learner_prs ≡ erase k r.learner_prs)
unfolding set_progress Progress.make
set_voter k matched next r e = (
  Progress.make next matched (r.reserve r.max_inflight) false,
  ground arith,
  ground (arith, e),
  ground (arith, e),
)

set_learner :
    (k matched next : ℕ) (r : Raft) {r' : Raft}
    → set_progress k matched next true r ≡ ok r'
    → (p : Progress) × (p.is_learner ≡ true)
      × (r'.prs ≡ r.prs)
      × (r'.learner_prs ≡ insert k p r.learner_prs)
unfolding set_progress Progress.make
set_learner k matched next r e = (
  Progress.make next matched (r.reserve r.max_inflight) true,
  ground arith,
  ground (arith, e),
  ground (arith, e),
)

set_progress-Becomes :
    (k matched next : ℕ) (l : Bool) (r : Raft) {r' : Raft}
    → AreMembers r
    → find k r.prs ≡ none
    → set_progress k matched next l r ≡ ok r'
    → Becomes k l r r'
set_progress-Becomes k matched next false r {r'} m h e =
    let (p, flag, prs, ls) = set_voter k matched next r e in
    on_maps k false r r' prs ls (promote r.prs r.learner_prs k p m flag)
set_progress-Becomes k matched next true r {r'} m h e =
    let (p, flag, prs, ls) = set_learner k matched next r e in
    on_maps k true r r' prs ls (put_learner r.prs r.learner_prs k p m flag h)

-- What a node is after it was added: a voter stays one.
unfoldable pub joined : Bool → Option Bool → Bool
joined l (some false) = false
joined l (some true) = l
joined l none = l

kind_at : (k : ℕ) (b : Bool) (q r : Raft) → Becomes k b q r → kind_of r k ≡ some b
kind_at k b q r (m, h) = ground (arith, h k)

new_node :
    (k matched next : ℕ) (l : Bool) (r : Raft) {r' : Raft}
    → AreMembers r
    → find k r.prs ≡ none
    → (set_progress k matched next l r >>= welcome k l) ≡ ok r'
    → Becomes k l r r'
new_node k matched next l r {r'} m h e =
    let (t, one, rest) = bind-ok (set_progress k matched next l r) (welcome k l) e in
    let first = set_progress-Becomes k matched next l r m h one in
    Becomes-trans k l r t r' first (welcome-Becomes k l l t first.0 (kind_at k l r t first) rest)

-- A learner that is made a voter.
abbrev promoted : ℕ → Progress → Raft → Raft
promoted k p r = record r {
  learner_prs = erase k r.learner_prs;
  prs = insert k (record p { is_learner = false }) r.prs;
}

unchanged : (k : ℕ) (b : Bool) (r : Raft) → AreMembers r → kind_of r k ≡ some b → Becomes k b r r
unchanged k b r m h = (
  m,
  λ j. elim (Bool-cases (j == k)) [
    | inl at ↦ rw at (ap (kind_of r) ((==_iff j k).0 at) ∙ h)
    | inr off ↦ rw off refl
  ],
)

kind_learner :
    (k : ℕ) (p : Progress) (r : Raft)
    → find k r.prs ≡ none
    → find k r.learner_prs ≡ some p
    → kind_of r k ≡ some true
unfolding kind
kind_learner k p r f g = ground (arith, f, g)

kind_voter : (k : ℕ) (p : Progress) (r : Raft) → find k r.prs ≡ some p → kind_of r k ≡ some false
unfolding kind
kind_voter k p r f = ground (arith, f)

kind_none :
    (k : ℕ) (r : Raft) → find k r.prs ≡ none → find k r.learner_prs ≡ none → kind_of r k ≡ none
unfolding kind
kind_none k r f g = ground (arith, f, g)

module _ (k : ℕ) (p : Progress) (r : Raft) where
  learner_stays : p.is_learner ≡ true → add_known k true p r ≡ ok r
  unfolding add_known same_bool
  learner_stays h = ground (arith, h)

  voter_stays : (l : Bool) → p.is_learner ≡ false → add_known k l p r ≡ ok r
  unfolding add_known same_bool
  voter_stays true h = ground (arith, h)
  voter_stays false h = ground (arith, h)

  learner_moves : p.is_learner ≡ true → add_known k false p r ≡ welcome k false (promoted k p r)
  unfolding add_known same_bool
  learner_moves h = ground (arith, h)

known_learner :
    (k : ℕ) (l : Bool) (p : Progress) (r : Raft) {r' : Raft}
    → AreMembers r
    → find k r.prs ≡ none
    → find k r.learner_prs ≡ some p
    → add_known k l p r ≡ ok r'
    → Becomes k l r r'
known_learner k true p r m h f e =
    subst (λ z. Becomes k true r z) (ok_is (sym (learner_stays k p r (m.learning k p f)) ∙ e))
      (unchanged k true r m (kind_learner k p r h f))
known_learner k false p r {r'} m h f e =
    let first : Becomes k false r (promoted k p r) = promote r.prs r.learner_prs k _ m refl in
    Becomes-trans k false r (promoted k p r) r' first (
      welcome-Becomes k false false (promoted k p r) first.0
        (kind_at k false r (promoted k p r) first)
        (sym (learner_moves k p r (m.learning k p f)) ∙ e))

module _ (k : ℕ) (l : Bool) (r : Raft) where
  adds_voter :
      (p : Progress) → find k r.prs ≡ some p → add_node_or_learner_node k l r ≡ add_known k l p r
  unfolding add_node_or_learner_node get_progress
  adds_voter p f = ground (arith, f)

  adds_learner :
      (p : Progress)
      → find k r.prs ≡ none
      → find k r.learner_prs ≡ some p
      → add_node_or_learner_node k l r ≡ add_known k l p r
  unfolding add_node_or_learner_node get_progress
  adds_learner p f g = ground (arith, f, g)

  adds_new :
      find k r.prs ≡ none
      → find k r.learner_prs ≡ none
      → add_node_or_learner_node k l r ≡ (
          RaftLog.last_index r.raft_log >>= λ last.
          set_progress k 0 (add64 last 1) l r >>= welcome k l)
  unfolding add_node_or_learner_node get_progress
  adds_new f g = ground (arith, f, g)

Becomes-joined :
    (k : ℕ) (l : Bool) (b : Option Bool) (r r' : Raft)
    → kind_of r k ≡ b
    → Becomes k (joined l b) r r'
    → Becomes k (joined l (kind_of r k)) r r'
Becomes-joined k l b r r' h x = subst (λ z. Becomes k (joined l z) r r') (sym h) x

-- `addNode` and `addLearner` that return make the node a voter or a learner as they were asked, but for a voter, which
-- stays one, and leave all other nodes as what they are; the voters and the learners stay apart, in the order of their
-- ids, and marked as what they are, if they were.
pub add_node_or_learner_node-Becomes :
    (k : ℕ) (l : Bool) (r : Raft) {r' : Raft}
    → AreMembers r
    → add_node_or_learner_node k l r ≡ ok r'
    → Becomes k (joined l (kind_of r k)) r r'
unfolding joined
add_node_or_learner_node-Becomes k l r {r'} m e = elim (Option-cases (find k r.prs)) [
  | inr (p, f) ↦ Becomes-joined k l (some false) r r' (kind_voter k p r f) (
      subst (λ z. Becomes k false r z)
        (ok_is (sym (voter_stays k p r l (m.voting k p f)) ∙ sym (adds_voter k l r p f) ∙ e))
        (unchanged k false r m (kind_voter k p r f)))
  | inl f ↦ elim (Option-cases (find k r.learner_prs)) [
    | inr (p, g) ↦
        Becomes-joined k l (some true) r r' (kind_learner k p r f g)
          (known_learner k l p r m f g (sym (adds_learner k l r p f g) ∙ e))
    | inl g ↦
        let (last, one, run) =
          bind-ok (RaftLog.last_index r.raft_log) _ (sym (adds_new k l r f g) ∙ e) in
        Becomes-joined k l none r r' (kind_none k r f g) (new_node k 0 (add64 last 1) l r m f run)
  ]
]
