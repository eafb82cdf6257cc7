-- ===== src/RaftLog/Append.antt =====
-- Appending to the log: the entries in front of the new ones stay, and the new ones are found.
use yaraft.Prelude.{
  ℕ, ◌+◌, ◌-◌, ◌≤◌, ◌<◌, ◌≡◌, refl, sym, ◌∙◌, ap, ◌⊎◌, inl, inr, false, List, ◌∷◌, some, ltb,
  length, get_elem?, get_elem?_within, get_elem?_bound, arith, u64_mod, dec_lt, sub64,
}
use yaraft.Outcome.{ok, panic, fault, ◌>>=◌}
use yaraft.Idl.{Entry}
use yaraft.Unstable.{Unstable, maybe_term, maybe_first_index, snapshot_term}
use yaraft.Unstable.Lookup.{entry_at, entry_at-bounds, IsSmall, IsSpliced, truncate_and_append_lem}
use yaraft.Unstable.Stable.{last_of-some, maybe_term_inside}
use yaraft.RaftLog.{RaftLog, first_index, last_index, term, append, value_or, term_or}

-- The unstable entries are the end of the log, and their indexes are far from 2^64.
pub record IsJoined (l : RaftLog) : Type 0 where
  pub small : IsSmall l.unstable
  pub behind : 0 < l.unstable.offset
  pub first : ℕ
  pub starts : first_index l ≡ ok first
  pub positive : 0 < first
  pub fits : first < u64_mod
  pub reaches : first ≤ l.committed + 1
  pub joined : last_index l ≡ ok (l.unstable.offset + length l.unstable.entries - 1)

maybe_term_at :
    (u : Unstable) (i : ℕ) (e : Entry)
    → IsSmall u
    → entry_at u i ≡ some e
    → maybe_term u i ≡ ok (some e.term)
maybe_term_at u i e s f =
    let (low, high, found) = entry_at-bounds u i f in maybe_term_inside u i e s low high found

maybe_term_before :
    (u : Unstable) (i : ℕ) → i < u.offset → maybe_term u i ≡ ok (snapshot_term u.snapshot i)
unfolding maybe_term
maybe_term_before u i h = ground arith

-- Below the new entries the window answers as before.
maybe_term-spliced :
    (u u' : Unstable) (a : ℕ) (ents : List Entry) (i : ℕ)
    → IsSmall u
    → IsSmall u'
    → a ≤ u.offset + length u.entries
    → IsSpliced u a ents u'
    → i < a
    → maybe_term u' i ≡ maybe_term u i
maybe_term-spliced u u' a ents i s s' k (snap, off, len, at) h = elim (dec_lt i u.offset) [
  | yes before ↦
      maybe_term_before u' i (omega arith)
      ∙ ap (λ o. ok (snapshot_term o i)) snap
      ∙ sym (maybe_term_before u i before)
  | no inside ↦
      let (e, f) = get_elem?_within u.entries (i - u.offset) (omega arith) in
      let old : entry_at u i ≡ some e = ground arith in
      let new : entry_at u' i ≡ some e = ground (arith, at i) in
      maybe_term_at u' i e s' new ∙ sym (maybe_term_at u i e s old)
]

IsSmall-spliced :
    (u u' : Unstable) (a : ℕ) (ents : List Entry)
    → IsSpliced u a ents u'
    → a + length ents < u64_mod
    → IsSmall u'
IsSmall-spliced u u' a ents (snap, off, len, at) h = omega (arith, off, len)

-- The log with another window, which starts from the same snapshot.
module _ (l : RaftLog) (u' : Unstable) (snap : u'.snapshot ≡ l.unstable.snapshot) where
  first_index-window : first_index (record l { unstable = u' }) ≡ first_index l
  unfolding first_index maybe_first_index
  first_index-window = rw snap refl

last_index-window :
    (l : RaftLog) (u' : Unstable)
    → IsSmall u'
    → 0 < length u'.entries
    → last_index (record l { unstable = u' }) ≡ ok (u'.offset + length u'.entries - 1)
unfolding last_index value_or
last_index-window l u' s h = rw (last_of-some u' s h) refl

-- The term inside the log is that of the window, or else of the storage.
pub term_inside :
    (l : RaftLog) (i f last : ℕ)
    → first_index l ≡ ok f
    → last_index l ≡ ok last
    → 0 < f
    → f < u64_mod
    → f ≤ i + 1
    → i ≤ last
    → term l i ≡ (maybe_term l.unstable i >>= λ t. term_or t (l.storage.term i))
unfolding term
term_inside l i f last ef el h s k m = rw (ef, el) (ground arith)

pub term_before :
    (l : RaftLog) (i f last : ℕ)
    → first_index l ≡ ok f
    → last_index l ≡ ok last
    → 0 < f
    → f < u64_mod
    → i + 1 < f
    → term l i ≡ ok 0
unfolding term
term_before l i f last ef el h s k = rw (ef, el) (ground arith)

-- `l'` is `l` with the entries from index `a` on replaced by `ents`.
pub record IsExtended (l : RaftLog) (a : ℕ) (ents : List Entry) (l' : RaftLog) : Type 0 where
  pub joins : IsJoined l'
  pub last : last_index l' ≡ ok (a + length ents - 1)
  pub commits : l'.committed ≡ l.committed
  pub applies : l'.applied ≡ l.applied
  pub begins : first_index l' ≡ first_index l
  pub front : (i : ℕ) → i < a → term l' i ≡ term l i
  pub new : (k : ℕ) (e : Entry) → get_elem? ents k ≡ some e → term l' (a + k) ≡ ok e.term

module _ (l : RaftLog) (u' : Unstable) (a : ℕ) (ents : List Entry) (v : IsJoined l)
    (near : a ≤ l.unstable.offset + length l.unstable.entries)
    (spliced : IsSpliced l.unstable a ents u') (high : l.committed < a) (some_new : 0 < length ents)
    (fits : a + length ents < u64_mod) where
  small' : IsSmall u'
  small' = IsSmall-spliced l.unstable u' a ents spliced fits

  last' : last_index (record l { unstable = u' }) ≡ ok (a + length ents - 1)
  last' =
      let sum : u'.offset + length u'.entries - 1 ≡ a + length ents - 1 =
        omega (arith, spliced.1, spliced.2) in
      rw sum at (last_index-window l u' small' (omega (arith, spliced.2)))

  first' : first_index (record l { unstable = u' }) ≡ ok v.first
  first' = first_index-window l u' spliced.0 ∙ v.starts

  joins' : IsJoined (record l { unstable = u' })
  joins' = record {
    small = small';
    behind = omega (arith, spliced.1, v.behind);
    first = v.first;
    starts = first';
    positive = v.positive;
    fits = v.fits;
    reaches = v.reaches;
    joined = last_index-window l u' small' (omega (arith, spliced.2));
  }

  front' : (i : ℕ) → i < a → term (record l { unstable = u' }) i ≡ term l i
  front' i h = elim (dec_lt (i + 1) v.first) [
    | yes before ↦
        term_before (record l { unstable = u' }) i _ _ first' last' v.positive v.fits before
        ∙ sym (term_before l i _ _ v.starts v.joined v.positive v.fits before)
    | no inside ↦
        term_inside (record l { unstable = u' }) i _ _ first' last' v.positive v.fits (omega arith)
          (omega arith)
        ∙ ap (λ m. m >>= λ t. term_or t (l.storage.term i))
            (maybe_term-spliced l.unstable u' a ents i v.small small' near spliced h)
        ∙ sym (term_inside l i _ _ v.starts v.joined v.positive v.fits (omega arith) (omega arith))
  ]

  new' :
      (k : ℕ) (e : Entry)
      → get_elem? ents k ≡ some e
      → term (record l { unstable = u' }) (a + k) ≡ ok e.term
  unfolding term_or
  new' k e f =
      let bound = get_elem?_bound ents k f in
      let place : a + k - a ≡ k = omega arith in
      let found : entry_at u' (a + k) ≡ some e =
        ground (arith, rw place at (spliced.3 (a + k)), f) in
      term_inside (record l { unstable = u' }) (a + k) _ _ first' last' v.positive v.fits
        (omega (arith, v.reaches)) (omega arith)
      ∙ rw (maybe_term_at u' (a + k) e small' found) refl

  extended : IsExtended l a ents (record l { unstable = u' })
  extended = record {
    joins = joins';
    last = last';
    commits = refl;
    applies = refl;
    begins = first_index-window l u' spliced.0;
    front = front';
    new = new';
  }

-- On a joined log, append panics for entries that would replace a committed one or leave a gap, and reads destroyed
-- entries, which is a fault, where the first new one is inside the unstable entries, behind the first of them and
-- behind the commit index. Otherwise it gives the index of the last entry, and the log keeps its terms below the
-- index of the first one, has the entries from there on and ends with them, is joined, and keeps its commit index,
-- its applied index and its first index. The index of the first entry is positive, and the last stays below 2^64 - 1.
pub append_lem :
    (l : RaftLog) (e : Entry) (es : List Entry)
    → IsJoined l
    → 0 < e.index
    → e.index + length (e ∷ es) < u64_mod
    → (((e.index ≤ l.committed) ⊎ (l.unstable.offset + length l.unstable.entries < e.index))
        × (append l (e ∷ es) ≡ panic))
      ⊎ ((l.committed < e.index)
          × (l.unstable.offset < e.index)
          × (e.index < l.unstable.offset + length l.unstable.entries)
          × (append l (e ∷ es) ≡ fault))
      ⊎ ((l' : RaftLog) × (append l (e ∷ es) ≡ ok (l', e.index + length es))
          × (l.committed < e.index)
          × IsExtended l e.index (e ∷ es) l')
unfolding append
append_lem l e es v h fits = elim (dec_lt l.committed e.index) [
  | no below ↦ inl (inl (omega arith), ground arith)
  | yes high ↦
      let fresh : ltb (sub64 e.index 1) l.committed ≡ false = ground arith in
      elim (truncate_and_append_lem l.unstable e es v.small (omega arith)) [
        | inl (gap, run) ↦ inl (inr gap, rw (fresh, run) refl)
        | inr (inl (behind, inside, run)) ↦ inr (inl (high, behind, inside, rw (fresh, run) refl))
        | inr (inr (u', run, place, spliced)) ↦
            let one : e.index + length es ≡ e.index + length (e ∷ es) - 1 = omega arith in
            inr (
              inr (
                record l { unstable = u' },
                rw
                    (
                      fresh,
                      run,
                      last' l u' e.index (e ∷ es) v (reached place) spliced high (omega arith) fits,
                      one,
                    )
                    refl,
                high,
                extended l u' e.index (e ∷ es) v (reached place) spliced high (omega arith) fits,
              ))
      ]
]
  where
    reached :
        (e.index ≤ l.unstable.offset) ⊎ (e.index ≡ l.unstable.offset + length l.unstable.entries)
        → e.index ≤ l.unstable.offset + length l.unstable.entries
    reached k = omega (arith, k)
