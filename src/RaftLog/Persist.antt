-- ===== src/RaftLog/Persist.antt =====
-- The log over a memory storage: what it shows, and how its unstable entries become stored ones.
use yaraft.Prelude.{
  ℕ, ◌+◌, ◌-◌, ◌≤◌, ◌<◌, ◌≡◌, refl, sym, ap, subst, ◌∙◌, inl, inr, List, [], ◌∷◌, Option, none,
  some, ltb, leb, if◌then◌else◌, length, get_elem?, get_elem?_within, get_elem?_bound, arith,
  u64_mod, dec_lt,
}
use yaraft.Outcome.{Outcome, ok, ◌>>=◌}
use yaraft.Idl.{Entry}
use yaraft.Entries.{IsRun, index-get_elem?}
use yaraft.Unstable.{Unstable, maybe_first_index}
use yaraft.Unstable.Window.{maybe_last_index_empty, entries-cases, term?, maybe_term_window}
use yaraft.Unstable.Lookup.{entry_at, IsSmall}
use yaraft.Unstable.Stable.{entry_at_beyond, last_of-some, stable_to_lem}
use yaraft.MemoryStorage
use yaraft.MemoryStorage.{MemoryStorage, to_storage}
use yaraft.MemoryStorage.Inv.{IsValid, dummy, stored_at, first_index_lem, last_index_lem, term_lem}
use yaraft.MemoryStorage.Append.{IsSpliced, append_stored_lem}
use yaraft.RaftLog.{RaftLog, first_index, last_index, term, stable_to, value_or, term_or, pass_on}
use yaraft.RaftLog.Append.{term_inside, term_before}

-- The log with its storage in another state.
abbrev pub over : MemoryStorage → RaftLog → RaftLog
over ms l = record l { storage = to_storage ms }

-- The unstable entries go on from the storage, or replace its last entries.
pub record IsCovered (ms : MemoryStorage) (u : Unstable) : Type 0 where
  pub valid : IsValid ms
  pub small : IsSmall u
  pub plain : u.snapshot ≡ none
  pub run : IsRun u.offset u.entries
  pub ahead : dummy ms.ents < u.offset
  pub near : u.offset ≤ dummy ms.ents + length ms.ents
  pub exact : u.entries ≡ [] → u.offset ≡ dummy ms.ents + length ms.ents

-- What the log shows at an index.
unfoldable pub seen : MemoryStorage → Unstable → ℕ → Option Entry
seen ms u i = if ltb i u.offset then stored_at ms i else entry_at u i

abbrev pub term_of : Option Entry → Outcome ℕ
term_of none = ok 0
term_of (some e) = ok e.term

module _ (ms : MemoryStorage) (l : RaftLog) (c : IsCovered ms l.unstable) where
  first_index-over : first_index (over ms l) ≡ ok (dummy ms.ents + 1)
  unfolding first_index maybe_first_index value_or to_storage
  first_index-over = rw (c.plain, first_index_lem ms c.valid) refl

  last_index-over : last_index (over ms l) ≡ ok (l.unstable.offset + length l.unstable.entries - 1)
  unfolding last_index value_or to_storage
  last_index-over = elim (entries-cases l.unstable.entries) [
    | inl empty ↦
        let end : dummy ms.ents + length ms.ents - 1
            ≡ l.unstable.offset + length l.unstable.entries - 1 =
          ground (arith, c.exact empty, empty) in
        rw (maybe_last_index_empty l.unstable empty c.plain, last_index_lem ms c.valid, end) refl
    | inr full ↦ rw (last_of-some l.unstable c.small full) refl
  ]

  answers :
      (i : ℕ)
      → dummy ms.ents ≤ i
      → i + 1 ≤ l.unstable.offset + length l.unstable.entries
      → term (over ms l) i ≡ term_or (term? (entry_at l.unstable i)) (MemoryStorage.term ms i)
  unfolding to_storage
  answers i low high =
      term_inside (over ms l) i (dummy ms.ents + 1)
        (l.unstable.offset + length l.unstable.entries - 1) first_index-over last_index-over
        (omega arith) (omega (arith, c.valid.small, c.valid.filled)) (omega arith) (omega arith)
      ∙ ap (λ o. o >>= λ t. term_or t (MemoryStorage.term ms i))
          (maybe_term_window l.unstable i c.small c.plain)

  behind : (i : ℕ) → l.unstable.offset + length l.unstable.entries ≤ i → term (over ms l) i ≡ ok 0
  unfolding term
  behind i h = rw (first_index-over, last_index-over) (ground (arith, c.ahead))

  -- The log shows the storage below the first unstable entry, the dummy entry included, and the unstable entries from
  -- there on: Term is that of the entry seen at the index, and 0 where there is none. The unstable entries go on from a
  -- valid storage or replace its last entries, no unstable snapshot waits, and the index is below 2^64.
  pub term-seen : (i : ℕ) → i < u64_mod → term (over ms l) i ≡ term_of (seen ms l.unstable i)
  unfolding seen term_or pass_on
  term-seen i h = elim (dec_lt i (dummy ms.ents)) [
    | yes early ↦
        term_before (over ms l) i (dummy ms.ents + 1)
          (l.unstable.offset + length l.unstable.entries - 1) first_index-over last_index-over
          (omega arith) (omega (arith, c.valid.small, c.valid.filled)) (omega arith)
        ∙ ground (arith, c.ahead)
    | no reached ↦ elim (dec_lt i (l.unstable.offset + length l.unstable.entries)) [
      | no beyond ↦
          behind i (omega arith) ∙ ground (arith, entry_at_beyond l.unstable i (omega arith))
      | yes within ↦ elim (dec_lt i l.unstable.offset) [
        | yes low ↦ elim (term_lem ms i c.valid h) [
          | inl (under, e) ↦ absurd (omega arith)
          | inr (inl (above, e)) ↦ absurd (omega (arith, c.near))
          | inr (inr (x, at, same, e)) ↦
              answers i (omega arith) (omega arith) ∙ ground (arith, e, at)
        ]
        | no high ↦
            let (e, f) =
              get_elem?_within l.unstable.entries (i - l.unstable.offset) (omega arith) in
            answers i (omega arith) (omega arith) ∙ ground (arith, f)
      ]
    ]
  ]

appended :
    (ms : MemoryStorage) (a : ℕ) (es : List Entry)
    → IsValid ms
    → 0 < length es
    → IsRun a es
    → a + length es < u64_mod
    → dummy ms.ents < a
    → a ≤ dummy ms.ents + length ms.ents
    → (ms' : MemoryStorage) × (MemoryStorage.append ms es ≡ ok ms') × IsSpliced ms a es ms'
appended ms a [] v f r s h k = absurd (omega arith)
appended ms a (e ∷ es) v f r s h k =
    elim (append_stored_lem ms e es v (subst (λ z. IsRun z (e ∷ es)) (sym r.0) r)
      (omega (arith, s, r.0))) [
        | inl (old, same) ↦ absurd (omega (arith, h, old, r.0))
        | inr (inl (gap, fails)) ↦ absurd (omega (arith, k, gap, r.0))
        | inr (inr (ms', run, new, spliced)) ↦
            (ms', run, subst (λ z. IsSpliced ms z (e ∷ es) ms') r.0 spliced)
      ]

-- The log after its unstable entries are stored and taken off.
pub record IsPersisted (ms : MemoryStorage) (l : RaftLog) (ms' : MemoryStorage) (l' : RaftLog)
    : Type 0 where
  pub taken : l'.unstable.entries ≡ []
  pub covered : IsCovered ms' l'.unstable
  pub same_term : (i : ℕ) → i < u64_mod → term l' i ≡ term (over ms l) i
  pub same_first : first_index l' ≡ first_index (over ms l)
  pub same_last : last_index l' ≡ last_index (over ms l)
  pub same_commit : l'.committed ≡ l.committed
  pub same_applied : l'.applied ≡ l.applied
  pub same_state : ms'.hard_state ≡ ms.hard_state

module _ (ms ms' : MemoryStorage) (u u' : Unstable) (c : IsCovered ms u)
    (spliced : IsSpliced ms u.offset u.entries ms') (snap : u'.snapshot ≡ u.snapshot)
    (off : u'.offset ≡ u.offset + length u.entries)
    (at : (j : ℕ) → entry_at u' j ≡ (if ltb j u'.offset then none else entry_at u j)) where
  nothing_left : u'.entries ≡ []
  nothing_left = empty_at u'.offset u'.entries (at u'.offset ∙ beyond)
    where
      beyond : (if ltb u'.offset u'.offset then none else entry_at u u'.offset) ≡ none
      beyond = ground (arith, entry_at_beyond u u'.offset (omega (arith, off)))

      empty_at :
          (o : ℕ) (es : List Entry)
          → (if ltb o o then none else get_elem? es (o - o)) ≡ none
          → es ≡ []
      empty_at o [] h = refl
      empty_at o (e ∷ es) h = ground (arith, h)

  goes_on : IsCovered ms' u'
  goes_on = record {
    valid = spliced.valid;
    small = omega (arith, off, c.small, ap length nothing_left);
    plain = snap ∙ c.plain;
    run = subst (λ es. IsRun u'.offset es) (sym nothing_left) tt;
    ahead = omega (arith, off, spliced.same_dummy, c.ahead);
    near = omega (arith, off, spliced.end);
    exact = λ h. omega (arith, off, spliced.end);
  }

  same_seen : (i : ℕ) → seen ms' u' i ≡ seen ms u i
  unfolding seen
  same_seen i = elim (dec_lt i u.offset) [
    | yes low ↦ ground (arith, spliced.stored i, off, c.ahead)
    | no high ↦ elim (dec_lt i u'.offset) [
      | yes within ↦ ground (arith, spliced.stored i, c.ahead)
      | no beyond ↦ ground (arith, at i, off)
    ]
  ]

persisted :
    (ms ms' : MemoryStorage) (l : RaftLog) (u' : Unstable)
    → IsCovered ms l.unstable
    → IsSpliced ms l.unstable.offset l.unstable.entries ms'
    → u'.snapshot ≡ l.unstable.snapshot
    → u'.offset ≡ l.unstable.offset + length l.unstable.entries
    → ((j : ℕ) → entry_at u' j ≡ (if ltb j u'.offset then none else entry_at l.unstable j))
    → IsPersisted ms l ms' (record (over ms' l) { unstable = u' })
persisted ms ms' l u' c spliced snap off at =
    let next = record l { unstable = u' } in
    let c' = goes_on ms ms' l.unstable u' c spliced snap off at in
    let left = nothing_left ms ms' l.unstable u' c spliced snap off at in
    let end : u'.offset + length u'.entries - 1
        ≡ l.unstable.offset + length l.unstable.entries - 1 =
      omega (arith, off, ap length left) in
    record {
      taken = left;
      covered = c';
      same_term = λ i h.
          term-seen ms' next c' i h
          ∙ ap term_of (same_seen ms ms' l.unstable u' c spliced snap off at i)
          ∙ sym (term-seen ms l c i h);
      same_first =
          first_index-over ms' next c'
          ∙ ap (λ d. ok (d + 1)) spliced.same_dummy
          ∙ sym (first_index-over ms l c);
      same_last = last_index-over ms' next c' ∙ ap ok end ∙ sym (last_index-over ms l c);
      same_commit = refl;
      same_applied = refl;
      same_state = spliced.same_state;
    }

found_at :
    (u : Unstable) (i : ℕ) (e : Entry)
    → u.offset ≤ i
    → get_elem? u.entries (i - u.offset) ≡ some e
    → entry_at u i ≡ some e
found_at u i e h f = ground (arith, f)

below : (j o i : ℕ) → o ≡ i + 1 → leb j i ≡ ltb j o
below j o i h = ground (arith, h)

-- Storing the unstable entries and then calling `stableTo` with the last of them never fails and takes all of them off,
-- and the log shows what it showed: every index below 2^64 has the term that it had, and the first and the last index,
-- the commit index and the applied index are the same. The unstable entries go on from a valid storage or replace its
-- last entries, no unstable snapshot waits, and `last` is the last of them.
pub persist_lem :
    (ms : MemoryStorage) (l : RaftLog) (last : Entry)
    → IsCovered ms l.unstable
    → get_elem? l.unstable.entries (length l.unstable.entries - 1) ≡ some last
    → (ms' : MemoryStorage) × (l' : RaftLog) × (MemoryStorage.append ms l.unstable.entries ≡ ok ms')
      × (stable_to (over ms' l) last.index last.term ≡ ok l')
      × IsPersisted ms l ms' l'
unfolding stable_to
persist_lem ms l last c f =
    let u = l.unstable in
    let full = get_elem?_bound u.entries (length u.entries - 1) f in
    let place : last.index ≡ u.offset + (length u.entries - 1) =
      index-get_elem? u.offset u.entries (length u.entries - 1) c.run f in
    let back : last.index - u.offset ≡ length u.entries - 1 = omega (arith, place) in
    let found : entry_at u last.index ≡ some last =
      found_at u last.index last (omega (arith, place)) (rw (sym back) at f) in
    let (ms', run, spliced) =
      appended ms u.offset u.entries c.valid (omega (arith, full)) c.run c.small c.ahead c.near in
    let (u', cut, how) = stable_to_lem u last.index last.term c.small (omega (arith, full)) in
    elim how [
      | inr (same, other) ↦ absurd (other last found refl)
      | inl (snap, off, at, taken) ↦ (
        ms',
        record (over ms' l) { unstable = u' },
        run,
        ap (λ o. o >>= λ z. ok (record (over ms' l) { unstable = z })) cut,
        persisted ms ms' l u' c spliced snap (omega (arith, off, place, full)) (λ j.
            at j ∙ ap (λ b. if b then none else entry_at u j) (below j u'.offset last.index off)),
      )
    ]
