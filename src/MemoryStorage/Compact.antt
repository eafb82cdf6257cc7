-- ===== src/MemoryStorage/Compact.antt =====
-- `Compact` on the stored entries.
use yaraft.Prelude.{
  ℕ, ◌+◌, ◌-◌, ◌≤◌, ◌<◌, ◌≡◌, refl, sym, ◌∙◌, ◌⊎◌, inl, inr, false, ◌∷◌, some, ltb, leb, length,
  get_elem?, drop, length-drop, get_elem?-drop, get_elem?_within, arith, dec_le, add64, sub64,
}
use yaraft.Outcome.{ok, err, panic, compacted}
use yaraft.Idl.{Entry, empty_entry}
use yaraft.Entries.{index-get_elem?, at_index-head, at_index-tail, IsRun-drop}
use yaraft.Util
use yaraft.MemoryStorage.{MemoryStorage, compact}
use yaraft.MemoryStorage.Inv.{dummy, stored_at, IsValid, front_index_lem, last_index_lem}

-- The index and the term of an entry, which is what a dummy entry keeps.
abbrev pub mark : Entry → Entry
mark e = record empty_entry { index = e.index; term = e.term }

-- `ms'` is `ms` without the entries up to index `c`, of which it keeps the mark of the last one.
pub record IsCompacted (ms : MemoryStorage) (c : ℕ) (ms' : MemoryStorage) : Type 0 where
  pub valid : IsValid ms'
  pub new_dummy : dummy ms'.ents ≡ c
  pub same_end : dummy ms'.ents + length ms'.ents ≡ dummy ms.ents + length ms.ents
  pub same_snapshot : ms'.snapshot ≡ ms.snapshot
  pub last_gone : Entry
  pub was : stored_at ms c ≡ some last_gone
  pub marked : stored_at ms' c ≡ some (mark last_gone)
  pub behind : (i : ℕ) → c < i → stored_at ms' i ≡ stored_at ms i

module _ (ms : MemoryStorage) (c : ℕ) (e : Entry) (v : IsValid ms) (low : dummy ms.ents < c)
    (high : c < dummy ms.ents + length ms.ents)
    (found : get_elem? ms.ents (c - dummy ms.ents) ≡ some e) where
  at : e.index ≡ c
  at = omega (arith, index-get_elem? (dummy ms.ents) ms.ents (c - dummy ms.ents) v.run found)

  compact_run :
      compact ms c ≡ ok (record ms { ents = mark e ∷ drop (c - dummy ms.ents + 1) ms.ents })
  unfolding compact Util.slice_from
  compact_run =
      let place : sub64 c (dummy ms.ents) ≡ c - dummy ms.ents = omega (arith, v.small) in
      let next : add64 (c - dummy ms.ents) 1 ≡ c - dummy ms.ents + 1 = omega (arith, v.small) in
      let old : leb c (dummy ms.ents) ≡ false = ground arith in
      let inside : ltb (dummy ms.ents + length ms.ents - 1) c ≡ false = ground arith in
      let fits : ltb (length ms.ents) (c - dummy ms.ents + 1) ≡ false = ground arith in
      rw (front_index_lem ms v, last_index_lem ms v, old, inside, place, found, next, fits) refl

  compact-IsCompacted :
      IsCompacted ms c (record ms { ents = mark e ∷ drop (c - dummy ms.ents + 1) ms.ents })
  compact-IsCompacted =
      let len = length-drop (c - dummy ms.ents + 1) ms.ents in
      let next : dummy ms.ents + (c - dummy ms.ents + 1) ≡ e.index + 1 = omega (arith, at) in
      record {
        valid = record {
          filled = omega arith;
          run =
              (refl, rw next at (IsRun-drop (dummy ms.ents) (c - dummy ms.ents + 1) ms.ents v.run));
          small = omega (arith, len, at, v.small);
        };
        new_dummy = at;
        same_end = omega (arith, len, at);
        same_snapshot = refl;
        last_gone = e;
        was = ground arith;
        marked = at_index-head e.index c (mark e) _ (sym at);
        behind = λ i h.
            let place : c - dummy ms.ents + 1 + (i - (e.index + 1)) ≡ i - dummy ms.ents =
              omega (arith, at) in
            at_index-tail e.index i (mark e) _ (omega (arith, at))
            ∙ rw place at (get_elem?-drop (c - dummy ms.ents + 1) ms.ents (i - (e.index + 1)))
            ∙ sym (ground arith);
      }

compact_old :
    (ms : MemoryStorage) (c : ℕ) → IsValid ms → c ≤ dummy ms.ents → compact ms c ≡ err compacted
unfolding compact
compact_old ms c v h = rw (front_index_lem ms v) (ground arith)

compact_beyond :
    (ms : MemoryStorage) (c : ℕ)
    → IsValid ms
    → dummy ms.ents < c
    → dummy ms.ents + length ms.ents ≤ c
    → compact ms c ≡ panic
unfolding compact
compact_beyond ms c v h k = rw (front_index_lem ms v, last_index_lem ms v) (ground arith)

-- On a valid storage, `Compact` refuses an index at or below the dummy entry, and panics at one behind the last entry.
-- Otherwise the entry at the index becomes the dummy entry, of which the index and the term are kept,
-- those below it are gone, and those behind it stay.
pub compact_lem :
    (ms : MemoryStorage) (c : ℕ)
    → IsValid ms
    → ((c ≤ dummy ms.ents) × (compact ms c ≡ err compacted))
      ⊎ ((dummy ms.ents + length ms.ents ≤ c) × (compact ms c ≡ panic))
      ⊎ ((dummy ms.ents < c)
          × (ms' : MemoryStorage) × (compact ms c ≡ ok ms')
          × IsCompacted ms c ms')
compact_lem ms c v = elim (dec_le c (dummy ms.ents)) [
  | yes old ↦ inl (old, compact_old ms c v old)
  | no low ↦ elim (dec_le (dummy ms.ents + length ms.ents) c) [
    | yes beyond ↦ inr (inl (beyond, compact_beyond ms c v (omega arith) beyond))
    | no high ↦
        let (e, f) = get_elem?_within ms.ents (c - dummy ms.ents) (omega arith) in
        inr (
          inr (
            omega arith,
            _,
            compact_run ms c e v (omega arith) (omega arith) f,
            compact-IsCompacted ms c e v (omega arith) (omega arith) f,
          ))
  ]
]
