-- ===== src/Unstable/Lookup.antt =====
-- The unstable entries as a window of the log: what is found at an index.
use yaraft.Prelude.{
  length-append, take_all, false, ℕ, ◌+◌, ◌-◌, ◌≤◌, ◌<◌, ◌≡◌, refl, ◌⊎◌, inl, inr, min, List, [],
  ◌∷◌, ◌++◌, Option, ltb, if◌then◌else◌, length, get_elem?, take, get_elem?_bound, some,
  length-take, arith, u64_mod, dec_lt, dec_le, add64, sub64,
}
use yaraft.Outcome.{ok, panic, fault}
use yaraft.Idl.{Entry}
use yaraft.Entries.{at_index, at_index-splice}
use yaraft.Util
use yaraft.Unstable.{Unstable, truncate_and_append, assign_own, slice, must_check_out_of_bounds}

-- The entry at an index.
abbrev pub entry_at : Unstable → ℕ → Option Entry
entry_at u i = at_index u.offset u.entries i

pub entry_at-bounds :
    (u : Unstable) (i : ℕ) {e : Entry}
    → entry_at u i ≡ some e
    → (u.offset ≤ i)
      × (i < u.offset + length u.entries)
      × (get_elem? u.entries (i - u.offset) ≡ some e)
entry_at-bounds u i {e = e} f = elim (dec_lt i u.offset) [
  | yes h ↦ ground arith
  | no h ↦
      let found : get_elem? u.entries (i - u.offset) ≡ some e = ground arith in
      let bound = get_elem?_bound u.entries (i - u.offset) found in
      (omega arith, omega arith, found)
]

-- The numbers of the window are far from 2^64.
abbrev pub IsSmall : Unstable → Type 0
IsSmall u = u.offset + length u.entries < u64_mod

-- The window with its entries from place `n` on replaced.
abbrev replaced : Unstable → ℕ → List Entry → Unstable
replaced u n ents = record u { entries = take n u.entries ++ ents }

entry_at-replaced :
    (u : Unstable) (n : ℕ) (ents : List Entry) (i : ℕ)
    → n ≤ length u.entries
    → entry_at (replaced u n ents) i
      ≡ (if ltb i (u.offset + n) then entry_at u i else get_elem? ents (i - (u.offset + n)))
entry_at-replaced u n ents i h = at_index-splice u.offset n u.entries ents i h

slice-front :
    (u : Unstable) (n : ℕ)
    → IsSmall u
    → n ≤ length u.entries
    → slice u u.offset (u.offset + n) ≡ ok (take n u.entries)
unfolding slice must_check_out_of_bounds Util.slice
slice-front u n s h =
    let first : sub64 u.offset u.offset ≡ 0 = omega arith in
    let last : sub64 (u.offset + n) u.offset ≡ n = omega arith in
    let whole : n - 0 ≡ n = omega arith in
    let low : ltb (u.offset + n) u.offset ≡ false = ground arith in
    let high : ltb (add64 u.offset (length u.entries)) (u.offset + n) ≡ false = ground arith in
    rw (first, last, whole, low, high) (ground arith)

-- The window `u'` is `u` with the entries from index `a` on replaced by `ents`.
abbrev pub IsSpliced : Unstable → ℕ → List Entry → Unstable → Type 0
IsSpliced u a ents u' =
    (u'.snapshot ≡ u.snapshot)
    × (u'.offset ≡ min u.offset a)
    × (length u'.entries ≡ a - u'.offset + length ents)
    × ((i : ℕ) → entry_at u' i ≡ (if ltb i a then entry_at u i else get_elem? ents (i - a)))

replaced-IsSpliced :
    (u : Unstable) (a : ℕ) (ents : List Entry)
    → u.offset ≤ a
    → a ≤ u.offset + length u.entries
    → IsSpliced u a ents (replaced u (a - u.offset) ents)
replaced-IsSpliced u a ents h k =
    let back : u.offset + (a - u.offset) ≡ a = omega arith in
    (
      refl,
      omega arith,
      omega (
        arith,
        length-append (take (a - u.offset) u.entries) ents,
        length-take (a - u.offset) u.entries,
      ),
      λ i. rw back at (entry_at-replaced u (a - u.offset) ents i (omega arith)),
    )

before-IsSpliced :
    (u : Unstable) (a : ℕ) (ents : List Entry)
    → a ≤ u.offset
    → IsSpliced u a ents (record u { offset = a; entries = ents })
before-IsSpliced u a ents h = (refl, omega arith, omega arith, λ i. ground arith)

slice-gap :
    (u : Unstable) (a : ℕ)
    → IsSmall u
    → u.offset + length u.entries < a
    → slice u u.offset a ≡ panic
unfolding slice must_check_out_of_bounds
slice-gap u a s h = ground arith

assign_some : (es : List Entry) → 0 < length es → assign_own es ≡ fault
unfolding assign_own
assign_some [] h = absurd (omega arith)
assign_some (e ∷ es) h = refl

-- The three ways in which entries are taken.
module _ (u : Unstable) (e : Entry) (es : List Entry) (s : IsSmall u) where
  append_behind :
      e.index ≡ u.offset + length u.entries
      → truncate_and_append u (e ∷ es) ≡ ok (replaced u (e.index - u.offset) (e ∷ es))
  unfolding truncate_and_append
  append_behind h =
      let all : e.index - u.offset ≡ length u.entries = omega arith in
      rw (all, take_all u.entries) (ground arith)

  append_inside :
      u.offset < e.index
      → e.index < u.offset + length u.entries
      → truncate_and_append u (e ∷ es) ≡ fault
  unfolding truncate_and_append
  append_inside h k =
      let back : u.offset + (e.index - u.offset) ≡ e.index = omega arith in
      let kept : slice u u.offset e.index ≡ ok (take (e.index - u.offset) u.entries) =
        rw back at (slice-front u (e.index - u.offset) s (omega arith)) in
      let read =
        assign_some (take (e.index - u.offset) u.entries)
          (omega (arith, length-take (e.index - u.offset) u.entries)) in
      ground (arith, kept, read)

  append_before :
      e.index ≤ u.offset
      → e.index < u.offset + length u.entries
      → truncate_and_append u (e ∷ es) ≡ ok (record u { offset = e.index; entries = e ∷ es })
  unfolding truncate_and_append
  append_before h k = ground arith

  pub gap_panics : u.offset + length u.entries < e.index → truncate_and_append u (e ∷ es) ≡ panic
  unfolding truncate_and_append
  gap_panics h = ground (arith, slice-gap u e.index s h)

-- truncateAndAppend panics where its entries would leave a gap behind the window, and reads destroyed entries, which
-- is a fault, where the first new entry is inside the window and behind its first index. Otherwise the first new
-- entry follows the window, which is kept, or is at its first index or before it, and then the new entries take the
-- place of the whole window, which begins with them; the snapshot stays. The window is far from 2^64.
pub truncate_and_append_lem :
    (u : Unstable) (e : Entry) (es : List Entry)
    → IsSmall u
    → e.index < u64_mod
    → ((u.offset + length u.entries < e.index) × (truncate_and_append u (e ∷ es) ≡ panic))
      ⊎ ((u.offset < e.index)
          × (e.index < u.offset + length u.entries)
          × (truncate_and_append u (e ∷ es) ≡ fault))
      ⊎ ((u' : Unstable) × (truncate_and_append u (e ∷ es) ≡ ok u')
          × ((e.index ≤ u.offset) ⊎ (e.index ≡ u.offset + length u.entries))
          × IsSpliced u e.index (e ∷ es) u')
truncate_and_append_lem u e es s h = elim (dec_lt (u.offset + length u.entries) e.index) [
  | yes gap ↦ inl (gap, gap_panics u e es s gap)
  | no near ↦ elim (dec_lt e.index (u.offset + length u.entries)) [
    | no behind ↦ inr (
        inr (
          _,
          append_behind u e es s (omega arith),
          inr (omega arith),
          replaced-IsSpliced u e.index (e ∷ es) (omega arith) (omega arith),
        ))
    | yes short ↦ elim (dec_le e.index u.offset) [
      | yes before ↦ inr (
          inr (
            _,
            append_before u e es s before short,
            inl before,
            before-IsSpliced u e.index (e ∷ es) before,
          ))
      | no inside ↦ inr (inl (omega arith, short, append_inside u e es s (omega arith) short))
    ]
  ]
]
