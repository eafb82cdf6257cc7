-- ===== src/Unstable/Stable.antt =====
-- What `stableTo` takes off the unstable entries.
use yaraft.Prelude.{
  ℕ, ◌+◌, ◌-◌, ◌≤◌, ◌<◌, ◌≡◌, ◌≢◌, refl, sym, ap, ◌⊎◌, inl, inr, List, [], ◌∷◌, Option, none, some,
  leb, if◌then◌else◌, length, get_elem?, drop, get_elem?-drop, get_elem?_within, get_elem?_beyond,
  arith, u64_mod, dec_lt, dec_le, ℕ_discrete, add64, sub64,
}
use yaraft.Outcome.{ok}
use yaraft.Idl.{Entry, Snapshot}
use yaraft.Util
use yaraft.Unstable.{Unstable, maybe_last_index, maybe_term, stable_to, last_of, entry_term, cut_to}
use yaraft.Unstable.Lookup.{entry_at, IsSmall}

-- The window without the entries up to index `i`.
abbrev cut_behind : Unstable → ℕ → Unstable
cut_behind u i = record u { entries = drop (i + 1 - u.offset) u.entries; offset = i + 1 }

entry_at-cut_behind :
    (u : Unstable) (i j : ℕ)
    → u.offset ≤ i
    → entry_at (cut_behind u i) j ≡ (if leb j i then none else entry_at u j)
entry_at-cut_behind u i j h = elim (dec_le j i) [
  | yes k ↦ ground arith
  | no k ↦
      let place : i + 1 - u.offset + (j - (i + 1)) ≡ j - u.offset = omega arith in
      ground (arith, rw place at (get_elem?-drop (i + 1 - u.offset) u.entries (j - (i + 1))))
]

last_of_full :
    (o : ℕ) (es : List Entry) (sn : Option Snapshot)
    → o + length es < u64_mod
    → 0 < length es
    → last_of o es sn ≡ some (o + length es - 1)
unfolding last_of
last_of_full o [] sn s h = absurd (omega arith)
last_of_full o (e ∷ es) sn s h = ap some (omega arith)

pub last_of-some :
    (u : Unstable)
    → IsSmall u
    → 0 < length u.entries
    → maybe_last_index u ≡ some (u.offset + length u.entries - 1)
unfolding maybe_last_index
last_of-some u s h = last_of_full u.offset u.entries u.snapshot s h

pub maybe_term_inside :
    (u : Unstable) (i : ℕ) (e : Entry)
    → IsSmall u
    → u.offset ≤ i
    → i < u.offset + length u.entries
    → get_elem? u.entries (i - u.offset) ≡ some e
    → maybe_term u i ≡ ok (some e.term)
unfolding maybe_term entry_term
maybe_term_inside u i e s h k f =
    let place : sub64 i u.offset ≡ i - u.offset = omega arith in
    ground (arith, last_of-some u s (omega arith), rw (sym place) at f)

pub maybe_term_beyond :
    (u : Unstable) (i : ℕ)
    → IsSmall u
    → 0 < length u.entries
    → u.offset + length u.entries ≤ i
    → maybe_term u i ≡ ok none
unfolding maybe_term entry_term
maybe_term_beyond u i s h k = ground (arith, last_of-some u s h)

-- How `stableTo` ends.
abbrev pub IsStable : Unstable → ℕ → ℕ → Unstable → Type 0
IsStable u i t u' =
    ((u'.snapshot ≡ u.snapshot)
      × (u'.offset ≡ i + 1)
      × ((j : ℕ) → entry_at u' j ≡ (if leb j i then none else entry_at u j))
      × ((e : Entry) × (entry_at u i ≡ some e) × (e.term ≡ t)))
    ⊎ ((u' ≡ u) × ((e : Entry) → entry_at u i ≡ some e → e.term ≢ t))

stable_to_taken :
    (u : Unstable) (i : ℕ) (e : Entry)
    → IsSmall u
    → u.offset ≤ i
    → i < u.offset + length u.entries
    → get_elem? u.entries (i - u.offset) ≡ some e
    → stable_to u i e.term ≡ ok (cut_behind u i)
unfolding stable_to cut_to Util.slice_from
stable_to_taken u i e s h k f =
    let count : sub64 (add64 i 1) u.offset ≡ i + 1 - u.offset = omega arith in
    let next : add64 i 1 ≡ i + 1 = omega arith in
    rw (maybe_term_inside u i e s h k f, count, next) (ground arith)

stable_to_kept :
    (u : Unstable) (i t : ℕ) (e : Entry)
    → IsSmall u
    → u.offset ≤ i
    → i < u.offset + length u.entries
    → get_elem? u.entries (i - u.offset) ≡ some e
    → e.term ≢ t
    → stable_to u i t ≡ ok u
unfolding stable_to cut_to
stable_to_kept u i t e s h k f d = rw (maybe_term_inside u i e s h k f) (ground arith)

stable_to_before : (u : Unstable) (i t : ℕ) → i < u.offset → stable_to u i t ≡ ok u
unfolding stable_to cut_to maybe_term
stable_to_before u i t h = ground arith

stable_to_beyond :
    (u : Unstable) (i t : ℕ)
    → IsSmall u
    → 0 < length u.entries
    → u.offset + length u.entries ≤ i
    → stable_to u i t ≡ ok u
unfolding stable_to cut_to
stable_to_beyond u i t s h k = rw (maybe_term_beyond u i s h k) refl

pub entry_at_beyond : (u : Unstable) (i : ℕ) → u.offset + length u.entries ≤ i → entry_at u i ≡ none
entry_at_beyond u i h = ground (arith, get_elem?_beyond u.entries (i - u.offset))

entry_at_inside :
    (u : Unstable) (i : ℕ) (e : Entry)
    → u.offset ≤ i
    → get_elem? u.entries (i - u.offset) ≡ some e
    → entry_at u i ≡ some e
entry_at_inside u i e h f = ground arith

-- `stableTo` at an entry of the window with the given term takes it and those before it off, and keeps
-- the others and the snapshot; where the window has no such entry it changes nothing. The window is
-- not empty and far from 2^64.
pub stable_to_lem :
    (u : Unstable) (i t : ℕ)
    → IsSmall u
    → 0 < length u.entries
    → (u' : Unstable) × (stable_to u i t ≡ ok u') × IsStable u i t u'
stable_to_lem u i t s h = elim (dec_lt i u.offset) [
  | yes before ↦ (u, stable_to_before u i t before, inr (refl, λ e f. ground arith))
  | no reached ↦ elim (dec_lt i (u.offset + length u.entries)) [
    | no beyond ↦ (
      u,
      stable_to_beyond u i t s h (omega arith),
      inr (refl, λ e f. absurd (ground (arith, entry_at_beyond u i))),
    )
    | yes within ↦
        let (e, f) = get_elem?_within u.entries (i - u.offset) (omega arith) in
        let found = entry_at_inside u i e (omega arith) f in
        elim (ℕ_discrete e.term t) [
          | no other ↦ (
            u,
            stable_to_kept u i t e s (omega arith) within f other,
            inr (refl, λ e' f'. ground arith),
          )
          | yes same ↦ (
            cut_behind u i,
            rw (sym same) (stable_to_taken u i e s (omega arith) within f),
            inl (refl, refl, (λ j. entry_at-cut_behind u i j (omega arith)), (e, found, same)),
          )
        ]
  ]
]
