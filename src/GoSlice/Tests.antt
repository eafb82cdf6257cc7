-- ===== src/GoSlice/Tests.antt =====
-- A slice of concrete numbers.
use yaraft.Prelude.{ℕ, ◌≤◌, ◌<◌, ◌≡◌, ◌⊎◌, refl, [], ◌∷◌, ◌++◌, drop, arith}
use yaraft.Outcome.{ok, panic}
use yaraft.GoSlice.{GoSlice, view, push_back, append, slice, slice_from}
use yaraft.GoSlice.Refine.{
  IsValid, contents, append_refines, slice_from_refines, SliceEnds, slice_lem,
}

-- The view of 7, 8 and 9 in a vector that begins with 6.
abbrev viewed : GoSlice ℕ
viewed = record { storage = 6 ∷ 7 ∷ 8 ∷ 9 ∷ []; start = 1; len = 3 }

viewed-IsValid : IsValid viewed
viewed-IsValid = record { suffix = refl; small = omega arith }

append_refines_example :
    IsValid (append (10 ∷ []) viewed)
    × (view (append (10 ∷ []) viewed) ≡ ok (contents viewed ++ (10 ∷ [])))
    × ((x : ℕ) → push_back x viewed ≡ append (x ∷ []) viewed)
append_refines_example = append_refines viewed (10 ∷ []) viewed-IsValid (omega arith)

slice_from_refines_example :
    ((3 < 2) × (slice_from 2 viewed ≡ panic))
    ⊎ ((2 ≤ 3)
        × (g : GoSlice ℕ) × (slice_from 2 viewed ≡ ok g)
        × IsValid g
        × (view g ≡ ok (drop 2 (contents viewed))))
slice_from_refines_example = slice_from_refines viewed 2 viewed-IsValid

slice_lem_example : (g : GoSlice ℕ) × (slice 0 1 2 viewed ≡ ok g) × SliceEnds viewed 1 2 g
slice_lem_example = slice_lem 0 viewed 1 2 viewed-IsValid (omega arith) (omega arith)
