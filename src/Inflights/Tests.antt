-- ===== src/Inflights/Tests.antt =====
-- The ring at concrete windows.
use yaraft.Prelude.{◌≡◌, refl, ◌⊎◌, [], ◌∷◌, ◌++◌, length, arith}
use yaraft.Outcome.{ok, panic}
use yaraft.Inflights.{Inflights, rotate, write, full, add, free_loop, free_to}
use yaraft.Inflights.Inv.{IsValid}
use yaraft.Inflights.Refine.{contents, drop_up_to, add_refines, free_to_refines}

-- A window of 3 places that holds 7, 8 and has gone round.
abbrev wrapped : Inflights
wrapped = record { start = 2; count = 2; capacity = 3; buffer = 8 ∷ 6 ∷ 7 ∷ [] }

wrapped-IsValid : IsValid wrapped
wrapped-IsValid = ground arith

add-wrapped : add wrapped 9 ≡ ok (record wrapped { count = 3; buffer = 8 ∷ 9 ∷ 7 ∷ [] })
unfolding add full rotate write
add-wrapped = refl

free_to-wrapped : free_to wrapped 7 ≡ ok (record wrapped { start = 0; count = 1 })
unfolding free_to free_loop rotate
free_to-wrapped = refl

add_refines_example :
    ((length (contents wrapped) ≡ 3) × (add wrapped 9 ≡ panic))
    ⊎ ((s : Inflights) × (add wrapped 9 ≡ ok s)
        × IsValid s
        × (s.capacity ≡ 3)
        × (contents s ≡ contents wrapped ++ (9 ∷ [])))
add_refines_example = add_refines wrapped 9 wrapped-IsValid

free_to_refines_example :
    (s : Inflights) × (free_to wrapped 7 ≡ ok s)
    × IsValid s
    × (s.capacity ≡ 3)
    × (contents s ≡ drop_up_to 7 (contents wrapped))
free_to_refines_example = free_to_refines wrapped 7 wrapped-IsValid
