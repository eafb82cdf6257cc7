-- ===== src/Unstable/Tests.antt =====
-- The unstable entries at a concrete window.
use yaraft.Prelude.{ℕ, ◌+◌, ◌<◌, ◌≤◌, ◌≡◌, ◌⊎◌, [], ◌∷◌, none, arith}
use yaraft.Outcome.{ok, panic, fault}
use yaraft.Idl.{Entry, empty_entry}
use yaraft.Unstable.{Unstable, truncate_and_append, stable_to}
use yaraft.Unstable.Lookup.{IsSpliced, truncate_and_append_lem}
use yaraft.Unstable.Stable.{IsStable, stable_to_lem}

abbrev entry_of : ℕ → ℕ → Entry
entry_of index term = record empty_entry { index = index; term = term }

-- The indexes 5, 6 and 7 at term 1.
abbrev window : Unstable
window = record {
  snapshot = none;
  entries = entry_of 5 1 ∷ entry_of 6 1 ∷ entry_of 7 1 ∷ [];
  offset = 5;
}

truncate_and_append_lem_example :
    ((5 + 3 < 5) × (truncate_and_append window (entry_of 5 2 ∷ []) ≡ panic))
    ⊎ ((5 < 5) × (5 < 5 + 3) × (truncate_and_append window (entry_of 5 2 ∷ []) ≡ fault))
    ⊎ ((u : Unstable) × (truncate_and_append window (entry_of 5 2 ∷ []) ≡ ok u)
        × ((5 ≤ 5) ⊎ (5 ≡ 5 + 3))
        × IsSpliced window 5 (entry_of 5 2 ∷ []) u)
truncate_and_append_lem_example =
    truncate_and_append_lem window (entry_of 5 2) [] (omega arith) (omega arith)

stable_to_lem_example : (u : Unstable) × (stable_to window 6 1 ≡ ok u) × IsStable window 6 1 u
stable_to_lem_example = stable_to_lem window 6 1 (omega arith) (omega arith)
