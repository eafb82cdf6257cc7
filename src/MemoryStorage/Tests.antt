-- ===== src/MemoryStorage/Tests.antt =====
-- The storage at concrete entries.
use yaraft.Prelude.{ℕ, ◌+◌, ◌≤◌, ◌<◌, ◌≡◌, ◌⊎◌, refl, [], ◌∷◌, arith}
use yaraft.Outcome.{ok, err, panic, compacted}
use yaraft.Idl.{Entry, empty_entry, empty_snapshot, empty_hard_state}
use yaraft.MemoryStorage.{MemoryStorage, append, compact}
use yaraft.MemoryStorage.Inv.{IsValid, TermOf, term_lem}
use yaraft.MemoryStorage.Append.{IsSpliced, append_stored_lem}
use yaraft.MemoryStorage.Compact.{IsCompacted, compact_lem}

abbrev entry_of : ℕ → ℕ → Entry
entry_of index term = record empty_entry { index = index; term = term }

-- A dummy entry at 3 and the entries 4 and 5.
abbrev pub stored : MemoryStorage
stored = record {
  hard_state = empty_hard_state;
  snapshot = empty_snapshot;
  ents = entry_of 3 1 ∷ entry_of 4 1 ∷ entry_of 5 2 ∷ [];
}

pub stored-IsValid : IsValid stored
stored-IsValid = record {
  filled = omega arith;
  run = (refl, (refl, (refl, tt)));
  small = omega arith;
}

term_lem_example : TermOf stored 4
term_lem_example = term_lem stored 4 stored-IsValid (omega arith)

append_stored_lem_example :
    ((5 + 1 ≤ 3) × (append stored (entry_of 5 3 ∷ entry_of 6 3 ∷ []) ≡ ok stored))
    ⊎ ((3 + 3 < 5) × (append stored (entry_of 5 3 ∷ entry_of 6 3 ∷ []) ≡ panic))
    ⊎ ((ms' : MemoryStorage) × (append stored (entry_of 5 3 ∷ entry_of 6 3 ∷ []) ≡ ok ms')
        × (3 < 5 + 1)
        × IsSpliced stored 5 (entry_of 5 3 ∷ entry_of 6 3 ∷ []) ms')
append_stored_lem_example =
    append_stored_lem stored (entry_of 5 3) (entry_of 6 3 ∷ []) stored-IsValid (refl, (refl, tt))
      (omega arith)

compact_lem_example :
    ((4 ≤ 3) × (compact stored 4 ≡ err compacted))
    ⊎ ((3 + 3 ≤ 4) × (compact stored 4 ≡ panic))
    ⊎ ((3 < 4) × (ms' : MemoryStorage) × (compact stored 4 ≡ ok ms') × IsCompacted stored 4 ms')
compact_lem_example = compact_lem stored 4 stored-IsValid
