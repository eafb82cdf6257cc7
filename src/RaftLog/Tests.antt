-- ===== src/RaftLog/Tests.antt =====
-- The log at concrete entries.
use yaraft.Prelude.{ℕ, ◌+◌, ◌≡◌, ◌⊎◌, ◌≤◌, ◌<◌, refl, [], ◌∷◌, none, arith}
use yaraft.Outcome.{ok, panic, fault}
use yaraft.Idl.{Entry, empty_entry, empty_hard_state, empty_snapshot}
use yaraft.MemoryStorage
use yaraft.MemoryStorage.{MemoryStorage}
use yaraft.Unstable
use yaraft.Util
use yaraft.RaftLog
use yaraft.RaftLog.{RaftLog, append}
use yaraft.RaftLog.Append.{IsJoined, IsExtended, append_lem}

abbrev pub entry_of : ℕ → ℕ → Entry
entry_of index term = record empty_entry { index = index; term = term }

-- Entry 1 is stored.
abbrev pub one_stored : MemoryStorage
one_stored = record {
  hard_state = empty_hard_state;
  snapshot = empty_snapshot;
  ents = empty_entry ∷ entry_of 1 1 ∷ [];
}

-- The entries 1 and 2 at term 1, of which the first is stored and committed.
abbrev pub two : RaftLog
two = record {
  storage = MemoryStorage.to_storage one_stored;
  unstable = record { snapshot = none; entries = entry_of 2 1 ∷ []; offset = 2 };
  committed = 1;
  applied = 0;
  max_msg_size = 100;
}

pub two-IsJoined : IsJoined two
unfolding RaftLog.first_index RaftLog.last_index Unstable.maybe_first_index
    Unstable.maybe_last_index MemoryStorage.to_storage MemoryStorage.first_index
    MemoryStorage.last_index MemoryStorage.term MemoryStorage.front_index
two-IsJoined = record {
  small = omega arith;
  behind = omega arith;
  first = 1;
  starts = refl;
  positive = omega arith;
  fits = omega arith;
  reaches = omega arith;
  joined = refl;
}

-- Entry 2 at term 2 in place of entry 2 at term 1, and committed.
abbrev pub replaced : RaftLog
replaced = record two {
  unstable = record { snapshot = none; entries = entry_of 2 2 ∷ []; offset = 2 };
  committed = 2;
}

append_lem_example :
    (((2 ≤ 1) ⊎ (2 + 1 < 2)) × (append two (entry_of 2 2 ∷ []) ≡ panic))
    ⊎ ((1 < 2) × (2 < 2) × (2 < 2 + 1) × (append two (entry_of 2 2 ∷ []) ≡ fault))
    ⊎ ((l' : RaftLog) × (append two (entry_of 2 2 ∷ []) ≡ ok (l', 2 + 0))
        × (1 < 2)
        × IsExtended two 2 (entry_of 2 2 ∷ []) l')
append_lem_example = append_lem two (entry_of 2 2) [] two-IsJoined (omega arith) (omega arith)
