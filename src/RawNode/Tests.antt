-- ===== src/RawNode/Tests.antt =====
-- A Ready of a concrete node.
use yaraft.Prelude.{◌≡◌, ◌⊎◌, inr, refl, true, [], ◌∷◌, none, length, arith}
use yaraft.Outcome.{ok}
use yaraft.Idl.{
  HardState, empty_hard_state, empty_snapshot, is_hard_state_equal, is_empty_hard_state,
}
use yaraft.MemoryStorage
use yaraft.RaftLog
use yaraft.Unstable
use yaraft.Raft.State
use yaraft.Raft.Tests.{node, elected, first_entry}
use yaraft.MemoryStorage.{MemoryStorage}
use yaraft.MemoryStorage.Inv.{init-IsValid}
use yaraft.RaftLog.{RaftLog}
use yaraft.RaftLog.Persist.{IsCovered, IsPersisted, seen, term-seen}
use yaraft.Util
use yaraft.RawNode.{RawNode, get_ready}
use yaraft.RawNode.Cycle.{on_storage, applied_log, advance_lem}
use yaraft.RawNode.{Ready, new_ready}
use yaraft.RawNode
use yaraft.RawNode.Syncs.{IsClean, Cause, new_ready-syncs}

-- What was written before is what the node has.
abbrev written : HardState
written = record { vote = 0; term = 1; commit = 0 }

abbrev idle : Ready
idle = record {
  soft_state = none;
  hard_state = empty_hard_state;
  read_states = [];
  entries = [];
  snapshot = empty_snapshot;
  committed_entries = [];
  messages = [];
  must_sync = true;
}

new_ready-idle : new_ready (State.soft_state node) written node ≡ ok idle
unfolding new_ready State.soft_state State.hard_state RawNode.soft_state_eq RawNode.must_sync
    is_hard_state_equal RawNode.clamp_commit RaftLog.next_ents RaftLog.unstable_entries
    RaftLog.first_index Unstable.maybe_first_index MemoryStorage.to_storage MemoryStorage.init
    MemoryStorage.first_index MemoryStorage.front_index
new_ready-idle = refl

new_ready-syncs_example :
    IsClean written node idle
    ⊎ ((idle.must_sync ≡ true)
        × Cause written (State.hard_state node) (length (RaftLog.unstable_entries node.raft_log)))
new_ready-syncs_example = new_ready-syncs (State.soft_state node) written node new_ready-idle

-- A leader whose first entry is committed and not stored.
abbrev committed_log : RaftLog
committed_log = record elected.raft_log { committed = 1 }

abbrev busy : RawNode
busy = record {
  raft = record elected { raft_log = committed_log };
  prev_soft_st = State.soft_state elected;
  prev_hard_st = empty_hard_state;
}

abbrev first_ready : Ready
first_ready = record {
  soft_state = none;
  hard_state = record { vote = 1; term = 2; commit = 1 };
  read_states = [];
  entries = first_entry ∷ [];
  snapshot = empty_snapshot;
  committed_entries = first_entry ∷ [];
  messages = elected.msgs;
  must_sync = true;
}

abbrev emptied : RawNode
emptied = record busy { raft = record busy.raft { msgs = [] } }

get_ready-busy : get_ready busy ≡ ok (emptied, first_ready)
unfolding get_ready new_ready State.soft_state State.hard_state RawNode.soft_state_eq
    RawNode.must_sync is_hard_state_equal RawNode.clamp_commit RaftLog.next_ents
    RaftLog.unstable_entries RaftLog.first_index RaftLog.last_index RaftLog.slice
    RaftLog.must_check_out_of_bounds Unstable.maybe_first_index Unstable.maybe_last_index
    Unstable.slice Unstable.must_check_out_of_bounds Util.slice Util.limit_size
    MemoryStorage.to_storage MemoryStorage.init MemoryStorage.first_index MemoryStorage.front_index
    MemoryStorage.last_index
get_ready-busy = refl

busy-IsCovered : IsCovered MemoryStorage.init committed_log.unstable
unfolding MemoryStorage.init
busy-IsCovered = record {
  valid = init-IsValid;
  small = omega arith;
  plain = refl;
  run = (refl, tt);
  ahead = omega arith;
  near = omega arith;
  exact = λ h. ground (arith, h);
}

advance_lem_example :
    (ms' : MemoryStorage) × (n' : RawNode) × (MemoryStorage.append MemoryStorage.init
        (first_entry ∷ [])
      ≡ ok ms')
    × (RawNode.advance first_ready (on_storage ms' emptied) ≡ ok n')
    × IsPersisted MemoryStorage.init (applied_log 1 committed_log) ms' n'.raft.raft_log
unfolding is_empty_hard_state
advance_lem_example =
    advance_lem MemoryStorage.init busy emptied first_ready busy-IsCovered get_ready-busy
      (inr (omega arith, omega arith))

term-seen_example : RaftLog.term committed_log 1 ≡ ok 2
unfolding seen MemoryStorage.init
term-seen_example = term-seen MemoryStorage.init committed_log busy-IsCovered 1 (omega arith)
