-- ===== src/Raft/Restart/Tests.antt =====
-- A node that starts again.
use yaraft.Prelude.{none, ◌≡◌, refl, false, [], ◌∷◌, some, arith}
use yaraft.Outcome.{ok}
use yaraft.Idl
use yaraft.Assoc
use yaraft.Config
use yaraft.Config.{Config}
use yaraft.Inflights
use yaraft.MemoryStorage
use yaraft.MemoryStorage.{MemoryStorage}
use yaraft.MemoryStorage.Inv.{IsValid}
use yaraft.MemoryStorage.Tests.{stored, stored-IsValid}
use yaraft.Progress
use yaraft.RaftLog
use yaraft.RaftLog.{RaftLog}
use yaraft.ReadOnly
use yaraft.ReadOnly.{read_only_safe}
use yaraft.Unstable
use yaraft.Raft.State
use yaraft.Raft.State.{Raft}
use yaraft.Raft.Roles
use yaraft.Raft.New
use yaraft.Raft.Step
use yaraft.Raft.Step.{tick}
use yaraft.Raft.New.{make}
use yaraft.Raft.Tests.{node}
use yaraft.Raft.Log.Runs.{Runs, start, ticked}
use yaraft.Raft.Restart.{IsRestored, make-IsRestored, stored_stays}

-- It voted for node 2 at term 2, and had committed 4.
abbrev saved : MemoryStorage
saved = record stored { hard_state = record { term = 2; vote = 2; commit = 4 } }

saved-IsValid : IsValid saved
saved-IsValid = record {
  filled = stored-IsValid.filled;
  run = stored-IsValid.run;
  small = stored-IsValid.small;
}

abbrev config : Config
config = record {
  id = 1;
  election_tick = 10;
  heartbeat_tick = 1;
  storage = some (MemoryStorage.to_storage saved);
  applied = 0;
  max_size_per_msg = 100;
  max_inflight_msgs = 4;
  check_quorum = false;
  pre_vote = false;
  read_only_option = read_only_safe;
  disable_proposal_forwarding = false;
  peers = 1 ∷ 2 ∷ [];
  learners = [];
}

abbrev restarted : Raft
restarted = record node {
  term = 2;
  vote = 2;
  raft_log = record {
    storage = MemoryStorage.to_storage saved;
    unstable = record { snapshot = none; entries = []; offset = 6 };
    committed = 4;
    applied = 3;
    max_msg_size = 100;
  };
  prs = (1, Progress.make 6 5 4 false) ∷ (2, Progress.make 6 0 4 false) ∷ [];
  election_elapsed = 0;
  randomized_election_timeout = 13;
  draws = 1;
}

make-config : make config (λ k n. 3) (λ c. c) ≡ ok restarted
unfolding make New.start_from New.finish New.members New.add_peers New.add_learners New.blank
    New.load_state Config.validate RaftLog.init RaftLog.last_index RaftLog.last_term
    RaftLog.first_index RaftLog.term RaftLog.applied_to Unstable.maybe_first_index
    Unstable.maybe_last_index Unstable.maybe_term MemoryStorage.to_storage
    MemoryStorage.initial_state MemoryStorage.first_index MemoryStorage.last_index
    MemoryStorage.front_index MemoryStorage.term Idl.is_empty_hard_state Idl.is_hard_state_equal
    Assoc.insert Assoc.keys Assoc.has_key Roles.become_follower Roles.reset Roles.reset_with
    Roles.renew Roles.last_for_reset State.progress_ids Progress.make Inflights.init ReadOnly.init
make-config = refl

make-IsRestored_example : IsRestored saved restarted
make-IsRestored_example =
    make-IsRestored config saved (λ k n. 3) (λ c. c) saved-IsValid refl make-config

abbrev later : Raft
later = record restarted { election_elapsed = 1 }

tick-restarted : tick restarted ≡ ok later
unfolding tick Step.tick_election State.promotable Assoc.has_key Assoc.find
tick-restarted = refl

one_tick : Runs restarted later
one_tick = ticked start (omega arith) tick-restarted

starts_at : RaftLog.first_index later.raft_log ≡ ok 4
unfolding RaftLog.first_index Unstable.maybe_first_index MemoryStorage.to_storage
    MemoryStorage.first_index MemoryStorage.front_index
starts_at = refl

stored_stays_example : RaftLog.term later.raft_log 4 ≡ MemoryStorage.term saved 4
stored_stays_example =
    stored_stays config saved (λ k n. 3) (λ c. c) saved-IsValid refl make-config one_tick 4 4
      (omega arith) (omega arith) starts_at (omega arith)
