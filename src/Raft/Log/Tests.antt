-- ===== src/Raft/Log/Tests.antt =====
-- A follower's log and a message of its leader.
use yaraft.Prelude.{◌≡◌, refl, [], ◌∷◌, none, arith}
use yaraft.Outcome.{ok}
use yaraft.Idl.{Message, empty_message, msg_app, msg_app_resp}
use yaraft.MemoryStorage
use yaraft.Unstable
use yaraft.Util
use yaraft.RaftLog
use yaraft.RaftLog.Tests.{entry_of, two, two-IsJoined, replaced}
use yaraft.Raft.State.{Raft}
use yaraft.Raft.Replicate
use yaraft.Raft.Handlers
use yaraft.Raft.Step
use yaraft.Raft.Step.{step}
use yaraft.Raft.Tests.{node}
use yaraft.Raft.Log.{IsKept}
use yaraft.Raft.Log.Stepping.{IsSound, step-IsKept}
use yaraft.Raft.Log.Runs.{Runs, start, stepped, Runs-IsKept}

abbrev following : Raft
following = record node { term = 2; raft_log = two }

-- Entry 2 of the new leader.
abbrev replacement : Message
replacement = record empty_message {
  msg_type = msg_app;
  to = 1;
  from = 2;
  term = 2;
  index = 1;
  logterm = 1;
  commit = 5;
  entries = entry_of 2 2 ∷ [];
}

replacement-IsSound : IsSound replacement
replacement-IsSound = record {
  run = λ e. (refl, tt);
  fits = λ e. omega arith;
  below = λ e. ground arith;
}

abbrev followed : Raft
followed = record following {
  raft_log = replaced;
  lead = 2;
  election_elapsed = 0;
  msgs =
      record empty_message { msg_type = msg_app_resp; to = 2; from = 1; term = 2; index = 2 } ∷ [];
}

step-replacement : step replacement following ≡ ok (followed, none)
unfolding step Step.dispatch Step.step_role Step.step_follower Step.heed Step.is_leader_call
    Handlers.handle_append_entries Handlers.answer_append Replicate.send Replicate.stamp
    Replicate.is_vote_message Replicate.is_forwarded RaftLog.maybe_append RaftLog.match_term
    RaftLog.find_conflict RaftLog.append RaftLog.commit_to RaftLog.term
    RaftLog.zero_term_on_err_compacted RaftLog.first_index RaftLog.last_index
    Unstable.maybe_first_index Unstable.maybe_last_index Unstable.maybe_term
    Unstable.truncate_and_append Unstable.slice Unstable.must_check_out_of_bounds Util.slice
    Util.slice_from MemoryStorage.to_storage MemoryStorage.last_index MemoryStorage.term
    MemoryStorage.first_index MemoryStorage.front_index
step-replacement = refl

step-IsKept_example : IsKept two replaced
step-IsKept_example =
    step-IsKept replacement following two-IsJoined (omega arith) replacement-IsSound
      step-replacement

one_message : Runs following followed
one_message = stepped replacement start (omega arith) replacement-IsSound step-replacement

Runs-IsKept_example : IsKept two replaced
Runs-IsKept_example = Runs-IsKept following followed two-IsJoined one_message
