-- ===== src/Raft/Tests.antt =====
-- The state machine at concrete states.
use yaraft.Prelude.{
  ◌+◌, ◌<◌, ◌⊎◌, true, ℕ, ◌≡◌, refl, false, inr, [], ◌∷◌, none, some, arith, bytes_eq,
}
use yaraft.Outcome.{ok}
use yaraft.Idl.{
  Entry, empty_entry, msg_app, msg_hup, empty_message, Message, msg_vote, msg_vote_resp,
}
use yaraft.Inflights
use yaraft.MemoryStorage
use yaraft.Progress
use yaraft.Progress.{Progress}
use yaraft.Progress.Inv.{IsValid}
use yaraft.RaftLog
use yaraft.RaftLog.{RaftLog}
use yaraft.ReadOnly
use yaraft.ReadOnly.{read_only_safe}
use yaraft.Unstable
use yaraft.Util
use yaraft.Raft.State.{Raft, StateType, follower, candidate, leader, no_node}
use yaraft.Raft.Replicate
use yaraft.Raft.State
use yaraft.Assoc
use yaraft.Raft.Roles
use yaraft.Raft.Step
use yaraft.Raft.Step.{step, step_own, is_leader}
use yaraft.Raft.Quorum.{IsQuorumIndex, CommitOf, maybe_commit-IsQuorum}
use yaraft.Raft.Turn.{Turn}
use yaraft.Raft.Turn.Stepping.{step-Turn}
use yaraft.Raft.Acks.{GoesOn, after_match_lem}
use yaraft.Raft.Leader.{send_fuel}
use yaraft.Raft.Sending.{Sends, IsBounded, send_all-Sends}
use yaraft.Raft.Timeout.{IsWaiting, ticks, waited, ticks_lem}
use yaraft.Raft.Later.{Later}
use yaraft.Raft.Later.Stepping.{step-Later}

abbrev empty_log : RaftLog
empty_log = record {
  storage = MemoryStorage.to_storage MemoryStorage.init;
  unstable = record { snapshot = none; entries = []; offset = 1 };
  committed = 0;
  applied = 0;
  max_msg_size = 100;
}

abbrev new_progress : ℕ → ℕ → Progress
new_progress next matched = record {
  next = next;
  matched = matched;
  state = Progress.probe;
  paused = false;
  pending_snapshot = 0;
  recent_active = false;
  ins = record { start = 0; count = 0; capacity = 4; buffer = [] };
  is_learner = false;
}

-- A follower at term 1 of the nodes 1, 2 and 3.
abbrev pub node : Raft
node = record {
  id = 1;
  term = 1;
  vote = no_node;
  read_states = [];
  raft_log = empty_log;
  max_inflight = 4;
  max_msg_size = 100;
  prs = (1, new_progress 1 0) ∷ (2, new_progress 1 0) ∷ (3, new_progress 1 0) ∷ [];
  learner_prs = [];
  state = follower;
  is_learner = false;
  votes = [];
  msgs = [];
  lead = no_node;
  lead_transferee = no_node;
  pending_conf_index = 0;
  read_only = record { option = read_only_safe; pending_read_index = []; read_index_queue = [] };
  election_elapsed = 5;
  heartbeat_elapsed = 0;
  check_quorum = false;
  pre_vote = false;
  heartbeat_timeout = 1;
  election_timeout = 10;
  randomized_election_timeout = 12;
  disable_proposal_forwarding = false;
  random = λ k n. 3;
  draws = 0;
  reserve = λ c. c;
}

-- Node 2 asks for a vote at term 2.
abbrev request : Message
request = record empty_message { msg_type = msg_vote; to = 1; from = 2; term = 2 }

-- The node has gone to term 2 and has voted for node 2.
abbrev voted : Raft
voted = record node {
  term = 2;
  vote = 2;
  election_elapsed = 0;
  randomized_election_timeout = 13;
  draws = 1;
  msgs = record empty_message { msg_type = msg_vote_resp; to = 2; from = 1; term = 2 } ∷ [];
}

step-request : step request node ≡ ok (voted, none)
unfolding step Step.step_later Step.in_lease Step.is_vote Step.is_pre_vote Step.is_pre_vote_resp
    Step.is_pre_campaign Step.lead_of Step.is_leader_call Step.is_snap Step.dispatch Step.step_vote
    Step.can_vote Step.grant_vote Step.vote_resp_type Roles.become_follower Roles.reset
    Roles.reset_with Roles.renew Roles.last_for_reset Replicate.send State.progress_ids Assoc.keys
    Progress.make Inflights.init ReadOnly.init RaftLog.last_index RaftLog.last_term
    RaftLog.first_index RaftLog.term RaftLog.is_up_to_date Replicate.stamp Replicate.is_vote_message
    Unstable.maybe_first_index Unstable.maybe_last_index Unstable.maybe_term MemoryStorage.init
    MemoryStorage.to_storage MemoryStorage.first_index MemoryStorage.last_index
    MemoryStorage.front_index MemoryStorage.term bytes_eq
step-request = refl

step-Later_example : Later node voted
step-Later_example =
    step-Later request node (omega arith) (omega arith) (inr (omega arith)) step-request

-- A leader at term 1 whose log has two entries, both stored by the nodes 1 and 2.
abbrev leading : Raft
leading = record node {
  state = leader;
  lead = 1;
  prs = (1, new_progress 3 2) ∷ (2, new_progress 3 2) ∷ (3, new_progress 1 0) ∷ [];
  raft_log = record empty_log {
    unstable = record {
      snapshot = none;
      entries =
          record empty_entry { index = 1; term = 1 }
          ∷ record empty_entry { index = 2; term = 1 }
          ∷ [];
      offset = 1;
    };
  };
}

abbrev committing : Raft
committing = record leading { raft_log = record leading.raft_log { committed = 2 } }

commit-leading : Replicate.maybe_commit leading ≡ ok (committing, true)
unfolding Replicate.maybe_commit State.quorum Replicate.sort_desc Replicate.insert_desc
    Replicate.match_indexes RaftLog.maybe_commit RaftLog.commit_to
    RaftLog.zero_term_on_err_compacted RaftLog.term RaftLog.first_index RaftLog.last_index
    Unstable.maybe_first_index Unstable.maybe_last_index Unstable.maybe_term
    MemoryStorage.to_storage MemoryStorage.init MemoryStorage.first_index MemoryStorage.last_index
    MemoryStorage.front_index
commit-leading = refl

maybe_commit-IsQuorum_example :
    (c : ℕ) × IsQuorumIndex c leading × CommitOf leading c (committing, true)
maybe_commit-IsQuorum_example = maybe_commit-IsQuorum leading commit-leading

-- A candidate at term 2 with its own vote, and the second vote.
abbrev pub campaigning : Raft
campaigning = record node {
  term = 2;
  vote = 1;
  state = candidate;
  votes = (1, true) ∷ [];
  election_elapsed = 0;
  randomized_election_timeout = 13;
  draws = 1;
}

abbrev pub second_vote : Message
second_vote = record empty_message { msg_type = msg_vote_resp; to = 1; from = 2; term = 2 }

abbrev pub first_entry : Entry
first_entry = record empty_entry { index = 1; term = 2 }

abbrev first_append : ℕ → Message
first_append to = record empty_message {
  msg_type = msg_app;
  to = to;
  from = 1;
  term = 2;
  entries = first_entry ∷ [];
}

-- The leader after the second vote: it has appended an empty entry and sent it on.
abbrev pub elected : Raft
elected = record campaigning {
  state = leader;
  lead = 1;
  votes = [];
  draws = 2;
  prs =
      (1, new_progress 2 1)
      ∷ (2, record (new_progress 1 0) { paused = true })
      ∷ (3, record (new_progress 1 0) { paused = true })
      ∷ [];
  raft_log = record empty_log {
    unstable = record { snapshot = none; entries = first_entry ∷ []; offset = 1 };
  };
  msgs = first_append 2 ∷ first_append 3 ∷ [];
}

pub step-second_vote : step second_vote campaigning ≡ ok (elected, none)
unfolding step Step.dispatch Step.step_role Step.step_candidate Step.candidate_case
    Step.is_my_vote_resp Step.count_vote Step.won Roles.poll Roles.granted Roles.become_leader
    Roles.is_follower Roles.reset Roles.reset_with Roles.renew Roles.last_for_reset
    Replicate.append_entry Replicate.number_entries Replicate.bcast_append Replicate.for_each_other
    Replicate.send_append Replicate.maybe_send_append Replicate.send_append_or_snapshot
    Replicate.send_entries Replicate.after_append Replicate.last_index_of Replicate.is_empty
    Replicate.send Replicate.stamp Replicate.is_vote_message Replicate.is_forwarded
    Replicate.maybe_commit State.quorum Replicate.sort_desc Replicate.insert_desc
    Replicate.match_indexes State.progress_ids State.with_progress State.get_progress
    State.put_progress Assoc.keys Assoc.find Assoc.insert Assoc.has_key Progress.make
    Progress.maybe_update Progress.pause Progress.is_paused Inflights.init ReadOnly.init
    RaftLog.maybe_commit RaftLog.append RaftLog.entries RaftLog.slice
    RaftLog.must_check_out_of_bounds RaftLog.last_index RaftLog.first_index RaftLog.term
    Unstable.truncate_and_append Unstable.slice Unstable.maybe_first_index Unstable.maybe_last_index
    Unstable.maybe_term MemoryStorage.init MemoryStorage.to_storage MemoryStorage.first_index
    MemoryStorage.last_index MemoryStorage.front_index MemoryStorage.term
    Unstable.must_check_out_of_bounds Util.slice Util.limit_size
step-second_vote = refl

step-Turn_example : Turn second_vote campaigning elected
step-Turn_example = step-Turn second_vote campaigning step-second_vote

-- A follower that replicates, with 7 and 8 in flight.
abbrev replicating : Progress
replicating = record (new_progress 9 6) {
  state = Progress.replicate;
  ins = record { start = 0; count = 2; capacity = 4; buffer = 7 ∷ 8 ∷ [] };
}

replicating-IsValid : IsValid replicating
replicating-IsValid = ground arith

after_match_lem_example : (p' : Progress) × GoesOn 7 replicating p'
unfolding Inflights.rotate
after_match_lem_example =
    after_match_lem 7 replicating replicating-IsValid (omega arith) ((omega arith, tt), (tt, tt))

abbrev waiting : Progress
waiting = new_progress 1 0

waiting-IsBounded : IsBounded waiting
waiting-IsBounded = ground arith

waiting_found : State.get_progress leading 3 ≡ some waiting
unfolding State.get_progress Assoc.find
waiting_found = refl

send_all-Sends_example : Sends 3 leading (Replicate.send_all (send_fuel waiting) 3 leading)
send_all-Sends_example = send_all-Sends 3 waiting leading waiting_found waiting-IsBounded

-- The node takes the tick at which its timeout of 12 is reached.
node-IsWaiting : IsWaiting node
unfolding is_leader State.promotable Assoc.has_key Assoc.find
node-IsWaiting = ground arith

ticks_lem_example :
    ((5 + 7 < 12) × (ticks 7 node ≡ ok (waited 7 node)))
    ⊎ ((5 + 7 ≡ 12) × (ticks 7 node ≡ step_own msg_hup (record node { election_elapsed = 0 })))
ticks_lem_example = ticks_lem 7 node node-IsWaiting (omega arith) (omega arith)
