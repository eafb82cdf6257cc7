-- ===== src/Raft/New.antt =====
-- src/raft.cc and src/raft.h: making a node.
use yaraft.Prelude.{ℕ, Bool, true, false, ◌||◌, List, [], ◌∷◌, ltb, ◌==◌, if◌then◌else◌, not}
use yaraft.Outcome.{Outcome, ok, ◌>>=◌, ◌>>◌, panic_if, get_value}
use yaraft.Idl.{HardState, ConfState, is_empty_hard_state}
use yaraft.Assoc
use yaraft.Config
use yaraft.Config.{Config}
use yaraft.Progress
use yaraft.Progress.{Progress}
use yaraft.RaftLog
use yaraft.RaftLog.{RaftLog}
use yaraft.ReadOnly
use yaraft.Raft.State.{Raft, follower, no_node}
use yaraft.Raft.Roles.{become_follower}

is_empty : List ℕ → Bool
is_empty [] = true
is_empty (x ∷ xs) = false

-- The peers and learners of the configuration, or those of the storage.
unfoldable pub members : Config → ConfState → Outcome (List ℕ × List ℕ)
unfolding is_empty
members c cs =
    if not (is_empty cs.nodes) || not (is_empty cs.learners)
    then (panic_if (not (is_empty c.peers) || not (is_empty c.learners))
        >> ok (cs.nodes, cs.learners))
    else ok (c.peers, c.learners)

unfoldable pub add_peers : List ℕ → Raft → Raft
add_peers [] r = r
add_peers (p ∷ ps) r =
    add_peers ps
      (record r { prs = Assoc.insert p (Progress.make 1 0 (r.reserve r.max_inflight) false) r.prs })

unfoldable pub add_learners : List ℕ → Raft → Outcome Raft
add_learners [] r = ok r
add_learners (p ∷ ps) r =
    panic_if (Assoc.has_key p r.prs)
    >> add_learners ps (record r {
      learner_prs =
          Assoc.insert p (Progress.make 1 0 (r.reserve r.max_inflight) true) r.learner_prs;
      is_learner = if r.id == p then true else r.is_learner;
    })

unfoldable pub load_state : HardState → Raft → Outcome Raft
load_state st r = do
  last ← RaftLog.last_index r.raft_log
  panic_if (ltb st.commit r.raft_log.committed || ltb last st.commit)
  ok (record r {
    raft_log = record r.raft_log { committed = st.commit };
    term = st.term;
    vote = st.vote;
  })

-- The node before its members are known, with what the generator draws and what `reserve` gives.
unfoldable pub blank : Config → RaftLog → (ℕ → ℕ → ℕ) → (ℕ → ℕ) → Raft
blank c log random reserve = record {
  id = c.id;
  term = 0;
  vote = no_node;
  read_states = [];
  raft_log = log;
  max_inflight = c.max_inflight_msgs;
  max_msg_size = c.max_size_per_msg;
  prs = [];
  learner_prs = [];
  state = follower;
  is_learner = false;
  votes = [];
  msgs = [];
  lead = no_node;
  lead_transferee = no_node;
  pending_conf_index = 0;
  read_only = ReadOnly.init c.read_only_option;
  election_elapsed = 0;
  heartbeat_elapsed = 0;
  check_quorum = c.check_quorum;
  pre_vote = c.pre_vote;
  heartbeat_timeout = c.heartbeat_tick;
  election_timeout = c.election_tick;
  randomized_election_timeout = 0;
  disable_proposal_forwarding = c.disable_proposal_forwarding;
  random = random;
  draws = 0;
  reserve = reserve;
}

-- The end of `Raft::New`. The log message at the end evaluates the last index and the last term.
unfoldable pub finish : Config → Raft → Outcome Raft
finish c r = do
  applied ← (if ltb 0 c.applied then RaftLog.applied_to r.raft_log c.applied else ok r.raft_log)
  r' ← become_follower r.term no_node (record r { raft_log = applied })
  RaftLog.last_term r'.raft_log >>= λ _. ok tt
  ok r'

-- The members and the state of the storage.
unfoldable pub start_from : Config → HardState × ConfState → Raft → Outcome Raft
start_from c initial r = do
  chosen ← members c initial.1
  r₁ ← add_learners chosen.1 (add_peers chosen.0 r)
  r₂ ← (if is_empty_hard_state initial.0 then ok r₁ else load_state initial.0 r₁)
  finish c r₂

unfoldable pub make : Config → (ℕ → ℕ → ℕ) → (ℕ → ℕ) → Outcome Raft
make c random reserve = do
  storage ← get_value (Config.validate c)
  log ← RaftLog.init storage c.max_size_per_msg
  initial ← get_value storage.initial_state
  start_from c initial (blank c log random reserve)
