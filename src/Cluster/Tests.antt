-- ===== src/Cluster/Tests.antt =====
-- The nodes 1, 2 and 3 elect node 1 at term 2.
use yaraft.Prelude.{ℕ, ◌≡◌, ◌<◌, refl, true, [], ◌∷◌, List, ◌++◌, none, arith, bytes_eq}
use yaraft.Outcome.{ok}
use yaraft.Idl.{Message, empty_message, msg_hup, msg_vote}
use yaraft.Raft.State.{Raft, candidate, leader}
use yaraft.Raft.Tests.{node, campaigning, second_vote, elected, step-second_vote}
use yaraft.Raft.Step
use yaraft.Raft.Step.{step}
use yaraft.Raft.Roles
use yaraft.Raft.Replicate
use yaraft.Raft.Replicate.{is_vote_message}
use yaraft.Raft.State
use yaraft.Assoc
use yaraft.Progress
use yaraft.Inflights
use yaraft.ReadOnly
use yaraft.RaftLog
use yaraft.Unstable
use yaraft.MemoryStorage
use yaraft.Cluster.{
  Cluster, put_node, is_voter, is_local, from_net, from_host, takes, collects, IsStart, Reach, here,
  later,
}
use yaraft.Cluster.Safety.{leaders-IsOne}

abbrev voters : List ℕ
voters = 1 ∷ 2 ∷ 3 ∷ []

abbrev node_of : ℕ → Raft
node_of i = record node { id = i }

abbrev start : Cluster
start = record { node = node_of; net = [] }

abbrev hup : Message
hup = record empty_message { msg_type = msg_hup; from = 1 }

abbrev request_to : ℕ → Message
request_to i = record empty_message { msg_type = msg_vote; to = i; from = 1; term = 2 }

-- Node 1 asks for votes.
abbrev asking : Raft
asking = record campaigning { msgs = request_to 2 ∷ request_to 3 ∷ [] }

step-hup : step hup (node_of 1) ≡ ok (asking, none)
unfolding step Step.dispatch Step.step_hup Step.start_campaign Step.num_of_pending_conf
    Roles.campaign Roles.campaign_election Roles.become_candidate Roles.is_leader Roles.reset
    Roles.reset_with Roles.renew Roles.last_for_reset Roles.poll Roles.granted Roles.request_votes
    Roles.request_vote Roles.campaign_ctx Replicate.for_each_other Replicate.send Replicate.stamp
    is_vote_message State.quorum State.progress_ids Assoc.keys Assoc.find Assoc.insert Assoc.has_key
    Progress.make Inflights.init ReadOnly.init RaftLog.last_index RaftLog.last_term
    RaftLog.first_index RaftLog.term RaftLog.slice RaftLog.must_check_out_of_bounds
    Unstable.maybe_first_index Unstable.maybe_last_index Unstable.maybe_term MemoryStorage.init
    MemoryStorage.to_storage MemoryStorage.first_index MemoryStorage.last_index
    MemoryStorage.front_index MemoryStorage.term
step-hup = refl

-- Node 2 votes for node 1.
abbrev voting : Raft
voting = record (node_of 2) {
  term = 2;
  vote = 1;
  election_elapsed = 0;
  randomized_election_timeout = 13;
  draws = 1;
  msgs = second_vote ∷ [];
}

step-request_to : step (request_to 2) (node_of 2) ≡ ok (voting, none)
unfolding step Step.step_later Step.in_lease Step.is_vote Step.is_pre_vote Step.is_pre_vote_resp
    Step.is_pre_campaign Step.lead_of Step.is_leader_call Step.is_snap Step.dispatch Step.step_vote
    Step.can_vote Step.grant_vote Step.vote_resp_type Roles.become_follower Roles.reset
    Roles.reset_with Roles.renew Roles.last_for_reset Replicate.send State.progress_ids Assoc.keys
    Progress.make Inflights.init ReadOnly.init RaftLog.last_index RaftLog.last_term
    RaftLog.first_index RaftLog.term RaftLog.is_up_to_date Replicate.stamp Replicate.is_vote_message
    Unstable.maybe_first_index Unstable.maybe_last_index Unstable.maybe_term MemoryStorage.init
    MemoryStorage.to_storage MemoryStorage.first_index MemoryStorage.last_index
    MemoryStorage.front_index MemoryStorage.term bytes_eq
step-request_to = refl

start-IsStart : IsStart voters start
unfolding Assoc.keys
start-IsStart = record {
  quiet = refl;
  ids = λ i h. refl;
  terms = λ i h. omega arith;
  states = λ i h. refl;
  messages = λ i h. refl;
  voter_ids = λ i h. refl;
}

ids_are_positive : (i : ℕ) → is_voter voters i ≡ true → 0 < i
unfolding is_voter
ids_are_positive i h = ground arith

-- The messages of node `i` go out.
abbrev send_out : ℕ → Cluster → Cluster
send_out i c = record (put_node i (record (c.node i) { msgs = [] }) c) {
  net = c.net ++ (c.node i).msgs;
}

-- Node 1 campaigns, its requests go out, node 2 votes, its answer goes out, and node 1 takes it.
abbrev asked : Cluster
asked = send_out 1 (put_node 1 asking start)

abbrev voted : Cluster
voted = send_out 2 (put_node 2 voting asked)

abbrev led : Cluster
led = put_node 1 elected voted

asked-Reach : Reach voters start asked
unfolding is_voter is_local is_vote_message Assoc.keys Step.is_leader_call Step.is_snap
asked-Reach =
    let campaign = takes 1 hup refl (from_host refl) (omega arith) (omega arith) step-hup refl in
    later (later here campaign) (collects 1 refl)

voted-Reach : Reach voters start voted
unfolding is_voter Assoc.keys
voted-Reach =
    let votes =
      takes 2 (request_to 2) refl (from_net 0 refl refl) (omega arith) (omega arith) step-request_to
        refl in
    later (later asked-Reach votes) (collects 2 refl)

led-Reach : Reach voters start led
unfolding is_voter Assoc.keys
led-Reach = later voted-Reach (
    takes 1 second_vote refl (from_net 2 refl refl) (omega arith) (omega arith) step-second_vote
      refl)

sent_on-Reach : Reach voters led (send_out 1 led)
unfolding is_voter
sent_on-Reach = later here (collects 1 refl)

leaders-IsOne_example : ◌≡◌ {A = ℕ} 1 1
unfolding is_voter
leaders-IsOne_example =
    leaders-IsOne ids_are_positive start-IsStart led-Reach sent_on-Reach 1 1 refl refl refl refl
      refl
