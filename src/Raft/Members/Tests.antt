-- ===== src/Raft/Members/Tests.antt =====
-- Node 4, a learner, is made a voter.
use yaraft.Prelude.{◌≡◌, refl, true, false, [], ◌∷◌, arith}
use yaraft.Outcome.{ok}
use yaraft.Assoc
use yaraft.Assoc.{find}
use yaraft.Progress.{Progress, probe}
use yaraft.Raft.State
use yaraft.Raft.State.{Raft}
use yaraft.Raft.Membership
use yaraft.Raft.Membership.{add_node_or_learner_node}
use yaraft.Raft.Tests.{node}
use yaraft.Raft.Members.{AreMembers, Becomes, kind, joined, add_node_or_learner_node-Becomes}

abbrev learning : Progress
learning = record {
  next = 1;
  matched = 0;
  state = probe;
  paused = false;
  pending_snapshot = 0;
  recent_active = false;
  ins = record { start = 0; count = 0; capacity = 4; buffer = [] };
  is_learner = true;
}

abbrev with_learner : Raft
with_learner = record node { learner_prs = (4, learning) ∷ [] }

abbrev with_voter : Raft
with_voter = record node {
  prs = Assoc.insert 4 (record learning { recent_active = true; is_learner = false }) node.prs;
}

add_node-learner : add_node_or_learner_node 4 false with_learner ≡ ok with_voter
unfolding add_node_or_learner_node Membership.add_known Membership.same_bool Membership.welcome
    State.with_progress State.get_progress State.put_progress Assoc.has_key Assoc.find Assoc.insert
    Assoc.erase
add_node-learner = refl

with_learner-AreMembers : AreMembers with_learner
unfolding find
with_learner-AreMembers = record {
  voters = ((omega arith, (omega arith, tt)), ((omega arith, tt), (tt, tt)));
  learners = (tt, tt);
  apart = λ j. ground arith;
  voting = λ j p f. ground (arith, f);
  learning = λ j p f. ground (arith, f);
}

add_node_or_learner_node-Becomes_example : Becomes 4 false with_learner with_voter
unfolding kind joined find
add_node_or_learner_node-Becomes_example =
    add_node_or_learner_node-Becomes 4 false with_learner with_learner-AreMembers add_node-learner
