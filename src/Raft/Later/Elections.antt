-- ===== src/Raft/Later/Elections.antt =====
-- Elections and changes of role only go forward.
use yaraft.Prelude.{ℕ, ◌+◌, ◌≤◌, ◌<◌, ◌≡◌, Bool, List, arith, u64_mod}
use yaraft.Outcome.{ok}
use yaraft.Idl.{Entry, MessageType}
use yaraft.RaftLog.Commit.{committed-append, maybe_commit-le}
use yaraft.Raft.State.{Raft, with_progress}
use yaraft.Raft.Replicate.{maybe_commit, append_entry}
use yaraft.Raft.Roles.{
  CampaignType, pre_election, election, transfer, reset, reset_with, become_follower,
  become_candidate, become_pre_candidate, become_leader, poll, request_vote, request_votes,
  campaign_election, campaign_pre_election, campaign,
}
use yaraft.Raft.Same.{Same, put_progress-Same, send-Same, for_each_other-Same}
use yaraft.Raft.Later.{Later, Later-trans, Same-Later}
use yaraft.Progress.{Progress}

pub maybe_commit-Later : (r : Raft) {p : Raft × Bool} → maybe_commit r ≡ ok p → Later r p.0
unfolding maybe_commit
maybe_commit-Later r e = grind (arith, maybe_commit-le)

pub with_progress-Same :
    (id : ℕ) (f : Progress → Progress) (r : Raft) {r' : Raft}
    → with_progress id f r ≡ ok r'
    → Same r r'
unfolding with_progress
with_progress-Same id f r e = grind (arith, put_progress-Same)

pub append_entry-Later :
    (es : List Entry) (r : Raft) {r' : Raft} → append_entry es r ≡ ok r' → Later r r'
unfolding append_entry
append_entry-Later es r e = grind (arith, committed-append, with_progress-Same, maybe_commit-Later)

-- `reset` to a term that is not behind, and what else it leaves.
reset-Later : (term : ℕ) (r : Raft) {r' : Raft} → r.term ≤ term → reset term r ≡ ok r' → Later r r'
unfolding reset reset_with
reset-Later term r h e = ground arith

pub reset_term :
    (term : ℕ) (r : Raft) {r' : Raft}
    → reset term r ≡ ok r'
    → (r'.term ≡ term) × (r'.raft_log ≡ r.raft_log) × (r'.id ≡ r.id)
unfolding reset reset_with
reset_term term r e = ground arith

pub become_follower-Later :
    (term lead : ℕ) (r : Raft) {r' : Raft}
    → r.term ≤ term
    → become_follower term lead r ≡ ok r'
    → Later r r'
unfolding become_follower
become_follower-Later term lead r h e = grind (arith, reset-Later)

pub become_follower_term :
    (term lead : ℕ) (r : Raft) {r' : Raft} → become_follower term lead r ≡ ok r' → r'.term ≡ term
unfolding become_follower
become_follower_term term lead r e = grind (arith, reset_term)

become_candidate-Later :
    (r : Raft) {r' : Raft}
    → r.term + 1 < u64_mod
    → become_candidate r ≡ ok r'
    → Later r r' × (r'.term ≡ r.term + 1)
unfolding become_candidate
become_candidate-Later r h e = grind (arith, reset-Later, reset_term)

become_pre_candidate-Same :
    (r : Raft) {r' : Raft} → become_pre_candidate r ≡ ok r' → Later r r' × (r'.term ≡ r.term)
unfolding become_pre_candidate
become_pre_candidate-Same r e = ground arith

pub become_leader-Later : (r : Raft) {r' : Raft} → become_leader r ≡ ok r' → Later r r'
unfolding become_leader
become_leader-Later r e = grind (arith, reset-Later, append_entry-Later, Later-trans)

pub poll-Later :
    (id : ℕ) (v : Bool) (r : Raft) → Later r (poll id v r).0 × ((poll id v r).0.term ≡ r.term)
unfolding poll
poll-Later id v r = ground arith

request_vote-Same :
    (vote_msg : MessageType) (term : ℕ) (t : CampaignType) (id : ℕ) (r : Raft) {r' : Raft}
    → request_vote vote_msg term t id r ≡ ok r'
    → Same r r'
unfolding request_vote
request_vote-Same vote_msg term t id r e = grind (arith, send-Same)

pub request_votes-Same :
    (vote_msg : MessageType) (term : ℕ) (t : CampaignType) (r : Raft) {r' : Raft}
    → request_votes vote_msg term t r ≡ ok r'
    → Same r r'
unfolding request_votes
request_votes-Same vote_msg term t r e =
    for_each_other-Same (request_vote vote_msg term t)
      (λ to s s'. request_vote-Same vote_msg term t to s) _ r e

campaign_election-Later :
    (t : CampaignType) (r : Raft) {r' : Raft}
    → r.term + 1 < u64_mod
    → campaign_election t r ≡ ok r'
    → Later r r'
unfolding campaign_election
campaign_election-Later t r h e = grind (
  arith, become_candidate-Later, poll-Later, become_leader-Later, request_votes-Same, Same-Later,
  Later-trans,
)

campaign_pre_election-Later :
    (r : Raft) {r' : Raft} → r.term + 1 < u64_mod → campaign_pre_election r ≡ ok r' → Later r r'
unfolding campaign_pre_election
campaign_pre_election-Later r h e = grind (
  arith, become_pre_candidate-Same, poll-Later, campaign_election-Later, request_votes-Same,
  Same-Later, Later-trans,
)

pub campaign-Later :
    (t : CampaignType) (r : Raft) {r' : Raft}
    → r.term + 1 < u64_mod
    → campaign t r ≡ ok r'
    → Later r r'
unfolding campaign
campaign-Later pre_election r h e = campaign_pre_election-Later r h e
campaign-Later election r h e = campaign_election-Later election r h e
campaign-Later transfer r h e = campaign_election-Later transfer r h e
