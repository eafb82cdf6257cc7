-- ===== src/Raft/Sent/Elections.antt =====
-- What elections and changes of role put out.
use yaraft.Prelude.{ℕ, ◌+◌, ◌<◌, ◌≡◌, refl, Bool, false, List, arith, u64_mod}
use yaraft.Outcome.{ok}
use yaraft.Idl.{Entry, MessageType, msg_vote, msg_pre_vote}
use yaraft.Progress.{Progress}
use yaraft.Raft.State.{Raft, with_progress}
use yaraft.Raft.Replicate.{maybe_commit, append_entry}
use yaraft.Raft.Roles.{
  CampaignType, pre_election, election, transfer, reset, reset_with, become_follower,
  become_candidate, become_pre_candidate, become_leader, poll, request_vote, request_votes,
  campaign_election, campaign_pre_election, campaign,
}
use yaraft.Raft.Sent.{
  Speech, Spoke, is_grant, Spoke-refl, Spoke-trans, Spoke-term, Spoke-same, send-Spoke,
  put_progress-Spoke, for_each_other-Spoke,
}

reset_msgs :
    (term : ℕ) (r : Raft) {r' : Raft}
    → reset term r ≡ ok r'
    → (r'.id ≡ r.id) × (r'.term ≡ term) × (r'.msgs ≡ r.msgs)
unfolding reset reset_with
reset_msgs term r e = ground arith

pub become_follower_msgs :
    (term lead : ℕ) (r : Raft) {r' : Raft}
    → become_follower term lead r ≡ ok r'
    → (r'.id ≡ r.id) × (r'.term ≡ term) × (r'.msgs ≡ r.msgs)
unfolding become_follower
become_follower_msgs term lead r e = grind (arith, reset_msgs)

become_candidate_msgs :
    (r : Raft) {r' : Raft}
    → r.term + 1 < u64_mod
    → become_candidate r ≡ ok r'
    → (r'.id ≡ r.id) × (0 < r'.term) × (r'.msgs ≡ r.msgs)
unfolding become_candidate
become_candidate_msgs r h e = grind (arith, reset_msgs)

become_pre_candidate_msgs :
    (r : Raft) {r' : Raft}
    → become_pre_candidate r ≡ ok r'
    → (r'.id ≡ r.id) × (r'.term ≡ r.term) × (r'.msgs ≡ r.msgs)
unfolding become_pre_candidate
become_pre_candidate_msgs r e = ground arith

pub poll_term : (id : ℕ) (v : Bool) (r : Raft) → (poll id v r).0.term ≡ r.term
unfolding poll
poll_term id v r = refl

module _ (s : Speech) where
  pub maybe_commit-Spoke : (r : Raft) {p : Raft × Bool} → maybe_commit r ≡ ok p → Spoke s r p.0
  unfolding maybe_commit
  maybe_commit-Spoke r e = grind (arith, Spoke-refl s)

  with_progress-Spoke :
      (id : ℕ) (f : Progress → Progress) (r : Raft) {r' : Raft}
      → with_progress id f r ≡ ok r'
      → Spoke s r r'
  unfolding with_progress
  with_progress-Spoke id f r e = grind (arith, put_progress-Spoke s)

  pub append_entry-Spoke :
      (es : List Entry) (r : Raft) {r' : Raft} → append_entry es r ≡ ok r' → Spoke s r r'
  unfolding append_entry
  append_entry-Spoke es r e = grind (arith, with_progress-Spoke, maybe_commit-Spoke, Spoke-trans s)

  pub become_follower-Spoke :
      (term lead : ℕ) (r : Raft) {r' : Raft}
      → 0 < term
      → become_follower term lead r ≡ ok r'
      → Spoke s r r'
  become_follower-Spoke term lead r {r' = r'} h e =
      let (i, t, m) = become_follower_msgs term lead r e in Spoke-term s r r' i (omega (arith, t)) m

  pub own_follower-Spoke :
      (lead : ℕ) (r : Raft) {r' : Raft} → become_follower r.term lead r ≡ ok r' → Spoke s r r'
  own_follower-Spoke lead r {r' = r'} e =
      let (i, t, m) = become_follower_msgs r.term lead r e in Spoke-same s r r' i t m

  become_candidate-Spoke :
      (r : Raft) {r' : Raft} → r.term + 1 < u64_mod → become_candidate r ≡ ok r' → Spoke s r r'
  become_candidate-Spoke r {r' = r'} h e =
      let (i, t, m) = become_candidate_msgs r h e in Spoke-term s r r' i t m

  become_pre_candidate-Spoke :
      (r : Raft) {r' : Raft} → become_pre_candidate r ≡ ok r' → Spoke s r r'
  become_pre_candidate-Spoke r {r' = r'} e =
      let (i, t, m) = become_pre_candidate_msgs r e in Spoke-same s r r' i t m

  reset-Spoke : (r : Raft) {r' : Raft} → reset r.term r ≡ ok r' → Spoke s r r'
  reset-Spoke r {r' = r'} e = let (i, t, m) = reset_msgs r.term r e in Spoke-same s r r' i t m

  pub become_leader-Spoke : (r : Raft) {r' : Raft} → become_leader r ≡ ok r' → Spoke s r r'
  unfolding become_leader
  become_leader-Spoke r e = grind (arith, reset-Spoke, append_entry-Spoke, Spoke-trans s)

  pub poll-Spoke : (id : ℕ) (v : Bool) (r : Raft) → Spoke s r (poll id v r).0
  unfolding poll
  poll-Spoke id v r = Spoke-refl s r

  request_vote-Spoke :
      (vote_msg : MessageType) (term : ℕ) (t : CampaignType) (id : ℕ) (r : Raft) {r' : Raft}
      → is_grant vote_msg false ≡ false
      → request_vote vote_msg term t id r ≡ ok r'
      → Spoke s r r'
  unfolding request_vote
  request_vote-Spoke vote_msg term t id r g e = grind (arith, send-Spoke s)

  request_votes-Spoke :
      (vote_msg : MessageType) (term : ℕ) (t : CampaignType) (r : Raft) {r' : Raft}
      → is_grant vote_msg false ≡ false
      → request_votes vote_msg term t r ≡ ok r'
      → Spoke s r r'
  unfolding request_votes
  request_votes-Spoke vote_msg term t r g e =
      for_each_other-Spoke s (request_vote vote_msg term t)
        (λ to q q'. request_vote-Spoke vote_msg term t to q g) _ r e

  votes_asked :
      (term : ℕ) (t : CampaignType) (r : Raft) {r' : Raft}
      → request_votes msg_vote term t r ≡ ok r'
      → Spoke s r r'
  unfolding is_grant
  votes_asked term t r e = request_votes-Spoke msg_vote term t r refl e

  pre_votes_asked :
      (term : ℕ) (t : CampaignType) (r : Raft) {r' : Raft}
      → request_votes msg_pre_vote term t r ≡ ok r'
      → Spoke s r r'
  unfolding is_grant
  pre_votes_asked term t r e = request_votes-Spoke msg_pre_vote term t r refl e

  campaign_election-Spoke :
      (t : CampaignType) (r : Raft) {r' : Raft}
      → r.term + 1 < u64_mod
      → campaign_election t r ≡ ok r'
      → Spoke s r r'
  unfolding campaign_election
  campaign_election-Spoke t r h e =
      grind
        (arith, become_candidate-Spoke, poll-Spoke, become_leader-Spoke, votes_asked, Spoke-trans s)

  campaign_pre_election-Spoke :
      (r : Raft) {r' : Raft} → r.term + 1 < u64_mod → campaign_pre_election r ≡ ok r' → Spoke s r r'
  unfolding campaign_pre_election
  campaign_pre_election-Spoke r h e = grind (
    arith,
    become_pre_candidate-Spoke,
    become_pre_candidate_msgs,
    poll-Spoke,
    poll_term,
    campaign_election-Spoke,
    pre_votes_asked,
    Spoke-trans s,
  )

  pub campaign-Spoke :
      (t : CampaignType) (r : Raft) {r' : Raft}
      → r.term + 1 < u64_mod
      → campaign t r ≡ ok r'
      → Spoke s r r'
  unfolding campaign
  campaign-Spoke pre_election r h e = campaign_pre_election-Spoke r h e
  campaign-Spoke election r h e = campaign_election-Spoke election r h e
  campaign-Spoke transfer r h e = campaign_election-Spoke transfer r h e
