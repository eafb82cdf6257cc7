-- ===== src/Raft/Turn/Campaigning.antt =====
-- Campaigns, and the role that they end in.
use yaraft.Prelude.{ℕ, refl, ◌≡◌, Bool, true, [], ◌∷◌, arith}
use yaraft.Outcome.{ok}
use yaraft.Assoc
use yaraft.Raft.State.{Raft, leader}
use yaraft.Raft.Roles.{
  CampaignType, pre_election, election, transfer, reset, reset_with, become_candidate,
  become_leader, poll, campaign_election, campaign_pre_election, campaign,
}
use yaraft.Raft.Ballot.{become_candidate_lem, become_pre_candidate_lem, poll_lem, poll_first}
use yaraft.Raft.Later.Elections.{request_votes-Same}
use yaraft.Raft.Turn.{Campaigned}
use yaraft.Raft.Turn.Handling.{append_entry-Stays}

reset_vote :
    (r : Raft) {r' : Raft}
    → reset r.term r ≡ ok r'
    → (r'.id ≡ r.id) × (r'.term ≡ r.term) × (r'.vote ≡ r.vote)
unfolding reset reset_with
reset_vote r e = ground arith

pub become_leader_lem :
    (r : Raft) {r' : Raft}
    → become_leader r ≡ ok r'
    → (r'.state ≡ leader) × (r'.id ≡ r.id) × (r'.term ≡ r.term) × (r'.vote ≡ r.vote)
unfolding become_leader
become_leader_lem r e = grind (arith, reset_vote, append_entry-Stays)

candidate_vote : (r : Raft) {r' : Raft} → become_candidate r ≡ ok r' → r'.vote ≡ r'.id
unfolding become_candidate
candidate_vote r e = ground arith

poll_votes : (id : ℕ) (r : Raft) → r.votes ≡ [] → (poll id true r).0.votes ≡ (id, true) ∷ []
unfolding poll Assoc.insert Assoc.has_key Assoc.find
poll_votes id r h = rw h refl

pub poll_same :
    (id : ℕ) (v : Bool) (r : Raft)
    → ((poll id v r).0.id ≡ r.id)
      × ((poll id v r).0.term ≡ r.term)
      × ((poll id v r).0.vote ≡ r.vote)
unfolding poll
poll_same id v r = ground arith

campaign_election-Campaigned :
    (t : CampaignType) (r : Raft) {r' : Raft} → campaign_election t r ≡ ok r' → Campaigned r r'
unfolding campaign_election
campaign_election-Campaigned t r e = grind (
  arith, become_candidate_lem, candidate_vote, poll_lem, poll_first, poll_votes, poll_same,
  become_leader_lem, request_votes-Same,
)

campaign_pre_election-Campaigned :
    (r : Raft) {r' : Raft} → campaign_pre_election r ≡ ok r' → Campaigned r r'
unfolding campaign_pre_election
campaign_pre_election-Campaigned r e = grind (
  arith, become_pre_candidate_lem, poll_lem, poll_first, campaign_election-Campaigned,
  request_votes-Same,
)

pub campaign-Campaigned :
    (t : CampaignType) (r : Raft) {r' : Raft} → campaign t r ≡ ok r' → Campaigned r r'
unfolding campaign
campaign-Campaigned pre_election r e = campaign_pre_election-Campaigned r e
campaign-Campaigned election r e = campaign_election-Campaigned election r e
campaign-Campaigned transfer r e = campaign_election-Campaigned transfer r e
