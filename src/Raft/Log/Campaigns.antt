-- ===== src/Raft/Log/Campaigns.antt =====
-- What elections make of a node's log.
use yaraft.Prelude.{ℕ, ◌≡◌, refl, sym, subst, Bool, List, [], ◌∷◌, length, arith}
use yaraft.Outcome.{ok}
use yaraft.Idl.{Entry, empty_entry}
use yaraft.RaftLog.{RaftLog}
use yaraft.RaftLog.Append.{IsJoined}
use yaraft.Raft.State.{Raft}
use yaraft.Raft.Replicate.{append_entry, maybe_commit, bcast_append}
use yaraft.Raft.Roles.{
  CampaignType, pre_election, election, transfer, become_follower, become_candidate,
  become_pre_candidate, become_leader, poll, campaign_election, campaign_pre_election, campaign,
}
use yaraft.Raft.Same.{Same, bcast_append-Same}
use yaraft.Raft.Later.Elections.{reset_term, request_votes-Same}
use yaraft.Raft.Log.{IsKept, IsKept-refl, IsKept-trans, HasRoom}
use yaraft.Raft.Log.Growing.{Same-IsKept, append_entry-IsKept, maybe_commit_log}

pub become_follower_log :
    (term lead : ℕ) (r : Raft) {r' : Raft}
    → become_follower term lead r ≡ ok r'
    → r'.raft_log ≡ r.raft_log
unfolding become_follower
become_follower_log term lead r run = grind (arith, reset_term)

become_candidate_log :
    (r : Raft) {r' : Raft} → become_candidate r ≡ ok r' → r'.raft_log ≡ r.raft_log
unfolding become_candidate
become_candidate_log r run = grind (arith, reset_term)

become_pre_candidate_log :
    (r : Raft) {r' : Raft} → become_pre_candidate r ≡ ok r' → r'.raft_log ≡ r.raft_log
unfolding become_pre_candidate
become_pre_candidate_log r run = ground arith

pub poll_log : (id : ℕ) (v : Bool) (r : Raft) → (poll id v r).0.raft_log ≡ r.raft_log
unfolding poll
poll_log id v r = refl

-- The node has a log that comes after `l`.
unfoldable pub Keeps : RaftLog → Raft → Type 0
Keeps l r = IsKept l r.raft_log

-- The log that a node starts from.
module _ (l : RaftLog) (v : IsJoined l) where
  pub same-Keeps : (r : Raft) → r.raft_log ≡ l → Keeps l r
  unfolding Keeps
  same-Keeps r e = subst (λ x. IsKept l x) (sym e) (IsKept-refl l v)

  pub then_Same : (s : Raft) {r' : Raft} → Keeps l s → Same s r' → Keeps l r'
  unfolding Keeps
  then_Same s k h = IsKept-trans k (Same-IsKept k.joins h)

  pub then_bcast : (s : Raft) {r' : Raft} → Keeps l s → bcast_append s ≡ ok r' → Keeps l r'
  then_bcast s k run = then_Same s k (bcast_append-Same s run)

  pub append_entry-from :
      (es : List Entry) (r : Raft) {r' : Raft}
      → r.raft_log ≡ l
      → HasRoom l (length es)
      → append_entry es r ≡ ok r'
      → Keeps l r'
  unfolding Keeps
  append_entry-from es r {r' = r'} e h run =
      subst (λ x. (IsJoined x → HasRoom x (length es) → IsKept x r'.raft_log)) e
        (λ a b. append_entry-IsKept es r a b run) v h

  pub maybe_commit-from :
      (r : Raft) {p : Raft × Bool} → r.raft_log ≡ l → maybe_commit r ≡ ok p → Keeps l p.0
  unfolding Keeps
  maybe_commit-from r {p = p} e run =
      subst (λ x. (IsJoined x → IsKept x p.0.raft_log)) e (λ a. maybe_commit_log r a run) v

  append_empty :
      (r : Raft) {r' : Raft}
      → r.raft_log ≡ l
      → HasRoom l 1
      → append_entry (empty_entry ∷ []) r ≡ ok r'
      → Keeps l r'
  append_empty = append_entry-from (empty_entry ∷ [])

  pub become_leader-Keeps :
      (r : Raft) {r' : Raft} → r.raft_log ≡ l → HasRoom l 1 → become_leader r ≡ ok r' → Keeps l r'
  unfolding become_leader
  become_leader-Keeps r e h run = grind (arith, reset_term, append_empty)

  campaign_election-Keeps :
      (t : CampaignType) (r : Raft) {r' : Raft}
      → r.raft_log ≡ l
      → HasRoom l 1
      → campaign_election t r ≡ ok r'
      → Keeps l r'
  unfolding campaign_election
  campaign_election-Keeps t r e h run = grind (
    arith, become_candidate_log, poll_log, become_leader-Keeps, request_votes-Same, same-Keeps,
    then_Same,
  )

  campaign_pre_election-Keeps :
      (r : Raft) {r' : Raft}
      → r.raft_log ≡ l
      → HasRoom l 1
      → campaign_pre_election r ≡ ok r'
      → Keeps l r'
  unfolding campaign_pre_election
  campaign_pre_election-Keeps r e h run = grind (
    arith, become_pre_candidate_log, poll_log, campaign_election-Keeps, request_votes-Same,
    same-Keeps, then_Same,
  )

  pub campaign-Keeps :
      (t : CampaignType) (r : Raft) {r' : Raft}
      → r.raft_log ≡ l
      → HasRoom l 1
      → campaign t r ≡ ok r'
      → Keeps l r'
  unfolding campaign
  campaign-Keeps pre_election r e h run = campaign_pre_election-Keeps r e h run
  campaign-Keeps election r e h run = campaign_election-Keeps election r e h run
  campaign-Keeps transfer r e h run = campaign_election-Keeps transfer r e h run
