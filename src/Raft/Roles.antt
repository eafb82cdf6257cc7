-- ===== src/Raft/Roles.antt =====
-- src/raft.cc: the roles of a node, and elections.
use yaraft.Prelude.{ℕ, ◌+◌, Bool, true, false, List, [], ◌∷◌, ◌==◌, if◌then◌else◌, add64, Bytes}
use yaraft.Outcome.{Outcome, ok, ◌>>=◌, ◌>>◌, panic_if}
use yaraft.Idl.{empty_entry, empty_message, MessageType, msg_vote, msg_pre_vote}
use yaraft.Assoc
use yaraft.Progress
use yaraft.Progress.{Progress}
use yaraft.RaftLog
use yaraft.ReadOnly
use yaraft.Raft.State.{
  Raft, StateType, follower, candidate, pre_candidate, leader, no_node, quorum, progress_ids,
}
use yaraft.Raft.Replicate.{send, for_each_other, append_entry}

-- `campaignPreElection`, `campaignElection`, `campaignTransfer`
pub data CampaignType : Type 0 where
  pre_election election transfer : CampaignType

-- "CampaignTransfer"
abbrev pub campaign_transfer : Bytes
campaign_transfer =
    b'C' ∷ b'a' ∷ b'm' ∷ b'p' ∷ b'a' ∷ b'i' ∷ b'g' ∷ b'n' ∷ b'T' ∷ b'r' ∷ b'a' ∷ b'n' ∷ b's' ∷ b'f'
    ∷ b'e' ∷ b'r' ∷ []

unfoldable pub abort_leader_transfer : Raft → Raft
abort_leader_transfer r = record r { lead_transferee = no_node }

-- A new progress behind the log, for each of a map.
unfoldable pub renew : ℕ → Raft → List (ℕ × Progress) → List (ℕ × Progress)
renew last r [] = []
renew last r ((id, p) ∷ prs) =
    (
      id,
      Progress.make (add64 last 1) (if id == r.id then last else 0) (r.reserve r.max_inflight)
          p.is_learner,
    )
    ∷ renew last r prs

-- The last index, which `reset` reads only where there is a progress.
unfoldable pub last_for_reset : Raft → List ℕ → Outcome ℕ
last_for_reset r [] = ok 0
last_for_reset r (id ∷ ids) = RaftLog.last_index r.raft_log

-- What `reset` sets, given the last index.
unfoldable pub reset_with : ℕ → ℕ → Raft → Raft
reset_with term last r = record r {
  term = term;
  vote = if r.term == term then r.vote else no_node;
  lead = no_node;
  election_elapsed = 0;
  heartbeat_elapsed = 0;
  randomized_election_timeout = r.election_timeout + r.random r.draws r.election_timeout;
  draws = r.draws + 1;
  lead_transferee = no_node;
  votes = [];
  prs = renew last r r.prs;
  learner_prs = renew last r r.learner_prs;
  pending_conf_index = 0;
  read_only = ReadOnly.init r.read_only.option;
}

unfoldable pub reset : ℕ → Raft → Outcome Raft
reset term r = last_for_reset r (progress_ids r) >>= λ last. ok (reset_with term last r)

unfoldable pub become_follower : ℕ → ℕ → Raft → Outcome Raft
become_follower term lead r =
    reset term r >>= λ r'. ok (record r' { lead = lead; state = follower })

unfoldable pub is_leader : StateType → Bool
is_leader leader = true
is_leader _ = false

unfoldable pub is_follower : StateType → Bool
is_follower follower = true
is_follower _ = false

unfoldable pub become_candidate : Raft → Outcome Raft
become_candidate r = do
  panic_if (is_leader r.state)
  r' ← reset (add64 r.term 1) r
  ok (record r' { vote = r'.id; state = candidate })

unfoldable pub become_pre_candidate : Raft → Outcome Raft
become_pre_candidate r = do
  panic_if (is_leader r.state)
  ok (record r { votes = []; state = pre_candidate })

unfoldable pub become_leader : Raft → Outcome Raft
become_leader r = do
  panic_if (is_follower r.state)
  r' ← reset r.term r
  last ← RaftLog.last_index r'.raft_log
  append_entry (empty_entry ∷ [])
      (record r' { lead = r'.id; state = leader; pending_conf_index = last })

unfoldable pub granted : List (ℕ × Bool) → ℕ
granted [] = 0
granted ((id, v) ∷ votes) = (if v then 1 else 0) + granted votes

-- Only the first answer of a node counts.
unfoldable pub poll : ℕ → Bool → Raft → Raft × ℕ
poll id v r =
    let votes' = if Assoc.has_key id r.votes then r.votes else Assoc.insert id v r.votes in
    (record r { votes = votes' }, granted votes')

-- The context that marks a campaign for a transfer.
unfoldable pub campaign_ctx : CampaignType → Bytes
campaign_ctx transfer = campaign_transfer
campaign_ctx _ = []

-- The request for a vote. The log message before it evaluates the last term too.
unfoldable pub request_vote : MessageType → ℕ → CampaignType → ℕ → Raft → Outcome Raft
request_vote vote_msg term t id r = do
  log_term ← RaftLog.last_term r.raft_log
  last ← RaftLog.last_index r.raft_log
  send
      (record empty_message {
        term = term;
        to = id;
        msg_type = vote_msg;
        index = last;
        logterm = log_term;
        context = campaign_ctx t;
      })
      r

unfoldable pub request_votes : MessageType → ℕ → CampaignType → Raft → Outcome Raft
request_votes vote_msg term t r = for_each_other (request_vote vote_msg term t) (Assoc.keys r.prs) r

-- `campaign` for an election at the next term.
unfoldable pub campaign_election : CampaignType → Raft → Outcome Raft
campaign_election t r = become_candidate r >>= λ r'.
    let (polled, votes) = poll r'.id true r' in
    if quorum polled == votes
    then become_leader polled
    else request_votes msg_vote polled.term t polled

-- `campaign(campaignPreElection)`
unfoldable pub campaign_pre_election : Raft → Outcome Raft
campaign_pre_election r = become_pre_candidate r >>= λ r'.
    let (polled, votes) = poll r'.id true r' in
    if quorum polled == votes
    then campaign_election election polled
    else request_votes msg_pre_vote (add64 r'.term 1) pre_election polled

unfoldable pub campaign : CampaignType → Raft → Outcome Raft
campaign pre_election r = campaign_pre_election r
campaign election r = campaign_election election r
campaign transfer r = campaign_election transfer r
