-- ===== src/Raft/Step.antt =====
-- src/raft.cc and src/raft.h: stepping messages and ticks.
use yaraft.Prelude.{
  ℕ, ◌+◌, Bool, true, false, ◌&&◌, ◌||◌, List, [], ◌∷◌, none, some, ltb, leb, ◌==◌, if◌then◌else◌,
  not, length, add64, sub64, bytes_eq,
}
use yaraft.Outcome.{Outcome, ok, proposal_dropped, ◌>>=◌, get_value}
use yaraft.Idl.{
  Entry, entry_conf_change, Message, MessageType, empty_message, msg_hup, msg_beat, msg_prop,
  msg_app, msg_app_resp, msg_vote, msg_vote_resp, msg_snap, msg_heartbeat, msg_check_quorum,
  msg_transfer_leader, msg_timeout_now, msg_read_index, msg_read_index_resp, msg_pre_vote,
  msg_pre_vote_resp,
}
use yaraft.Util.{vote_resp_msg_type, no_limit}
use yaraft.RaftLog
use yaraft.Raft.State.{
  Raft, StateType, follower, pre_candidate, leader, no_node, quorum, promotable,
}
use yaraft.Raft.Replicate.{send, bcast_append}
use yaraft.Raft.Roles.{
  pre_election, election, transfer, campaign_transfer, become_follower, become_leader, poll,
  campaign, abort_leader_transfer,
}
use yaraft.Raft.Handlers.{handle_append_entries, handle_heartbeat, handle_snapshot}
use yaraft.Raft.Leader.{Stepped, done, step_leader, answer_locally}

-- The message types that the handlers compare, one test for each.
unfoldable pub is_vote : MessageType → Bool
is_vote msg_vote = true
is_vote _ = false

unfoldable pub is_pre_vote : MessageType → Bool
is_pre_vote msg_pre_vote = true
is_pre_vote _ = false

unfoldable pub is_pre_vote_resp : MessageType → Bool
is_pre_vote_resp msg_pre_vote_resp = true
is_pre_vote_resp _ = false

-- `MsgApp` and `MsgHeartbeat`
unfoldable pub is_leader_call : MessageType → Bool
is_leader_call msg_app = true
is_leader_call msg_heartbeat = true
is_leader_call _ = false

unfoldable pub is_snap : MessageType → Bool
is_snap msg_snap = true
is_snap _ = false

-- A candidate counts the answers to the requests of its own phase.
unfoldable pub is_my_vote_resp : StateType → MessageType → Bool
is_my_vote_resp pre_candidate msg_pre_vote_resp = true
is_my_vote_resp pre_candidate _ = false
is_my_vote_resp _ msg_vote_resp = true
is_my_vote_resp _ _ = false

-- The candidate that has a quorum of votes.
unfoldable pub won : Raft → Outcome Raft
won r = elim r.state [ pre_candidate ↦ campaign election r | _ ↦ become_leader r >>= bcast_append ]

unfoldable pub count_vote : Message → Raft → Outcome Raft
count_vote m r =
    let (r', gr) = poll m.from (not m.reject) r in
    let qr = quorum r' in
    if qr == gr
    then won r'
    else if qr == sub64 (length r'.votes) gr
    then become_follower r'.term no_node r'
    else ok r'

unfoldable pub candidate_case : MessageType → Message → Raft → Outcome Stepped
candidate_case msg_prop m r = ok (r, some proposal_dropped)
candidate_case msg_app m r = done (become_follower m.term m.from r >>= handle_append_entries m)
candidate_case msg_heartbeat m r = done (become_follower m.term m.from r >>= handle_heartbeat m)
candidate_case msg_snap m r = done (become_follower m.term m.from r >>= handle_snapshot m)
candidate_case msg_timeout_now m r = ok (r, none)
candidate_case other m r =
    if is_my_vote_resp r.state other then done (count_vote m r) else ok (r, none)

unfoldable pub step_candidate : Message → Raft → Outcome Stepped
step_candidate m r = candidate_case m.msg_type m r

-- `m.to(lead_); send(m);`
unfoldable pub forward : Message → Raft → Outcome Raft
forward m r = send (record m { to = r.lead }) r

-- A message of the leader resets the election timer.
unfoldable pub heed : Message → Raft → Raft
heed m r = record r { election_elapsed = 0; lead = m.from }

unfoldable pub read_index_resp : Message → Raft → Outcome Raft
read_index_resp m r = if length m.entries == 1 then answer_locally m.index m r else ok r

unfoldable pub step_follower : Message → Raft → Outcome Stepped
step_follower m r = elim m.msg_type [
  | msg_prop ↦
      if (r.lead == no_node) || r.disable_proposal_forwarding
      then ok (r, some proposal_dropped)
      else done (forward m r)
  | msg_app ↦ done (handle_append_entries m (heed m r))
  | msg_heartbeat ↦ done (handle_heartbeat m (heed m r))
  | msg_snap ↦ done (handle_snapshot m (heed m r))
  | msg_transfer_leader ↦ if r.lead == no_node then ok (r, none) else done (forward m r)
  | msg_timeout_now ↦ if promotable r then done (campaign transfer r) else ok (r, none)
  | msg_read_index ↦ if r.lead == no_node then ok (r, none) else done (forward m r)
  | msg_read_index_resp ↦ done (read_index_resp m r)
  | _ ↦ ok (r, none)
]

-- `step`, the handler of the role.
unfoldable pub step_role : Message → Raft → Outcome Stepped
step_role m r = elim r.state [
  | leader ↦ step_leader m r
  | follower ↦ step_follower m r
  | _ ↦ step_candidate m r
]

unfoldable pub num_of_pending_conf : List Entry → ℕ
num_of_pending_conf [] = 0
num_of_pending_conf (e ∷ es) =
    (elim e.entry_type [ entry_conf_change ↦ 1 | _ ↦ 0 ]) + num_of_pending_conf es

unfoldable pub start_campaign : Raft → Outcome Raft
start_campaign r = if r.pre_vote then campaign pre_election r else campaign election r

unfoldable pub step_hup : Raft → Outcome Raft
step_hup r = elim r.state [
  | leader ↦ ok r
  | _ ↦
      get_value (
        RaftLog.slice r.raft_log (add64 r.raft_log.applied 1) (add64 r.raft_log.committed 1)
          no_limit)
      >>= λ ents.
          if not (num_of_pending_conf ents == 0) && ltb r.raft_log.applied r.raft_log.committed
          then ok r
          else start_campaign r
]

unfoldable pub can_vote : Message → Raft → Bool
can_vote m r =
    (r.vote == m.from)
    || ((r.vote == no_node) && (r.lead == no_node))
    || (is_pre_vote m.msg_type && ltb r.term m.term)

unfoldable pub vote_resp_type : MessageType → MessageType
vote_resp_type msg_vote = msg_vote_resp
vote_resp_type _ = msg_pre_vote_resp

-- The grant. Only a real vote is recorded.
unfoldable pub grant_vote : Message → Raft → Outcome Raft
grant_vote m r =
    send (record empty_message { to = m.from; term = m.term; msg_type = vote_resp_type m.msg_type })
      r
    >>= λ r'.
        ok (if is_vote m.msg_type then record r' { election_elapsed = 0; vote = m.from } else r')

unfoldable pub refuse_vote : Message → Raft → Outcome Raft
refuse_vote m r = vote_resp_msg_type m.msg_type >>= λ resp.
    send (record empty_message { to = m.from; term = r.term; msg_type = resp; reject = true }) r

-- `MsgVote` and `MsgPreVote`. Each log message evaluates the last term.
unfoldable pub step_vote : Message → Raft → Outcome Raft
step_vote m r = RaftLog.last_term r.raft_log >>= λ _.
    if r.is_learner
    then ok r
    else (RaftLog.is_up_to_date r.raft_log m.index m.logterm >>= λ up_to_date.
        if can_vote m r && up_to_date then grant_vote m r else refuse_vote m r)

-- The part of `Step` behind the test of the term.
unfoldable pub dispatch : Message → Raft → Outcome Stepped
dispatch m r = elim m.msg_type [
  | msg_hup ↦ done (step_hup r)
  | msg_vote ↦ done (step_vote m r)
  | msg_pre_vote ↦ done (step_vote m r)
  | _ ↦ step_role m r
]

-- A request for a vote that comes while the leader's lease runs.
unfoldable pub in_lease : Message → Raft → Bool
in_lease m r =
    (is_vote m.msg_type || is_pre_vote m.msg_type)
    && not (bytes_eq m.context campaign_transfer)
    && r.check_quorum
    && not (r.lead == no_node)
    && ltb r.election_elapsed r.election_timeout

-- A pre-vote request, and a pre-vote that is granted, come with the next term and do not bring it.
unfoldable pub is_pre_campaign : Message → Bool
is_pre_campaign m = is_pre_vote m.msg_type || (is_pre_vote_resp m.msg_type && not m.reject)

-- The leader that a message of a later term makes known.
unfoldable pub lead_of : Message → ℕ
lead_of m = if is_leader_call m.msg_type || is_snap m.msg_type then m.from else no_node

-- A message of a later term.
unfoldable pub step_later : Message → Raft → Outcome Stepped
step_later m r =
    if in_lease m r
    then (RaftLog.last_term r.raft_log >>= λ _. ok (r, none))
    else if is_pre_campaign m
    then dispatch m r
    else (become_follower m.term (lead_of m) r >>= dispatch m)

-- The refusal of a pre-vote. The log message before it evaluates the last term.
unfoldable pub refuse_pre_vote : Message → Raft → Outcome Raft
refuse_pre_vote m r = RaftLog.last_term r.raft_log >>= λ _.
    send
      (record empty_message {
        to = m.from;
        term = r.term;
        msg_type = msg_pre_vote_resp;
        reject = true;
      })
      r

-- A message of an earlier term.
unfoldable pub step_earlier : Message → Raft → Outcome Raft
step_earlier m r =
    if (r.check_quorum || r.pre_vote) && is_leader_call m.msg_type
    then send (record empty_message { to = m.from; msg_type = msg_app_resp }) r
    else if is_pre_vote m.msg_type
    then refuse_pre_vote m r
    else ok r

-- `Step`
unfoldable pub step : Message → Raft → Outcome Stepped
step m r =
    if m.term == 0
    then dispatch m r
    else if ltb r.term m.term
    then step_later m r
    else if ltb m.term r.term
    then done (step_earlier m r)
    else dispatch m r

-- A message of the node to itself; what `Step` returns is dropped.
unfoldable pub step_own : MessageType → Raft → Outcome Raft
step_own t r =
    step (record empty_message { from = r.id; msg_type = t }) r >>= λ stepped. ok stepped.0

unfoldable pub tick_election : Raft → Outcome Raft
tick_election r =
    let r₁ = record r { election_elapsed = r.election_elapsed + 1 } in
    if promotable r₁ && leb r₁.randomized_election_timeout r₁.election_elapsed
    then step_own msg_hup (record r₁ { election_elapsed = 0 })
    else ok r₁

unfoldable pub is_leader : StateType → Bool
is_leader leader = true
is_leader _ = false

-- The end of an election timeout at a leader.
unfoldable pub end_of_lease : Raft → Outcome Raft
end_of_lease r =
    let r₁ = record r { election_elapsed = 0 } in
    (if r₁.check_quorum then step_own msg_check_quorum r₁ else ok r₁) >>= λ r₂. ok (
      if is_leader r₂.state && not (r₂.lead_transferee == no_node)
      then abort_leader_transfer r₂
      else r₂)

unfoldable pub tick_heartbeat : Raft → Outcome Raft
tick_heartbeat r = do
  let r₁ = record r {
    heartbeat_elapsed = r.heartbeat_elapsed + 1;
    election_elapsed = r.election_elapsed + 1;
  }
  r₂ ← (if leb r₁.election_timeout r₁.election_elapsed then end_of_lease r₁ else ok r₁)
  if is_leader r₂.state && leb r₂.heartbeat_timeout r₂.heartbeat_elapsed
      then step_own msg_beat (record r₂ { heartbeat_elapsed = 0 })
      else ok r₂

unfoldable pub tick : Raft → Outcome Raft
tick r = elim r.state [ leader ↦ tick_heartbeat r | _ ↦ tick_election r ]
