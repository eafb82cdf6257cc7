-- ===== src/Raft/Leader.antt =====
-- src/raft.cc: the messages that a leader steps.
use yaraft.Prelude.{
  ℕ, ◌+◌, Bool, true, false, ◌&&◌, ◌||◌, List, [], ◌∷◌, ◌++◌, Option, none, some, ltb, ◌==◌,
  if◌then◌else◌, not, add64, Bytes,
}
use yaraft.Outcome.{Outcome, ok, panic, Error, proposal_dropped, ◌>>=◌, or_fault}
use yaraft.Idl.{
  Entry, entry_normal, entry_conf_change, empty_entry, Message, empty_message, msg_beat,
  msg_check_quorum, msg_prop, msg_read_index, msg_read_index_resp, msg_app_resp, msg_heartbeat_resp,
  msg_snap_status, msg_unreachable, msg_transfer_leader,
}
use yaraft.Assoc
use yaraft.Inflights
use yaraft.Progress
use yaraft.Progress.{Progress, probe, replicate, snapshot}
use yaraft.RaftLog
use yaraft.ReadOnly
use yaraft.ReadOnly.{ReadIndexStatus, read_only_safe, read_only_lease_based, request_ctx}
use yaraft.Raft.State.{Raft, no_node, quorum, get_progress, put_progress}
use yaraft.Raft.Replicate.{
  send, send_append, send_all, bcast_append, bcast_heartbeat, bcast_heartbeat_with_ctx,
  send_timeout_now, maybe_commit, append_entry,
}
use yaraft.Raft.Roles.{become_follower, abort_leader_transfer}

-- A handler's state with the `error_s` that it returns.
abbrev pub Stepped : Type 0
Stepped = Raft × Option Error

abbrev pub done : Outcome Raft → Outcome Stepped
done m = m >>= λ r. ok (r, none)

-- The loop of `checkQuorumActive`: the active voters, and the progresses with the flags cleared.
unfoldable pub count_active : ℕ → List (ℕ × Progress) → ℕ
count_active id [] = 0
count_active id ((j, p) ∷ prs) =
    (if (j == id) || (p.recent_active && not p.is_learner) then 1 else 0) + count_active id prs

unfoldable pub clear_active : ℕ → List (ℕ × Progress) → List (ℕ × Progress)
clear_active id [] = []
clear_active id ((j, p) ∷ prs) =
    (j, if j == id then p else record p { recent_active = false }) ∷ clear_active id prs

unfoldable pub check_quorum_active : Raft → Raft × Bool
check_quorum_active r =
    let act = count_active r.id r.prs + count_active r.id r.learner_prs in
    (
      record r { prs = clear_active r.id r.prs; learner_prs = clear_active r.id r.learner_prs },
      not (ltb act (quorum r)),
    )

-- The loop of `MsgProp` over the entries from place `i` on, with the pending index.
unfoldable pub screen_conf_changes : ℕ → ℕ → ℕ → ℕ → List Entry → List Entry × ℕ
screen_conf_changes last applied pending i [] = ([], pending)
screen_conf_changes last applied pending i (e ∷ es) = elim e.entry_type [
  | entry_normal ↦
      let (es', pending') = screen_conf_changes last applied pending (i + 1) es in
      (e ∷ es', pending')
  | entry_conf_change ↦
      let refused = ltb applied pending in
      let (es', pending') =
        screen_conf_changes last applied (if refused then pending else add64 (add64 last i) 1)
          (i + 1) es in
      ((if refused then empty_entry else e) ∷ es', pending')
]

-- `MsgProp` at a leader that accepts it.
unfoldable pub propose : Message → Raft → Outcome Raft
propose m r = do
  last ← RaftLog.last_index r.raft_log
  let screened = screen_conf_changes last r.raft_log.applied r.pending_conf_index 0 m.entries
  r₁ ← append_entry screened.0 (record r { pending_conf_index = screened.1 })
  bcast_append r₁

unfoldable pub step_prop : Message → Raft → Outcome Stepped
step_prop m r = elim m.entries [
  | [] ↦ panic
  | _ ∷ _ ↦
      if not (Assoc.has_key r.id r.prs) || not (r.lead_transferee == no_node)
      then ok (r, some proposal_dropped)
      else done (propose m r)
]

-- `readStates_.push_back` of the request's context at an index.
unfoldable pub answer_locally : ℕ → Message → Raft → Outcome Raft
answer_locally index req r = request_ctx req >>= λ ctx.
    ok (record r {
      read_states = r.read_states ++ (record { index = index; request_ctx = ctx } ∷ []);
    })

unfoldable pub answer_read : ℕ → Message → Raft → Outcome Raft
answer_read index req r =
    if (req.from == no_node) || (req.from == r.id)
    then answer_locally index req r
    else send
        (record empty_message {
          to = req.from;
          msg_type = msg_read_index_resp;
          index = index;
          entries = req.entries;
        })
        r

unfoldable pub read_by_quorum : Message → Raft → Outcome Raft
read_by_quorum m r = elim r.read_only.option [
  | read_only_safe ↦ do
    read_only ← ReadOnly.add_request r.read_only r.raft_log.committed m
    ctx ← request_ctx m
    bcast_heartbeat_with_ctx ctx (record r { read_only = read_only })
  | read_only_lease_based ↦ answer_read r.raft_log.committed m r
]

unfoldable pub step_read_index : Message → Raft → Outcome Raft
step_read_index m r =
    if ltb 1 (quorum r)
    then (RaftLog.zero_term_on_err_compacted (RaftLog.term r.raft_log r.raft_log.committed) >>= λ t.
        if t == r.term then read_by_quorum m r else ok r)
    else answer_locally r.raft_log.committed m r

-- A rejected `MsgApp`.
unfoldable pub step_app_rejected : Message → Progress → Raft → Outcome Raft
step_app_rejected m pr r =
    let (pr₁, decreased) = Progress.maybe_decr_to m.index m.rejecthint pr in
    if decreased
    then (let pr₂ : Progress = elim pr₁.state [ replicate ↦ Progress.become_probe pr₁ | _ ↦ pr₁ ] in
        send_append m.from (put_progress m.from pr₂ r))
    else ok (put_progress m.from pr₁ r)

-- The change of state of a follower whose match went up.
unfoldable pub after_match : ℕ → Progress → Outcome Progress
after_match index pr = elim pr.state [
  | probe ↦ ok (Progress.become_replicate pr)
  | snapshot ↦ ok (if Progress.need_snapshot_abort pr then Progress.become_probe pr else pr)
  | replicate ↦ Inflights.free_to pr.ins index >>= λ ins. ok (record pr { ins = ins })
]

-- `MsgTimeoutNow` to the transferee that has caught up.
unfoldable pub finish_transfer : ℕ → Raft → Outcome Raft
finish_transfer from r = or_fault (get_progress r from) >>= λ pr.
    RaftLog.last_index r.raft_log >>= λ last.
    if (from == r.lead_transferee) && (pr.matched == last) then send_timeout_now from r else ok r

-- Every message of the loop fills a place of the window, or pauses the follower.
unfoldable pub send_fuel : Progress → ℕ
send_fuel pr = pr.ins.capacity + 2

unfoldable pub step_app_accepted : Message → Progress → Raft → Outcome Raft
step_app_accepted m pr r =
    let old_paused = Progress.is_paused pr in
    let (pr₁, updated) = Progress.maybe_update m.index pr in
    if updated
    then (do
      pr₂ ← after_match m.index pr₁
      committed ← maybe_commit (put_progress m.from pr₂ r)
      r₁ ←
          (if committed.1
            then bcast_append committed.0
            else if old_paused
            then send_append m.from committed.0
            else ok committed.0)
      r₂ ← send_all (send_fuel pr₂) m.from r₁
      finish_transfer m.from r₂)
    else ok (put_progress m.from pr₁ r)

unfoldable pub step_app_resp : Message → Progress → Raft → Outcome Raft
step_app_resp m pr r =
    let active = record pr { recent_active = true } in
    if m.reject then step_app_rejected m active r else step_app_accepted m active r

unfoldable pub answer_reads : List ReadIndexStatus → Raft → Outcome Raft
answer_reads [] r = ok r
answer_reads (rs ∷ rss) r = do
  req ← or_fault rs.req
  r' ← answer_read rs.index req r
  answer_reads rss r'

unfoldable pub is_empty_ctx : Bytes → Bool
is_empty_ctx [] = true
is_empty_ctx (b ∷ bs) = false

unfoldable pub is_lease_based : ReadOnly.ReadOnlyOption → Bool
is_lease_based read_only_safe = false
is_lease_based read_only_lease_based = true

-- A heartbeat's answer as an acknowledgement of a read request.
unfoldable pub ack_read : Message → Raft → Outcome Raft
ack_read m r =
    if is_lease_based r.read_only.option || is_empty_ctx m.context
    then ok r
    else (let (read_only, acks) = ReadOnly.recv_ack r.read_only m in
        if ltb acks (quorum r)
        then ok (record r { read_only = read_only })
        else (ReadOnly.advance read_only m >>= λ advanced.
            answer_reads advanced.1 (record r { read_only = advanced.0 })))

-- A place is freed in a window that is full.
unfoldable pub free_place : Progress → Outcome Progress
free_place pr = elim pr.state [
  | replicate ↦
      if Inflights.full pr.ins
      then (Inflights.free_first_one pr.ins >>= λ ins. ok (record pr { ins = ins }))
      else ok pr
  | _ ↦ ok pr
]

unfoldable pub step_heartbeat_resp : Message → Progress → Raft → Outcome Raft
step_heartbeat_resp m pr r = do
  pr' ← free_place (record pr { recent_active = true; paused = false })
  let r₁ = put_progress m.from pr' r
  last ← RaftLog.last_index r₁.raft_log
  r₂ ← (if ltb pr'.matched last then send_append m.from r₁ else ok r₁)
  ack_read m r₂

unfoldable pub step_snap_status : Message → Progress → Raft → Raft
step_snap_status m pr r = elim pr.state [
  | snapshot ↦
      let pr₁ = if m.reject then Progress.snapshot_failure pr else pr in
      put_progress m.from (Progress.pause (Progress.become_probe pr₁)) r
  | _ ↦ r
]

unfoldable pub step_unreachable : Message → Progress → Raft → Raft
step_unreachable m pr r = elim pr.state [
  | replicate ↦ put_progress m.from (Progress.become_probe pr) r
  | _ ↦ r
]

-- The transfer to a third party.
unfoldable pub start_transfer : ℕ → Progress → Raft → Outcome Raft
start_transfer to pr r = RaftLog.last_index r.raft_log >>= λ last.
    if pr.matched == last then send_timeout_now to r else send_append to r

unfoldable pub step_transfer_leader : Message → Progress → Raft → Outcome Raft
step_transfer_leader m pr r =
    if pr.is_learner || (not (r.lead_transferee == no_node) && (r.lead_transferee == m.from))
    then ok r
    else (let r₁ = if r.lead_transferee == no_node then r else abort_leader_transfer r in
        if m.from == r.id
        then ok r₁
        else start_transfer m.from pr
            (record r₁ { election_elapsed = 0; lead_transferee = m.from }))

-- The messages that need the sender's progress.
unfoldable pub step_with_progress : Message → Raft → Progress → Outcome Raft
step_with_progress m r pr = elim m.msg_type [
  | msg_app_resp ↦ step_app_resp m pr r
  | msg_heartbeat_resp ↦ step_heartbeat_resp m pr r
  | msg_snap_status ↦ ok (step_snap_status m pr r)
  | msg_unreachable ↦ ok (step_unreachable m pr r)
  | msg_transfer_leader ↦ step_transfer_leader m pr r
  | _ ↦ ok r
]

unfoldable pub step_check_quorum : Raft → Outcome Raft
step_check_quorum r =
    let (r', active) = check_quorum_active r in
    if active then ok r' else become_follower r'.term no_node r'

unfoldable pub step_leader : Message → Raft → Outcome Stepped
step_leader m r = elim m.msg_type [
  | msg_beat ↦ done (bcast_heartbeat r)
  | msg_check_quorum ↦ done (step_check_quorum r)
  | msg_prop ↦ step_prop m r
  | msg_read_index ↦ done (step_read_index m r)
  | _ ↦ elim (get_progress r m.from) [
    | none ↦ ok (r, none)
    | some pr ↦ done (step_with_progress m r pr)
  ]
]
