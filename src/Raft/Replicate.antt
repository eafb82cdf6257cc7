-- ===== src/Raft/Replicate.antt =====
-- src/raft.cc: sending messages, replicating the log and advancing the commit index.
use yaraft.Prelude.{
  ℕ, zero, suc, ◌-◌, Bool, true, false, ◌&&◌, List, [], ◌∷◌, ◌++◌, Option, none, some, ltb, ◌==◌,
  if◌then◌else◌, not, get_elem?, add64, sub64, min, Bytes,
}
use yaraft.Outcome.{
  Outcome, ok, err, panic, fault, snapshot_temporarily_unavailable, ◌>>=◌, ◌>>◌, panic_if, or_fault,
  attempt,
}
use yaraft.Idl.{
  Entry, Snapshot, Message, MessageType, empty_message, is_empty_snap, msg_vote, msg_vote_resp,
  msg_pre_vote, msg_pre_vote_resp, msg_prop, msg_read_index, msg_snap, msg_app, msg_heartbeat,
  msg_timeout_now,
}
use yaraft.Inflights
use yaraft.Progress
use yaraft.Progress.{Progress, probe, replicate, snapshot}
use yaraft.RaftLog
use yaraft.ReadOnly
use yaraft.Raft.State.{Raft, quorum, get_progress, put_progress, with_progress, progress_ids}

unfoldable pub is_vote_message : MessageType → Bool
is_vote_message msg_vote = true
is_vote_message msg_vote_resp = true
is_vote_message msg_pre_vote = true
is_vote_message msg_pre_vote_resp = true
is_vote_message _ = false

-- Proposals and read requests are forwarded without a term.
unfoldable pub is_forwarded : MessageType → Bool
is_forwarded msg_prop = true
is_forwarded msg_read_index = true
is_forwarded _ = false

-- The message as it goes out.
unfoldable pub stamp : Raft → Message → Outcome Message
stamp r m =
    if is_vote_message m.msg_type
    then (panic_if (m.term == 0) >> ok (record m { from = r.id }))
    else (panic_if (not (m.term == 0))
        >> ok (record m { from = r.id; term = if is_forwarded m.msg_type then m.term else r.term }))

unfoldable pub send : Message → Raft → Outcome Raft
send m r = stamp r m >>= λ m'. ok (record r { msgs = r.msgs ++ (m' ∷ []) })

-- The snapshot to send; `none` where it is temporarily unavailable.
unfoldable pub snapshot_to_send : Outcome Snapshot → Outcome (Option Snapshot)
snapshot_to_send (ok s) = if is_empty_snap s then panic else ok (some s)
snapshot_to_send (err snapshot_temporarily_unavailable) = ok none
snapshot_to_send (err _) = panic
snapshot_to_send panic = panic
snapshot_to_send fault = fault

-- The branch of `maybeSendAppend` for a follower behind the log.
unfoldable pub send_snapshot : ℕ → Progress → Raft → Outcome (Raft × Bool)
send_snapshot to pr r =
    if not pr.recent_active
    then ok (r, false)
    else (snapshot_to_send (RaftLog.snapshot r.raft_log) >>= λ found. elim found [
      | none ↦ ok (r, false)
      | some s ↦ RaftLog.first_index r.raft_log >>= λ _.
          send (record empty_message { to = to; msg_type = msg_snap; snapshot = s })
            (put_progress to (Progress.become_snapshot s.metadata_index pr) r)
          >>= λ r'. ok (r', true)
    ])

unfoldable pub last_index_of : List Entry → ℕ → ℕ
last_index_of [] i = i
last_index_of (e ∷ es) i = last_index_of es e.index

-- What a sent `MsgApp` changes in the progress.
unfoldable pub after_append : List Entry → Progress → Outcome Progress
after_append [] pr = ok pr
after_append (e ∷ es) pr = elim pr.state [
  | replicate ↦
      let last = last_index_of es e.index in
      Inflights.add pr.ins last >>= λ ins.
      ok (record (Progress.optimistic_update last pr) { ins = ins })
  | probe ↦ ok (Progress.pause pr)
  | snapshot ↦ panic
]

-- The branch of `maybeSendAppend` that sends entries.
unfoldable pub send_entries : ℕ → Progress → ℕ → List Entry → Raft → Outcome (Raft × Bool)
send_entries to pr term ents r = do
  let m = record empty_message {
    to = to;
    msg_type = msg_app;
    index = sub64 pr.next 1;
    logterm = term;
    entries = ents;
    commit = r.raft_log.committed;
  }
  pr' ← after_append ents pr
  r' ← send m (put_progress to pr' r)
  ok (r', true)

unfoldable pub is_empty {ℓ} : {A : Type ℓ} → List A → Bool
is_empty [] = true
is_empty (x ∷ xs) = false

-- `send_if_empty` aside, a term or entries that are missing call for a snapshot.
unfoldable pub send_append_or_snapshot :
    ℕ → Bool → Progress → Option ℕ → Option (List Entry) → Raft → Outcome (Raft × Bool)
send_append_or_snapshot to send_if_empty pr (some t) (some ents) r =
    if is_empty ents && not send_if_empty then ok (r, false) else send_entries to pr t ents r
send_append_or_snapshot to send_if_empty pr none (some ents) r =
    if is_empty ents && not send_if_empty then ok (r, false) else send_snapshot to pr r
send_append_or_snapshot to send_if_empty pr _ none r =
    if not send_if_empty then ok (r, false) else send_snapshot to pr r

unfoldable pub maybe_send_append : ℕ → Bool → Raft → Outcome (Raft × Bool)
maybe_send_append to send_if_empty r = or_fault (get_progress r to) >>= λ pr.
    if Progress.is_paused pr
    then ok (r, false)
    else (attempt (RaftLog.term r.raft_log (sub64 pr.next 1)) >>= λ t.
        attempt (RaftLog.entries r.raft_log pr.next r.max_msg_size) >>= λ ents.
        send_append_or_snapshot to send_if_empty pr t ents r)

unfoldable pub send_append : ℕ → Raft → Outcome Raft
send_append to r = maybe_send_append to true r >>= λ sent. ok sent.0

-- `while (maybeSendAppend(to, false)) {}`, with fuel.
unfoldable pub send_all : ℕ → ℕ → Raft → Outcome Raft
send_all zero to r = fault
send_all (suc fuel) to r = maybe_send_append to false r >>= λ sent. elim sent.1 [
  | true ↦ send_all fuel to sent.0
  | false ↦ ok sent.0
]

-- A round for each of `ids` but the node's own.
unfoldable pub for_each_other : (ℕ → Raft → Outcome Raft) → List ℕ → Raft → Outcome Raft
for_each_other f [] r = ok r
for_each_other f (to ∷ ids) r =
    (if to == r.id then ok r else f to r) >>= λ r'. for_each_other f ids r'

unfoldable pub bcast_append : Raft → Outcome Raft
bcast_append r = for_each_other send_append (progress_ids r) r

unfoldable pub send_heartbeat : Bytes → ℕ → Raft → Outcome Raft
send_heartbeat ctx to r = or_fault (get_progress r to) >>= λ pr.
    send
      (record empty_message {
        to = to;
        msg_type = msg_heartbeat;
        commit = min pr.matched r.raft_log.committed;
        context = ctx;
      })
      r

unfoldable pub bcast_heartbeat_with_ctx : Bytes → Raft → Outcome Raft
bcast_heartbeat_with_ctx ctx r = for_each_other (send_heartbeat ctx) (progress_ids r) r

unfoldable pub bcast_heartbeat : Raft → Outcome Raft
bcast_heartbeat r = bcast_heartbeat_with_ctx (ReadOnly.last_pending_request_ctx r.read_only) r

unfoldable pub send_timeout_now : ℕ → Raft → Outcome Raft
send_timeout_now to = send (record empty_message { to = to; msg_type = msg_timeout_now })

-- `std::sort` with `std::greater`: the numbers in falling order.
unfoldable pub insert_desc : ℕ → List ℕ → List ℕ
insert_desc a [] = a ∷ []
insert_desc a (b ∷ bs) = if ltb a b then b ∷ insert_desc a bs else a ∷ b ∷ bs

unfoldable pub sort_desc : List ℕ → List ℕ
sort_desc [] = []
sort_desc (a ∷ rest) = insert_desc a (sort_desc rest)

unfoldable pub match_indexes : List (ℕ × Progress) → List ℕ
match_indexes [] = []
match_indexes ((id, p) ∷ prs) = p.matched ∷ match_indexes prs

-- With no voter `mis[0]` is out of range.
unfoldable pub maybe_commit : Raft → Outcome (Raft × Bool)
maybe_commit r = or_fault (get_elem? (sort_desc (match_indexes r.prs)) (quorum r - 1)) >>= λ mci.
    RaftLog.maybe_commit r.raft_log mci r.term >>= λ done.
    ok (record r { raft_log = done.0 }, done.1)

-- The entries with the term and the indexes `index`, `index + 1`, ….
unfoldable pub number_entries : ℕ → ℕ → List Entry → List Entry
number_entries term index [] = []
number_entries term index (e ∷ es) =
    record e { term = term; index = index } ∷ number_entries term (add64 index 1) es

unfoldable pub append_entry : List Entry → Raft → Outcome Raft
append_entry es r = do
  li ← RaftLog.last_index r.raft_log
  appended ← RaftLog.append r.raft_log (number_entries r.term (add64 li 1) es)
  r' ←
      with_progress r.id (λ p. (Progress.maybe_update appended.1 p).0)
        (record r { raft_log = appended.0 })
  done ← maybe_commit r'
  ok done.0
