-- ===== src/Raft/Handlers.antt =====
-- src/raft.cc and src/raft.h: what a follower does with the messages of its leader.
use yaraft.Prelude.{ℕ, true, ltb, if◌then◌else◌, Option, none, some}
use yaraft.Outcome.{Outcome, ok, ◌>>=◌, ◌>>◌}
use yaraft.Idl.{Message, empty_message, msg_app_resp, msg_heartbeat_resp}
use yaraft.RaftLog
use yaraft.Raft.State.{Raft}
use yaraft.Raft.Replicate.{send}
use yaraft.Raft.Membership.{restore}

-- The answer to a `MsgApp`. The message about a rejection evaluates the term at the index.
unfoldable pub answer_append : Message → Raft → Option ℕ → Outcome Raft
answer_append m r (some last) =
    send (record empty_message { to = m.from; msg_type = msg_app_resp; index = last }) r
answer_append m r none = do
  RaftLog.zero_term_on_err_compacted (RaftLog.term r.raft_log m.index) >>= λ _. ok tt
  last ← RaftLog.last_index r.raft_log
  send
      (record empty_message {
        to = m.from;
        msg_type = msg_app_resp;
        index = m.index;
        reject = true;
        rejecthint = last;
      })
      r

unfoldable pub handle_append_entries : Message → Raft → Outcome Raft
handle_append_entries m r =
    if ltb m.index r.raft_log.committed
    then send
        (record empty_message {
          to = m.from;
          msg_type = msg_app_resp;
          index = r.raft_log.committed;
        })
        r
    else (RaftLog.maybe_append r.raft_log m.index m.logterm m.commit m.entries >>= λ appended.
        answer_append m (record r { raft_log = appended.0 }) appended.1)

unfoldable pub handle_heartbeat : Message → Raft → Outcome Raft
handle_heartbeat m r = RaftLog.commit_to r.raft_log m.commit >>= λ log.
    send (record empty_message { to = m.from; msg_type = msg_heartbeat_resp; context = m.context })
      (record r { raft_log = log })

unfoldable pub handle_snapshot : Message → Raft → Outcome Raft
handle_snapshot m r = do
  restored ← restore m.snapshot r
  let r' = restored.0
  index ← (if restored.1 then RaftLog.last_index r'.raft_log else ok r'.raft_log.committed)
  send (record empty_message { to = m.from; msg_type = msg_app_resp; index = index }) r'
