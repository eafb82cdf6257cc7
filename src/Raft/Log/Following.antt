-- ===== src/Raft/Log/Following.antt =====
-- What a leader's messages make of a follower's log.
use yaraft.Prelude.{
  ◌⊎◌, inl, inr, if◌then◌else◌, ℕ, ◌+◌, ◌<◌, ◌≡◌, sym, subst, Bool, Option, length, ltb, Bool-cases,
  arith, u64_mod,
}
use yaraft.Outcome.{ok, bind-ok}
use yaraft.Idl.{Message, Snapshot}
use yaraft.Entries.{IsRun}
use yaraft.RaftLog
use yaraft.RaftLog.{RaftLog}
use yaraft.RaftLog.Append.{IsJoined}
use yaraft.RaftLog.Match.{maybe_append_lem}
use yaraft.Raft.State.{Raft}
use yaraft.Raft.Membership.{restore, restore_all}
use yaraft.Raft.Handlers.{handle_append_entries, handle_heartbeat, handle_snapshot}
use yaraft.Raft.Same.{send-Same}
use yaraft.Raft.Later.Messages.{answer_append-Same, restore_node-Same}
use yaraft.Raft.Log.{
  IsKept, IsKept-refl, IsKept-trans, IsAppended-IsKept, commit_to-IsKept, restore-IsKept,
}
use yaraft.Raft.Log.Growing.{Same-IsKept}

maybe_append-IsKept :
    (l : RaftLog) (m : Message) {p : RaftLog × Option ℕ}
    → IsJoined l
    → IsRun (m.index + 1) m.entries
    → m.index + 1 + length m.entries < u64_mod
    → RaftLog.maybe_append l m.index m.logterm m.commit m.entries ≡ ok p
    → IsKept l p.0
maybe_append-IsKept l m v r h run =
    elim (maybe_append_lem l m.index m.logterm m.commit m.entries v r h run) [
      | inl (same, other) ↦ subst (λ x. IsKept l x.0) (sym same) (IsKept-refl l v)
      | inr (last, app) ↦ IsAppended-IsKept l m.index m.logterm m.commit m.entries _ app
    ]

pub handle_append_entries-IsKept :
    (m : Message) (r : Raft) {r' : Raft}
    → IsJoined r.raft_log
    → IsRun (m.index + 1) m.entries
    → m.index + 1 + length m.entries < u64_mod
    → handle_append_entries m r ≡ ok r'
    → IsKept r.raft_log r'.raft_log
unfolding handle_append_entries
handle_append_entries-IsKept m r v c h run = elim (Bool-cases (ltb m.index r.raft_log.committed)) [
  | inl behind ↦ Same-IsKept {r = r} v (send-Same _ r (rw behind at run))
  | inr level ↦
      let (p, one, rest) =
        bind-ok (RaftLog.maybe_append r.raft_log m.index m.logterm m.commit m.entries) _
          (rw level at run) in
      let kept = maybe_append-IsKept r.raft_log m v c h one in
      IsKept-trans kept
        (Same-IsKept {r = record r { raft_log = p.0 }} kept.joins (answer_append-Same m _ p.1 rest))
]

pub handle_heartbeat-IsKept :
    (m : Message) (r : Raft) {r' : Raft}
    → IsJoined r.raft_log
    → handle_heartbeat m r ≡ ok r'
    → IsKept r.raft_log r'.raft_log
unfolding handle_heartbeat
handle_heartbeat-IsKept m r v run =
    let (l, one, rest) = bind-ok (RaftLog.commit_to r.raft_log m.commit) _ run in
    let kept = commit_to-IsKept r.raft_log m.commit v one in
    IsKept-trans kept (Same-IsKept {r = record r { raft_log = l }} kept.joins (send-Same _ _ rest))

restore_all_log :
    (s : Snapshot) (r : Raft) {r' : Raft}
    → restore_all s r ≡ ok r'
    → r'.raft_log ≡ RaftLog.restore r.raft_log s
unfolding restore_all
restore_all_log s r run = grind (arith, restore_node-Same)

-- Where `restore` returns, the log is as before, has the commit index of the snapshot, or is the snapshot.
restore_calls :
    (s : Snapshot) (r : Raft) {p : Raft × Bool}
    → restore s r ≡ ok p
    → (p.0.raft_log ≡ r.raft_log)
      ⊎ (RaftLog.commit_to r.raft_log s.metadata_index ≡ ok p.0.raft_log)
      ⊎ ((r.raft_log.committed < s.metadata_index) × (p.0.raft_log ≡ RaftLog.restore r.raft_log s))
unfolding restore
restore_calls s r run = grind (arith, restore_all_log)

restore_node_log :
    (s : Snapshot) (r : Raft) {p : Raft × Bool}
    → IsJoined r.raft_log
    → s.metadata_index + 1 < u64_mod
    → restore s r ≡ ok p
    → IsKept r.raft_log p.0.raft_log
restore_node_log s r v h run = elim (restore_calls s r run) [
  | inl same ↦ subst (λ x. IsKept r.raft_log x) (sym same) (IsKept-refl r.raft_log v)
  | inr (inl call) ↦ commit_to-IsKept r.raft_log s.metadata_index v call
  | inr (inr (above, fresh)) ↦
      subst (λ x. IsKept r.raft_log x) (sym fresh) (restore-IsKept r.raft_log s v above h)
]

pub handle_snapshot-IsKept :
    (m : Message) (r : Raft) {r' : Raft}
    → IsJoined r.raft_log
    → m.snapshot.metadata_index + 1 < u64_mod
    → handle_snapshot m r ≡ ok r'
    → IsKept r.raft_log r'.raft_log
unfolding handle_snapshot
handle_snapshot-IsKept m r v h run =
    let (p, one, rest) = bind-ok (restore m.snapshot r) _ run in
    let (i, two, last) =
      bind-ok (if p.1 then RaftLog.last_index p.0.raft_log else ok p.0.raft_log.committed) _ rest in
    let kept = restore_node_log m.snapshot r v h one in
    IsKept-trans kept (Same-IsKept kept.joins (send-Same _ p.0 last))
