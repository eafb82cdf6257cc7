-- ===== src/Raft/Sent/Messages.antt =====
-- What a follower puts out.
use yaraft.Prelude.{ℕ, ◌≡◌, Bool, List, [], ◌∷◌, Option, none, some, arith}
use yaraft.Outcome.{ok}
use yaraft.Idl.{Message, Snapshot}
use yaraft.RaftLog
use yaraft.Raft.State.{Raft}
use yaraft.Raft.Membership.{set_progress, restore_node, restore_all, restore}
use yaraft.Raft.Handlers.{answer_append, handle_append_entries, handle_heartbeat, handle_snapshot}
use yaraft.Raft.Sent.{Speech, Spoke, is_grant, Spoke-refl, Spoke-trans, send-Spoke}

module _ (s : Speech) where
  answer_append-Spoke :
      (m : Message) (r : Raft) (o : Option ℕ) {r' : Raft}
      → answer_append m r o ≡ ok r'
      → Spoke s r r'
  unfolding answer_append is_grant
  answer_append-Spoke m r none e = grind (arith, send-Spoke s)
  answer_append-Spoke m r (some last) e = grind (arith, send-Spoke s)

  pub handle_append_entries-Spoke :
      (m : Message) (r : Raft) {r' : Raft} → handle_append_entries m r ≡ ok r' → Spoke s r r'
  unfolding handle_append_entries is_grant
  handle_append_entries-Spoke m r e = grind (arith, send-Spoke s, answer_append-Spoke)

  pub handle_heartbeat-Spoke :
      (m : Message) (r : Raft) {r' : Raft} → handle_heartbeat m r ≡ ok r' → Spoke s r r'
  unfolding handle_heartbeat is_grant
  handle_heartbeat-Spoke m r e = grind (arith, send-Spoke s)

  set_progress-Spoke :
      (id matched next : ℕ) (b : Bool) (r : Raft) {r' : Raft}
      → set_progress id matched next b r ≡ ok r'
      → Spoke s r r'
  unfolding set_progress
  set_progress-Spoke id matched next b r e = ground arith

  restore_node-Spoke :
      (ns : List ℕ) (b : Bool) (r : Raft) {r' : Raft} → restore_node ns b r ≡ ok r' → Spoke s r r'
  unfolding restore_node
  restore_node-Spoke [] b r e = grind (arith, Spoke-refl s)
  restore_node-Spoke (n ∷ ns) b r e =
      grind (arith, set_progress-Spoke, restore_node-Spoke ns, Spoke-trans s)

  restore_all-Spoke :
      (snap : Snapshot) (r : Raft) {r' : Raft} → restore_all snap r ≡ ok r' → Spoke s r r'
  unfolding restore_all RaftLog.restore
  restore_all-Spoke snap r e = grind (arith, restore_node-Spoke, Spoke-trans s)

  restore-Spoke :
      (snap : Snapshot) (r : Raft) {p : Raft × Bool} → restore snap r ≡ ok p → Spoke s r p.0
  unfolding restore
  restore-Spoke snap r e = grind (arith, restore_all-Spoke, Spoke-refl s)

  pub handle_snapshot-Spoke :
      (m : Message) (r : Raft) {r' : Raft} → handle_snapshot m r ≡ ok r' → Spoke s r r'
  unfolding handle_snapshot is_grant
  handle_snapshot-Spoke m r e = grind (arith, restore-Spoke, send-Spoke s)
