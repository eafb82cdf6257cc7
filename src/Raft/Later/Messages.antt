-- ===== src/Raft/Later/Messages.antt =====
-- A leader's messages take a follower only forward.
use yaraft.Prelude.{ℕ, ◌≤◌, ◌≡◌, Bool, List, [], ◌∷◌, Option, none, some, arith}
use yaraft.Outcome.{ok}
use yaraft.Idl.{Message, Snapshot}
use yaraft.RaftLog
use yaraft.RaftLog.Commit.{maybe_append-le, commit_to-le}
use yaraft.Raft.State.{Raft}
use yaraft.Raft.Membership.{set_progress, restore_node, restore_all, restore}
use yaraft.Raft.Handlers.{answer_append, handle_append_entries, handle_heartbeat, handle_snapshot}
use yaraft.Raft.Same.{Same, Same-refl, Same-trans, send-Same}
use yaraft.Raft.Later.{Later, Later-refl}

pub answer_append-Same :
    (m : Message) (r : Raft) (o : Option ℕ) {r' : Raft} → answer_append m r o ≡ ok r' → Same r r'
unfolding answer_append
answer_append-Same m r none e = grind (arith, send-Same)
answer_append-Same m r (some last) e = grind (arith, send-Same)

pub handle_append_entries-Later :
    (m : Message) (r : Raft) {r' : Raft} → handle_append_entries m r ≡ ok r' → Later r r'
unfolding handle_append_entries
handle_append_entries-Later m r e = grind (arith, send-Same, maybe_append-le, answer_append-Same)

pub handle_heartbeat-Later :
    (m : Message) (r : Raft) {r' : Raft} → handle_heartbeat m r ≡ ok r' → Later r r'
unfolding handle_heartbeat
handle_heartbeat-Later m r e = grind (arith, send-Same, commit_to-le)

set_progress-Same :
    (id matched next : ℕ) (b : Bool) (r : Raft) {r' : Raft}
    → set_progress id matched next b r ≡ ok r'
    → Same r r'
unfolding set_progress
set_progress-Same id matched next b r e = ground arith

pub restore_node-Same :
    (ns : List ℕ) (b : Bool) (r : Raft) {r' : Raft} → restore_node ns b r ≡ ok r' → Same r r'
unfolding restore_node
restore_node-Same [] b r e = grind (arith, Same-refl)
restore_node-Same (n ∷ ns) b r e =
    grind (arith, set_progress-Same, restore_node-Same ns, Same-trans)

restore_all-Later :
    (s : Snapshot) (r : Raft) {r' : Raft}
    → r.raft_log.committed ≤ s.metadata_index
    → restore_all s r ≡ ok r'
    → Later r r'
unfolding restore_all RaftLog.restore
restore_all-Later s r h e = grind (arith, restore_node-Same)

restore-Later : (s : Snapshot) (r : Raft) {p : Raft × Bool} → restore s r ≡ ok p → Later r p.0
unfolding restore
restore-Later s r e = grind (arith, commit_to-le, restore_all-Later, Later-refl)

pub handle_snapshot-Later :
    (m : Message) (r : Raft) {r' : Raft} → handle_snapshot m r ≡ ok r' → Later r r'
unfolding handle_snapshot
handle_snapshot-Later m r e = grind (arith, restore-Later, send-Same)
