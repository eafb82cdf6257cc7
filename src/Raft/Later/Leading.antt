-- ===== src/Raft/Later/Leading.antt =====
-- A leader only goes forward.
use yaraft.Prelude.{ℕ, ◌≡◌, List, [], ◌∷◌, arith}
use yaraft.Outcome.{ok}
use yaraft.Idl.{Message}
use yaraft.Progress.{Progress}
use yaraft.ReadOnly.{ReadIndexStatus}
use yaraft.Raft.State.{Raft}
use yaraft.Raft.Leader.{
  Stepped, check_quorum_active, propose, step_prop, answer_locally, answer_read, read_by_quorum,
  step_read_index, step_app_rejected, finish_transfer, step_app_accepted, step_app_resp,
  answer_reads, ack_read, step_heartbeat_resp, step_snap_status, step_unreachable, start_transfer,
  step_transfer_leader, step_with_progress, step_check_quorum, step_leader,
}
use yaraft.Raft.Roles.{abort_leader_transfer}
use yaraft.Raft.Same.{
  Same, Same-refl, Same-trans, put_progress-Same, send-Same, send_append-Same, send_all-Same,
  bcast_append-Same, bcast_heartbeat-Same, bcast_heartbeat_with_ctx-Same, send_timeout_now-Same,
}
use yaraft.Raft.Later.{Later, Later-refl, Same-Later}
use yaraft.Raft.Later.Elections.{maybe_commit-Later, append_entry-Later, become_follower-Later}

pub check_quorum_active-Same : (r : Raft) → Same r (check_quorum_active r).0
unfolding check_quorum_active
check_quorum_active-Same r = ground arith

step_check_quorum-Later : (r : Raft) {r' : Raft} → step_check_quorum r ≡ ok r' → Later r r'
unfolding step_check_quorum
step_check_quorum-Later r e = grind (arith, check_quorum_active-Same, become_follower-Later)

propose-Later : (m : Message) (r : Raft) {r' : Raft} → propose m r ≡ ok r' → Later r r'
unfolding propose
propose-Later m r e = grind (arith, append_entry-Later, bcast_append-Same)

step_prop-Later : (m : Message) (r : Raft) {p : Stepped} → step_prop m r ≡ ok p → Later r p.0
unfolding step_prop
step_prop-Later m r e = grind (arith, propose-Later, Later-refl)

pub answer_locally-Same :
    (i : ℕ) (m : Message) (r : Raft) {r' : Raft} → answer_locally i m r ≡ ok r' → Same r r'
unfolding answer_locally
answer_locally-Same i m r e = ground arith

answer_read-Same :
    (i : ℕ) (m : Message) (r : Raft) {r' : Raft} → answer_read i m r ≡ ok r' → Same r r'
unfolding answer_read
answer_read-Same i m r e = grind (arith, answer_locally-Same, send-Same)

read_by_quorum-Same : (m : Message) (r : Raft) {r' : Raft} → read_by_quorum m r ≡ ok r' → Same r r'
unfolding read_by_quorum
read_by_quorum-Same m r e = grind (arith, answer_read-Same, bcast_heartbeat_with_ctx-Same)

pub step_read_index-Same :
    (m : Message) (r : Raft) {r' : Raft} → step_read_index m r ≡ ok r' → Same r r'
unfolding step_read_index
step_read_index-Same m r e = grind (arith, answer_locally-Same, read_by_quorum-Same, Same-refl)

pub step_app_rejected-Same :
    (m : Message) (pr : Progress) (r : Raft) {r' : Raft}
    → step_app_rejected m pr r ≡ ok r'
    → Same r r'
unfolding step_app_rejected
step_app_rejected-Same m pr r e = grind (arith, send_append-Same, put_progress-Same)

pub finish_transfer-Same :
    (from : ℕ) (r : Raft) {r' : Raft} → finish_transfer from r ≡ ok r' → Same r r'
unfolding finish_transfer
finish_transfer-Same from r e = grind (arith, send_timeout_now-Same, Same-refl)

step_app_accepted-Later :
    (m : Message) (pr : Progress) (r : Raft) {r' : Raft}
    → step_app_accepted m pr r ≡ ok r'
    → Later r r'
unfolding step_app_accepted
step_app_accepted-Later m pr r e = grind (
  arith, maybe_commit-Later, bcast_append-Same, send_append-Same, send_all-Same,
  finish_transfer-Same, put_progress-Same,
)

step_app_resp-Later :
    (m : Message) (pr : Progress) (r : Raft) {r' : Raft} → step_app_resp m pr r ≡ ok r' → Later r r'
unfolding step_app_resp
step_app_resp-Later m pr r e =
    grind (arith, step_app_rejected-Same, step_app_accepted-Later, Same-Later)

answer_reads-Same :
    (rss : List ReadIndexStatus) (r : Raft) {r' : Raft} → answer_reads rss r ≡ ok r' → Same r r'
unfolding answer_reads
answer_reads-Same [] r e = grind (arith, Same-refl)
answer_reads-Same (rs ∷ rss) r e =
    grind (arith, answer_read-Same, answer_reads-Same rss, Same-trans)

ack_read-Same : (m : Message) (r : Raft) {r' : Raft} → ack_read m r ≡ ok r' → Same r r'
unfolding ack_read
ack_read-Same m r e = grind (arith, answer_reads-Same, Same-refl)

pub step_heartbeat_resp-Same :
    (m : Message) (pr : Progress) (r : Raft) {r' : Raft}
    → step_heartbeat_resp m pr r ≡ ok r'
    → Same r r'
unfolding step_heartbeat_resp
step_heartbeat_resp-Same m pr r e =
    grind (arith, put_progress-Same, send_append-Same, ack_read-Same)

pub step_snap_status-Same :
    (m : Message) (pr : Progress) (r : Raft) → Same r (step_snap_status m pr r)
unfolding step_snap_status
step_snap_status-Same m pr r = grind (arith, put_progress-Same, Same-refl)

pub step_unreachable-Same :
    (m : Message) (pr : Progress) (r : Raft) → Same r (step_unreachable m pr r)
unfolding step_unreachable
step_unreachable-Same m pr r = grind (arith, put_progress-Same, Same-refl)

start_transfer-Same :
    (to : ℕ) (pr : Progress) (r : Raft) {r' : Raft} → start_transfer to pr r ≡ ok r' → Same r r'
unfolding start_transfer
start_transfer-Same to pr r e = grind (arith, send_timeout_now-Same, send_append-Same)

pub step_transfer_leader-Same :
    (m : Message) (pr : Progress) (r : Raft) {r' : Raft}
    → step_transfer_leader m pr r ≡ ok r'
    → Same r r'
unfolding step_transfer_leader abort_leader_transfer
step_transfer_leader-Same m pr r e = grind (arith, start_transfer-Same)

step_with_progress-Later :
    (m : Message) (r : Raft) (pr : Progress) {r' : Raft}
    → step_with_progress m r pr ≡ ok r'
    → Later r r'
unfolding step_with_progress
step_with_progress-Later m r pr e = grind (
  arith, step_app_resp-Later, step_heartbeat_resp-Same, step_snap_status-Same,
  step_unreachable-Same, step_transfer_leader-Same, Same-Later, Later-refl,
)

pub step_leader-Later :
    (m : Message) (r : Raft) {p : Stepped} → step_leader m r ≡ ok p → Later r p.0
unfolding step_leader
step_leader-Later m r e = grind (
  arith, bcast_heartbeat-Same, step_check_quorum-Later, step_prop-Later, step_read_index-Same,
  step_with_progress-Later, Same-Later, Later-refl,
)
