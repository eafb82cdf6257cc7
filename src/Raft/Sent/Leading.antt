-- ===== src/Raft/Sent/Leading.antt =====
-- What a leader puts out.
use yaraft.Prelude.{ℕ, Bool, Bool-cases, inl, inr, ◌≡◌, List, [], ◌∷◌, arith}
use yaraft.Outcome.{ok, bind-ok}
use yaraft.Idl.{Message}
use yaraft.Progress
use yaraft.Progress.{Progress}
use yaraft.ReadOnly.{ReadIndexStatus}
use yaraft.Raft.State.{Raft, put_progress}
use yaraft.Raft.Replicate.{maybe_commit, send_all}
use yaraft.Raft.Log.Leading.{answer}
use yaraft.Raft.Leader.{after_match, send_fuel}
use yaraft.Raft.Leader.{
  Stepped, check_quorum_active, propose, step_prop, answer_locally, answer_read, read_by_quorum,
  step_read_index, step_app_rejected, finish_transfer, step_app_accepted, step_app_resp,
  answer_reads, ack_read, step_heartbeat_resp, step_snap_status, step_unreachable, start_transfer,
  step_transfer_leader, step_with_progress, step_check_quorum, step_leader,
}
use yaraft.Raft.Roles.{abort_leader_transfer}
use yaraft.Raft.Sent.{
  Speech, Spoke, is_grant, Spoke-refl, Spoke-trans, put_progress-Spoke, send-Spoke,
  send_append-Spoke, send_all-Spoke, bcast_append-Spoke, bcast_heartbeat-Spoke,
  bcast_heartbeat_with_ctx-Spoke, send_timeout_now-Spoke,
}
use yaraft.Raft.Sent.Elections.{maybe_commit-Spoke, append_entry-Spoke, own_follower-Spoke}

module _ (s : Speech) where
  check_quorum_active-Spoke : (r : Raft) → Spoke s r (check_quorum_active r).0
  unfolding check_quorum_active
  check_quorum_active-Spoke r = ground (arith, Spoke-refl s r)

  step_check_quorum-Spoke : (r : Raft) {r' : Raft} → step_check_quorum r ≡ ok r' → Spoke s r r'
  unfolding step_check_quorum
  step_check_quorum-Spoke r e =
      grind (arith, check_quorum_active-Spoke, own_follower-Spoke s, Spoke-trans s, Spoke-refl s)

  propose-Spoke : (m : Message) (r : Raft) {r' : Raft} → propose m r ≡ ok r' → Spoke s r r'
  unfolding propose
  propose-Spoke m r e =
      grind (arith, append_entry-Spoke s, bcast_append-Spoke s, Spoke-trans s, Spoke-refl s)

  step_prop-Spoke : (m : Message) (r : Raft) {p : Stepped} → step_prop m r ≡ ok p → Spoke s r p.0
  unfolding step_prop
  step_prop-Spoke m r e = grind (arith, propose-Spoke, Spoke-refl s, Spoke-trans s)

  pub answer_locally-Spoke :
      (i : ℕ) (m : Message) (r : Raft) {r' : Raft} → answer_locally i m r ≡ ok r' → Spoke s r r'
  unfolding answer_locally
  answer_locally-Spoke i m r e = ground (arith, Spoke-refl s r)

  answer_read-Spoke :
      (i : ℕ) (m : Message) (r : Raft) {r' : Raft} → answer_read i m r ≡ ok r' → Spoke s r r'
  unfolding answer_read is_grant
  answer_read-Spoke i m r e =
      grind (arith, answer_locally-Spoke, send-Spoke s, Spoke-trans s, Spoke-refl s)

  read_by_quorum-Spoke :
      (m : Message) (r : Raft) {r' : Raft} → read_by_quorum m r ≡ ok r' → Spoke s r r'
  unfolding read_by_quorum
  read_by_quorum-Spoke m r e =
      grind
        (arith, answer_read-Spoke, bcast_heartbeat_with_ctx-Spoke s, Spoke-trans s, Spoke-refl s)

  step_read_index-Spoke :
      (m : Message) (r : Raft) {r' : Raft} → step_read_index m r ≡ ok r' → Spoke s r r'
  unfolding step_read_index
  step_read_index-Spoke m r e =
      grind (arith, answer_locally-Spoke, read_by_quorum-Spoke, Spoke-refl s, Spoke-trans s)

  step_app_rejected-Spoke :
      (m : Message) (pr : Progress) (r : Raft) {r' : Raft}
      → step_app_rejected m pr r ≡ ok r'
      → Spoke s r r'
  unfolding step_app_rejected
  step_app_rejected-Spoke m pr r e =
      grind (arith, send_append-Spoke s, put_progress-Spoke s, Spoke-trans s, Spoke-refl s)

  finish_transfer-Spoke :
      (from : ℕ) (r : Raft) {r' : Raft} → finish_transfer from r ≡ ok r' → Spoke s r r'
  unfolding finish_transfer
  finish_transfer-Spoke from r e =
      grind (arith, send_timeout_now-Spoke s, Spoke-refl s, Spoke-trans s)

  answer-Spoke :
      (committed old_paused : Bool) (from : ℕ) (r : Raft) {r' : Raft}
      → answer committed old_paused from r ≡ ok r'
      → Spoke s r r'
  answer-Spoke committed old_paused from r e =
      grind (arith, bcast_append-Spoke s, send_append-Spoke s, Spoke-refl s)

  step_app_accepted-Spoke :
      (m : Message) (pr : Progress) (r : Raft) {r' : Raft}
      → step_app_accepted m pr r ≡ ok r'
      → Spoke s r r'
  unfolding step_app_accepted
  step_app_accepted-Spoke m pr r e = elim (Bool-cases (Progress.maybe_update m.index pr).1) [
    | inl moved ↦
        let (p, one, rest) =
          bind-ok (after_match m.index (Progress.maybe_update m.index pr).0) _ (rw moved at e) in
        let (c, two, rest₁) = bind-ok (maybe_commit (put_progress m.from p r)) _ rest in
        let (t, three, rest₂) = bind-ok (answer c.1 (Progress.is_paused pr) m.from c.0) _ rest₁ in
        let (u, four, last) = bind-ok (send_all (send_fuel p) m.from t) _ rest₂ in
        Spoke-trans s (put_progress-Spoke s m.from p r) (
          Spoke-trans s (maybe_commit-Spoke s _ two) (
            Spoke-trans s (answer-Spoke c.1 (Progress.is_paused pr) m.from c.0 three) (
              Spoke-trans s (send_all-Spoke s (send_fuel p) m.from t four)
                (finish_transfer-Spoke m.from u last))))
    | inr old ↦ grind (arith, put_progress-Spoke s)
  ]

  step_app_resp-Spoke :
      (m : Message) (pr : Progress) (r : Raft) {r' : Raft}
      → step_app_resp m pr r ≡ ok r'
      → Spoke s r r'
  unfolding step_app_resp
  step_app_resp-Spoke m pr r e =
      grind (arith, step_app_rejected-Spoke, step_app_accepted-Spoke, Spoke-trans s, Spoke-refl s)

  answer_reads-Spoke :
      (rss : List ReadIndexStatus) (r : Raft) {r' : Raft}
      → answer_reads rss r ≡ ok r'
      → Spoke s r r'
  unfolding answer_reads
  answer_reads-Spoke [] r e = grind (arith, Spoke-refl s, Spoke-trans s)
  answer_reads-Spoke (rs ∷ rss) r e =
      grind (arith, answer_read-Spoke, answer_reads-Spoke rss, Spoke-trans s, Spoke-refl s)

  ack_read-Spoke : (m : Message) (r : Raft) {r' : Raft} → ack_read m r ≡ ok r' → Spoke s r r'
  unfolding ack_read
  ack_read-Spoke m r e = grind (arith, answer_reads-Spoke, Spoke-refl s, Spoke-trans s)

  step_heartbeat_resp-Spoke :
      (m : Message) (pr : Progress) (r : Raft) {r' : Raft}
      → step_heartbeat_resp m pr r ≡ ok r'
      → Spoke s r r'
  unfolding step_heartbeat_resp
  step_heartbeat_resp-Spoke m pr r e = grind (
    arith,
    put_progress-Spoke s,
    send_append-Spoke s,
    ack_read-Spoke,
    Spoke-trans s,
    Spoke-refl s,
  )

  step_snap_status-Spoke :
      (m : Message) (pr : Progress) (r : Raft) → Spoke s r (step_snap_status m pr r)
  unfolding step_snap_status
  step_snap_status-Spoke m pr r = grind (arith, put_progress-Spoke s, Spoke-refl s, Spoke-trans s)

  step_unreachable-Spoke :
      (m : Message) (pr : Progress) (r : Raft) → Spoke s r (step_unreachable m pr r)
  unfolding step_unreachable
  step_unreachable-Spoke m pr r = grind (arith, put_progress-Spoke s, Spoke-refl s, Spoke-trans s)

  start_transfer-Spoke :
      (to : ℕ) (pr : Progress) (r : Raft) {r' : Raft}
      → start_transfer to pr r ≡ ok r'
      → Spoke s r r'
  unfolding start_transfer
  start_transfer-Spoke to pr r e =
      grind (arith, send_timeout_now-Spoke s, send_append-Spoke s, Spoke-trans s, Spoke-refl s)

  step_transfer_leader-Spoke :
      (m : Message) (pr : Progress) (r : Raft) {r' : Raft}
      → step_transfer_leader m pr r ≡ ok r'
      → Spoke s r r'
  unfolding step_transfer_leader abort_leader_transfer
  step_transfer_leader-Spoke m pr r e =
      grind (arith, start_transfer-Spoke, Spoke-trans s, Spoke-refl s)

  step_with_progress-Spoke :
      (m : Message) (r : Raft) (pr : Progress) {r' : Raft}
      → step_with_progress m r pr ≡ ok r'
      → Spoke s r r'
  unfolding step_with_progress
  step_with_progress-Spoke m r pr e = grind (
    arith,
    step_app_resp-Spoke,
    step_heartbeat_resp-Spoke,
    step_snap_status-Spoke,
    step_unreachable-Spoke,
    step_transfer_leader-Spoke,
    Spoke-refl s,
    Spoke-trans s,
  )

  pub step_leader-Spoke :
      (m : Message) (r : Raft) {p : Stepped} → step_leader m r ≡ ok p → Spoke s r p.0
  unfolding step_leader
  step_leader-Spoke m r e = grind (
    arith,
    bcast_heartbeat-Spoke s,
    step_check_quorum-Spoke,
    step_prop-Spoke,
    step_read_index-Spoke,
    step_with_progress-Spoke,
    Spoke-refl s,
    Spoke-trans s,
  )
