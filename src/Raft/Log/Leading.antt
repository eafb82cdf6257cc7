-- ===== src/Raft/Log/Leading.antt =====
-- What a leader makes of its log.
use yaraft.Prelude.{
  ◌∙◌, if◌then◌else◌, ℕ, ◌≡◌, refl, Bool, Bool-cases, inl, inr, List, [], ◌∷◌, length, arith,
}
use yaraft.Outcome.{Outcome, ok, bind-ok}
use yaraft.Idl.{Message, Entry}
use yaraft.Progress
use yaraft.Progress.{Progress}
use yaraft.RaftLog.{RaftLog, last_index}
use yaraft.RaftLog.Append.{IsJoined}
use yaraft.Raft.State.{Raft, put_progress}
use yaraft.Raft.Replicate.{append_entry, maybe_commit, bcast_append, send_append, send_all}
use yaraft.Raft.Leader.{
  Stepped, after_match, send_fuel, screen_conf_changes, propose, step_prop, step_app_accepted,
  step_app_resp, step_with_progress, step_check_quorum, step_leader,
}
use yaraft.Raft.Same.{
  Same, Same-refl, Same-trans, put_progress-Same, send_append-Same, send_all-Same,
  bcast_append-Same, bcast_heartbeat-Same,
}
use yaraft.Raft.Later.Leading.{
  check_quorum_active-Same, step_read_index-Same, step_app_rejected-Same, finish_transfer-Same,
  step_heartbeat_resp-Same, step_snap_status-Same, step_unreachable-Same, step_transfer_leader-Same,
}
use yaraft.Raft.Log.{HasRoom}
use yaraft.Raft.Log.Campaigns.{
  Keeps, same-Keeps, then_Same, append_entry-from, maybe_commit-from, become_follower_log,
}

length-screen :
    (last applied pending i : ℕ) (es : List Entry)
    → length (screen_conf_changes last applied pending i es).0 ≡ length es
unfolding screen_conf_changes
length-screen last applied pending i [] = refl
length-screen last applied pending i (e ∷ es) =
    grind (arith, λ (p : ℕ). λ (j : ℕ). length-screen last applied p j es)

-- The messages that go out behind an index that has moved.
abbrev pub answer : Bool → Bool → ℕ → Raft → Outcome Raft
answer committed old_paused from r =
    if committed then bcast_append r else if old_paused then send_append from r else ok r

pub answer-Same :
    (committed old_paused : Bool) (from : ℕ) (r : Raft) {r' : Raft}
    → answer committed old_paused from r ≡ ok r'
    → Same r r'
answer-Same committed old_paused from r run =
    grind (arith, bcast_append-Same, send_append-Same, Same-refl)

module _ (l : RaftLog) (v : IsJoined l) where
  propose-Keeps :
      (m : Message) (r : Raft) {r' : Raft}
      → r.raft_log ≡ l
      → HasRoom l (length m.entries)
      → propose m r ≡ ok r'
      → Keeps l r'
  unfolding propose
  propose-Keeps m r e h run =
      let (last, one, rest) = bind-ok (last_index r.raft_log) _ run in
      let screened = screen_conf_changes last r.raft_log.applied r.pending_conf_index 0 m.entries in
      let (s, two, sent) =
        bind-ok (append_entry screened.0 (record r { pending_conf_index = screened.1 })) _ rest in
      let fits = length-screen last r.raft_log.applied r.pending_conf_index 0 m.entries in
      then_Same l v s
        (append_entry-from l v screened.0 (record r { pending_conf_index = screened.1 }) e
          (omega arith) two)
        (bcast_append-Same s sent)

  step_prop-Keeps :
      (m : Message) (r : Raft) {p : Stepped}
      → r.raft_log ≡ l
      → HasRoom l (length m.entries)
      → step_prop m r ≡ ok p
      → Keeps l p.0
  unfolding step_prop
  step_prop-Keeps m r e h run = grind (arith, propose-Keeps, same-Keeps l v)

  step_app_accepted-Keeps :
      (m : Message) (pr : Progress) (r : Raft) {r' : Raft}
      → r.raft_log ≡ l
      → step_app_accepted m pr r ≡ ok r'
      → Keeps l r'
  unfolding step_app_accepted
  step_app_accepted-Keeps m pr r e run = elim (Bool-cases (Progress.maybe_update m.index pr).1) [
    | inl moved ↦
        let (p, one, rest) =
          bind-ok (after_match m.index (Progress.maybe_update m.index pr).0) _ (rw moved at run) in
        let (c, two, rest₁) = bind-ok (maybe_commit (put_progress m.from p r)) _ rest in
        let (s, three, rest₂) = bind-ok (answer c.1 (Progress.is_paused pr) m.from c.0) _ rest₁ in
        let (t, four, last) = bind-ok (send_all (send_fuel p) m.from s) _ rest₂ in
        then_Same l v c.0
          (maybe_commit-from l v _ ((put_progress-Same m.from p r).same_log ∙ e) two)
          (Same-trans (answer-Same c.1 (Progress.is_paused pr) m.from c.0 three) (
            Same-trans (send_all-Same (send_fuel p) m.from s four)
              (finish_transfer-Same m.from t last)))
    | inr old ↦ grind (arith, put_progress-Same, same-Keeps l v)
  ]

  step_app_resp-Keeps :
      (m : Message) (pr : Progress) (r : Raft) {r' : Raft}
      → r.raft_log ≡ l
      → step_app_resp m pr r ≡ ok r'
      → Keeps l r'
  unfolding step_app_resp
  step_app_resp-Keeps m pr r e run =
      grind (arith, step_app_rejected-Same, step_app_accepted-Keeps, then_Same l v, same-Keeps l v)

  step_check_quorum-Keeps :
      (r : Raft) {r' : Raft} → r.raft_log ≡ l → step_check_quorum r ≡ ok r' → Keeps l r'
  unfolding step_check_quorum
  step_check_quorum-Keeps r e run =
      grind (arith, check_quorum_active-Same, become_follower_log, same-Keeps l v)

  step_with_progress-Keeps :
      (m : Message) (r : Raft) (pr : Progress) {r' : Raft}
      → r.raft_log ≡ l
      → step_with_progress m r pr ≡ ok r'
      → Keeps l r'
  unfolding step_with_progress
  step_with_progress-Keeps m r pr e run = grind (
    arith,
    step_app_resp-Keeps,
    step_heartbeat_resp-Same,
    step_snap_status-Same,
    step_unreachable-Same,
    step_transfer_leader-Same,
    then_Same l v,
    same-Keeps l v,
  )

  pub step_leader-Keeps :
      (m : Message) (r : Raft) {p : Stepped}
      → r.raft_log ≡ l
      → HasRoom l (length m.entries)
      → step_leader m r ≡ ok p
      → Keeps l p.0
  unfolding step_leader
  step_leader-Keeps m r e h run = grind (
    arith,
    bcast_heartbeat-Same,
    step_check_quorum-Keeps,
    step_prop-Keeps,
    step_read_index-Same,
    step_with_progress-Keeps,
    then_Same l v,
    same-Keeps l v,
  )
