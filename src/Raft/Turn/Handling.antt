-- ===== src/Raft/Turn/Handling.antt =====
-- Handlers that leave a node in its role.
use yaraft.Prelude.{◌∙◌, ◌≡◌, ◌⊎◌, inl, inr, Bool, true, false, Bool-cases, List, arith}
use yaraft.Outcome.{ok, bind-ok}
use yaraft.Idl.{Message, Snapshot, Entry}
use yaraft.Progress
use yaraft.Progress.{Progress}
use yaraft.Raft.State.{Raft, follower, put_progress}
use yaraft.Raft.Replicate.{maybe_commit, append_entry, send_all}
use yaraft.Raft.Membership.{restore, restore_all, restore_node}
use yaraft.Raft.Handlers.{handle_append_entries, handle_heartbeat, handle_snapshot}
use yaraft.Raft.Leader.{
  Stepped, after_match, send_fuel, propose, step_prop, step_app_accepted, step_app_resp,
  step_with_progress, step_check_quorum, step_leader,
}
use yaraft.Raft.Log.Leading.{answer, answer-Same}
use yaraft.Raft.Same.{
  Same-trans, put_progress-Same, send-Same, send_all-Same, bcast_append-Same, bcast_heartbeat-Same,
}
use yaraft.Raft.Ballot.{state-become_follower}
use yaraft.Raft.Later.Elections.{with_progress-Same}
use yaraft.Raft.Later.Messages.{answer_append-Same, restore_node-Same}
use yaraft.Raft.Later.Leading.{
  check_quorum_active-Same, step_read_index-Same, step_app_rejected-Same, finish_transfer-Same,
  step_heartbeat_resp-Same, step_snap_status-Same, step_unreachable-Same, step_transfer_leader-Same,
}
use yaraft.Raft.Turn.{Stays, Stays-refl, Stays-trans, Same-Stays}

maybe_commit-Stays : (r : Raft) {p : Raft × Bool} → maybe_commit r ≡ ok p → Stays r p.0
unfolding maybe_commit
maybe_commit-Stays r e = ground arith

pub append_entry-Stays :
    (es : List Entry) (r : Raft) {r' : Raft} → append_entry es r ≡ ok r' → Stays r r'
unfolding append_entry
append_entry-Stays es r e = grind (arith, with_progress-Same, maybe_commit-Stays)

pub handle_append_entries-Stays :
    (m : Message) (r : Raft) {r' : Raft} → handle_append_entries m r ≡ ok r' → Stays r r'
unfolding handle_append_entries
handle_append_entries-Stays m r e = grind (arith, send-Same, answer_append-Same)

pub handle_heartbeat-Stays :
    (m : Message) (r : Raft) {r' : Raft} → handle_heartbeat m r ≡ ok r' → Stays r r'
unfolding handle_heartbeat
handle_heartbeat-Stays m r e = grind (arith, send-Same)

restore_all-Stays : (s : Snapshot) (r : Raft) {r' : Raft} → restore_all s r ≡ ok r' → Stays r r'
unfolding restore_all
restore_all-Stays s r e =
    let (r₁, voters, learners) =
      bind-ok (restore_node _ false _) (λ r₁. restore_node _ true r₁) e in
    let one = restore_node-Same _ false _ voters in
    let two = restore_node-Same _ true r₁ learners in
    record {
      same_id = two.same_id ∙ one.same_id;
      same_term = two.same_term ∙ one.same_term;
      same_vote = two.same_vote ∙ one.same_vote;
      same_state = two.same_state ∙ one.same_state;
      same_votes = two.same_votes ∙ one.same_votes;
    }

restore-Stays : (s : Snapshot) (r : Raft) {p : Raft × Bool} → restore s r ≡ ok p → Stays r p.0
unfolding restore
restore-Stays s r e = grind (arith, restore_all-Stays)

pub handle_snapshot-Stays :
    (m : Message) (r : Raft) {r' : Raft} → handle_snapshot m r ≡ ok r' → Stays r r'
unfolding handle_snapshot
handle_snapshot-Stays m r e = grind (arith, restore-Stays, send-Same)

propose-Stays : (m : Message) (r : Raft) {r' : Raft} → propose m r ≡ ok r' → Stays r r'
unfolding propose
propose-Stays m r e = grind (arith, append_entry-Stays, bcast_append-Same)

step_prop-Stays : (m : Message) (r : Raft) {p : Stepped} → step_prop m r ≡ ok p → Stays r p.0
unfolding step_prop
step_prop-Stays m r e = grind (arith, propose-Stays, Stays-refl)

step_app_accepted-Stays :
    (m : Message) (pr : Progress) (r : Raft) {r' : Raft}
    → step_app_accepted m pr r ≡ ok r'
    → Stays r r'
unfolding step_app_accepted
step_app_accepted-Stays m pr r e = elim (Bool-cases (Progress.maybe_update m.index pr).1) [
  | inl moved ↦
      let (p, one, rest) =
        bind-ok (after_match m.index (Progress.maybe_update m.index pr).0) _ (rw moved at e) in
      let (c, two, rest₁) = bind-ok (maybe_commit (put_progress m.from p r)) _ rest in
      let (t, three, rest₂) = bind-ok (answer c.1 (Progress.is_paused pr) m.from c.0) _ rest₁ in
      let (u, four, last) = bind-ok (send_all (send_fuel p) m.from t) _ rest₂ in
      Stays-trans (Same-Stays (put_progress-Same m.from p r)) (
        Stays-trans (maybe_commit-Stays _ two) (
          Same-Stays (
            Same-trans (answer-Same c.1 (Progress.is_paused pr) m.from c.0 three) (
              Same-trans (send_all-Same (send_fuel p) m.from t four)
                (finish_transfer-Same m.from u last)))))
  | inr old ↦ grind (arith, put_progress-Same)
]

step_app_resp-Stays :
    (m : Message) (pr : Progress) (r : Raft) {r' : Raft} → step_app_resp m pr r ≡ ok r' → Stays r r'
unfolding step_app_resp
step_app_resp-Stays m pr r e = grind (arith, step_app_rejected-Same, step_app_accepted-Stays)

step_with_progress-Stays :
    (m : Message) (r : Raft) (pr : Progress) {r' : Raft}
    → step_with_progress m r pr ≡ ok r'
    → Stays r r'
unfolding step_with_progress
step_with_progress-Stays m r pr e = grind (
  arith, step_app_resp-Stays, step_heartbeat_resp-Same, step_snap_status-Same,
  step_unreachable-Same, step_transfer_leader-Same,
)

step_check_quorum-Stays :
    (r : Raft) {r' : Raft} → step_check_quorum r ≡ ok r' → Stays r r' ⊎ (r'.state ≡ follower)
unfolding step_check_quorum
step_check_quorum-Stays r e = grind (arith, check_quorum_active-Same, state-become_follower)

pub step_leader-Stays :
    (m : Message) (r : Raft) {p : Stepped}
    → step_leader m r ≡ ok p
    → Stays r p.0 ⊎ (p.0.state ≡ follower)
unfolding step_leader
step_leader-Stays m r e = grind (
  arith, bcast_heartbeat-Same, step_check_quorum-Stays, step_prop-Stays, step_read_index-Same,
  step_with_progress-Stays,
)
