-- ===== src/Raft/Log/Stepping.antt =====
-- What one message makes of a node's log.
use yaraft.Prelude.{◌+◌, ◌<◌, ◌≡◌, length, arith, u64_mod, subst, refl}
use yaraft.Outcome.{ok, bind-ok, ◌>>=◌}
use yaraft.Raft.Replicate.{bcast_append}
use yaraft.Raft.Roles.{become_leader}
use yaraft.Idl.{Message, MessageType, msg_prop, msg_app, msg_heartbeat, msg_snap, msg_timeout_now}
use yaraft.Entries.{IsRun}
use yaraft.RaftLog.{RaftLog}
use yaraft.RaftLog.Append.{IsJoined}
use yaraft.Raft.State.{Raft}
use yaraft.Raft.Leader.{Stepped}
use yaraft.Raft.Handlers.{handle_append_entries, handle_heartbeat, handle_snapshot}
use yaraft.Raft.Step.{
  won, count_vote, step_candidate, step_follower, step_role, start_campaign, step_hup, grant_vote,
  step_vote, dispatch, step_later, step, candidate_case,
}
use yaraft.Raft.Same.{send-Same}
use yaraft.Raft.Later.Stepping.{
  forward-Same, heed-Same, read_index_resp-Same, refuse_vote-Same, step_earlier-Same,
}
use yaraft.Raft.Log.{IsKept, HasRoom}
use yaraft.Raft.Log.Following.{
  handle_append_entries-IsKept, handle_heartbeat-IsKept, handle_snapshot-IsKept,
}
use yaraft.Raft.Log.Campaigns.{
  Keeps, same-Keeps, then_Same, then_bcast, become_leader-Keeps, campaign-Keeps,
  become_follower_log, poll_log,
}
use yaraft.Raft.Log.Leading.{step_leader-Keeps}

-- The entries of a `MsgApp` follow its index, the index of a snapshot is below 2^64 - 1.
pub record IsSound (m : Message) : Type 0 where
  pub run : (m.msg_type ≡ msg_app) → IsRun (m.index + 1) m.entries
  pub fits : (m.msg_type ≡ msg_app) → m.index + 1 + length m.entries < u64_mod
  pub below : (m.msg_type ≡ msg_snap) → m.snapshot.metadata_index + 1 < u64_mod

module _ (l : RaftLog) (v : IsJoined l) where
  append_entries-Keeps :
      (m : Message) (r : Raft) {r' : Raft}
      → r.raft_log ≡ l
      → IsSound m
      → m.msg_type ≡ msg_app
      → handle_append_entries m r ≡ ok r'
      → Keeps l r'
  unfolding Keeps
  append_entries-Keeps m r {r' = r'} e s t run =
      subst (λ x. (IsJoined x → IsKept x r'.raft_log)) e
        (λ a. handle_append_entries-IsKept m r a (s.run t) (s.fits t) run) v

  heartbeat-Keeps :
      (m : Message) (r : Raft) {r' : Raft}
      → r.raft_log ≡ l
      → handle_heartbeat m r ≡ ok r'
      → Keeps l r'
  unfolding Keeps
  heartbeat-Keeps m r {r' = r'} e run =
      subst (λ x. (IsJoined x → IsKept x r'.raft_log)) e (λ a. handle_heartbeat-IsKept m r a run) v

  snapshot-Keeps :
      (m : Message) (r : Raft) {r' : Raft}
      → r.raft_log ≡ l
      → IsSound m
      → m.msg_type ≡ msg_snap
      → handle_snapshot m r ≡ ok r'
      → Keeps l r'
  unfolding Keeps
  snapshot-Keeps m r {r' = r'} e s t run =
      subst (λ x. (IsJoined x → IsKept x r'.raft_log)) e
        (λ a. handle_snapshot-IsKept m r a (s.below t) run) v

  lead-Keeps :
      (r : Raft) {r' : Raft}
      → r.raft_log ≡ l
      → HasRoom l 1
      → (become_leader r >>= bcast_append) ≡ ok r'
      → Keeps l r'
  lead-Keeps r e h run =
      let (s, one, rest) = bind-ok (become_leader r) _ run in
      then_bcast l v s (become_leader-Keeps l v r e h one) rest

  won-Keeps : (r : Raft) {r' : Raft} → r.raft_log ≡ l → HasRoom l 1 → won r ≡ ok r' → Keeps l r'
  unfolding won
  won-Keeps r e h run = grind (arith, campaign-Keeps l v, lead-Keeps)

  count_vote-Keeps :
      (m : Message) (r : Raft) {r' : Raft}
      → r.raft_log ≡ l
      → HasRoom l 1
      → count_vote m r ≡ ok r'
      → Keeps l r'
  unfolding count_vote
  count_vote-Keeps m r e h run =
      grind (arith, poll_log, won-Keeps, become_follower_log, same-Keeps l v)

  candidate_case-Keeps :
      (t : MessageType) (m : Message) (r : Raft) {p : Stepped}
      → r.raft_log ≡ l
      → HasRoom l 1
      → IsSound m
      → m.msg_type ≡ t
      → candidate_case t m r ≡ ok p
      → Keeps l p.0
  unfolding candidate_case
  candidate_case-Keeps msg_prop m r e h s k run = grind (arith, same-Keeps l v)
  candidate_case-Keeps msg_app m r e h s k run =
      grind (arith, become_follower_log, append_entries-Keeps)
  candidate_case-Keeps msg_heartbeat m r e h s k run =
      grind (arith, become_follower_log, heartbeat-Keeps)
  candidate_case-Keeps msg_snap m r e h s k run = grind (arith, become_follower_log, snapshot-Keeps)
  candidate_case-Keeps msg_timeout_now m r e h s k run = grind (arith, same-Keeps l v)
  candidate_case-Keeps _ m r e h s k run = grind (arith, count_vote-Keeps, same-Keeps l v)

  step_follower-Keeps :
      (m : Message) (r : Raft) {p : Stepped}
      → r.raft_log ≡ l
      → HasRoom l 1
      → IsSound m
      → step_follower m r ≡ ok p
      → Keeps l p.0
  unfolding step_follower
  step_follower-Keeps m r e h s run = grind (
    arith,
    forward-Same,
    heed-Same,
    append_entries-Keeps,
    heartbeat-Keeps,
    snapshot-Keeps,
    campaign-Keeps l v,
    read_index_resp-Same,
    same-Keeps l v,
    then_Same l v,
  )

  step_vote-Keeps :
      (m : Message) (r : Raft) {r' : Raft} → r.raft_log ≡ l → step_vote m r ≡ ok r' → Keeps l r'
  unfolding step_vote grant_vote
  step_vote-Keeps m r e run =
      grind (arith, send-Same, refuse_vote-Same, same-Keeps l v, then_Same l v)

  step_hup-Keeps :
      (r : Raft) {r' : Raft} → r.raft_log ≡ l → HasRoom l 1 → step_hup r ≡ ok r' → Keeps l r'
  unfolding step_hup start_campaign
  step_hup-Keeps r e h run = grind (arith, campaign-Keeps l v, same-Keeps l v)

  step_candidate-Keeps :
      (m : Message) (r : Raft) {p : Stepped}
      → r.raft_log ≡ l
      → HasRoom l 1
      → IsSound m
      → step_candidate m r ≡ ok p
      → Keeps l p.0
  unfolding step_candidate
  step_candidate-Keeps m r e h s run = candidate_case-Keeps m.msg_type m r e h s refl run

  step_role-Keeps :
      (m : Message) (r : Raft) {p : Stepped}
      → r.raft_log ≡ l
      → HasRoom l (length m.entries + 1)
      → IsSound m
      → step_role m r ≡ ok p
      → Keeps l p.0
  unfolding step_role
  step_role-Keeps m r e h s run =
      let one : HasRoom l 1 = omega arith in
      let all : HasRoom l (length m.entries) = omega arith in
      grind (arith, step_leader-Keeps l v, step_follower-Keeps, step_candidate-Keeps)

  dispatch-Keeps :
      (m : Message) (r : Raft) {p : Stepped}
      → r.raft_log ≡ l
      → HasRoom l (length m.entries + 1)
      → IsSound m
      → dispatch m r ≡ ok p
      → Keeps l p.0
  unfolding dispatch
  dispatch-Keeps m r e h s run =
      let one : HasRoom l 1 = omega arith in
      grind (arith, step_hup-Keeps, step_vote-Keeps, step_role-Keeps)

  step_later-Keeps :
      (m : Message) (r : Raft) {p : Stepped}
      → r.raft_log ≡ l
      → HasRoom l (length m.entries + 1)
      → IsSound m
      → step_later m r ≡ ok p
      → Keeps l p.0
  unfolding step_later
  step_later-Keeps m r e h s run =
      grind (arith, dispatch-Keeps, become_follower_log, same-Keeps l v)

  pub step-Keeps :
      (m : Message) (r : Raft) {p : Stepped}
      → r.raft_log ≡ l
      → HasRoom l (length m.entries + 1)
      → IsSound m
      → step m r ≡ ok p
      → Keeps l p.0
  unfolding step
  step-Keeps m r e h s run =
      grind
        (arith, dispatch-Keeps, step_later-Keeps, step_earlier-Same, then_Same l v, same-Keeps l v)

-- A `Step` that returns never changes what is committed: the commit index and the first index do not
-- fall, every index up to the old commit index that the log still reaches has the term it had, and the log is
-- joined again. The log is joined and has room for the message's entries and one more, the entries
-- of a `MsgApp` follow its index and stay below 2^64, and so does the index of a snapshot.
pub step-IsKept :
    (m : Message) (r : Raft) {p : Stepped}
    → IsJoined r.raft_log
    → HasRoom r.raft_log (length m.entries + 1)
    → IsSound m
    → step m r ≡ ok p
    → IsKept r.raft_log p.0.raft_log
unfolding Keeps
step-IsKept m r v h s run = step-Keeps r.raft_log v m r refl h s run
