-- ===== src/Raft/Later/Stepping.antt =====
-- No message takes a node back.
use yaraft.Prelude.{
  ◌+◌, ◌≤◌, ◌<◌, ◌≡◌, ◌⊎◌, true, false, inl, inr, ◌||◌, ◌&&◌, ◌==◌, ltb, ltb→lt, Bool-cases, arith,
  u64_mod,
}
use yaraft.Outcome.{ok}
use yaraft.Idl.{Message, MessageType, msg_prop, msg_app, msg_heartbeat, msg_snap, msg_timeout_now}
use yaraft.Raft.State.{Raft}
use yaraft.Raft.Leader.{Stepped}
use yaraft.Raft.Step.{
  won, count_vote, step_candidate, forward, heed, read_index_resp, step_follower, step_role,
  start_campaign, step_hup, can_vote, grant_vote, refuse_vote, step_vote, dispatch, step_later,
  step_earlier, step, is_leader_call, is_snap, is_vote, is_pre_vote, candidate_case,
  refuse_pre_vote,
}
use yaraft.Raft.Same.{Same, Same-refl, send-Same, bcast_append-Same}
use yaraft.Raft.Later.{Later, Later-refl, Later-trans, Same-Later}
use yaraft.Raft.Later.Elections.{
  become_follower-Later, become_follower_term, become_leader-Later, campaign-Later, poll-Later,
}
use yaraft.Raft.Later.Messages.{
  handle_append_entries-Later, handle_heartbeat-Later, handle_snapshot-Later,
}
use yaraft.Raft.Later.Leading.{step_leader-Later, answer_locally-Same}

won-Later : (r : Raft) {r' : Raft} → r.term + 1 < u64_mod → won r ≡ ok r' → Later r r'
unfolding won
won-Later r h e = grind (arith, campaign-Later, become_leader-Later, bcast_append-Same)

count_vote-Later :
    (m : Message) (r : Raft) {r' : Raft}
    → r.term + 1 < u64_mod
    → count_vote m r ≡ ok r'
    → Later r r'
unfolding count_vote
count_vote-Later m r h e = grind (arith, poll-Later, won-Later, become_follower-Later, Later-trans)

-- The leader's messages are not behind the term of the node.
abbrev InTime : Message → Raft → Type 0
InTime m r = ((is_leader_call m.msg_type || is_snap m.msg_type) ≡ false) ⊎ (r.term ≤ m.term)

candidate_case-Later :
    (t : MessageType) (m : Message) (r : Raft) {p : Stepped}
    → ((is_leader_call t || is_snap t) ≡ false) ⊎ (r.term ≤ m.term)
    → r.term + 1 < u64_mod
    → candidate_case t m r ≡ ok p
    → Later r p.0
unfolding candidate_case is_leader_call is_snap
candidate_case-Later msg_prop m r h k e = grind (arith, Later-refl)
candidate_case-Later msg_app m r h k e =
    grind (arith, become_follower-Later, handle_append_entries-Later, Later-trans)
candidate_case-Later msg_heartbeat m r h k e =
    grind (arith, become_follower-Later, handle_heartbeat-Later, Later-trans)
candidate_case-Later msg_snap m r h k e =
    grind (arith, become_follower-Later, handle_snapshot-Later, Later-trans)
candidate_case-Later msg_timeout_now m r h k e = grind (arith, Later-refl)
candidate_case-Later _ m r h k e = grind (arith, count_vote-Later, Later-refl)

step_candidate-Later :
    (m : Message) (r : Raft) {p : Stepped}
    → InTime m r
    → r.term + 1 < u64_mod
    → step_candidate m r ≡ ok p
    → Later r p.0
unfolding step_candidate
step_candidate-Later m r h k e = candidate_case-Later m.msg_type m r h k e

pub forward-Same : (m : Message) (r : Raft) {r' : Raft} → forward m r ≡ ok r' → Same r r'
unfolding forward
forward-Same m r e = grind (arith, send-Same)

pub heed-Same : (m : Message) (r : Raft) → Same r (heed m r)
unfolding heed
heed-Same m r = ground arith

pub read_index_resp-Same :
    (m : Message) (r : Raft) {r' : Raft} → read_index_resp m r ≡ ok r' → Same r r'
unfolding read_index_resp
read_index_resp-Same m r e = grind (arith, answer_locally-Same, Same-refl)

step_follower-Later :
    (m : Message) (r : Raft) {p : Stepped}
    → r.term + 1 < u64_mod
    → step_follower m r ≡ ok p
    → Later r p.0
unfolding step_follower
step_follower-Later m r h e = grind (
  arith, forward-Same, heed-Same, handle_append_entries-Later, handle_heartbeat-Later,
  handle_snapshot-Later, campaign-Later, read_index_resp-Same, Same-Later, Later-trans, Later-refl,
)

step_role-Later :
    (m : Message) (r : Raft) {p : Stepped}
    → InTime m r
    → r.term + 1 < u64_mod
    → step_role m r ≡ ok p
    → Later r p.0
unfolding step_role
step_role-Later m r h k e =
    grind (arith, step_leader-Later, step_follower-Later, step_candidate-Later)

start_campaign-Later :
    (r : Raft) {r' : Raft} → r.term + 1 < u64_mod → start_campaign r ≡ ok r' → Later r r'
unfolding start_campaign
start_campaign-Later r h e = grind (arith, campaign-Later)

step_hup-Later : (r : Raft) {r' : Raft} → r.term + 1 < u64_mod → step_hup r ≡ ok r' → Later r r'
unfolding step_hup
step_hup-Later r h e = grind (arith, start_campaign-Later, Later-refl)

-- A vote that is recorded is the first of its term, or a repetition.
can_vote_cases :
    (m : Message) (r : Raft)
    → can_vote m r ≡ true
    → is_vote m.msg_type ≡ true
    → (r.vote ≡ 0) ⊎ (m.from ≡ r.vote)
unfolding can_vote is_vote is_pre_vote
can_vote_cases m r h v = ground arith

grant_vote-Later :
    (m : Message) (r : Raft) {r' : Raft} → can_vote m r ≡ true → grant_vote m r ≡ ok r' → Later r r'
unfolding grant_vote
grant_vote-Later m r h e = grind (arith, send-Same, can_vote_cases m r h)

pub refuse_vote-Same : (m : Message) (r : Raft) {r' : Raft} → refuse_vote m r ≡ ok r' → Same r r'
unfolding refuse_vote
refuse_vote-Same m r e = grind (arith, send-Same)

step_vote-Later : (m : Message) (r : Raft) {r' : Raft} → step_vote m r ≡ ok r' → Later r r'
unfolding step_vote
step_vote-Later m r e = grind (arith, grant_vote-Later, refuse_vote-Same, Same-Later, Later-refl)

dispatch-Later :
    (m : Message) (r : Raft) {p : Stepped}
    → InTime m r
    → r.term + 1 < u64_mod
    → dispatch m r ≡ ok p
    → Later r p.0
unfolding dispatch
dispatch-Later m r h k e = grind (arith, step_hup-Later, step_vote-Later, step_role-Later)

step_later-Later :
    (m : Message) (r : Raft) {p : Stepped}
    → r.term < m.term
    → m.term + 1 < u64_mod
    → step_later m r ≡ ok p
    → Later r p.0
unfolding step_later
step_later-Later m r h k e =
    grind
      (arith, dispatch-Later, become_follower-Later, become_follower_term, Later-refl, Later-trans)

refuse_pre_vote-Same :
    (m : Message) (r : Raft) {r' : Raft} → refuse_pre_vote m r ≡ ok r' → Same r r'
unfolding refuse_pre_vote
refuse_pre_vote-Same m r e = grind (arith, send-Same)

pub step_earlier-Same : (m : Message) (r : Raft) {r' : Raft} → step_earlier m r ≡ ok r' → Same r r'
unfolding step_earlier
step_earlier-Same m r e =
    elim (Bool-cases ((r.check_quorum || r.pre_vote) && is_leader_call m.msg_type)) [
      | inl deposed ↦ send-Same _ r (rw deposed at e)
      | inr other ↦ grind (arith, refuse_pre_vote-Same, Same-refl)
    ]

-- A `Step` that returns leaves the node with a term and a commit index that have not fallen, and in
-- the same term with the vote that it had, if it had one. The terms are below 2^64 - 1, and a
-- leader's message (`MsgApp`, `MsgHeartbeat`, `MsgSnap`) carries a term, as `send` gives it one.
pub step-Later :
    (m : Message) (r : Raft) {p : Stepped}
    → r.term + 1 < u64_mod
    → m.term + 1 < u64_mod
    → ((is_leader_call m.msg_type || is_snap m.msg_type) ≡ false) ⊎ (0 < m.term)
    → step m r ≡ ok p
    → Later r p.0
unfolding step
step-Later m r h k s e = elim (Bool-cases (m.term == 0)) [
  | inl own ↦ dispatch-Later m r (ground arith) h (rw own at e)
  | inr sent ↦ elim (Bool-cases (ltb r.term m.term)) [
    | inl ahead ↦ step_later-Later m r (ltb→lt _ _ ahead) k (rw (sent, ahead) at e)
    | inr reached ↦ elim (Bool-cases (ltb m.term r.term)) [
      | inl behind ↦ grind (arith, step_earlier-Same, Same-Later)
      | inr level ↦ dispatch-Later m r (inr (ground arith)) h (rw (sent, reached, level) at e)
    ]
  ]
]
