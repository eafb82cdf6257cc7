-- ===== src/Raft/Sent/Stepping.antt =====
-- What a message makes a node put out.
use yaraft.Prelude.{
  ℕ, ◌+◌, ◌<◌, ◌≡◌, ◌⊎◌, refl, sym, ◌∙◌, subst, true, false, inl, inr, ◌||◌, ◌&&◌, ◌==◌, ltb,
  ltb→lt, if◌then◌else◌, Bool-cases, arith, u64_mod,
}
use yaraft.Outcome.{ok_is, ok, bind-ok}
use yaraft.Idl.{
  Message, MessageType, msg_prop, msg_app, msg_heartbeat, msg_snap, msg_timeout_now, msg_vote_resp,
  empty_message,
}
use yaraft.Util.{vote_resp_msg_type}
use yaraft.Raft.State.{Raft}
use yaraft.Raft.Replicate.{stamp, send, is_vote_message}
use yaraft.Raft.Roles.{become_follower}
use yaraft.Raft.Leader.{Stepped}
use yaraft.Raft.Step.{
  won, count_vote, step_candidate, forward, heed, read_index_resp, step_follower, step_role,
  start_campaign, step_hup, grant_vote, refuse_vote, step_vote, dispatch, step_later, step_earlier,
  step, is_leader_call, is_snap, is_vote, is_pre_vote, is_pre_vote_resp, is_pre_campaign, in_lease,
  lead_of, candidate_case, refuse_pre_vote, vote_resp_type,
}
use yaraft.Raft.Sent.{
  Speech, Spoke, is_grant, sent_as, Spoke-refl, Spoke-trans, Spoke-same, send_fine, send-Spoke,
  bcast_append-Spoke,
}
use yaraft.Raft.Sent.Elections.{
  become_follower-Spoke, own_follower-Spoke, become_follower_msgs, become_leader-Spoke,
  campaign-Spoke, poll-Spoke, poll_term,
}
use yaraft.Raft.Sent.Messages.{
  handle_append_entries-Spoke, handle_heartbeat-Spoke, handle_snapshot-Spoke,
}
use yaraft.Raft.Sent.Leading.{step_leader-Spoke, answer_locally-Spoke}

pre_campaign_no_vote : (m : Message) → is_pre_campaign m ≡ true → is_vote m.msg_type ≡ false
unfolding is_pre_campaign is_pre_vote is_pre_vote_resp is_vote
pre_campaign_no_vote m h = ground arith

-- The vote of the node may be told.
pub data Allows (s : Speech) (term vote : ℕ) : Type 0 where
  allow :
      ((x : Message)
        → is_grant x.msg_type x.reject ≡ true
        → x.from ≡ s.id
        → x.term ≡ term
        → x.to ≡ vote
        → 0 < x.term
        → s.Fine x)
      → Allows s term vote

is_grant_rejected : (t : MessageType) → is_grant t true ≡ false
unfolding is_grant
is_grant_rejected t = ground arith

pre_grant : (t : MessageType) → is_vote t ≡ false → is_grant (vote_resp_type t) false ≡ false
unfolding is_grant vote_resp_type is_vote
pre_grant t h = ground arith

-- The answer to a request that is granted.
abbrev grant_of : Message → Message
grant_of m = record empty_message {
  to = m.from;
  term = m.term;
  msg_type = vote_resp_type m.msg_type;
}

granted_as :
    (m : Message) (r : Raft) {r' : Raft}
    → grant_vote m r ≡ ok r'
    → (t : Raft) × (send (grant_of m) r ≡ ok t)
      × (r' ≡ (if is_vote m.msg_type then record t { election_elapsed = 0; vote = m.from } else t))
unfolding grant_vote
granted_as m r e =
    let (t, one, last) = bind-ok (send (grant_of m) r) _ e in (t, one, ok_is (sym last))

grant_stamped :
    (m : Message) (r : Raft) {x : Message}
    → is_vote m.msg_type ≡ true
    → stamp r (grant_of m) ≡ ok x
    → (x.msg_type ≡ msg_vote_resp)
      × (x.from ≡ r.id)
      × (x.to ≡ m.from)
      × (x.term ≡ m.term)
      × (x.reject ≡ false)
      × (0 < m.term)
unfolding stamp is_vote_message vote_resp_type is_vote
grant_stamped m r real e = ground arith

grant_type :
    (x : Message)
    → x.msg_type ≡ msg_vote_resp
    → x.reject ≡ false
    → is_grant x.msg_type x.reject ≡ true
unfolding is_grant
grant_type x k a = rw (k, a) refl

module _ (s : Speech) where
  won-Spoke : (r : Raft) {r' : Raft} → r.term + 1 < u64_mod → won r ≡ ok r' → Spoke s r r'
  unfolding won
  won-Spoke r h e =
      grind (arith, campaign-Spoke s, become_leader-Spoke s, bcast_append-Spoke s, Spoke-trans s)

  count_vote-Spoke :
      (m : Message) (r : Raft) {r' : Raft}
      → r.term + 1 < u64_mod
      → count_vote m r ≡ ok r'
      → Spoke s r r'
  unfolding count_vote
  count_vote-Spoke m r h e =
      grind (arith, poll-Spoke s, poll_term, won-Spoke, own_follower-Spoke s, Spoke-trans s)

  candidate_case-Spoke :
      (t : MessageType) (m : Message) (r : Raft) {p : Stepped}
      → ((is_leader_call t || is_snap t) ≡ false) ⊎ (0 < m.term)
      → r.term + 1 < u64_mod
      → candidate_case t m r ≡ ok p
      → Spoke s r p.0
  unfolding candidate_case is_leader_call is_snap
  candidate_case-Spoke msg_prop m r h k e = grind (arith, Spoke-refl s)
  candidate_case-Spoke msg_app m r h k e =
      grind (arith, become_follower-Spoke s, handle_append_entries-Spoke s, Spoke-trans s)
  candidate_case-Spoke msg_heartbeat m r h k e =
      grind (arith, become_follower-Spoke s, handle_heartbeat-Spoke s, Spoke-trans s)
  candidate_case-Spoke msg_snap m r h k e =
      grind (arith, become_follower-Spoke s, handle_snapshot-Spoke s, Spoke-trans s)
  candidate_case-Spoke msg_timeout_now m r h k e = grind (arith, Spoke-refl s)
  candidate_case-Spoke _ m r h k e = grind (arith, count_vote-Spoke, Spoke-refl s)

  heed-Spoke : (m : Message) (r : Raft) → Spoke s r (heed m r)
  unfolding heed
  heed-Spoke m r = Spoke-refl s r

  read_index_resp-Spoke :
      (m : Message) (r : Raft) {r' : Raft} → read_index_resp m r ≡ ok r' → Spoke s r r'
  unfolding read_index_resp
  read_index_resp-Spoke m r e = grind (arith, answer_locally-Spoke s, Spoke-refl s)

  forward-Spoke :
      (m : Message) (r : Raft) {r' : Raft}
      → is_grant m.msg_type m.reject ≡ false
      → forward m r ≡ ok r'
      → Spoke s r r'
  unfolding forward
  forward-Spoke m r g e = send-Spoke s _ r g e

  step_follower-Spoke :
      (m : Message) (r : Raft) {p : Stepped}
      → r.term + 1 < u64_mod
      → step_follower m r ≡ ok p
      → Spoke s r p.0
  unfolding step_follower is_grant
  step_follower-Spoke m r h e = grind (
    arith,
    forward-Spoke,
    heed-Spoke,
    handle_append_entries-Spoke s,
    handle_heartbeat-Spoke s,
    handle_snapshot-Spoke s,
    campaign-Spoke s,
    read_index_resp-Spoke,
    Spoke-trans s,
    Spoke-refl s,
  )

  step_role-Spoke :
      (m : Message) (r : Raft) {p : Stepped}
      → ((is_leader_call m.msg_type || is_snap m.msg_type) ≡ false) ⊎ (0 < m.term)
      → r.term + 1 < u64_mod
      → step_role m r ≡ ok p
      → Spoke s r p.0
  unfolding step_role step_candidate
  step_role-Spoke m r h k e =
      grind (arith, step_leader-Spoke s, step_follower-Spoke, candidate_case-Spoke)

  start_campaign-Spoke :
      (r : Raft) {r' : Raft} → r.term + 1 < u64_mod → start_campaign r ≡ ok r' → Spoke s r r'
  unfolding start_campaign
  start_campaign-Spoke r h e = grind (arith, campaign-Spoke s)

  step_hup-Spoke : (r : Raft) {r' : Raft} → r.term + 1 < u64_mod → step_hup r ≡ ok r' → Spoke s r r'
  unfolding step_hup
  step_hup-Spoke r h e = grind (arith, start_campaign-Spoke, Spoke-refl s)

  refuse_vote-Spoke : (m : Message) (r : Raft) {r' : Raft} → refuse_vote m r ≡ ok r' → Spoke s r r'
  unfolding refuse_vote
  refuse_vote-Spoke m r e =
      let (t, one, rest) = bind-ok (vote_resp_msg_type m.msg_type) _ e in
      send-Spoke s _ r (is_grant_rejected t) rest

  real_grant-Spoke :
      (m : Message) (r : Raft) {r' : Raft}
      → is_vote m.msg_type ≡ true
      → (m.term ≡ 0) ⊎ (m.term ≡ r.term)
      → Allows s r'.term r'.vote
      → grant_vote m r ≡ ok r'
      → Spoke s r r'
  real_grant-Spoke m r {r' = r'} real h (allow fine) e =
      let (t, one, same) = granted_as m r e in
      let (x, two, three) = sent_as (grant_of m) r one in
      let (kind, from, to, term, answer, high) = grant_stamped m r real two in
      let same_term : r'.term ≡ r.term = ground (arith, same, three) in
      let same_vote : r'.vote ≡ m.from = ground (arith, same, real) in
      let same_id : r'.id ≡ t.id = ground (arith, same) in
      let later_term : r'.term ≡ t.term = ground (arith, same) in
      let same_msgs : r'.msgs ≡ t.msgs = ground (arith, same) in
      Spoke-trans s
        (send_fine s (grant_of m) r
          (λ y told stamps.
            let (kind, from, to, term, answer, high) = grant_stamped m r real stamps in
            fine y (grant_type y kind answer) (from ∙ told.same)
              (ground (arith, term, high, same_term, h)) (to ∙ sym same_vote)
              (ground (arith, term, high)))
          one)
        (Spoke-same s t r' same_id later_term same_msgs)

  grant_vote-Spoke :
      (m : Message) (r : Raft) {r' : Raft}
      → (is_vote m.msg_type ≡ false) ⊎ (m.term ≡ 0) ⊎ (m.term ≡ r.term)
      → Allows s r'.term r'.vote
      → grant_vote m r ≡ ok r'
      → Spoke s r r'
  grant_vote-Spoke m r {r' = r'} h a e = elim (Bool-cases (is_vote m.msg_type)) [
    | inr other ↦
        let (t, one, same) = granted_as m r e in
        let kept : r' ≡ t = ground (arith, same, other) in
        subst (λ z. Spoke s r z) (sym kept) (send-Spoke s _ r (pre_grant m.msg_type other) one)
    | inl real ↦ real_grant-Spoke m r real (ground (arith, h, real)) a e
  ]

  step_vote-Spoke :
      (m : Message) (r : Raft) {r' : Raft}
      → (is_vote m.msg_type ≡ false) ⊎ (m.term ≡ 0) ⊎ (m.term ≡ r.term)
      → Allows s r'.term r'.vote
      → step_vote m r ≡ ok r'
      → Spoke s r r'
  unfolding step_vote
  step_vote-Spoke m r h a e = grind (arith, grant_vote-Spoke, refuse_vote-Spoke, Spoke-refl s)

  dispatch-Spoke :
      (m : Message) (r : Raft) {p : Stepped}
      → (is_vote m.msg_type ≡ false) ⊎ (m.term ≡ 0) ⊎ (m.term ≡ r.term)
      → ((is_leader_call m.msg_type || is_snap m.msg_type) ≡ false) ⊎ (0 < m.term)
      → r.term + 1 < u64_mod
      → Allows s p.0.term p.0.vote
      → dispatch m r ≡ ok p
      → Spoke s r p.0
  unfolding dispatch
  dispatch-Spoke m r v h k a e =
      grind (arith, step_hup-Spoke r k, step_vote-Spoke m r v, step_role-Spoke m r h k)

  step_later-Spoke :
      (m : Message) (r : Raft) {p : Stepped}
      → r.term < m.term
      → m.term + 1 < u64_mod
      → r.term + 1 < u64_mod
      → Allows s p.0.term p.0.vote
      → step_later m r ≡ ok p
      → Spoke s r p.0
  unfolding step_later
  step_later-Spoke m r h k l a e = elim (Bool-cases (in_lease m r)) [
    | inl leased ↦ grind (arith, Spoke-refl s)
    | inr free ↦ elim (Bool-cases (is_pre_campaign m)) [
      | inl early ↦
          dispatch-Spoke m r (inl (pre_campaign_no_vote m early)) (inr (omega arith)) l a
            (rw (free, early) at e)
      | inr bound ↦
          let (t, one, rest) =
            bind-ok (become_follower m.term (lead_of m) r) (dispatch m) (rw (free, bound) at e) in
          let (i, same, kept) = become_follower_msgs m.term (lead_of m) r one in
          Spoke-trans s (become_follower-Spoke s m.term (lead_of m) r (omega arith) one) (
            dispatch-Spoke m t (inr (inr (sym same))) (inr (omega arith)) (omega (arith, same)) a
              rest)
    ]
  ]

  refuse_pre_vote-Spoke :
      (m : Message) (r : Raft) {r' : Raft} → refuse_pre_vote m r ≡ ok r' → Spoke s r r'
  unfolding refuse_pre_vote is_grant
  refuse_pre_vote-Spoke m r e = grind (arith, send-Spoke s)

  step_earlier-Spoke :
      (m : Message) (r : Raft) {r' : Raft} → step_earlier m r ≡ ok r' → Spoke s r r'
  unfolding step_earlier is_grant
  step_earlier-Spoke m r e =
      elim (Bool-cases ((r.check_quorum || r.pre_vote) && is_leader_call m.msg_type)) [
        | inl deposed ↦ send-Spoke s _ r refl (rw deposed at e)
        | inr other ↦ grind (arith, refuse_pre_vote-Spoke, Spoke-refl s)
      ]

  -- A `Step` puts out nothing but what may be told, and its vote where it gives one.
  pub step-Spoke :
      (m : Message) (r : Raft) {p : Stepped}
      → r.term + 1 < u64_mod
      → m.term + 1 < u64_mod
      → ((is_leader_call m.msg_type || is_snap m.msg_type) ≡ false) ⊎ (0 < m.term)
      → Allows s p.0.term p.0.vote
      → step m r ≡ ok p
      → Spoke s r p.0
  unfolding step
  step-Spoke m r h k l a e = elim (Bool-cases (m.term == 0)) [
    | inl own ↦ dispatch-Spoke m r (ground (arith, own)) l h a (rw own at e)
    | inr sent ↦ elim (Bool-cases (ltb r.term m.term)) [
      | inl ahead ↦ step_later-Spoke m r (ltb→lt _ _ ahead) k h a (rw (sent, ahead) at e)
      | inr reached ↦ elim (Bool-cases (ltb m.term r.term)) [
        | inl behind ↦ grind (arith, step_earlier-Spoke)
        | inr level ↦
            dispatch-Spoke m r (ground (arith, reached, level)) l h a
              (rw (sent, reached, level) at e)
      ]
    ]
  ]
