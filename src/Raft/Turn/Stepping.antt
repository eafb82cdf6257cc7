-- ===== src/Raft/Turn/Stepping.antt =====
-- The role and the votes of a node through one message.
use yaraft.Prelude.{
  ◌∙◌, refl, ap, sym, ℕ, ◌≡◌, ◌⊎◌, inl, inr, true, not, length, ltb, ◌==◌, if◌then◌else◌, sub64,
  Bool-cases, arith,
}
use yaraft.Outcome.{ok_is, Outcome, ◌>>=◌, ok, bind-ok}
use yaraft.Idl.{
  Message, MessageType, msg_vote_resp, msg_pre_vote_resp, msg_app, msg_heartbeat, msg_snap,
}
use yaraft.Raft.State.{Raft, leader, candidate, pre_candidate, follower, no_node, quorum}
use yaraft.Raft.Roles.{become_follower, poll}
use yaraft.Raft.Handlers.{handle_append_entries, handle_heartbeat, handle_snapshot}
use yaraft.Raft.Leader.{Stepped, done, step_leader}
use yaraft.Raft.Step.{
  won, count_vote, step_candidate, candidate_case, is_my_vote_resp, heed, step_follower, step_role,
  grant_vote, step_vote, start_campaign, step_hup, dispatch, step_later, step_earlier, step,
  in_lease, is_pre_campaign, lead_of, is_pre_vote, is_pre_vote_resp,
}
use yaraft.Raft.Same.{bcast_append-Same, send-Same}
use yaraft.Raft.Ballot.{poll_lem, become_follower_lem, state-become_follower}
use yaraft.Raft.Later.Stepping.{
  forward-Same, read_index_resp-Same, step_earlier-Same, refuse_vote-Same,
}
use yaraft.Raft.Later.Elections.{become_follower_term}
use yaraft.Raft.Turn.{Stays, Stays-refl, Campaigned, Turn}
use yaraft.Raft.Turn.Handling.{
  handle_append_entries-Stays, handle_heartbeat-Stays, handle_snapshot-Stays, step_leader-Stays,
}
use yaraft.Raft.Turn.Campaigning.{campaign-Campaigned, become_leader_lem, poll_same}

-- How a candidate that has a quorum goes on.
won_lem :
    (r : Raft) {r' : Raft}
    → won r ≡ ok r'
    → Campaigned r r'
      ⊎ ((r'.state ≡ leader)
          × (r'.term ≡ r.term)
          × ((r.state ≡ follower) ⊎ (r.state ≡ candidate) ⊎ (r.state ≡ leader)))
unfolding won
won_lem r e = grind (arith, campaign-Campaigned, become_leader_lem, bcast_append-Same)

-- What a count leaves, for a candidate or a pre-candidate.
abbrev Counted : Message → Raft → Raft → Type 0
Counted m r r' =
    (r'.state ≡ follower)
    ⊎ Campaigned r r'
    ⊎ ((r'.state ≡ r.state)
        × (r'.term ≡ r.term)
        × (r'.votes ≡ (poll m.from (not m.reject) r).0.votes))
    ⊎ ((r'.state ≡ leader)
        × (r.state ≡ candidate)
        × (r'.term ≡ r.term)
        × ((poll m.from (not m.reject) r).1 ≡ quorum r))

after_count :
    (m : Message) (r polled : Raft) (gr : ℕ) {r' : Raft}
    → (polled.state ≡ r.state) × (quorum polled ≡ quorum r)
    → (polled.term ≡ r.term)
    → (r.state ≡ candidate) ⊎ (r.state ≡ pre_candidate)
    → (if quorum polled == gr
        then won polled
        else if quorum polled == sub64 (length polled.votes) gr
        then become_follower polled.term no_node polled
        else ok polled)
      ≡ ok r'
    → (r'.state ≡ follower)
      ⊎ Campaigned r r'
      ⊎ ((r'.state ≡ r.state) × (r'.term ≡ r.term) × (r'.votes ≡ polled.votes))
      ⊎ ((r'.state ≡ leader) × (r.state ≡ candidate) × (r'.term ≡ r.term) × (gr ≡ quorum r))
after_count m r polled gr {r' = r'} s t h e = elim (Bool-cases (quorum polled == gr)) [
  | inl all ↦ ground (arith, won_lem polled (rw all at e), s, t, h, all)
  | inr few ↦ elim (Bool-cases (quorum polled == sub64 (length polled.votes) gr)) [
    | inl lost ↦ inl (become_follower_lem polled.term no_node polled (rw (few, lost) at e)).0
    | inr going ↦
        let same : polled ≡ r' = ok_is (rw (few, going) at e) in
        inr (
          inr (
            inl (
              ap (λ x. x.state) (sym same) ∙ s.0,
              ap (λ x. x.term) (sym same) ∙ t,
              ap (λ x. x.votes) (sym same),
            )))
  ]
]

count_vote-Counted :
    (m : Message) (r : Raft) {r' : Raft}
    → count_vote m r ≡ ok r'
    → (r.state ≡ candidate) ⊎ (r.state ≡ pre_candidate)
    → Counted m r r'
unfolding count_vote
count_vote-Counted m r e h =
    let (i, t, v) = poll_same m.from (not m.reject) r in
    after_count m r (poll m.from (not m.reject) r).0 (poll m.from (not m.reject) r).1
      (poll_lem m.from (not m.reject) r) t h e

-- The message is of the term of the node, of none, or early.
abbrev IsTimely : Message → Raft → Type 0
IsTimely m r = (m.term ≡ 0) ⊎ (m.term ≡ r.term) ⊎ (is_pre_campaign m ≡ true)

count_vote-Turn :
    (m : Message) (r : Raft) {r' : Raft}
    → IsTimely m r
    → (r.state ≡ candidate) ⊎ (r.state ≡ pre_candidate)
    → is_my_vote_resp r.state m.msg_type ≡ true
    → count_vote m r ≡ ok r'
    → Turn m r r'
unfolding is_my_vote_resp is_pre_campaign is_pre_vote is_pre_vote_resp
count_vote-Turn m r n h y e = ground (arith, count_vote-Counted m r e h, n, h, y)

counted_done :
    (m : Message) (r : Raft) {p : Stepped}
    → IsTimely m r
    → (r.state ≡ candidate) ⊎ (r.state ≡ pre_candidate)
    → is_my_vote_resp r.state m.msg_type ≡ true
    → done (count_vote m r) ≡ ok p
    → Turn m r p.0
counted_done m r n h y e = grind (arith, count_vote-Turn m r n h y)

follow_first :
    (m : Message) (r : Raft) (handle : Raft → Outcome Raft) {p : Stepped}
    → ((s s' : Raft) → handle s ≡ ok s' → Stays s s')
    → done (become_follower m.term m.from r >>= handle) ≡ ok p
    → p.0.state ≡ follower
follow_first m r handle k e = grind (arith, state-become_follower, k)

candidate_case-Turn :
    (t : MessageType) (m : Message) (r : Raft) {p : Stepped}
    → m.msg_type ≡ t
    → IsTimely m r
    → (r.state ≡ candidate) ⊎ (r.state ≡ pre_candidate)
    → candidate_case t m r ≡ ok p
    → Turn m r p.0
unfolding candidate_case is_my_vote_resp
candidate_case-Turn msg_app m r k n h e =
    inl (follow_first m r (handle_append_entries m) (λ s s' q. handle_append_entries-Stays m s q) e)
candidate_case-Turn msg_heartbeat m r k n h e =
    inl (follow_first m r (handle_heartbeat m) (λ s s' q. handle_heartbeat-Stays m s q) e)
candidate_case-Turn msg_snap m r k n h e =
    inl (follow_first m r (handle_snapshot m) (λ s s' q. handle_snapshot-Stays m s q) e)
candidate_case-Turn msg_vote_resp m r k n h e = grind (arith, counted_done m r n h)
candidate_case-Turn msg_pre_vote_resp m r k n h e = grind (arith, counted_done m r n h)
candidate_case-Turn _ m r k n h e = ground arith

step_follower-Turn :
    (m : Message) (r : Raft) {p : Stepped}
    → step_follower m r ≡ ok p
    → Campaigned r p.0 ⊎ Stays r p.0
unfolding step_follower heed
step_follower-Turn m r e = grind (
  arith, forward-Same, handle_append_entries-Stays, handle_heartbeat-Stays, handle_snapshot-Stays,
  campaign-Campaigned, read_index_resp-Same,
)

roles :
    (r : Raft)
    → (r.state ≡ leader)
      ⊎ (r.state ≡ follower)
      ⊎ ((r.state ≡ candidate) ⊎ (r.state ≡ pre_candidate))
roles r = ground arith

asks :
    (m : Message) (r : Raft) {p : Stepped}
    → (r.state ≡ candidate) ⊎ (r.state ≡ pre_candidate)
    → step_role m r ≡ ok p
    → candidate_case m.msg_type m r ≡ ok p
unfolding step_role step_candidate
asks m r runs e = ground arith

leads_role :
    (m : Message) (r : Raft) {p : Stepped}
    → r.state ≡ leader
    → step_role m r ≡ ok p
    → step_leader m r ≡ ok p
unfolding step_role
leads_role m r h e = ground arith

follows_role :
    (m : Message) (r : Raft) {p : Stepped}
    → r.state ≡ follower
    → step_role m r ≡ ok p
    → step_follower m r ≡ ok p
unfolding step_role
follows_role m r h e = ground arith

step_role-Turn :
    (m : Message) (r : Raft) {p : Stepped} → IsTimely m r → step_role m r ≡ ok p → Turn m r p.0
step_role-Turn m r n e = elim (roles r) [
  | inl leads ↦ ground (arith, step_leader-Stays m r (leads_role m r leads e))
  | inr (inl follows) ↦ ground (arith, step_follower-Turn m r (follows_role m r follows e))
  | inr (inr runs) ↦ candidate_case-Turn m.msg_type m r refl n runs (asks m r runs e)
]

step_hup-Turn : (r : Raft) {r' : Raft} → step_hup r ≡ ok r' → Campaigned r r' ⊎ Stays r r'
unfolding step_hup start_campaign
step_hup-Turn r e = grind (arith, campaign-Campaigned, Stays-refl)

step_vote-Turn :
    (m : Message) (r : Raft) {r' : Raft}
    → step_vote m r ≡ ok r'
    → (r'.state ≡ r.state) × (r'.term ≡ r.term) × (r'.votes ≡ r.votes)
unfolding step_vote grant_vote
step_vote-Turn m r e = grind (arith, send-Same, refuse_vote-Same)

dispatch-Turn :
    (m : Message) (r : Raft) {p : Stepped} → IsTimely m r → dispatch m r ≡ ok p → Turn m r p.0
unfolding dispatch
dispatch-Turn m r n e = grind (arith, step_hup-Turn, step_vote-Turn, step_role-Turn m r n)

followed-Turn :
    (m : Message) (lead : ℕ) (r : Raft) {p : Stepped}
    → (become_follower m.term lead r >>= dispatch m) ≡ ok p
    → Turn m r p.0
followed-Turn m lead r e =
    let (t, one, rest) = bind-ok (become_follower m.term lead r) (dispatch m) e in
    let (state, same) = become_follower_lem m.term lead r one in
    let term = become_follower_term m.term lead r one in
    ground (arith, dispatch-Turn m t (inr (inl (sym term))) rest, state, same)

step_later-Turn : (m : Message) (r : Raft) {p : Stepped} → step_later m r ≡ ok p → Turn m r p.0
unfolding step_later
step_later-Turn m r e = elim (Bool-cases (in_lease m r)) [
  | inl leased ↦ ground (arith, rw leased at e)
  | inr free ↦ elim (Bool-cases (is_pre_campaign m)) [
    | inl early ↦ dispatch-Turn m r (inr (inr early)) (rw (free, early) at e)
    | inr bound ↦ followed-Turn m (lead_of m) r (rw (free, bound) at e)
  ]
]

earlier-Turn :
    (m : Message) (r : Raft) {p : Stepped} → done (step_earlier m r) ≡ ok p → Turn m r p.0
earlier-Turn m r e = grind (arith, step_earlier-Same)

-- After a Step that returns, a node follows, is a pre-candidate, has just begun a campaign with its own vote, leads
-- with its own vote where one vote is a quorum, or is in the role, the term and with the votes that it had; or else
-- it was a candidate that counts an answer of its own term, or without one, and goes on as a candidate with this
-- answer or leads with a quorum of granted votes.
pub step-Turn : (m : Message) (r : Raft) {p : Stepped} → step m r ≡ ok p → Turn m r p.0
unfolding step
step-Turn m r e = elim (Bool-cases (m.term == 0)) [
  | inl own ↦ dispatch-Turn m r (ground (arith, own)) (rw own at e)
  | inr sent ↦ elim (Bool-cases (ltb r.term m.term)) [
    | inl ahead ↦ step_later-Turn m r (rw (sent, ahead) at e)
    | inr reached ↦ elim (Bool-cases (ltb m.term r.term)) [
      | inl behind ↦ earlier-Turn m r (rw (sent, reached, behind) at e)
      | inr level ↦
          dispatch-Turn m r (ground (arith, reached, level)) (rw (sent, reached, level) at e)
    ]
  ]
]
