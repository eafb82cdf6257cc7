-- ===== src/Cluster/Ticking.antt =====
-- What a tick at a node makes of what holds of it.
use yaraft.Prelude.{
  ℕ, ◌+◌, ◌<◌, ◌≡◌, ◌⊎◌, inl, inr, refl, sym, ap, ◌∙◌, subst, Bool, true, false, ◌==◌,
  if◌then◌else◌, leb, ◌&&◌, not, List, [], ◌∷◌, All, u64_mod, Bool-cases, arith,
}
use yaraft.Outcome.{ok_is, ok, bind-ok}
use yaraft.Idl.{MessageType, empty_message, msg_hup, msg_beat, msg_check_quorum}
use yaraft.Assoc
use yaraft.Progress.{Progress}
use yaraft.Raft.State.{Raft, follower, leader, no_node}
use yaraft.Raft.Roles.{reset, reset_with, renew, become_follower, abort_leader_transfer}
use yaraft.Raft.Replicate.{is_vote_message}
use yaraft.Raft.Leader.{clear_active, check_quorum_active, step_check_quorum, step_leader}
use yaraft.Raft.Step.{
  step, step_own, dispatch, step_role, tick, tick_election, tick_heartbeat, end_of_lease, is_leader,
  is_leader_call, is_snap,
}
use yaraft.Cluster.{is_voter, is_local}
use yaraft.Cluster.Ledger.{Ledger, Extends, Extends-refl, write_other_node}
use yaraft.Cluster.Tally.{IsTally}
use yaraft.Cluster.Node.{IsElected, IsGood, Holds}
use yaraft.Cluster.Stepping.{after, step-Holds}

-- What a node keeps that takes no message, or that gives up its lead.
record Rests (r r' : Raft) : Type 0 where
  same_id : r'.id ≡ r.id
  same_term : r'.term ≡ r.term
  same_vote : r'.vote ≡ r.vote
  same_msgs : r'.msgs ≡ r.msgs
  same_ids : Assoc.keys r'.prs ≡ Assoc.keys r.prs
  role : (r'.state ≡ follower) ⊎ ((r'.state ≡ r.state) × (r'.votes ≡ r.votes))

Rests-Holds :
    {voters : List ℕ} {b : Ledger} {i : ℕ} {r : Raft} (r' : Raft)
    → Rests r r'
    → Holds voters b i r
    → Holds voters b i r'
Rests-Holds {voters} {b} {i} {r} r' s k = record {
  id = s.same_id ∙ k.id;
  positive = ground (arith, s.same_term, k.positive);
  voter_ids = s.same_ids ∙ k.voter_ids;
  now = ap (b i) s.same_term ∙ k.now ∙ sym s.same_vote;
  future = λ t q. k.future t (ground (arith, s.same_term, q));
  said = subst (λ ms. All (IsGood voters b) ms) (sym s.same_msgs) k.said;
  runs = λ q. elim s.role [
    | inl follows ↦ ground (arith, follows, q)
    | inr (state, votes) ↦
        subst (λ vs. IsTally voters b i r'.term vs) (sym votes)
          (subst (λ t. IsTally voters b i t r.votes) (sym s.same_term) (k.runs (sym state ∙ q)))
  ];
  leads = λ q. elim s.role [
    | inl follows ↦ ground (arith, follows, q)
    | inr (state, votes) ↦
        subst (λ t. IsElected voters b i t) (sym s.same_term) (k.leads (sym state ∙ q))
  ];
}

keys-renew :
    (last : ℕ) (r : Raft) (prs : List (ℕ × Progress))
    → Assoc.keys (renew last r prs) ≡ Assoc.keys prs
unfolding renew Assoc.keys
keys-renew last r [] = refl
keys-renew last r ((id, p) ∷ prs) = ap (λ ids. id ∷ ids) (keys-renew last r prs)

keys-clear : (i : ℕ) (prs : List (ℕ × Progress)) → Assoc.keys (clear_active i prs) ≡ Assoc.keys prs
unfolding clear_active Assoc.keys
keys-clear i [] = refl
keys-clear i ((id, p) ∷ prs) = ap (λ ids. id ∷ ids) (keys-clear i prs)

reset-Rests : (lead : ℕ) (r : Raft) {r' : Raft} → become_follower r.term lead r ≡ ok r' → Rests r r'
unfolding become_follower reset reset_with
reset-Rests lead r e = grind (arith, keys-renew)

cleared-Rests : (r : Raft) → Rests r (check_quorum_active r).0
unfolding check_quorum_active
cleared-Rests r = ground (arith, keys-clear r.id r.prs)

Rests-trans : {q r t : Raft} → Rests q r → Rests r t → Rests q t
Rests-trans f g = ground arith

-- Giving up the lead where it is not held by a quorum.
step_check_quorum-Rests : (r : Raft) {r' : Raft} → step_check_quorum r ≡ ok r' → Rests r r'
unfolding step_check_quorum
step_check_quorum-Rests r {r' = r'} e = elim (Bool-cases (check_quorum_active r).1) [
  | inl active ↦ subst (λ z. Rests r z) (ok_is (rw active at e)) (cleared-Rests r)
  | inr idle ↦
      Rests-trans (cleared-Rests r) (reset-Rests no_node (check_quorum_active r).0 (rw idle at e))
]

quorum_role :
    (r : Raft) {r' : Raft}
    → r.state ≡ leader
    → step_own msg_check_quorum r ≡ ok r'
    → step_check_quorum r ≡ ok r'
unfolding step_own step dispatch step_role step_leader
quorum_role r leads e = ground arith

-- The lease that ends may end the transfer of the lead, too.
ended :
    (r : Raft)
    → Rests r (
        if is_leader r.state && not (r.lead_transferee == no_node)
        then abort_leader_transfer r
        else r)
unfolding abort_leader_transfer
ended r = ground arith

leased :
    (asks : Bool) (r : Raft) {r' : Raft}
    → r.state ≡ leader
    → (if asks then step_own msg_check_quorum r else ok r) ≡ ok r'
    → Rests r r'
leased true r leads e = step_check_quorum-Rests r (quorum_role r leads e)
leased false r leads e = subst (λ z. Rests r z) (ok_is e) (ground arith)

end_of_lease-Rests : (r : Raft) {r' : Raft} → r.state ≡ leader → end_of_lease r ≡ ok r' → Rests r r'
unfolding end_of_lease
end_of_lease-Rests r leads e =
    let r₁ = record r { election_elapsed = 0 } in
    let (r₂, one, last) =
      bind-ok (if r.check_quorum then step_own msg_check_quorum r₁ else ok r₁) _ e in
    let restart : Rests r r₁ = ground arith in
    Rests-trans restart (
      Rests-trans (leased r.check_quorum r₁ leads one)
        (subst (λ z. Rests r₂ z) (ok_is last) (ended r₂)))

lease_over :
    (over : Bool) (r : Raft) {r' : Raft}
    → r.state ≡ leader
    → (if over then end_of_lease r else ok r) ≡ ok r'
    → Rests r r'
lease_over true r leads e = end_of_lease-Rests r leads e
lease_over false r leads e = subst (λ z. Rests r z) (ok_is e) (ground arith)

-- What holds of a node after an event, with the votes of the other nodes as they are.
abbrev pub Gains : List ℕ → Ledger → ℕ → Raft → Type 0
Gains voters b i r =
    (b' : Ledger) × Extends b b'
    × ((j t : ℕ) → (j == i) ≡ false → b' j t ≡ b j t)
    × Holds voters b' i r

-- The messages that a tick makes.
unfoldable is_timer : MessageType → Bool
is_timer msg_hup = true
is_timer msg_beat = true
is_timer _ = false

timer_is_local :
    (t : MessageType) (i : ℕ)
    → is_timer t ≡ true
    → is_local (record empty_message { from = i; msg_type = t }) ≡ true
unfolding is_timer is_local is_vote_message is_leader_call is_snap
timer_is_local t i h = ground arith

module _ {voters : List ℕ} {b : Ledger} {i : ℕ} (pos : 0 < i)
    (voter : is_voter voters i ≡ true) where
  quiet-Gains : {r : Raft} (r' : Raft) → Rests r r' → Holds voters b i r → Gains voters b i r'
  quiet-Gains r' s k = (b, Extends-refl b, λ j t q. refl, Rests-Holds r' s k)

  own-Gains :
      (t : MessageType) (r : Raft) {r' : Raft}
      → is_timer t ≡ true
      → Holds voters b i r
      → r.term + 1 < u64_mod
      → step_own t r ≡ ok r'
      → Assoc.keys r'.prs ≡ voters
      → Gains voters b i r'
  unfolding step_own
  own-Gains t r {r' = r'} h k low e ids =
      let own = record empty_message { from = r.id; msg_type = t } in
      let (p, one, last) = bind-ok (step own r) _ e in
      let same : p.0 ≡ r' = ok_is last in
      let (x, k') =
        step-Holds own r pos voter k (inl (timer_is_local t r.id h)) low (omega arith) one
          (subst (λ z. Assoc.keys z.prs ≡ voters) (sym same) ids) in
      subst (λ z. Gains voters b i z) same
        (after b i p.0, x, λ j u q. write_other_node b i p.0.term p.0.vote j u q, k')

  -- A node waits, and then may take a message of its own.
  waits-Gains :
      (wakes : Bool) (t : MessageType) {r : Raft} (r₁ r₂ : Raft) {r' : Raft}
      → is_timer t ≡ true
      → Holds voters b i r
      → r.term + 1 < u64_mod
      → Rests r r₁
      → Rests r r₂
      → (if wakes then step_own t r₂ else ok r₁) ≡ ok r'
      → Assoc.keys r'.prs ≡ voters
      → Gains voters b i r'
  waits-Gains true t r₁ r₂ h k low s s' e ids =
      own-Gains t r₂ h (Rests-Holds r₂ s' k) (ground (arith, s'.same_term, low)) e ids
  waits-Gains false t {r} r₁ r₂ {r'} h k low s s' e ids =
      quiet-Gains r' (subst (λ z. Rests r z) (ok_is e) s) k

  tick_election-Gains :
      (r : Raft) {r' : Raft}
      → Holds voters b i r
      → r.term + 1 < u64_mod
      → tick_election r ≡ ok r'
      → Assoc.keys r'.prs ≡ voters
      → Gains voters b i r'
  unfolding tick_election is_timer
  tick_election-Gains r k low e ids =
      waits-Gains _ msg_hup _ _ refl k low (ground arith) (ground arith) e ids

  tick_heartbeat-Gains :
      (r : Raft) {r' : Raft}
      → Holds voters b i r
      → r.state ≡ leader
      → r.term + 1 < u64_mod
      → tick_heartbeat r ≡ ok r'
      → Assoc.keys r'.prs ≡ voters
      → Gains voters b i r'
  unfolding tick_heartbeat is_timer
  tick_heartbeat-Gains r k leads low e ids =
      let r₁ = record r {
        heartbeat_elapsed = r.heartbeat_elapsed + 1;
        election_elapsed = r.election_elapsed + 1;
      } in
      let (r₂, one, last) =
        bind-ok (if leb r₁.election_timeout r₁.election_elapsed then end_of_lease r₁ else ok r₁) _
          e in
      let s = lease_over (leb r₁.election_timeout r₁.election_elapsed) r₁ leads one in
      let t : Rests r r₂ = Rests-trans (ground arith) s in
      waits-Gains _ msg_beat _ _ refl k low t (Rests-trans t (ground arith)) last ids

  -- A tick keeps what holds of its node, and takes no vote back.
  pub tick-Gains :
      (r : Raft) {r' : Raft}
      → Holds voters b i r
      → r.term + 1 < u64_mod
      → tick r ≡ ok r'
      → Assoc.keys r'.prs ≡ voters
      → Gains voters b i r'
  unfolding tick
  tick-Gains r k low e ids = grind (arith, tick_election-Gains r k, tick_heartbeat-Gains r k)
