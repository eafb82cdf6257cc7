-- ===== src/Raft/Sent.antt =====
-- What a node says: the messages that it puts out are its own, carry a term unless they are forwarded, and
-- are no granted votes but where it votes.
pub mod Elections
pub mod Messages
pub mod Leading
pub mod Stepping
use yaraft.Prelude.{
  ℕ, zero, suc, ◌<◌, ◌≡◌, refl, sym, ◌∙◌, subst, ◌⊎◌, inl, inr, Bool, true, false, not, List, [],
  ◌∷◌, ◌++◌, Option, none, some, Bytes, All, All-append, Bool-cases, arith,
}
use yaraft.Outcome.{Outcome, ok, bind-ok, ◌>>=◌}
use yaraft.Idl.{Entry, Message, MessageType, msg_vote_resp}
use yaraft.Progress.{Progress}
use yaraft.Raft.State.{Raft, put_progress}
use yaraft.Raft.Replicate.{
  is_vote_message, is_forwarded, stamp, send, send_snapshot, send_entries, send_append_or_snapshot,
  maybe_send_append, send_append, send_all, for_each_other, bcast_append, send_heartbeat,
  bcast_heartbeat_with_ctx, bcast_heartbeat, send_timeout_now,
}

-- A vote that is given.
unfoldable pub is_grant : MessageType → Bool → Bool
is_grant msg_vote_resp rejected = not rejected
is_grant _ rejected = false

-- What may be said of the messages of node `id`, if it holds of those that give no vote.
pub record Speech : Type 1 where
  pub id : ℕ
  pub Fine : Message → Type 0
  pub silent :
      (x : Message)
      → x.from ≡ id
      → is_grant x.msg_type x.reject ≡ false
      → (is_forwarded x.msg_type ≡ true) ⊎ (0 < x.term)
      → Fine x

pub record IsTold (s : Speech) (id term : ℕ) (msgs : List Message) : Type 0 where
  pub same : id ≡ s.id
  pub positive : 0 < term
  pub all : All s.Fine msgs

-- From a state that is told to one that is told.
pub data Says (s : Speech) (id term : ℕ) (msgs : List Message) (id' term' : ℕ)
    (msgs' : List Message) : Type 0 where
  tell : (IsTold s id term msgs → IsTold s id' term' msgs') → Says s id term msgs id' term' msgs'

abbrev pub Told : Speech → Raft → Type 0
Told s r = IsTold s r.id r.term r.msgs

abbrev pub Spoke : Speech → Raft → Raft → Type 0
Spoke s r r' = Says s r.id r.term r.msgs r'.id r'.term r'.msgs

stamped :
    (m : Message) (r : Raft) {x : Message}
    → 0 < r.term
    → stamp r m ≡ ok x
    → (x.from ≡ r.id)
      × (x.msg_type ≡ m.msg_type)
      × (x.reject ≡ m.reject)
      × ((is_forwarded x.msg_type ≡ true) ⊎ (0 < x.term))
unfolding stamp
stamped m r h e = ground arith

pub sent_as :
    (m : Message) (r : Raft) {r' : Raft}
    → send m r ≡ ok r'
    → (x : Message) × (stamp r m ≡ ok x) × (r' ≡ record r { msgs = r.msgs ++ (x ∷ []) })
unfolding send
sent_as m r e = let (x, one, last) = bind-ok (stamp r m) _ e in (x, one, ground (arith, last))

silent_stamp :
    (s : Speech) (m : Message) (r : Raft)
    → is_grant m.msg_type m.reject ≡ false
    → Told s r
    → (x : Message) → stamp r m ≡ ok x
    → s.Fine x
silent_stamp s m r g h x one =
    let (from, kind, answer, carries) = stamped m r h.positive one in
    let quiet : is_grant x.msg_type x.reject ≡ false = rw (kind, answer) g in
    s.silent x (from ∙ h.same) quiet carries

module _ (s : Speech) where
  pub Spoke-refl : (r : Raft) → Spoke s r r
  Spoke-refl r = tell (λ h. h)

  pub Spoke-trans :
      {i t i' t' i'' t'' : ℕ} {m m' m'' : List Message}
      → Says s i t m i' t' m'
      → Says s i' t' m' i'' t'' m''
      → Says s i t m i'' t'' m''
  Spoke-trans (tell f) (tell g) = tell (λ h. g (f h))

  -- The term may change to one that is positive too.
  pub Spoke-term : (r r' : Raft) → r'.id ≡ r.id → 0 < r'.term → r'.msgs ≡ r.msgs → Spoke s r r'
  Spoke-term r r' i t m = tell (λ h. record {
    same = i ∙ h.same;
    positive = t;
    all = subst (λ x. All s.Fine x) (sym m) h.all;
  })

  pub Spoke-same : (r r' : Raft) → r'.id ≡ r.id → r'.term ≡ r.term → r'.msgs ≡ r.msgs → Spoke s r r'
  Spoke-same r r' i t m = tell (λ h. record {
    same = i ∙ h.same;
    positive = ground (arith, h.positive, t);
    all = subst (λ x. All s.Fine x) (sym m) h.all;
  })

  pub send_fine :
      (m : Message) (r : Raft) {r' : Raft}
      → ((x : Message) → IsTold s r.id r.term r.msgs → stamp r m ≡ ok x → s.Fine x)
      → send m r ≡ ok r'
      → Spoke s r r'
  send_fine m r fine e = tell (λ h.
      let (x, one, last) = sent_as m r e in
      subst (λ z. Told s z) (sym last)
        (record {
          same = h.same;
          positive = h.positive;
          all = All-append s.Fine r.msgs (x ∷ []) h.all (fine x h one, tt);
        }))

  pub send-Spoke :
      (m : Message) (r : Raft) {r' : Raft}
      → is_grant m.msg_type m.reject ≡ false
      → send m r ≡ ok r'
      → Spoke s r r'
  send-Spoke m r g e = send_fine m r (λ x h one. silent_stamp s m r g h x one) e

  pub put_progress-Spoke : (id : ℕ) (p : Progress) (r : Raft) → Spoke s r (put_progress id p r)
  unfolding put_progress
  put_progress-Spoke id p r = ground (arith, Spoke-refl r)

  send_snapshot-Spoke :
      (to : ℕ) (pr : Progress) (r : Raft) {p : Raft × Bool}
      → send_snapshot to pr r ≡ ok p
      → Spoke s r p.0
  unfolding send_snapshot is_grant
  send_snapshot-Spoke to pr r e =
      grind (arith, send-Spoke, put_progress-Spoke, Spoke-trans, Spoke-refl)

  send_entries-Spoke :
      (to : ℕ) (pr : Progress) (term : ℕ) (ents : List Entry) (r : Raft) {p : Raft × Bool}
      → send_entries to pr term ents r ≡ ok p
      → Spoke s r p.0
  unfolding send_entries is_grant
  send_entries-Spoke to pr term ents r e =
      grind (arith, send-Spoke, put_progress-Spoke, Spoke-trans)

  send_append_or_snapshot-Spoke :
      (to : ℕ) (b : Bool) (pr : Progress) (t : Option ℕ) (ents : Option (List Entry)) (r : Raft)
      {p : Raft × Bool}
      → send_append_or_snapshot to b pr t ents r ≡ ok p
      → Spoke s r p.0
  unfolding send_append_or_snapshot
  send_append_or_snapshot-Spoke to b pr t ents r e =
      grind (arith, send_entries-Spoke, send_snapshot-Spoke, Spoke-refl)

  maybe_send_append-Spoke :
      (to : ℕ) (b : Bool) (r : Raft) {p : Raft × Bool}
      → maybe_send_append to b r ≡ ok p
      → Spoke s r p.0
  unfolding maybe_send_append
  maybe_send_append-Spoke to b r e = grind (arith, send_append_or_snapshot-Spoke, Spoke-refl)

  pub send_append-Spoke : (to : ℕ) (r : Raft) {r' : Raft} → send_append to r ≡ ok r' → Spoke s r r'
  unfolding send_append
  send_append-Spoke to r e = grind (arith, maybe_send_append-Spoke)

  pub send_all-Spoke :
      (fuel to : ℕ) (r : Raft) {r' : Raft} → send_all fuel to r ≡ ok r' → Spoke s r r'
  unfolding send_all
  send_all-Spoke zero to r e = cc
  send_all-Spoke (suc fuel) to r e =
      grind (arith, maybe_send_append-Spoke, send_all-Spoke fuel, Spoke-trans)

  pub for_each_other-Spoke :
      (f : ℕ → Raft → Outcome Raft)
      → ((to : ℕ) (r r' : Raft) → f to r ≡ ok r' → Spoke s r r')
      → (ids : List ℕ) (r : Raft) {r' : Raft} → for_each_other f ids r ≡ ok r'
      → Spoke s r r'
  unfolding for_each_other
  for_each_other-Spoke f h [] r e = grind (arith, Spoke-refl)
  for_each_other-Spoke f h (to ∷ ids) r e =
      grind (arith, for_each_other-Spoke f h ids, Spoke-trans, h)

  pub bcast_append-Spoke : (r : Raft) {r' : Raft} → bcast_append r ≡ ok r' → Spoke s r r'
  unfolding bcast_append
  bcast_append-Spoke r e =
      for_each_other-Spoke send_append (λ to t t'. send_append-Spoke to t) _ r e

  send_heartbeat-Spoke :
      (ctx : Bytes) (to : ℕ) (r : Raft) {r' : Raft} → send_heartbeat ctx to r ≡ ok r' → Spoke s r r'
  unfolding send_heartbeat is_grant
  send_heartbeat-Spoke ctx to r e = grind (arith, send-Spoke)

  pub bcast_heartbeat_with_ctx-Spoke :
      (ctx : Bytes) (r : Raft) {r' : Raft} → bcast_heartbeat_with_ctx ctx r ≡ ok r' → Spoke s r r'
  unfolding bcast_heartbeat_with_ctx
  bcast_heartbeat_with_ctx-Spoke ctx r e =
      for_each_other-Spoke (send_heartbeat ctx) (λ to t t'. send_heartbeat-Spoke ctx to t) _ r e

  pub bcast_heartbeat-Spoke : (r : Raft) {r' : Raft} → bcast_heartbeat r ≡ ok r' → Spoke s r r'
  unfolding bcast_heartbeat
  bcast_heartbeat-Spoke r e = bcast_heartbeat_with_ctx-Spoke _ r e

  pub send_timeout_now-Spoke :
      (to : ℕ) (r : Raft) {r' : Raft} → send_timeout_now to r ≡ ok r' → Spoke s r r'
  unfolding send_timeout_now is_grant
  send_timeout_now-Spoke to r e = send-Spoke _ r refl e
