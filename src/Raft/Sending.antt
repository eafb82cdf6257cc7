-- ===== src/Raft/Sending.antt =====
-- The loop that sends to a follower until it is paused or has everything.
use yaraft.Prelude.{
  ℕ, zero, suc, ◌+◌, ◌≤◌, ◌<◌, ◌≡◌, refl, sym, ◌∙◌, subst, ◌⊎◌, inl, inr, true, false, List, [],
  ◌∷◌, Option, none, some, Bool-cases, Option-cases, arith, u64_mod, sub64,
}
use yaraft.Outcome.{Outcome, Error, ok, err, panic, fault, bind-ok, attempt}
use yaraft.Idl.{Entry, Message}
use yaraft.Assoc
use yaraft.Inflights
use yaraft.Progress
use yaraft.Progress.{Progress, probe, replicate, snapshot}
use yaraft.RaftLog
use yaraft.Raft.State.{Raft, get_progress, put_progress}
use yaraft.Raft.Replicate.{
  send, snapshot_to_send, send_snapshot, send_entries, send_append_or_snapshot, maybe_send_append,
  after_append, send_all, is_empty,
}
use yaraft.Raft.Leader.{send_fuel}

-- What `while (maybeSendAppend(to, false)) {}` does from `r`.
pub data Sends (to : ℕ) : Raft → Outcome Raft → Type 0 where
  done : {r r' : Raft} → maybe_send_append to false r ≡ ok (r', false) → Sends to r (ok r')
  again :
      {r s : Raft} {o : Outcome Raft}
      → maybe_send_append to false r ≡ ok (s, true)
      → Sends to s o
      → Sends to r o
  fails : {r : Raft} {e : Error} → maybe_send_append to false r ≡ err e → Sends to r (err e)
  panics : {r : Raft} → maybe_send_append to false r ≡ panic → Sends to r panic
  faults : {r : Raft} → maybe_send_append to false r ≡ fault → Sends to r fault

-- The window is not over its capacity.
pub record IsBounded (p : Progress) : Type 0 where
  pub below : p.ins.count ≤ p.ins.capacity
  pub small : p.ins.capacity < u64_mod

-- After `n` messages the follower is paused.
record PausesIn (n : ℕ) (p : Progress) : Type 0 where
  bounded : IsBounded p
  left :
      (Progress.is_paused p ≡ true)
      ⊎ ((p.state ≡ probe) × (0 < n))
      ⊎ ((p.state ≡ replicate) × (p.ins.capacity ≤ p.ins.count + n))

paused_now : (p : Progress) → PausesIn 0 p → Progress.is_paused p ≡ true
unfolding Progress.is_paused Inflights.full
paused_now p h = ground (arith, h.left, h.bounded.below)

module _ {ℓ} {A : Type ℓ} where
  find-insert : (k : ℕ) (v : A) (m : List (ℕ × A)) → Assoc.find k (Assoc.insert k v m) ≡ some v
  unfolding Assoc.find Assoc.insert
  find-insert k v [] = ground arith
  find-insert k v ((j, w) ∷ m) = ground (arith, find-insert k v m)

get_progress-put :
    (id : ℕ) (p q : Progress) (r : Raft)
    → get_progress r id ≡ some q
    → get_progress (put_progress id p r) id ≡ some p
unfolding get_progress put_progress Assoc.has_key
get_progress-put id p q r e = grind (arith, find-insert id p r.prs, find-insert id p r.learner_prs)

get_progress-send :
    (m : Message) (id : ℕ) (r : Raft) {r' : Raft}
    → send m r ≡ ok r'
    → get_progress r' id ≡ get_progress r id
unfolding send get_progress
get_progress-send m id r e = ground arith

-- A message with entries takes one place of the window, or pauses the follower.
after_append-PausesIn :
    (n : ℕ) (e : Entry) (es : List Entry) (p : Progress) {p' : Progress}
    → Progress.is_paused p ≡ false
    → PausesIn (suc n) p
    → after_append (e ∷ es) p ≡ ok p'
    → PausesIn n p'
unfolding after_append Progress.is_paused Progress.pause Progress.optimistic_update Inflights.add
    Inflights.full
after_append-PausesIn n e es p active h run = grind arith

become_snapshot-PausesIn :
    (n i : ℕ) (p : Progress) → IsBounded p → PausesIn n (Progress.become_snapshot i p)
unfolding Progress.become_snapshot Progress.is_paused Inflights.reset
become_snapshot-PausesIn n i p h = record {
  bounded = record { below = omega arith; small = h.small };
  left = inl refl;
}

-- The follower has a progress that pauses in `n` messages.
record EndsIn (n to : ℕ) (r : Raft) : Type 0 where
  progress : Progress
  found : get_progress r to ≡ some progress
  pauses : PausesIn n progress

EndsIn-sent :
    (n to : ℕ) (p q : Progress) (m : Message) (r : Raft) {r' : Raft}
    → get_progress r to ≡ some q
    → PausesIn n p
    → send m (put_progress to p r) ≡ ok r'
    → EndsIn n to r'
EndsIn-sent n to p q m r e h run = record {
  progress = p;
  found = get_progress-send m to (put_progress to p r) run ∙ get_progress-put to p q r e;
  pauses = h;
}

send_snapshot-EndsIn :
    (n to : ℕ) (p : Progress) (r : Raft) {s : Raft}
    → get_progress r to ≡ some p
    → IsBounded p
    → send_snapshot to p r ≡ ok (s, true)
    → EndsIn n to s
unfolding send_snapshot
send_snapshot-EndsIn n to p r {s = s} e h run = elim (Bool-cases p.recent_active) [
  | inr away ↦ absurd (ground (arith, run, away))
  | inl active ↦
      let (found, one, rest) =
        bind-ok (snapshot_to_send (RaftLog.snapshot r.raft_log)) _ (rw active at run) in
      elim (Option-cases found) [
        | inl missing ↦ absurd (ground (arith, rw missing at rest))
        | inr (t, there) ↦
            let (f, two, rest₁) = bind-ok (RaftLog.first_index r.raft_log) _ (rw there at rest) in
            let (r', three, last) =
              bind-ok (send _ (put_progress to (Progress.become_snapshot t.metadata_index p) r)) _
                rest₁ in
            let same : r' ≡ s = ground (arith, last) in
            subst (λ z. EndsIn n to z) same
              (EndsIn-sent n to _ p _ r e (become_snapshot-PausesIn n t.metadata_index p h) three)
      ]
]

send_entries-EndsIn :
    (n to t : ℕ) (p : Progress) (x : Entry) (xs : List Entry) (r : Raft) {s : Raft}
    → get_progress r to ≡ some p
    → Progress.is_paused p ≡ false
    → PausesIn (suc n) p
    → send_entries to p t (x ∷ xs) r ≡ ok (s, true)
    → EndsIn n to s
unfolding send_entries
send_entries-EndsIn n to t p x xs r {s = s} e active h run =
    let (p', one, rest) = bind-ok (after_append (x ∷ xs) p) _ run in
    let (r', two, last) = bind-ok (send _ (put_progress to p' r)) _ rest in
    let same : r' ≡ s = ground (arith, last) in
    subst (λ z. EndsIn n to z) same
      (EndsIn-sent n to p' p _ r e (after_append-PausesIn n x xs p active h one) two)

sent-EndsIn :
    (n to : ℕ) (p : Progress) (t : Option ℕ) (ents : Option (List Entry)) (r : Raft) {s : Raft}
    → get_progress r to ≡ some p
    → Progress.is_paused p ≡ false
    → PausesIn (suc n) p
    → send_append_or_snapshot to false p t ents r ≡ ok (s, true)
    → EndsIn n to s
unfolding send_append_or_snapshot is_empty
sent-EndsIn n to p (some t) (some []) r e active h run = absurd (ground (arith, run))
sent-EndsIn n to p (some t) (some (x ∷ xs)) r e active h run =
    send_entries-EndsIn n to t p x xs r e active h run
sent-EndsIn n to p none (some []) r e active h run = absurd (ground (arith, run))
sent-EndsIn n to p none (some (x ∷ xs)) r e active h run =
    send_snapshot-EndsIn n to p r e h.bounded run
sent-EndsIn n to p _ none r e active h run = absurd (ground (arith, run))

-- A message that goes out in the loop brings the follower nearer to its pause.
maybe_send_append-EndsIn :
    (n to : ℕ) (p : Progress) (r : Raft) {s : Raft}
    → get_progress r to ≡ some p
    → PausesIn (suc n) p
    → maybe_send_append to false r ≡ ok (s, true)
    → EndsIn n to s
unfolding maybe_send_append
maybe_send_append-EndsIn n to p r {s = s} e h run = elim (Bool-cases (Progress.is_paused p)) [
  | inl paused ↦ absurd (ground (arith, rw (e, paused) at run))
  | inr active ↦
      let (t, one, rest) =
        bind-ok (attempt (RaftLog.term r.raft_log (sub64 p.next 1))) _ (rw (e, active) at run) in
      let (ents, two, last) =
        bind-ok (attempt (RaftLog.entries r.raft_log p.next r.max_msg_size)) _ rest in
      sent-EndsIn n to p t ents r e active h last
]

maybe_send_append-paused :
    (to : ℕ) (p : Progress) (r : Raft)
    → get_progress r to ≡ some p
    → Progress.is_paused p ≡ true
    → maybe_send_append to false r ≡ ok (r, false)
unfolding maybe_send_append
maybe_send_append-paused to p r e paused = rw (e, paused) refl

Outcome-cases {ℓ} :
    {A : Type ℓ} (o : Outcome A)
    → ((a : A) × (o ≡ ok a)) ⊎ ((e : Error) × (o ≡ err e)) ⊎ (o ≡ panic) ⊎ (o ≡ fault)
Outcome-cases (ok a) = inl (a, refl)
Outcome-cases (err e) = inr (inl (e, refl))
Outcome-cases panic = inr (inr (inl refl))
Outcome-cases fault = inr (inr (inr refl))

ended :
    (fuel to : ℕ) (r s : Raft)
    → maybe_send_append to false r ≡ ok (s, false)
    → Sends to r (send_all (suc fuel) to r)
unfolding send_all
ended fuel to r s run = rw run (done run)

went_on :
    (fuel to : ℕ) (r s : Raft)
    → maybe_send_append to false r ≡ ok (s, true)
    → Sends to s (send_all fuel to s)
    → Sends to r (send_all (suc fuel) to r)
unfolding send_all
went_on fuel to r s run rest = rw run (again run rest)

failed :
    (fuel to : ℕ) (r : Raft)
    → ((e : Error) × (maybe_send_append to false r ≡ err e))
      ⊎ (maybe_send_append to false r ≡ panic)
      ⊎ (maybe_send_append to false r ≡ fault)
    → Sends to r (send_all (suc fuel) to r)
unfolding send_all
failed fuel to r (inl (e, run)) = rw run (fails run)
failed fuel to r (inr (inl run)) = rw run (panics run)
failed fuel to r (inr (inr run)) = rw run (faults run)

send_all-EndsIn :
    (fuel to : ℕ) (r : Raft) → EndsIn fuel to r → Sends to r (send_all (suc fuel) to r)
send_all-EndsIn zero to r h =
    ended 0 to r r
      (maybe_send_append-paused to h.progress r h.found (paused_now h.progress h.pauses))
send_all-EndsIn (suc fuel) to r h = elim (Outcome-cases (maybe_send_append to false r)) [
  | inl ((s, true), run) ↦ went_on (suc fuel) to r s run (
      send_all-EndsIn fuel to s
        (maybe_send_append-EndsIn fuel to h.progress r h.found h.pauses run))
  | inl ((s, false), run) ↦ ended (suc fuel) to r s run
  | inr stop ↦ failed (suc fuel) to r stop
]

starts : (n : ℕ) (p : Progress) → IsBounded p → p.ins.capacity < n → PausesIn n p
unfolding Progress.is_paused
starts n p h k = ground arith

-- The sending loop ends within the fuel that the leader gives it: `send_all` with `send_fuel` has the
-- outcome of `while (maybeSendAppend(to, false)) {}`, for a follower that the leader knows, whose window holds no
-- more than its capacity, which is below 2^64.
pub send_all-Sends :
    (to : ℕ) (p : Progress) (r : Raft)
    → get_progress r to ≡ some p
    → IsBounded p
    → Sends to r (send_all (send_fuel p) to r)
unfolding send_fuel
send_all-Sends to p r e h =
    let split : send_fuel p ≡ suc (p.ins.capacity + 1) = omega arith in
    subst (λ n. Sends to r (send_all n to r)) (sym split)
      (send_all-EndsIn (p.ins.capacity + 1) to r (record {
        progress = p;
        found = e;
        pauses = starts (p.ins.capacity + 1) p h (omega arith);
      }))
