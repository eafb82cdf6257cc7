-- ===== src/Raft/Timeout.antt =====
-- How long a node waits for its leader.
use yaraft.Prelude.{
  dec_lt, ℕ, zero, suc, ◌+◌, ◌<◌, ◌≤◌, ◌≡◌, refl, ◌∙◌, ap, ◌⊎◌, inl, inr, true, false, arith,
}
use yaraft.Outcome.{Outcome, ok, err, panic, fault, ◌>>=◌}
use yaraft.Idl.{msg_hup}
use yaraft.Raft.State.{Raft, promotable}
use yaraft.Raft.Step.{tick, tick_election, step_own, is_leader}

-- `n` ticks in a row.
unfoldable pub ticks : ℕ → Raft → Outcome Raft
ticks zero r = ok r
ticks (suc n) r = tick r >>= ticks n

-- The node after `n` ticks that only count.
abbrev pub waited : ℕ → Raft → Raft
waited n r = record r { election_elapsed = r.election_elapsed + n }

-- A node that may campaign and does not lead.
pub record IsWaiting (r : Raft) : Type 0 where
  pub follows : is_leader r.state ≡ false
  pub votes : promotable r ≡ true

bind_ok {ℓ} : {A : Type ℓ} (m : Outcome A) → (m >>= (λ a. ok a)) ≡ m
bind_ok (ok a) = refl
bind_ok (err e) = refl
bind_ok panic = refl
bind_ok fault = refl

tick_waits :
    (r : Raft)
    → IsWaiting r
    → r.election_elapsed + 1 < r.randomized_election_timeout
    → tick r ≡ ok (waited 1 r)
unfolding tick tick_election promotable is_leader
tick_waits r w h = ground (arith, w.follows, w.votes)

tick_ends :
    (r : Raft)
    → IsWaiting r
    → r.election_elapsed + 1 ≡ r.randomized_election_timeout
    → tick r ≡ step_own msg_hup (record r { election_elapsed = 0 })
unfolding tick tick_election promotable is_leader
tick_ends r w h = ground (arith, w.follows, w.votes)

waited-IsWaiting : (n : ℕ) (r : Raft) → IsWaiting r → IsWaiting (waited n r)
unfolding promotable
waited-IsWaiting n r w = record { follows = w.follows; votes = w.votes }

abbrev counted : Raft → ℕ → Outcome Raft
counted r n = ok (record r { election_elapsed = n })

ticks_wait :
    (n : ℕ) (r : Raft)
    → IsWaiting r
    → r.election_elapsed + n < r.randomized_election_timeout
    → ticks n r ≡ ok (waited n r)
unfolding ticks
ticks_wait zero r w h =
    let same : r.election_elapsed ≡ r.election_elapsed + 0 = omega arith in ap (counted r) same
ticks_wait (suc n) r w h =
    let same : r.election_elapsed + 1 + n ≡ r.election_elapsed + suc n = omega arith in
    rw (tick_waits r w (omega arith))
      (ticks_wait n (waited 1 r) (waited-IsWaiting 1 r w) (omega arith) ∙ ap (counted r) same)

ticks_end :
    (n : ℕ) (r : Raft)
    → IsWaiting r
    → r.election_elapsed + suc n ≡ r.randomized_election_timeout
    → ticks (suc n) r ≡ step_own msg_hup (record r { election_elapsed = 0 })
unfolding ticks
ticks_end zero r w h = bind_ok (tick r) ∙ tick_ends r w h
ticks_end (suc n) r w h =
    rw (tick_waits r w (omega arith))
      (ticks_end n (waited 1 r) (waited-IsWaiting 1 r w) (omega arith))

-- A node that may campaign, does not lead and hears nothing only counts its ticks until the randomized election
-- timeout is reached, and with the tick that reaches it starts anew and takes a `MsgHup`, which is the
-- call for a campaign.
pub ticks_lem :
    (n : ℕ) (r : Raft)
    → IsWaiting r
    → r.election_elapsed < r.randomized_election_timeout
    → r.election_elapsed + n ≤ r.randomized_election_timeout
    → ((r.election_elapsed + n < r.randomized_election_timeout) × (ticks n r ≡ ok (waited n r)))
      ⊎ ((r.election_elapsed + n ≡ r.randomized_election_timeout)
          × (ticks n r ≡ step_own msg_hup (record r { election_elapsed = 0 })))
ticks_lem zero r w h k = inl (omega arith, ticks_wait zero r w (omega arith))
ticks_lem (suc n) r w h k =
    elim (dec_lt (r.election_elapsed + suc n) r.randomized_election_timeout) [
      | yes before ↦ inl (before, ticks_wait (suc n) r w before)
      | no reached ↦ inr (omega arith, ticks_end n r w (omega arith))
    ]
