-- ===== src/Progress/Inv.antt =====
-- What the leader may rely on in a follower's progress.
use yaraft.Prelude.{ℕ, ◌+◌, ◌≤◌, ◌<◌, ◌≡◌, ◌⊎◌, true, false, max, arith, u64_mod}
use yaraft.Inflights.Inv.{reset-IsValid}
use yaraft.Inflights.Inv
use yaraft.Progress.{Progress, become_probe, become_replicate, become_snapshot, maybe_update}

-- What is matched is never sent again.
pub record IsValid (p : Progress) : Type 0 where
  pub ahead : p.matched < p.next
  pub small : p.next < u64_mod
  pub window : Inv.IsValid p.ins

-- Every change of state keeps the follower's match, frees the window and sends from behind the
-- match, or from behind the snapshot that was pending.
pub become_probe-IsValid :
    (p : Progress) → IsValid p → p.pending_snapshot + 1 < u64_mod → IsValid (become_probe p)
unfolding become_probe
become_probe-IsValid p v h = ground (arith, reset-IsValid p.ins v.window)

pub become_replicate-IsValid : (p : Progress) → IsValid p → IsValid (become_replicate p)
unfolding become_replicate
become_replicate-IsValid p v = ground (arith, reset-IsValid p.ins v.window)

become_snapshot-IsValid : (i : ℕ) (p : Progress) → IsValid p → IsValid (become_snapshot i p)
unfolding become_snapshot
become_snapshot-IsValid i p v = ground (arith, reset-IsValid p.ins v.window)

-- `maybeUpdate` raises the match to the acknowledged index and the next index to behind it, and lowers
-- neither; it says whether the match went up, and then the follower is not paused. The progress stays
-- valid, for an acknowledged index below 2^64 - 1.
pub maybe_update_lem :
    (n : ℕ) (p : Progress)
    → n + 1 < u64_mod
    → IsValid p
    → IsValid (maybe_update n p).0
      × ((maybe_update n p).0.matched ≡ max p.matched n)
      × ((maybe_update n p).0.next ≡ max p.next (n + 1))
      × ((((maybe_update n p).1 ≡ true) × (p.matched < n) × ((maybe_update n p).0.paused ≡ false))
          ⊎ (((maybe_update n p).1 ≡ false)
              × (n ≤ p.matched)
              × ((maybe_update n p).0.paused ≡ p.paused)))
unfolding maybe_update
maybe_update_lem n p h v = ground arith
