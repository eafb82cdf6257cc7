-- ===== src/Raft/Later.antt =====
-- The order in which the states of one node come: its term and its commit index never fall, and in
-- a term it votes for one node at most.
pub mod Elections
pub mod Messages
pub mod Leading
pub mod Stepping
use yaraft.Prelude.{ℕ, ◌≤◌, ◌<◌, ◌≡◌, ◌⊎◌, arith}
use yaraft.Raft.State.{Raft}
use yaraft.Raft.Same.{Same}

pub record Later (r r' : Raft) : Type 0 where
  pub commit : r.raft_log.committed ≤ r'.raft_log.committed
  pub term_vote : (r.term < r'.term) ⊎ ((r'.term ≡ r.term) × ((r.vote ≡ 0) ⊎ (r'.vote ≡ r.vote)))

pub Later-refl : (r : Raft) → Later r r
Later-refl r = ground arith

pub Later-trans : {r s t : Raft} → Later r s → Later s t → Later r t
Later-trans h k = ground arith

pub Same-Later : {r s : Raft} → Same r s → Later r s
Same-Later h = ground arith
