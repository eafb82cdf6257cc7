-- ===== src/Storage.antt =====
-- include/yaraft/storage.h: what the log asks of a storage.
use yaraft.Prelude.{ℕ, List}
use yaraft.Outcome.{Outcome}
use yaraft.Idl.{Entry, Snapshot, HardState, ConfState}

-- The answers that a storage gives in its present state.
pub record Storage : Type 0 where
  pub initial_state : Outcome (HardState × ConfState)
  pub entries : ℕ → ℕ → ℕ → Outcome (List Entry)
  pub term : ℕ → Outcome ℕ
  pub last_index : Outcome ℕ
  pub first_index : Outcome ℕ
  pub snapshot : Outcome Snapshot
