-- ===== src/Config.antt =====
-- include/yaraft/conf.h and src/conf.cc: the parameters of a node.
pub mod Accepts
mod Tests
use yaraft.Prelude.{ℕ, Bool, true, false, ◌&&◌, List, Option, none, some, ltb, leb, ◌==◌, not}
use yaraft.Outcome.{Outcome, ok, err, invalid_argument, ◌>>=◌, ◌>>◌, err_if}
use yaraft.Storage.{Storage}
use yaraft.ReadOnly.{ReadOnlyOption, read_only_safe, read_only_lease_based}

-- `electionTick` and `heartbeatTick` are `int`; they are taken to be no less than 0. The logger is
-- not modelled.
pub record Config : Type 0 where
  pub id : ℕ
  pub election_tick : ℕ
  pub heartbeat_tick : ℕ
  pub storage : Option Storage
  pub applied : ℕ
  pub max_size_per_msg : ℕ
  pub max_inflight_msgs : ℕ
  pub check_quorum : Bool
  pub pre_vote : Bool
  pub read_only_option : ReadOnlyOption
  pub disable_proposal_forwarding : Bool
  pub peers : List ℕ
  pub learners : List ℕ

abbrev pub is_lease_based : ReadOnlyOption → Bool
is_lease_based read_only_safe = false
is_lease_based read_only_lease_based = true

-- The storage of a configuration that is accepted.
unfoldable pub validate : Config → Outcome Storage
validate c = do
  err_if (c.id == 0) invalid_argument
  err_if (leb c.heartbeat_tick 0) invalid_argument
  err_if (ltb c.election_tick c.heartbeat_tick) invalid_argument
  storage ← elim c.storage [ none ↦ err invalid_argument | some s ↦ ok s ]
  err_if (leb c.max_inflight_msgs 0) invalid_argument
  err_if (is_lease_based c.read_only_option && not c.check_quorum) invalid_argument
  ok storage
