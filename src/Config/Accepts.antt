-- ===== src/Config/Accepts.antt =====
-- Which configurations `Validate` accepts.
use yaraft.Prelude.{◌≤◌, ◌<◌, ◌≡◌, ◌⊎◌, inl, inr, true, false, none, some, Option-cases, arith}
use yaraft.Outcome.{ok, err, invalid_argument}
use yaraft.Storage.{Storage}
use yaraft.ReadOnly.{read_only_safe, read_only_lease_based}
use yaraft.Config.{Config, validate}

-- The rules for the parameters as src/conf.cc tests them. It lets an election tick pass that equals the heartbeat
-- tick, which include/yaraft/conf.h and the text of the error do not allow.
abbrev pub Obeys : Config → Type 0
Obeys c =
    (0 < c.id)
    × (0 < c.heartbeat_tick)
    × (c.heartbeat_tick ≤ c.election_tick)
    × (0 < c.max_inflight_msgs)
    × ((c.read_only_option ≡ read_only_safe) ⊎ (c.check_quorum ≡ true))

abbrev pub Breaks : Config → Type 0
Breaks c =
    (c.id ≡ 0)
    ⊎ (c.heartbeat_tick ≡ 0)
    ⊎ (c.election_tick < c.heartbeat_tick)
    ⊎ (c.max_inflight_msgs ≡ 0)
    ⊎ ((c.read_only_option ≡ read_only_lease_based) × (c.check_quorum ≡ false))

rules : (c : Config) → Obeys c ⊎ Breaks c
rules c = ground arith

-- Validate accepts a configuration that has a storage and obeys the rules that the code tests, by which the election
-- tick may equal the heartbeat tick, and returns an error for one without a storage and for one that breaks such a
-- rule; it never panics.
pub validate_lem :
    (c : Config)
    → ((s : Storage) × (c.storage ≡ some s) × (validate c ≡ ok s) × Obeys c)
      ⊎ ((validate c ≡ err invalid_argument) × ((c.storage ≡ none) ⊎ Breaks c))
unfolding validate
validate_lem c = elim (Option-cases c.storage) [
  | inl missing ↦ inr (ground arith, inl missing)
  | inr (s, found) ↦ elim (rules c) [
    | inl obeys ↦ inl (s, found, ground (arith, found, obeys), obeys)
    | inr breaks ↦ inr (ground (arith, found, breaks), inr breaks)
  ]
]
