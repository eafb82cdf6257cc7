-- ===== src/Config/Tests.antt =====
-- A concrete configuration, whose heartbeat comes less often than an election.
use yaraft.Prelude.{◌≡◌, ◌⊎◌, false, [], none, some}
use yaraft.Outcome.{ok, err, invalid_argument}
use yaraft.Storage.{Storage}
use yaraft.MemoryStorage
use yaraft.ReadOnly.{read_only_safe}
use yaraft.Config.{Config, validate}
use yaraft.Config.Accepts.{Obeys, Breaks, validate_lem}

abbrev slow : Config
slow = record {
  id = 1;
  election_tick = 1;
  heartbeat_tick = 10;
  storage = some (MemoryStorage.to_storage MemoryStorage.init);
  applied = 0;
  max_size_per_msg = 100;
  max_inflight_msgs = 4;
  check_quorum = false;
  pre_vote = false;
  read_only_option = read_only_safe;
  disable_proposal_forwarding = false;
  peers = [];
  learners = [];
}

validate_lem_example :
    ((s : Storage) × (slow.storage ≡ some s) × (validate slow ≡ ok s) × Obeys slow)
    ⊎ ((validate slow ≡ err invalid_argument) × ((slow.storage ≡ none) ⊎ Breaks slow))
validate_lem_example = validate_lem slow
