-- ===== src/Progress/Tests.antt =====
-- A follower's progress at concrete values.
use yaraft.Prelude.{◌+◌, ◌≤◌, ◌<◌, ◌≡◌, ◌⊎◌, true, false, max, [], arith}
use yaraft.Progress.{Progress, probe, maybe_update}
use yaraft.Progress.Inv.{IsValid, maybe_update_lem}

-- Probing at index 5, with 2 matched.
abbrev probing : Progress
probing = record {
  next = 6;
  matched = 2;
  state = probe;
  paused = true;
  pending_snapshot = 0;
  recent_active = true;
  ins = record { start = 0; count = 0; capacity = 4; buffer = [] };
  is_learner = false;
}

probing-IsValid : IsValid probing
probing-IsValid = ground arith

maybe_update_lem_example :
    IsValid (maybe_update 4 probing).0
    × ((maybe_update 4 probing).0.matched ≡ max 2 4)
    × ((maybe_update 4 probing).0.next ≡ max 6 (4 + 1))
    × ((((maybe_update 4 probing).1 ≡ true) × (2 < 4) × ((maybe_update 4 probing).0.paused ≡ false))
        ⊎ (((maybe_update 4 probing).1 ≡ false)
            × (4 ≤ 2)
            × ((maybe_update 4 probing).0.paused ≡ true)))
maybe_update_lem_example = maybe_update_lem 4 probing (omega arith) probing-IsValid
