-- ===== src/Raft/Status.antt =====
-- include/yaraft/status.h, `Raft::getStatus` and `Progress::Clone`. The JSON of a status is not modelled:
-- the source declares it and does not define it.
use yaraft.Prelude.{ℕ, Bool, true, false, List, [], ◌∷◌, if◌then◌else◌}
use yaraft.Outcome.{Outcome, ok, fault}
use yaraft.Idl.{HardState}
use yaraft.Assoc
use yaraft.Progress
use yaraft.Progress.{Progress, probe, replicate, snapshot}
use yaraft.Raft.State.{Raft, StateType, leader, SoftState, soft_state, hard_state}

-- What `Clone` makes. It has no window, and `isLearner_` is false.
pub record ProgressCopy : Type 0 where
  pub next : ℕ
  pub matched : ℕ
  pub state : Progress.StateType
  pub paused : Bool
  pub pending_snapshot : ℕ
  pub recent_active : Bool

unfoldable pub clone : Progress → ProgressCopy
clone p = record {
  next = p.next;
  matched = p.matched;
  state = p.state;
  paused = p.paused;
  pending_snapshot = p.pending_snapshot;
  recent_active = p.recent_active;
}

-- `IsPaused` of a copy: a replicating one asks the window that it does not have.
unfoldable pub copy_is_paused : ProgressCopy → Outcome Bool
copy_is_paused c = elim c.state [ probe ↦ ok c.paused | replicate ↦ fault | snapshot ↦ ok true ]

pub record Status : Type 0 where
  pub id : ℕ
  pub hard_state : HardState
  pub soft_state : SoftState
  pub applied : ℕ
  pub progress : List (ℕ × ProgressCopy)
  pub lead_transferee : ℕ

-- The loop over a map of progresses.
unfoldable pub copy_all : List (ℕ × Progress) → List (ℕ × ProgressCopy) → List (ℕ × ProgressCopy)
copy_all [] acc = acc
copy_all ((id, p) ∷ prs) acc = copy_all prs (Assoc.insert id (clone p) acc)

unfoldable pub is_leader : StateType → Bool
is_leader leader = true
is_leader _ = false

unfoldable pub get_status : Raft → Status
get_status r = record {
  id = r.id;
  hard_state = hard_state r;
  soft_state = soft_state r;
  applied = r.raft_log.applied;
  progress = if is_leader r.state then copy_all r.learner_prs (copy_all r.prs []) else [];
  lead_transferee = r.lead_transferee;
}
