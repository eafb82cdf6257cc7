-- ===== src/Raft/State.antt =====
-- src/raft.h: the fields of `Raft`, and what reads them.
use yaraft.Prelude.{ℕ, ◌+◌, ◌/◌, Bool, List, ◌++◌, Option, none, some, length, if◌then◌else◌, ◌==◌}
use yaraft.Outcome.{Outcome, ok, ◌>>=◌, or_fault}
use yaraft.Idl.{Message, HardState}
use yaraft.Assoc
use yaraft.Progress.{Progress}
use yaraft.ReadOnly.{ReadOnly, ReadState}
use yaraft.RaftLog.{RaftLog}

pub data StateType : Type 0 where
  follower candidate pre_candidate leader : StateType

pub record SoftState : Type 0 where
  pub lead : ℕ
  pub raft_state : StateType

-- `random k n` is what the generator of src/rand.cc draws at its call number `k` for the bound `n`,
-- and `draws` counts the calls. `reserve n` is the capacity that `std::vector::reserve(n)` gives an
-- empty vector. The elapsed ticks and the timeouts are `int`; they are taken not to overflow.
pub record Raft : Type 0 where
  pub id : ℕ
  pub term : ℕ
  pub vote : ℕ
  pub read_states : List ReadState
  pub raft_log : RaftLog
  pub max_inflight : ℕ
  pub max_msg_size : ℕ
  pub prs : List (ℕ × Progress)
  pub learner_prs : List (ℕ × Progress)
  pub state : StateType
  pub is_learner : Bool
  pub votes : List (ℕ × Bool)
  pub msgs : List Message
  pub lead : ℕ
  pub lead_transferee : ℕ
  pub pending_conf_index : ℕ
  pub read_only : ReadOnly
  pub election_elapsed : ℕ
  pub heartbeat_elapsed : ℕ
  pub check_quorum : Bool
  pub pre_vote : Bool
  pub heartbeat_timeout : ℕ
  pub election_timeout : ℕ
  pub randomized_election_timeout : ℕ
  pub disable_proposal_forwarding : Bool
  pub random : ℕ → ℕ → ℕ
  pub draws : ℕ
  pub reserve : ℕ → ℕ

-- `kNone`
abbrev pub no_node : ℕ
no_node = 0

-- It is true where there is no leader, as in the source.
unfoldable pub has_leader : Raft → Bool
has_leader r = r.lead == 0

unfoldable pub soft_state : Raft → SoftState
soft_state r = record { lead = r.lead; raft_state = r.state }

unfoldable pub hard_state : Raft → HardState
hard_state r = record { vote = r.vote; term = r.term; commit = r.raft_log.committed }

unfoldable pub quorum : Raft → ℕ
quorum r = length r.prs / 2 + 1

unfoldable pub get_progress : Raft → ℕ → Option Progress
get_progress r id = elim (Assoc.find id r.prs) [
  | some p ↦ some p
  | none ↦ Assoc.find id r.learner_prs
]

-- Writing through the pointer that `getProgress` returns.
unfoldable pub put_progress : ℕ → Progress → Raft → Raft
put_progress id p r =
    if Assoc.has_key id r.prs
    then record r { prs = Assoc.insert id p r.prs }
    else record r { learner_prs = Assoc.insert id p r.learner_prs }

-- `f(*getProgress(id))`, through a null pointer where there is no such progress.
unfoldable pub with_progress : ℕ → (Progress → Progress) → Raft → Outcome Raft
with_progress id f r = or_fault (get_progress r id) >>= λ p. ok (put_progress id (f p) r)

-- The ids in the order of `forEachProgress`.
unfoldable pub progress_ids : Raft → List ℕ
progress_ids r = Assoc.keys r.prs ++ Assoc.keys r.learner_prs

unfoldable pub promotable : Raft → Bool
promotable r = Assoc.has_key r.id r.prs

unfoldable pub nodes : Raft → List ℕ
nodes r = Assoc.keys r.prs

unfoldable pub learner_nodes : Raft → List ℕ
learner_nodes r = Assoc.keys r.learner_prs
