-- ===== src/Raft/Membership.antt =====
-- src/raft.cc: the members of the cluster, and restoring them from a snapshot.
use yaraft.Prelude.{
  ℕ, Bool, true, false, ◌&&◌, ◌||◌, List, [], ◌∷◌, none, some, leb, ◌==◌, if◌then◌else◌, not, add64,
  sub64,
}
use yaraft.Outcome.{Outcome, ok, ◌>>=◌, ◌>>◌, panic_if}
use yaraft.Idl.{Snapshot}
use yaraft.Assoc
use yaraft.Progress
use yaraft.Progress.{Progress}
use yaraft.RaftLog
use yaraft.Raft.State.{Raft, StateType, leader, get_progress, with_progress}
use yaraft.Raft.Replicate.{maybe_commit, bcast_append}
use yaraft.Raft.Roles.{abort_leader_transfer}

unfoldable pub set_progress : ℕ → ℕ → ℕ → Bool → Raft → Outcome Raft
set_progress id matched next is_learner r =
    let p = Progress.make next matched (r.reserve r.max_inflight) is_learner in
    if is_learner
    then (panic_if (Assoc.has_key id r.prs)
        >> ok (record r { learner_prs = Assoc.insert id p r.learner_prs }))
    else ok (record r { prs = Assoc.insert id p r.prs; learner_prs = Assoc.erase id r.learner_prs })

unfoldable pub del_progress : ℕ → Raft → Raft
del_progress id r = record r {
  prs = Assoc.erase id r.prs;
  learner_prs = Assoc.erase id r.learner_prs;
}

-- The end of `addNodeOrLearnerNode`, for a node that is new or promoted.
unfoldable pub welcome : ℕ → Bool → Raft → Outcome Raft
welcome id is_learner r =
    with_progress id (λ p. record p { recent_active = true })
      (record r { is_learner = if r.id == id then is_learner else r.is_learner })

unfoldable pub same_bool : Bool → Bool → Bool
same_bool true b = b
same_bool false b = not b

-- A learner that becomes a voter keeps its progress.
unfoldable pub add_known : ℕ → Bool → Progress → Raft → Outcome Raft
add_known id is_learner pr r =
    if (is_learner && not pr.is_learner) || same_bool is_learner pr.is_learner
    then ok r
    else welcome id is_learner (record r {
      learner_prs = Assoc.erase id r.learner_prs;
      prs = Assoc.insert id (record pr { is_learner = false }) r.prs;
    })

unfoldable pub add_node_or_learner_node : ℕ → Bool → Raft → Outcome Raft
add_node_or_learner_node id is_learner r = elim (get_progress r id) [
  | some pr ↦ add_known id is_learner pr r
  | none ↦ RaftLog.last_index r.raft_log >>= λ last.
      set_progress id 0 (add64 last 1) is_learner r >>= λ r'. welcome id is_learner r'
]

unfoldable pub add_node : ℕ → Raft → Outcome Raft
add_node id = add_node_or_learner_node id false

unfoldable pub add_learner : ℕ → Raft → Outcome Raft
add_learner id = add_node_or_learner_node id true

unfoldable pub no_progress : List (ℕ × Progress) → List (ℕ × Progress) → Bool
no_progress [] [] = true
no_progress _ _ = false

unfoldable pub is_leader : StateType → Bool
is_leader leader = true
is_leader _ = false

unfoldable pub remove_node : ℕ → Raft → Outcome Raft
remove_node id r =
    let r₁ = del_progress id r in
    if no_progress r₁.prs r₁.learner_prs then ok r₁ else (do
      done ← maybe_commit r₁
      r₂ ← (if done.1 then bcast_append done.0 else ok done.0)
      ok (
          if is_leader r₂.state && (r₂.lead_transferee == id)
          then abort_leader_transfer r₂
          else r₂))

unfoldable pub restore_node : List ℕ → Bool → Raft → Outcome Raft
restore_node [] is_learner r = ok r
restore_node (n ∷ ns) is_learner r = do
  last ← RaftLog.last_index r.raft_log
  let next = add64 last 1
  let own = n == r.id
  r' ←
      set_progress n (if own then sub64 next 1 else 0) next is_learner
        (record r { is_learner = if own then is_learner else r.is_learner })
  restore_node ns is_learner r'

unfoldable pub contains : ℕ → List ℕ → Bool
contains id [] = false
contains id (x ∷ xs) = (x == id) || contains id xs

-- The snapshot in place of the log and of the configuration.
unfoldable pub restore_all : Snapshot → Raft → Outcome Raft
restore_all s r = do
  r₁ ←
      restore_node s.metadata_conf_state.nodes false
        (record r { raft_log = RaftLog.restore r.raft_log s; prs = []; learner_prs = [] })
  restore_node s.metadata_conf_state.learners true r₁

-- The log messages evaluate the last term.
unfoldable pub restore : Snapshot → Raft → Outcome (Raft × Bool)
restore s r =
    if leb s.metadata_index r.raft_log.committed
    then ok (r, false)
    else (RaftLog.match_term r.raft_log s.metadata_index s.metadata_term >>= λ matches.
        if matches
        then (do
          RaftLog.last_term r.raft_log >>= λ _. ok tt
          log ← RaftLog.commit_to r.raft_log s.metadata_index
          ok (record r { raft_log = log }, false))
        else if not r.is_learner && contains r.id s.metadata_conf_state.learners
        then ok (r, false)
        else (do RaftLog.last_term r.raft_log >>= λ _. ok tt; r' ← restore_all s r; ok (r', true)))
