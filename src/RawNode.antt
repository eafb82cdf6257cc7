-- ===== src/RawNode.antt =====
-- include/yaraft/raw_node.h, src/raw_node.cc and include/yaraft/ready.h: the node as its user sees it.
pub mod Syncs
pub mod Cycle
mod Tests
use yaraft.Prelude.{
  ℕ, Bool, true, false, ◌&&◌, ◌||◌, List, [], ◌∷◌, Option, none, some, ltb, ◌==◌, if◌then◌else◌,
  not, length, add64, Bytes,
}
use yaraft.Outcome.{
  Outcome, ok, step_local_msg, step_peer_not_found, ◌>>=◌, ◌>>◌, panic_if, get_value, fault,
}
use yaraft.Idl.{
  Entry, entry_conf_change, empty_entry, Message, empty_message, HardState, empty_hard_state,
  Snapshot, empty_snapshot, ConfState, ConfChange, conf_change_add_node, conf_change_remove_node,
  conf_change_update_node, conf_change_add_learner_node, is_local_msg, is_response_msg,
  is_hard_state_equal, is_empty_hard_state, is_empty_snap, msg_hup, msg_prop, msg_unreachable,
  msg_snap_status, msg_transfer_leader, msg_read_index,
}
use yaraft.Config.{Config}
use yaraft.Progress.{Progress}
use yaraft.RaftLog
use yaraft.ReadOnly.{ReadState}
use yaraft.Raft.State.{
  Raft, SoftState, StateType, follower, candidate, pre_candidate, leader, no_node, get_progress,
  soft_state, hard_state, nodes, learner_nodes,
}
use yaraft.Raft.Roles.{become_follower}
use yaraft.Raft.Membership.{add_node, add_learner, remove_node}
use yaraft.Raft.Leader.{Stepped}
use yaraft.Raft.Step
use yaraft.Raft.New

pub record Ready : Type 0 where
  pub soft_state : Option SoftState
  pub hard_state : HardState
  pub read_states : List ReadState
  pub entries : List Entry
  pub snapshot : Snapshot
  pub committed_entries : List Entry
  pub messages : List Message
  pub must_sync : Bool

pub record Peer : Type 0 where
  pub id : ℕ
  pub context : Bytes

pub record RawNode : Type 0 where
  pub raft : Raft
  pub prev_soft_st : SoftState
  pub prev_hard_st : HardState

rank : StateType → ℕ
rank follower = 0
rank candidate = 1
rank pre_candidate = 2
rank leader = 3

-- `operator==` of `SoftState`
unfoldable pub soft_state_eq : SoftState → SoftState → Bool
unfolding rank
soft_state_eq a b = (a.lead == b.lead) && (rank a.raft_state == rank b.raft_state)

unfoldable pub must_sync : HardState → HardState → ℕ → Bool
must_sync prevst st entsnum =
    not (entsnum == 0) || not (st.vote == prevst.vote) || not (st.term == prevst.term)

-- The hard state of a `Ready`: its commit index is clamped to the entries that are returned.
unfoldable pub clamp_commit : HardState → List Entry → HardState
clamp_commit st [] = st
clamp_commit st (e ∷ []) = if ltb e.index st.commit then record st { commit = e.index } else st
clamp_commit st (e ∷ e' ∷ es) = clamp_commit st (e' ∷ es)

-- `Raft::newReady`
unfoldable pub new_ready : SoftState → HardState → Raft → Outcome Ready
unfolding clamp_commit
new_ready prev_soft prev_hard r = RaftLog.next_ents r.raft_log >>= λ committed.
    let soft = soft_state r in
    let hard =
      if is_hard_state_equal (hard_state r) prev_hard
      then empty_hard_state
      else clamp_commit (hard_state r) committed in
    let unstable = RaftLog.unstable_entries r.raft_log in
    ok (record {
      soft_state = if soft_state_eq soft prev_soft then none else some soft;
      hard_state = hard;
      read_states = r.read_states;
      entries = unstable;
      snapshot = elim r.raft_log.unstable.snapshot [ none ↦ empty_snapshot | some s ↦ s ];
      committed_entries = committed;
      messages = r.msgs;
      must_sync = must_sync hard prev_hard (length unstable);
    })

module _ (marshal : ConfChange → Bytes) where
  -- An entry for each peer, from index `i` on.
  bootstrap_entries : ℕ → List Peer → List Entry
  bootstrap_entries i [] = []
  bootstrap_entries i (p ∷ ps) =
      record {
        term = 1;
        index = i;
        entry_type = entry_conf_change;
        payload = marshal (record {
          id = 0;
          change_type = conf_change_add_node;
          nodeid = p.id;
          context = p.context;
        });
      }
      ∷ bootstrap_entries (add64 i 1) ps

  add_nodes : List Peer → Raft → Outcome Raft
  add_nodes [] r = ok r
  add_nodes (p ∷ ps) r = add_node p.id r >>= add_nodes ps

  bootstrap : List Peer → Raft → Outcome Raft
  unfolding bootstrap_entries add_nodes
  bootstrap peers r = do
    r₁ ← become_follower 1 no_node r
    let ents = bootstrap_entries 1 peers
    appended ← RaftLog.append r₁.raft_log ents
    add_nodes peers (record r₁ { raft_log = record appended.0 { committed = length ents } })

  -- `RawNode::New`
  unfoldable pub make : Config → List Peer → (ℕ → ℕ → ℕ) → (ℕ → ℕ) → Outcome RawNode
  unfolding bootstrap
  make c peers random reserve = do
    panic_if (c.id == 0)
    last ← (elim c.storage [ none ↦ fault | some s ↦ get_value s.last_index ])
    r ← New.make c random reserve
    r' ← (if last == 0 then bootstrap peers r else ok r)
    ok (record {
      raft = r';
      prev_soft_st = soft_state r';
      prev_hard_st = if last == 0 then empty_hard_state else hard_state r';
    })

  unfoldable pub propose_conf_change : ConfChange → Raft → Outcome Stepped
  propose_conf_change cc = Step.step (record empty_message {
    msg_type = msg_prop;
    entries = record empty_entry { entry_type = entry_conf_change; payload = marshal cc } ∷ [];
  })

unfoldable pub campaign : Raft → Outcome Stepped
campaign = Step.step (record empty_message { msg_type = msg_hup })

unfoldable pub propose : Bytes → Raft → Outcome Stepped
propose payload r =
    Step.step
      (record empty_message {
        msg_type = msg_prop;
        from = r.id;
        entries = record empty_entry { payload = payload } ∷ [];
      })
      r

change_node : ConfChange → Raft → Outcome Raft
change_node cc r = elim cc.change_type [
  | conf_change_add_node ↦ add_node cc.nodeid r
  | conf_change_add_learner_node ↦ add_learner cc.nodeid r
  | conf_change_remove_node ↦ remove_node cc.nodeid r
  | conf_change_update_node ↦ ok r
]

unfoldable pub apply_conf_change : ConfChange → Raft → Outcome (Raft × ConfState)
unfolding change_node
apply_conf_change cc r = (if cc.nodeid == no_node then ok r else change_node cc r) >>= λ r'.
    ok (r', record { nodes = nodes r'; learners = learner_nodes r' })

is_null : Option Progress → Bool
is_null none = true
is_null (some p) = false

-- `RawNode::Step`, with the test as it is written.
unfoldable pub step : Message → Raft → Outcome Stepped
unfolding is_null
step m r =
    if is_local_msg m.msg_type
    then ok (r, some step_local_msg)
    else if is_null (get_progress r m.from) || not (is_response_msg m.msg_type)
    then Step.step m r
    else ok (r, some step_peer_not_found)

unfoldable pub get_ready : RawNode → Outcome (RawNode × Ready)
get_ready n = new_ready n.prev_soft_st n.prev_hard_st n.raft >>= λ rd.
    ok (record n { raft = record n.raft { msgs = [] } }, rd)

is_empty {ℓ} : {A : Type ℓ} → List A → Bool
is_empty [] = true
is_empty (x ∷ xs) = false

has_snapshot : Option Snapshot → Bool
has_snapshot none = false
has_snapshot (some s) = not (is_empty_snap s)

unfoldable pub has_ready : RawNode → Outcome Bool
unfolding is_empty has_snapshot
has_ready n =
    let r = n.raft in
    let hard = hard_state r in
    if not (soft_state_eq (soft_state r) n.prev_soft_st)
      || (not (is_empty_hard_state hard) && not (is_hard_state_equal hard n.prev_hard_st))
      || has_snapshot r.raft_log.unstable.snapshot
      || not (is_empty r.msgs)
      || not (is_empty (RaftLog.unstable_entries r.raft_log))
    then ok true
    else (RaftLog.has_next_ents r.raft_log >>= λ next. ok (next || not (is_empty r.read_states)))

last_entry : List Entry → Option Entry
last_entry [] = none
last_entry (e ∷ []) = some e
last_entry (e ∷ e' ∷ es) = last_entry (e' ∷ es)

stable_ready : Ready → RaftLog.RaftLog → Outcome RaftLog.RaftLog
unfolding last_entry
stable_ready rd log = elim (last_entry rd.entries) [
  | none ↦ ok log
  | some e ↦ RaftLog.stable_to log e.index e.term
]

-- `Advance`, by `commitReady`.
unfoldable pub advance : Ready → RawNode → Outcome RawNode
unfolding stable_ready is_empty
advance rd n = do
  let prev_soft = (elim rd.soft_state as (λ o. SoftState) [ none ↦ n.prev_soft_st | some s ↦ s ])
  let prev_hard = (if is_empty_hard_state rd.hard_state then n.prev_hard_st else rd.hard_state)
  log₁ ←
      (if prev_hard.commit == 0
        then ok n.raft.raft_log
        else RaftLog.applied_to n.raft.raft_log prev_hard.commit)
  log₂ ← stable_ready rd log₁
  let log₃ =
      (if is_empty_snap rd.snapshot
        then log₂
        else RaftLog.stable_snap_to log₂ rd.snapshot.metadata_index)
  ok (record n {
    prev_soft_st = prev_soft;
    prev_hard_st = prev_hard;
    raft = record n.raft {
      raft_log = log₃;
      read_states = if is_empty rd.read_states then n.raft.read_states else [];
    };
  })

-- What `Step` returns is dropped by the calls below.
abbrev dropped : Outcome Stepped → Outcome Raft
dropped m = m >>= λ stepped. ok stepped.0

unfoldable pub report_unreachable : ℕ → Raft → Outcome Raft
report_unreachable id r =
    dropped (Step.step (record empty_message { msg_type = msg_unreachable; from = id; to = id }) r)

pub data SnapshotStatus : Type 0 where
  snapshot_finish snapshot_failure : SnapshotStatus

is_failure : SnapshotStatus → Bool
is_failure snapshot_finish = false
is_failure snapshot_failure = true

unfoldable pub report_snapshot : ℕ → SnapshotStatus → Raft → Outcome Raft
unfolding is_failure
report_snapshot id status r = dropped (
    Step.step
      (record empty_message { msg_type = msg_snap_status; from = id; reject = is_failure status })
      r)

unfoldable pub transfer_leader : ℕ → Raft → Outcome Raft
transfer_leader transferee r =
    dropped
      (Step.step (record empty_message { msg_type = msg_transfer_leader; from = transferee }) r)

unfoldable pub read_index : Bytes → Raft → Outcome Raft
read_index rctx r = dropped (
    Step.step
      (record empty_message {
        msg_type = msg_read_index;
        entries = record empty_entry { payload = rctx } ∷ [];
      })
      r)
