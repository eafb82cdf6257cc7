-- ===== src/Idl.antt =====
-- include/yaraft/idl_wrapper.h (the thrift build): the messages and the data that a node keeps.
-- The wrappers hold a shared pointer to a generated struct. Here each is its fields' values, with
-- the defaults of an unset field (0, false, empty).
use yaraft.Prelude.{ℕ, Bool, true, false, ◌&&◌, ◌==◌, List, [], Bytes, length, add64}

pub data EntryType : Type 0 where
  entry_normal entry_conf_change : EntryType

pub data MessageType : Type 0 where
  msg_hup msg_beat msg_prop msg_app msg_app_resp msg_vote msg_vote_resp msg_snap : MessageType
  msg_heartbeat msg_heartbeat_resp msg_unreachable msg_snap_status msg_check_quorum : MessageType
  msg_transfer_leader msg_timeout_now msg_read_index msg_read_index_resp : MessageType
  msg_pre_vote msg_pre_vote_resp : MessageType

pub data ConfChangeType : Type 0 where
  conf_change_add_node conf_change_remove_node : ConfChangeType
  conf_change_update_node conf_change_add_learner_node : ConfChangeType

pub record ConfState : Type 0 where
  pub nodes : List ℕ
  pub learners : List ℕ

-- `metadata_index`, `metadata_term`, `metadata_conf_state` and `data` of the source.
pub record Snapshot : Type 0 where
  pub metadata_index : ℕ
  pub metadata_term : ℕ
  pub metadata_conf_state : ConfState
  pub payload : Bytes

-- `payload` is the source's `data`.
pub record Entry : Type 0 where
  pub term : ℕ
  pub index : ℕ
  pub entry_type : EntryType
  pub payload : Bytes

unfoldable pub byte_size : Entry → ℕ
byte_size e = add64 10 (length e.payload)

pub record Message : Type 0 where
  pub msg_type : MessageType
  pub to : ℕ
  pub from : ℕ
  pub term : ℕ
  pub logterm : ℕ
  pub index : ℕ
  pub commit : ℕ
  pub snapshot : Snapshot
  pub reject : Bool
  pub rejecthint : ℕ
  pub entries : List Entry
  pub context : Bytes

pub record HardState : Type 0 where
  pub vote : ℕ
  pub term : ℕ
  pub commit : ℕ

pub record ConfChange : Type 0 where
  pub id : ℕ
  pub change_type : ConfChangeType
  pub nodeid : ℕ
  pub context : Bytes

abbrev pub empty_conf_state : ConfState
empty_conf_state = record { nodes = []; learners = [] }

abbrev pub empty_snapshot : Snapshot
empty_snapshot = record {
  metadata_index = 0;
  metadata_term = 0;
  metadata_conf_state = empty_conf_state;
  payload = [];
}

-- `idl::Entry()`
abbrev pub empty_entry : Entry
empty_entry = record { term = 0; index = 0; entry_type = entry_normal; payload = [] }

-- `idl::Message()`
abbrev pub empty_message : Message
empty_message = record {
  msg_type = msg_hup;
  to = 0;
  from = 0;
  term = 0;
  logterm = 0;
  index = 0;
  commit = 0;
  snapshot = empty_snapshot;
  reject = false;
  rejecthint = 0;
  entries = [];
  context = [];
}

-- `HardState emptyState`
abbrev pub empty_hard_state : HardState
empty_hard_state = record { vote = 0; term = 0; commit = 0 }

unfoldable pub is_local_msg : MessageType → Bool
is_local_msg msg_hup = true
is_local_msg msg_beat = true
is_local_msg msg_unreachable = true
is_local_msg msg_snap_status = true
is_local_msg msg_check_quorum = true
is_local_msg _ = false

unfoldable pub is_response_msg : MessageType → Bool
is_response_msg msg_app_resp = true
is_response_msg msg_vote_resp = true
is_response_msg msg_heartbeat_resp = true
is_response_msg msg_unreachable = true
is_response_msg msg_pre_vote_resp = true
is_response_msg _ = false

unfoldable pub is_hard_state_equal : HardState → HardState → Bool
is_hard_state_equal a b = (a.term == b.term) && (a.vote == b.vote) && (a.commit == b.commit)

unfoldable pub is_empty_hard_state : HardState → Bool
unfolding is_hard_state_equal
is_empty_hard_state a = is_hard_state_equal a empty_hard_state

unfoldable pub is_empty_snap : Snapshot → Bool
is_empty_snap sp = sp.metadata_index == 0
