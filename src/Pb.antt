-- ===== src/Pb.antt =====
-- The data that raft nodes exchange and persist: raftpb/raft.proto as the generated
-- raftpb/raft.pb.go declares it, and the hand-written types and tests of raftpb/raft.go.
-- A file path is not modelled beside its length-free name, and a snapshot's external files are left
-- out: raft never looks at either.
use dragonboat.Prelude.{
  ℕ, ◌+◌, ◌-◌, ◌*◌, ◌^◌, Bool, true, false, not, ◌&&◌, Option, none, some, List, [], ◌==◌, length,
  last?, Map, if◌then◌else◌,
}

pub data MessageType : Type 0 where
  local_tick election leader_heartbeat config_change_event no_op ping pong propose : MessageType
  snapshot_status unreachable check_quorum batched_read_index replicate replicate_resp : MessageType
  request_vote request_vote_resp install_snapshot heartbeat heartbeat_resp read_index : MessageType
  read_index_resp quiesce snapshot_received leader_transfer timeout_now : MessageType

pub data EntryType : Type 0 where
  application_entry config_change_entry : EntryType

-- `raftpb.State`, the state that must be on disk before messages leave.
pub record State : Type 0 where
  pub term : ℕ
  pub vote : ℕ
  pub commit : ℕ

abbrev pub empty_state : State
empty_state = record { term = 0; vote = 0; commit = 0 }

pub record Entry : Type 0 where
  pub term : ℕ
  pub index : ℕ
  pub type : EntryType
  pub key : ℕ
  pub client_id : ℕ
  pub series_id : ℕ
  pub responded_to : ℕ
  pub cmd : List ℕ

-- Go's `pb.Entry{}`
abbrev pub empty_entry : Entry
empty_entry = record {
  term = 0;
  index = 0;
  type = EntryType.application_entry;
  key = 0;
  client_id = 0;
  series_id = 0;
  responded_to = 0;
  cmd = [];
}

abbrev pub entry_or_empty : Option Entry → Entry
entry_or_empty none = empty_entry
entry_or_empty (some e) = e

-- `es[len(es)-1]`, or the empty entry where there is none.
abbrev pub last_entry : List Entry → Entry
last_entry es = entry_or_empty (last? es)

-- The values of the address maps are host names, read as lists of bytes.
pub record Membership : Type 0 where
  pub config_change_id : ℕ
  pub addresses : Map (List ℕ)
  pub removed : Map Bool
  pub observers : Map (List ℕ)

pub record Snapshot : Type 0 where
  pub file_size : ℕ
  pub index : ℕ
  pub term : ℕ
  pub membership : Membership

abbrev pub empty_snapshot : Snapshot
empty_snapshot = record {
  file_size = 0;
  index = 0;
  term = 0;
  membership = record { config_change_id = 0; addresses = []; removed = []; observers = [] };
}

pub record Message : Type 0 where
  pub type : MessageType
  pub to : ℕ
  pub from : ℕ
  pub cluster_id : ℕ
  pub term : ℕ
  pub log_term : ℕ
  pub log_index : ℕ
  pub commit : ℕ
  pub reject : Bool
  pub hint : ℕ
  pub entries : List Entry
  pub snapshot : Snapshot
  pub hint_high : ℕ

-- `pb.Message{Type: t}`
abbrev pub message : MessageType → Message
message t = record {
  type = t;
  to = 0;
  from = 0;
  cluster_id = 0;
  term = 0;
  log_term = 0;
  log_index = 0;
  commit = 0;
  reject = false;
  hint = 0;
  entries = [];
  snapshot = empty_snapshot;
  hint_high = 0;
}

pub record SystemCtx : Type 0 where
  pub low : ℕ
  pub high : ℕ

abbrev pub ctx_eq : SystemCtx → SystemCtx → Bool
ctx_eq a b = (a.low == b.low) && (a.high == b.high)

pub record ReadyToRead : Type 0 where
  pub index : ℕ
  pub system_ctx : SystemCtx

pub record UpdateCommit : Type 0 where
  pub applied_to : ℕ
  pub stable_log_to : ℕ
  pub stable_log_term : ℕ
  pub stable_snapshot_to : ℕ
  pub ready_to_read : ℕ

abbrev pub is_state_equal : State → State → Bool
is_state_equal a b = (a.term == b.term) && (a.vote == b.vote) && (a.commit == b.commit)

abbrev pub is_empty_state : State → Bool
is_empty_state st = is_state_equal st empty_state

abbrev pub is_empty_snapshot : Snapshot → Bool
is_empty_snapshot s = s.index == 0

-- A snapshot that is there and not empty.
abbrev pub is_some_snapshot : Option Snapshot → Bool
is_some_snapshot none = false
is_some_snapshot (some ss) = not (is_empty_snapshot ss)

-- Entry.IsConfigChange
abbrev pub is_config_change : Entry → Bool
is_config_change e = elim e.type [
  | EntryType.config_change_entry ↦ true
  | EntryType.application_entry ↦ false
]

-- Entry.IsSessionManaged; client.NotSessionManagedClientID is 0.
abbrev pub is_session_managed : Entry → Bool
is_session_managed e = if is_config_change e then false else not (e.client_id == 0)

-- Entry.IsEmpty
abbrev pub is_empty : Entry → Bool
is_empty e =
    if is_config_change e then false else if is_session_managed e then false else length e.cmd == 0

-- Entry.IsNoOPSession; client.NoOPSeriesID is 0.
abbrev pub is_no_op_session : Entry → Bool
is_no_op_session e = e.series_id == 0

-- client.SeriesIDForRegister and SeriesIDForUnregister
abbrev pub series_id_for_register : ℕ
series_id_for_register = 2 ^ 64 - 2

abbrev pub series_id_for_unregister : ℕ
series_id_for_unregister = 2 ^ 64 - 1

-- Entry.IsNewSessionRequest
abbrev pub is_new_session_request : Entry → Bool
is_new_session_request e =
    not (is_config_change e)
    && (length e.cmd == 0)
    && not (e.client_id == 0)
    && (e.series_id == series_id_for_register)

-- Entry.IsEndOfSessionRequest
abbrev pub is_end_of_session_request : Entry → Bool
is_end_of_session_request e =
    not (is_config_change e)
    && (length e.cmd == 0)
    && not (e.client_id == 0)
    && (e.series_id == series_id_for_unregister)

-- Entry.IsUpdateEntry
abbrev pub is_update_entry : Entry → Bool
is_update_entry e =
    not (is_config_change e)
    && is_session_managed e
    && not (is_new_session_request e)
    && not (is_end_of_session_request e)

-- Entry.SizeUpperLimit
abbrev pub size_upper_limit : Entry → ℕ
size_upper_limit e = 16 * 7 + 16 + length e.cmd

pub data ConfigChangeType : Type 0 where
  add_node remove_node add_observer : ConfigChangeType

pub record ConfigChange : Type 0 where
  pub config_change_id : ℕ
  pub type : ConfigChangeType
  pub node_id : ℕ
  pub address : List ℕ
  pub initialize : Bool

-- What the layers above raft have to process; its `state` is the embedded `State`.
pub record Update : Type 0 where
  pub cluster_id : ℕ
  pub node_id : ℕ
  pub state : State
  pub entries_to_save : List Entry
  pub committed_entries : List Entry
  pub more_committed_entries : Bool
  pub snapshot : Snapshot
  pub ready_to_reads : List ReadyToRead
  pub messages : List Message
  pub last_applied : ℕ
  pub update_commit : UpdateCommit
