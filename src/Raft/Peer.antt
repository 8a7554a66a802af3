-- ===== src/Raft/Peer.antt =====
-- internal/raft/peer.go, the interface of a raft node for the layers above, and `newRaft` of
-- internal/raft/raft.go.
-- `leaderID` of a Peer is what the callback `recordLeader` stores: the field `recorded_leader` of the
-- raft node. A byte string, such as an address, is a list of numbers. The generated `Marshal` of a
-- configuration change is a parameter, `none` where it returns an error.
-- `Update` has the rest of the interface, `Commit` how its operations fit together.
pub mod Update
pub mod Commit
pub mod Runs
use dragonboat.Prelude.{
  ℕ, ◌+◌, ◌*◌, ◌%◌, ◌^◌, Bool, true, false, not, ◌&&◌, ◌||◌, Option, none, some, List, [], ◌∷◌, ltb,
  leb, ◌==◌, if◌then◌else◌, add64, length, Map, has_key, keys, Outcome, ok, panic, ◌>>=◌, ◌>>◌,
  panic_if,
}
use dragonboat.Pb
use dragonboat.Pb.{
  Message, MessageType, message, Entry, EntryType, empty_entry, Snapshot, SystemCtx, ConfigChange,
  ConfigChangeType, is_empty_state, empty_state,
}
use dragonboat.Raft.EntryUtils.{is_local_message_type, is_response_message_type}
use dragonboat.Raft.Remote.{Remote, fresh}
use dragonboat.Raft.EntryLog
use dragonboat.Raft.EntryLog.{LogDb, new_entry_log}
use dragonboat.Raft.ReadIndex.{new_read_index}
use dragonboat.Raft.Node.{Raft, State, no_leader, load_state, raft_state, reset_match_value_array}
use dragonboat.Raft.Transition.{become_follower, become_observer}
use dragonboat.Raft.Members.{
  clear_pending_config_change, add_node, add_observer, remove_node, restore_remotes,
}
use dragonboat.Raft.Step
use dragonboat.Raft.Step.{handle_message}

-- The fields of config.Config that raft reads.
pub record Config : Type 0 where
  pub node_id : ℕ
  pub cluster_id : ℕ
  pub check_quorum : Bool
  pub election_rtt : ℕ
  pub heartbeat_rtt : ℕ
  pub is_observer : Bool

-- Config.Validate, of which only whether it returns an error matters here.
unfoldable pub validate : Config → Bool
validate c =
    not (c.node_id == 0)
    && not (c.heartbeat_rtt == 0)
    && not (c.election_rtt == 0)
    && ltb (2 * c.heartbeat_rtt % 2 ^ 64) c.election_rtt

abbrev pub fresh_remotes : List ℕ → Map Remote
fresh_remotes [] = []
fresh_remotes (id ∷ ids) = (id, fresh 0 1) ∷ fresh_remotes ids

-- The node that `newRaft` allocates, with its members.
abbrev pub initial_raft : Config → LogDb → (ℕ → ℕ) → Raft
initial_raft c logdb random_source = record {
  applied = 0;
  node_id = c.node_id;
  cluster_id = c.cluster_id;
  term = 0;
  vote = 0;
  log = new_entry_log logdb;
  remotes = fresh_remotes (keys logdb.node_state.1.addresses);
  observers = fresh_remotes (keys logdb.node_state.1.observers);
  state = State.follower;
  votes = [];
  msgs = [];
  leader_id = no_leader;
  leader_transfer_target = 0;
  is_leader_transfer_target = false;
  pending_config_change = false;
  read_index = new_read_index;
  ready_to_read = [];
  check_quorum = c.check_quorum;
  tick_count = 0;
  election_tick = 0;
  heartbeat_tick = 0;
  heartbeat_timeout = c.heartbeat_rtt;
  election_timeout = c.election_rtt;
  randomized_election_timeout = 0;
  matched = [];
  recorded_leader = none;
  random_source = random_source;
  draws = 0;
}

unfoldable pub new_raft : Config → LogDb → (ℕ → ℕ) → Outcome Raft
new_raft c logdb random_source = do
  panic_if (not (validate c))
  let r0 : Raft = reset_match_value_array (initial_raft c logdb random_source)
  let st = logdb.node_state.0
  r1 ← if not (is_empty_state st) then load_state r0 st else ok r0
  if c.is_observer
      then become_observer (record r1 { state = State.observer }) r1.term no_leader
      else become_follower r1 r1.term no_leader

pub record Peer : Type 0 where
  pub raft : Raft
  pub prev_state : Pb.State

pub record PeerAddress : Type 0 where
  pub node_id : ℕ
  pub address : List ℕ

abbrev pub same_bytes : List ℕ → List ℕ → Bool
same_bytes [] [] = true
same_bytes [] (_ ∷ _) = false
same_bytes (_ ∷ _) [] = false
same_bytes (x ∷ xs) (y ∷ ys) = let rest = same_bytes xs ys in (x == y) && rest

-- Whether another address of the list has the same bytes.
abbrev pub is_listed : List ℕ → List PeerAddress → Bool
is_listed a [] = false
is_listed a (p ∷ ps) = let rest = is_listed a ps in same_bytes a p.address || rest

abbrev pub has_duplicate : List PeerAddress → Bool
has_duplicate [] = false
has_duplicate (p ∷ ps) = let rest = has_duplicate ps in is_listed p.address ps || rest

-- `sort.Slice` by node id, as insertion sort.
abbrev pub insert_address : PeerAddress → List PeerAddress → List PeerAddress
insert_address p [] = p ∷ []
insert_address p (q ∷ qs) =
    let rest = insert_address p qs in if leb p.node_id q.node_id then p ∷ q ∷ qs else q ∷ rest

abbrev pub sort_addresses : List PeerAddress → List PeerAddress
sort_addresses [] = []
sort_addresses (p ∷ ps) = insert_address p (sort_addresses ps)

abbrev pub add_nodes : List PeerAddress → Raft → Outcome Raft
add_nodes [] r = ok r
add_nodes (p ∷ ps) r = do r' ← add_node r p.node_id; add_nodes ps r'

abbrev pub must_marshal : Option (List ℕ) → Outcome (List ℕ)
must_marshal (some bytes) = ok bytes
must_marshal none = panic

-- The raft node behind a call of the Peer.
abbrev pub with_raft : Peer → Outcome Raft → Outcome Peer
with_raft p m = m >>= λ r. ok (record p { raft = r })

module _ (marshal : ConfigChange → Option (List ℕ)) where
  -- The bootstrap entries, which add the members one by one from index `index` on.
  unfoldable pub bootstrap_entries : ℕ → List PeerAddress → Outcome (List Entry)
  bootstrap_entries index [] = ok []
  bootstrap_entries index (p ∷ ps) = do
    bytes ← must_marshal (
        marshal (record {
          config_change_id = 0;
          type = ConfigChangeType.add_node;
          node_id = p.node_id;
          address = p.address;
          initialize = true;
        }))
    rest ← bootstrap_entries (index + 1) ps
    ok (
        record empty_entry {
          type = EntryType.config_change_entry;
          term = 1;
          index = index;
          cmd = bytes;
        }
        ∷ rest)

  unfoldable pub bootstrap : Raft → List PeerAddress → Outcome Raft
  bootstrap r addresses = do
    let sorted = sort_addresses addresses
    ents ← bootstrap_entries 1 sorted
    log ← EntryLog.append r.log ents
    add_nodes sorted (record r { log = record log { committed = length ents } })

  unfoldable pub launch_peer :
      Config → LogDb → (ℕ → ℕ) → List PeerAddress → Bool → Bool → Outcome Peer
  launch_peer c logdb random_source addresses initial new_node = do
    panic_if (c.node_id == 0)
    panic_if (initial && new_node && (length addresses == 0))
    panic_if (has_duplicate addresses)
    r0 ← new_raft c logdb random_source
    let r1 : Raft = record r0 { recorded_leader = some 0 }
    r2 ← if new_node && not c.is_observer then become_follower r1 1 no_leader else ok r1
    r3 ← if initial && new_node then bootstrap r2 addresses else ok r2
    ok (record {
      raft = r3;
      prev_state = if logdb.get_range.1 == 0 then empty_state else raft_state r3;
    })

  unfoldable pub propose_config_change : Peer → ConfigChange → ℕ → Outcome Peer
  propose_config_change p cc key = do
    bytes ← must_marshal (marshal cc)
    with_raft p (
        handle_message p.raft (record (message MessageType.propose) {
          entries =
              record empty_entry { type = EntryType.config_change_entry; cmd = bytes; key = key }
              ∷ [];
        }))

unfoldable pub tick : Peer → Outcome Peer
tick p = with_raft p (Step.tick p.raft)

-- `quiescedTick`
unfoldable pub quiesced_tick : Peer → Peer
quiesced_tick p = record p {
  raft = record (p.raft) { election_tick = add64 p.raft.election_tick 1 };
}

unfoldable pub request_leader_transfer : Peer → ℕ → Outcome Peer
request_leader_transfer p target = with_raft p (
    handle_message p.raft (record (message MessageType.leader_transfer) {
      to = p.raft.node_id;
      from = target;
      hint = target;
    }))

unfoldable pub propose_entries : Peer → List Entry → Outcome Peer
propose_entries p ents = with_raft p (
    handle_message p.raft
      (record (message MessageType.propose) { from = p.raft.node_id; entries = ents }))

unfoldable pub campaign : Peer → Outcome Peer
campaign p = with_raft p (handle_message p.raft (message MessageType.election))

unfoldable pub apply_config_change : Peer → ConfigChange → Outcome Peer
apply_config_change p cc =
    if cc.node_id == no_leader
    then ok (record p { raft = clear_pending_config_change p.raft })
    else with_raft p (elim cc.type [
      | ConfigChangeType.add_node ↦ add_node p.raft cc.node_id
      | ConfigChangeType.remove_node ↦ remove_node p.raft cc.node_id
      | ConfigChangeType.add_observer ↦ ok (add_observer p.raft cc.node_id)
    ])

unfoldable pub reject_config_change : Peer → Peer
reject_config_change p = record p { raft = clear_pending_config_change p.raft }

unfoldable pub restore_peer : Peer → Snapshot → Outcome Peer
restore_peer p ss = with_raft p (restore_remotes p.raft ss)

unfoldable pub report_unreachable_node : Peer → ℕ → Outcome Peer
report_unreachable_node p node_id =
    with_raft p
      (handle_message p.raft (record (message MessageType.unreachable) { from = node_id }))

unfoldable pub report_snapshot_status : Peer → ℕ → Bool → Outcome Peer
report_snapshot_status p node_id reject = with_raft p (
    handle_message p.raft
      (record (message MessageType.snapshot_status) { from = node_id; reject = reject }))

unfoldable pub handle : Peer → Message → Outcome Peer
handle p m = do
  panic_if (is_local_message_type m.type)
  if has_key p.raft.remotes m.from
        || has_key p.raft.observers m.from
        || not (is_response_message_type m.type)
      then with_raft p (handle_message p.raft m)
      else ok p

unfoldable pub read_index : Peer → SystemCtx → Outcome Peer
read_index p ctx = with_raft p (
    handle_message p.raft
      (record (message MessageType.read_index) { hint = ctx.low; hint_high = ctx.high }))

unfoldable pub notify_raft_last_applied : Peer → ℕ → Peer
notify_raft_last_applied p last_applied = record p {
  raft = record (p.raft) { applied = last_applied };
}

unfoldable pub get_leader_id : Peer → ℕ
get_leader_id p = elim p.raft.recorded_leader [ none ↦ 0 | some id ↦ id ]
