-- ===== src/Raft/Node.antt =====
-- internal/raft/raft.go: the state of a raft node, and its plain reads and writes.
-- The nested calls `r.Handle` and the handler table are in `Step`. Log messages are not modelled, nor
-- is the test hook `hasNotAppliedConfigChange`, which is nil outside tests.
use dragonboat.Prelude.{
  ℕ, ◌+◌, ◌/◌, ◌%◌, Bool, true, false, not, ◌&&◌, ◌||◌, Option, none, some, List, [], ◌∷◌, ◌++◌,
  ltb, leb, ◌==◌, ◌!=◌, if◌then◌else◌, add64, length, Map, has_key, put, delete, Outcome, ok, panic,
  ◌>>◌, panic_if,
}
use dragonboat.Pb.{Message, ReadyToRead, SystemCtx}
use dragonboat.Pb
use dragonboat.Raft.Remote
use dragonboat.Raft.Remote.{Remote, fresh}
use dragonboat.Raft.EntryLog
use dragonboat.Raft.EntryLog.{EntryLog}
use dragonboat.Raft.ReadIndex.{ReadIndex}

-- NoLeader and NoNode
abbrev pub no_leader : ℕ
no_leader = 0

abbrev pub no_node : ℕ
no_node = 0

pub data State : Type 0 where
  follower candidate leader observer : State

-- `random_source n` is the value of the n-th call of the random number generator, `draws` the number
-- of calls made; `recorded_leader` is what the callback `recordLeader` was last told, once it is set.
pub record Raft : Type 0 where
  pub applied : ℕ
  pub node_id : ℕ
  pub cluster_id : ℕ
  pub term : ℕ
  pub vote : ℕ
  pub log : EntryLog
  pub remotes : Map Remote
  pub observers : Map Remote
  pub state : State
  pub votes : Map Bool
  pub msgs : List Message
  pub leader_id : ℕ
  pub leader_transfer_target : ℕ
  pub is_leader_transfer_target : Bool
  pub pending_config_change : Bool
  pub read_index : ReadIndex
  pub ready_to_read : List ReadyToRead
  pub check_quorum : Bool
  pub tick_count : ℕ
  pub election_tick : ℕ
  pub heartbeat_tick : ℕ
  pub heartbeat_timeout : ℕ
  pub election_timeout : ℕ
  pub randomized_election_timeout : ℕ
  pub matched : List ℕ
  pub recorded_leader : Option ℕ
  pub random_source : ℕ → ℕ
  pub draws : ℕ

abbrev pub is_leader : Raft → Bool
is_leader r = elim r.state [ State.leader ↦ true | _ ↦ false ]

abbrev pub is_observer : Raft → Bool
is_observer r = elim r.state [ State.observer ↦ true | _ ↦ false ]

abbrev pub zeros {ℓ} : {A : Type ℓ} → List A → List ℕ
zeros [] = []
zeros (x ∷ xs) = 0 ∷ zeros xs

-- `make([]uint64, len(r.remotes))`
unfoldable pub reset_match_value_array : Raft → Raft
reset_match_value_array r = record r { matched = zeros r.remotes }

unfoldable pub set_leader_id : Raft → ℕ → Raft
set_leader_id r leader_id = record r {
  leader_id = leader_id;
  recorded_leader = elim r.recorded_leader [ none ↦ none | some _ ↦ some leader_id ];
}

unfoldable pub leader_transfering : Raft → Bool
leader_transfering r = (r.leader_transfer_target != no_node) && is_leader r

unfoldable pub abort_leader_transfer : Raft → Raft
abort_leader_transfer r = record r { leader_transfer_target = no_node }

unfoldable pub quorum : Raft → ℕ
quorum r = length r.remotes / 2 + 1

unfoldable pub is_single_node_quorum : Raft → Bool
unfolding quorum
is_single_node_quorum r = quorum r == 1

-- The loop of `leaderHasQuorum` over the remotes: how many count, and the remotes set not active.
unfoldable pub count_active : ℕ → Map Remote → ℕ × Map Remote
count_active node_id [] = (0, [])
count_active node_id ((nid, rp) ∷ rest) =
    let (c, rest') = count_active node_id rest in
    if (nid == node_id) || rp.active
    then (c + 1, (nid, Remote.set_not_active rp) ∷ rest')
    else (c, (nid, rp) ∷ rest')

unfoldable pub leader_has_quorum : Raft → Raft × Bool
leader_has_quorum r =
    let (c, remotes) = count_active r.node_id r.remotes in
    (record r { remotes = remotes }, leb (quorum r) c)

unfoldable pub raft_state : Raft → Pb.State
raft_state r = record { term = r.term; vote = r.vote; commit = r.log.committed }

unfoldable pub load_state : Raft → Pb.State → Outcome Raft
load_state r st =
    if ltb st.commit r.log.committed || ltb (EntryLog.last_index r.log) st.commit
    then panic
    else ok (record r {
      log = record (r.log) { committed = st.commit };
      term = st.term;
      vote = st.vote;
    })

unfoldable pub time_for_election : Raft → Bool
time_for_election r = leb r.randomized_election_timeout r.election_tick

unfoldable pub time_for_heartbeat : Raft → Bool
time_for_heartbeat r = leb r.heartbeat_timeout r.heartbeat_tick

unfoldable pub time_for_check_quorum : Raft → Bool
time_for_check_quorum r = leb r.election_timeout r.election_tick

unfoldable pub time_to_abort_leader_transfer : Raft → Bool
unfolding leader_transfering
time_to_abort_leader_transfer r = leader_transfering r && leb r.election_timeout r.election_tick

-- `% r.electionTimeout` panics at 0.
unfoldable pub set_randomized_election_timeout : Raft → Outcome Raft
set_randomized_election_timeout r = do
  panic_if (r.election_timeout == 0)
  let rand_time = r.random_source r.draws % r.election_timeout
  ok (record r {
    randomized_election_timeout = add64 r.election_timeout rand_time;
    draws = r.draws + 1;
  })

unfoldable pub self_removed : Raft → Bool
self_removed r =
    if is_observer r then not (has_key r.observers r.node_id) else not (has_key r.remotes r.node_id)

unfoldable pub set_remote : Raft → ℕ → ℕ → ℕ → Raft
unfolding reset_match_value_array
set_remote r node_id match next =
    reset_match_value_array (record r { remotes = put r.remotes node_id (fresh match next) })

unfoldable pub set_observer : Raft → ℕ → ℕ → ℕ → Raft
set_observer r node_id match next = record r {
  observers = put r.observers node_id (fresh match next);
}

unfoldable pub delete_remote : Raft → ℕ → Raft
unfolding reset_match_value_array
delete_remote r node_id = reset_match_value_array (record r { remotes = delete r.remotes node_id })

unfoldable pub delete_observer : Raft → ℕ → Raft
delete_observer r node_id = record r { observers = delete r.observers node_id }

unfoldable pub add_ready_to_read : Raft → ℕ → SystemCtx → Raft
add_ready_to_read r index ctx = record r {
  ready_to_read = r.ready_to_read ++ (record { index = index; system_ctx = ctx } ∷ []);
}

unfoldable pub has_config_change_to_apply : Raft → Bool
has_config_change_to_apply r = ltb r.applied r.log.committed
