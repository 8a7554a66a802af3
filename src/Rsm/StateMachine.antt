-- ===== src/Rsm/StateMachine.antt =====
-- internal/rsm/statemachine.go: the state of a replicated state machine, and what it calls.
use dragonboat.Prelude.{
  ℕ, ◌/◌, Bool, false, not, Option, List, [], ◌∷◌, ◌++◌, ltb, ◌==◌, add64, length, Outcome, ok,
  ◌>>◌, panic_if,
}
use dragonboat.Pb.{Entry, Snapshot, Membership, ConfigChange}
use dragonboat.Rsm.Sessions.{CacheOps}
use dragonboat.Rsm.Managed.{DataStore, NativeStateMachine}

pub record Commit : Type 0 where
  pub index : ℕ
  pub snapshot_available : Bool
  pub initial_snapshot : Bool
  pub snapshot_requested : Bool
  pub entries : List Entry

abbrev pub empty_commit : Commit
empty_commit = record {
  index = 0;
  snapshot_available = false;
  initial_snapshot = false;
  snapshot_requested = false;
  entries = [];
}

-- The calls of INodeProxy that change the node.
pub data NodeCall : Type 0 where
  restore_remotes : Snapshot → NodeCall
  apply_update : (ent : Entry) (result : ℕ) (rejected ignored notify_read_client : Bool) → NodeCall
  apply_config_change : ConfigChange → NodeCall
  config_change_processed : (key : ℕ) (accepted : Bool) → NodeCall

-- What RecoverFromSnapshot of the managed state machine answers.
pub data Recovery : Type 0 where
  recovered stopped broken : Recovery

-- What the state machine uses and does not implement: the cache of sessions, the user's data store,
-- the decoding of a configuration change (`none` is an error), the list of the snapshots that are on
-- disk (`none` is an error), the check of a snapshot's files, the recovery of sessions and data store
-- from a snapshot file, and the writing of one (`none` is an error).
pub record Env (C D : Type 0) : Type 0 where
  pub ops : CacheOps C
  pub store : DataStore D
  pub unmarshal : List ℕ → Option ConfigChange
  pub list_snapshots : Option (List Snapshot)
  pub validate : Snapshot → Outcome Bool
  pub recover_from_snapshot : NativeStateMachine C D → Snapshot → Recovery × NativeStateMachine C D
  pub save : (index term : ℕ) → NativeStateMachine C D → Option Snapshot
  pub batched_entry_apply : Bool

-- `calls` are the calls of the node so far, the last at the end; `commit_c` is what the channel holds.
pub record StateMachine (C D : Type 0) : Type 0 where
  pub sm : NativeStateMachine C D
  pub last_applied : ℕ
  pub last_applied_term : ℕ
  pub last_snapshot_index : ℕ
  pub members : Membership
  pub ordered : Bool
  pub commit_c : List Commit
  pub aborted : Bool
  pub batched_last_applied : ℕ
  pub calls : List NodeCall

module _ {C D : Type 0} where
  abbrev pub new_state_machine : NativeStateMachine C D → Bool → StateMachine C D
  new_state_machine sm ordered = record {
    sm = sm;
    last_applied = 0;
    last_applied_term = 0;
    last_snapshot_index = 0;
    members = record { config_change_id = 0; addresses = []; removed = []; observers = [] };
    ordered = ordered;
    commit_c = [];
    aborted = false;
    batched_last_applied = 0;
    calls = [];
  }

  -- settings.Soft.NodeCommitChanLength is 1024.
  unfoldable pub commit_chan_busy : StateMachine C D → Bool
  commit_chan_busy s = ltb (1024 / 2) (length s.commit_c)

  unfoldable pub set_batched_last_applied : StateMachine C D → ℕ → StateMachine C D
  set_batched_last_applied s index = record s { batched_last_applied = index }

  unfoldable pub call_node : StateMachine C D → NodeCall → StateMachine C D
  call_node s c = record s { calls = s.calls ++ (c ∷ []) }

  unfoldable pub update_last_applied : StateMachine C D → ℕ → ℕ → Outcome (StateMachine C D)
  update_last_applied s last_applied term = do
    panic_if (not (add64 s.last_applied 1 == last_applied))
    panic_if (last_applied == 0)
    panic_if (term == 0)
    panic_if (ltb term s.last_applied_term)
    ok (record s { last_applied = last_applied; last_applied_term = term })
