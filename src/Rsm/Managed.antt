-- ===== src/Rsm/Managed.antt =====
-- internal/rsm/managedstatemachine.go: the user's data store with its client sessions.
pub mod Knows
pub mod Evolves
pub mod Destroy
use dragonboat.Prelude.{
  ℕ, Bool, true, false, not, ◌&&◌, Option, none, some, List, ◌==◌, if◌then◌else◌, Outcome, ok,
  panic, ◌>>=◌, ◌>>◌,
}
use dragonboat.Rsm.Session.{
  Session, new_session, get_response, add_response, clear_to, has_responded,
}
use dragonboat.Rsm.Sessions.{
  CacheOps, LruSession, new_lru_session, get_session, add_session, del_session,
}
use dragonboat.Rsm.Offload.{
  From, OffloadedStatus, new_status, set_loaded, set_offloaded, set_destroyed,
}

-- settings.Hard.LRUMaxSessionCount, by default
abbrev pub lru_max_session_count : ℕ
lru_max_session_count = 4096

-- statemachine.IStateMachine, which the user implements. `close` is what is left after a call of Close.
pub record DataStore (D : Type 0) : Type 0 where
  pub update : D → List ℕ → ℕ × D
  pub lookup : D → List ℕ → List ℕ
  pub get_hash : D → ℕ
  pub close : D → D

-- NativeStateMachine, with its embedded SessionManager and OffloadedStatus.
pub record NativeStateMachine (C D : Type 0) : Type 0 where
  pub data_store : D
  pub sessions : LruSession C
  pub status : OffloadedStatus

module _ {C D : Type 0} (ops : CacheOps C) (store : DataStore D) where
  unfoldable pub new_native_state_machine : D → Outcome (NativeStateMachine C D)
  new_native_state_machine data_store = do
    sessions ← new_lru_session ops lru_max_session_count
    ok (record { data_store = data_store; sessions = sessions; status = new_status })

  unfoldable pub offloaded : NativeStateMachine C D → From → NativeStateMachine C D
  offloaded ds from =
      let status = set_offloaded ds.status from in
      if status.ready_to_destroy && not status.destroyed
      then record ds { status = set_destroyed status; data_store = store.close ds.data_store }
      else record ds { status = status }

  unfoldable pub loaded : NativeStateMachine C D → From → Outcome (NativeStateMachine C D)
  loaded ds from = do status ← set_loaded ds.status from; ok (record ds { status = status })

  -- The session of a client, and the check of its id that three methods make.
  unfoldable pub client_registered :
      NativeStateMachine C D → ℕ → Outcome (Option Session × NativeStateMachine C D)
  client_registered ds client_id =
      let (es, sessions) = get_session ops ds.sessions client_id in
      let ds' = record ds { sessions = sessions } in
      elim es [
        | none ↦ ok (none, ds')
        | some s ↦ if not (s.client_id == client_id) then panic else ok (some s, ds')
      ]

  unfoldable pub register_client_id :
      NativeStateMachine C D → ℕ → Outcome (ℕ × NativeStateMachine C D)
  register_client_id ds client_id = do
    (es, ds') ← client_registered ds client_id
    elim es [
      | some s ↦ ok (0, ds')
      | none ↦ ok (
        client_id,
        record ds' { sessions = add_session ops ds'.sessions client_id (new_session client_id) },
      )
    ]

  unfoldable pub unregister_client_id :
      NativeStateMachine C D → ℕ → Outcome (ℕ × NativeStateMachine C D)
  unregister_client_id ds client_id = do
    (es, ds') ← client_registered ds client_id
    elim es [
      | none ↦ ok (0, ds')
      | some s ↦ ok (client_id, record ds' { sessions = del_session ops ds'.sessions client_id })
    ]

  -- A write to the session behind a pointer that `client_registered` has answered: the key of its
  -- cache entry is its client id.
  unfoldable pub assign_session : NativeStateMachine C D → Session → NativeStateMachine C D
  assign_session ds s = record ds {
    sessions = record ds.sessions { sessions = ops.assign ds.sessions.sessions s.client_id s };
  }

  unfoldable pub update_responded_to :
      NativeStateMachine C D → Session → ℕ → Session × NativeStateMachine C D
  update_responded_to ds s responded_to =
      let s' = clear_to s responded_to in (s', assign_session ds s')

  -- The result, whether the client has got it before, and whether the update is still to be made.
  unfoldable pub update_required : Session → ℕ → ℕ × Bool × Bool
  update_required s series_id =
      if has_responded s series_id
      then (0, true, false)
      else elim (get_response s series_id) [ some v ↦ (v, false, false) | none ↦ (0, false, true) ]

  unfoldable pub update :
      NativeStateMachine C D → Option Session → ℕ → List ℕ → Outcome (ℕ × NativeStateMachine C D)
  update ds none series_id cmd =
      let (v, d) = store.update ds.data_store cmd in ok (v, record ds { data_store = d })
  update ds (some s) series_id cmd = elim (get_response s series_id) [
    | some _ ↦ panic
    | none ↦ do
      let (v, d) = store.update ds.data_store cmd
      s' ← add_response s series_id v
      ok (v, assign_session (record ds { data_store = d }) s')
  ]

  -- `none` when the data store is closed: the error ErrClusterClosed.
  unfoldable pub lookup : NativeStateMachine C D → List ℕ → Option (List ℕ)
  lookup ds query = if ds.status.destroyed then none else some (store.lookup ds.data_store query)
