-- ===== src/Rsm/Managed/Destroy.antt =====
-- internal/rsm/managedstatemachine.go: a data store is closed when nothing uses it any more.
use dragonboat.Prelude.{◌≡◌, refl, Bool, true, not, ◌&&◌, ◌||◌, arith, if◌then◌else◌, Ensures}
use dragonboat.Rsm.Offload.{
  From, OffloadedStatus, new_status, set_loaded, set_offloaded, mark_offloaded, set_destroyed,
}
use dragonboat.Rsm.Sessions.{CacheOps}
use dragonboat.Rsm.Managed.{DataStore, NativeStateMachine, offloaded}

-- A component that loaded the data store and has not offloaded it.
abbrev pub in_use : OffloadedStatus → Bool
in_use o =
    (o.loaded_by_step_worker && not o.offloaded_from_step_worker)
    || (o.loaded_by_commit_worker && not o.offloaded_from_commit_worker)
    || (o.loaded_by_snapshot_worker && not o.offloaded_from_snapshot_worker)

pub record IsValid (o : OffloadedStatus) : Type 0 where
  -- Ready exactly when the node host has let go and no worker is left.
  pub ready : o.ready_to_destroy ≡ (o.offloaded_from_node_host && not (in_use o))
  -- Behind the node host, a worker that never came counts as gone.
  pub gone :
      o.offloaded_from_node_host ≡ true
      → (o.loaded_by_step_worker || o.offloaded_from_step_worker ≡ true)
        × (o.loaded_by_commit_worker || o.offloaded_from_commit_worker ≡ true)
        × (o.loaded_by_snapshot_worker || o.offloaded_from_snapshot_worker ≡ true)

pub set_offloaded-IsValid :
    (o : OffloadedStatus) (from : From) → IsValid o → IsValid (set_offloaded o from)
unfolding set_offloaded mark_offloaded
set_offloaded-IsValid o From.from_node_host v = record {
  ready = ground (arith, v.ready, v.gone);
  gone = ground (arith, v.ready, v.gone);
}
set_offloaded-IsValid o from v = record {
  ready = ground (arith, v.ready, v.gone);
  gone = ground (arith, v.ready, v.gone);
}

set_offloaded-destroyed :
    (o : OffloadedStatus) (from : From) → (set_offloaded o from).destroyed ≡ o.destroyed
unfolding set_offloaded mark_offloaded
set_offloaded-destroyed o From.from_node_host = ground arith
set_offloaded-destroyed o from = ground arith

pub set_loaded-IsValid :
    (o : OffloadedStatus) (from : From) → IsValid o → Ensures IsValid (set_loaded o from)
unfolding set_loaded
set_loaded-IsValid o from v = record {
  at = λ o' h. record {
    ready = ground (arith, v.ready, v.gone);
    gone = ground (arith, v.ready, v.gone);
  };
}

pub new_status-IsValid : IsValid new_status
new_status-IsValid = record { ready = refl; gone = λ h. cc }

module _ {C D : Type 0} (ops : CacheOps C) (store : DataStore D) where
  -- The data store is closed by the call after which the node host has let go of it and no worker
  -- that loaded it still uses it, and by no call after that one.
  pub offloaded_lem :
      (ds : NativeStateMachine C D) (from : From)
      → IsValid ds.status
      → let ds' = offloaded ops store ds from in
        let unused = ds'.status.offloaded_from_node_host && not (in_use ds'.status) in
        IsValid ds'.status
        × (ds'.data_store ≡ (
            if unused && not ds.status.destroyed then store.close ds.data_store else ds.data_store))
        × (ds'.status.destroyed ≡ (ds.status.destroyed || unused))
        × (ds'.sessions ≡ ds.sessions)
  unfolding offloaded set_destroyed
  offloaded_lem ds from v =
      let w = set_offloaded-IsValid ds.status from v in
      let kept : (set_offloaded ds.status from).destroyed ≡ ds.status.destroyed =
        set_offloaded-destroyed ds.status from in
      (
        record { ready = ground (arith, w.ready, w.gone); gone = ground (arith, w.ready, w.gone) },
        ground (arith, w.ready, kept),
        ground (arith, w.ready, kept),
        ground arith,
      )
