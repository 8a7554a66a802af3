-- ===== src/Rsm/Offload.antt =====
-- internal/rsm/managedstatemachine.go, OffloadedStatus: which parts of the system still use a data
-- store.
use dragonboat.Prelude.{Bool, true, false, not, ◌&&◌, if◌then◌else◌, Outcome, ok, panic}

pub data From : Type 0 where
  from_node_host from_step_worker from_commit_worker from_snapshot_worker : From

pub record OffloadedStatus : Type 0 where
  pub ready_to_destroy : Bool
  pub destroyed : Bool
  pub offloaded_from_node_host : Bool
  pub offloaded_from_step_worker : Bool
  pub offloaded_from_commit_worker : Bool
  pub offloaded_from_snapshot_worker : Bool
  pub loaded_by_step_worker : Bool
  pub loaded_by_commit_worker : Bool
  pub loaded_by_snapshot_worker : Bool

abbrev pub new_status : OffloadedStatus
new_status = record {
  ready_to_destroy = false;
  destroyed = false;
  offloaded_from_node_host = false;
  offloaded_from_step_worker = false;
  offloaded_from_commit_worker = false;
  offloaded_from_snapshot_worker = false;
  loaded_by_step_worker = false;
  loaded_by_commit_worker = false;
  loaded_by_snapshot_worker = false;
}

unfoldable pub set_destroyed : OffloadedStatus → OffloadedStatus
set_destroyed o = record o { destroyed = true }

unfoldable pub set_loaded : OffloadedStatus → From → Outcome OffloadedStatus
set_loaded o From.from_node_host = panic
set_loaded o From.from_step_worker =
    if o.offloaded_from_node_host then panic else ok (record o { loaded_by_step_worker = true })
set_loaded o From.from_commit_worker =
    if o.offloaded_from_node_host then panic else ok (record o { loaded_by_commit_worker = true })
set_loaded o From.from_snapshot_worker =
    if o.offloaded_from_node_host then panic else ok (record o { loaded_by_snapshot_worker = true })

-- The first part of `SetOffloaded`.
unfoldable pub mark_offloaded : OffloadedStatus → From → OffloadedStatus
mark_offloaded o From.from_node_host = record o {
  offloaded_from_node_host = true;
  offloaded_from_step_worker =
      if not o.loaded_by_step_worker then true else o.offloaded_from_step_worker;
  offloaded_from_commit_worker =
      if not o.loaded_by_commit_worker then true else o.offloaded_from_commit_worker;
  offloaded_from_snapshot_worker =
      if not o.loaded_by_snapshot_worker then true else o.offloaded_from_snapshot_worker;
}
mark_offloaded o From.from_step_worker = record o { offloaded_from_step_worker = true }
mark_offloaded o From.from_commit_worker = record o { offloaded_from_commit_worker = true }
mark_offloaded o From.from_snapshot_worker = record o { offloaded_from_snapshot_worker = true }

unfoldable pub set_offloaded : OffloadedStatus → From → OffloadedStatus
set_offloaded o from =
    let o' = mark_offloaded o from in
    if o'.offloaded_from_node_host && o'.offloaded_from_commit_worker
      && o'.offloaded_from_snapshot_worker && o'.offloaded_from_step_worker
    then record o' { ready_to_destroy = true }
    else o'
