-- ===== src/Raft/Members.antt =====
-- internal/raft/raft.go: the membership of the cluster, and a snapshot in place of the log.
use dragonboat.Prelude.{
  ℕ, Bool, true, false, not, ◌&&◌, none, some, List, [], ◌∷◌, ltb, leb, ◌==◌, if◌then◌else◌, add64,
  sub64, length, get, has_key, put, keys, Outcome, ok, ◌>>=◌, ◌>>◌, panic_if,
}
use dragonboat.Pb.{Snapshot}
use dragonboat.Raft.EntryLog
use dragonboat.Raft.Node.{
  Raft, is_observer, set_remote, set_observer, delete_remote, delete_observer, leader_transfering,
  abort_leader_transfer, reset_match_value_array,
}
use dragonboat.Raft.Send.{broadcast_replicate_message}
use dragonboat.Raft.Replication.{try_commit}
use dragonboat.Raft.Transition.{become_follower}

abbrev pub clear_pending_config_change : Raft → Raft
clear_pending_config_change r = record r { pending_config_change = false }

unfoldable pub add_node : Raft → ℕ → Outcome Raft
add_node r0 node_id =
    let r : Raft = clear_pending_config_change r0 in
    if has_key r.remotes node_id then ok r else elim (get r.observers node_id) [
      | some rp ↦
          let r1 : Raft = delete_observer r node_id in
          let r2 : Raft = record r1 { remotes = put r1.remotes node_id rp } in
          if node_id == r2.node_id then become_follower r2 r2.term r2.leader_id else ok r2
      | none ↦ ok (set_remote r node_id 0 (add64 (EntryLog.last_index r.log) 1))
    ]

unfoldable pub add_observer : Raft → ℕ → Raft
add_observer r0 node_id =
    let r : Raft = clear_pending_config_change r0 in
    if has_key r.observers node_id
    then r
    else set_observer r node_id 0 (add64 (EntryLog.last_index r.log) 1)

unfoldable pub remove_node : Raft → ℕ → Outcome Raft
remove_node r node_id =
    let r1 : Raft =
      clear_pending_config_change (delete_observer (delete_remote r node_id) node_id) in
    let r2 : Raft =
      if leader_transfering r1 && (r1.leader_transfer_target == node_id)
      then abort_leader_transfer r1
      else r1 in
    if ltb 0 (length r2.remotes)
    then (do (r3, done) ← try_commit r2; if done then broadcast_replicate_message r3 else ok r3)
    else ok r2

-- The first loop of `restoreRemotes`: an observer that became a member turns into a follower.
unfoldable pub restore_members : List ℕ → Raft → Outcome Raft
restore_members [] r = ok r
restore_members (id ∷ ids) r = do
  r' ← if has_key r.observers id then become_follower r r.term r.leader_id else ok r
  let next = add64 (EntryLog.last_index r'.log) 1
  let match : ℕ = if id == r'.node_id then sub64 next 1 else 0
  restore_members ids (set_remote r' id match next)

unfoldable pub restore_observers : List ℕ → Raft → Raft
restore_observers [] r = r
restore_observers (id ∷ ids) r =
    let next = add64 (EntryLog.last_index r.log) 1 in
    let match : ℕ = if id == r.node_id then sub64 next 1 else 0 in
    restore_observers ids (set_observer r id match next)

unfoldable pub restore_remotes : Raft → Snapshot → Outcome Raft
restore_remotes r ss = do
  r' ← restore_members (keys ss.membership.addresses) (record r { remotes = [] })
  ok (
      reset_match_value_array
        (restore_observers (keys ss.membership.observers) (record r' { observers = [] })))

-- raft.restore: the log is replaced unless it is known to hold what the snapshot holds.
unfoldable pub restore : Raft → Snapshot → Outcome (Raft × Bool)
restore r ss = if leb ss.index r.log.committed then ok (r, false) else (do
  panic_if (not (is_observer r) && has_key ss.membership.observers r.node_id)
  matched ← EntryLog.match_term r.log ss.index ss.term
  if matched
      then (do log ← EntryLog.commit_to r.log ss.index; ok (record r { log = log }, false))
      else ok (record r { log = EntryLog.restore r.log ss }, true))
