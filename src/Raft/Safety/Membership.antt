-- ===== src/Raft/Safety/Membership.antt =====
-- The changes of the membership in internal/raft/raft.go, and the update of the log by its layers
-- above, only advance a node.
use dragonboat.Prelude.{
  ℕ, ◌≡◌, refl, inl, inr, Bool, true, false, ◌&&◌, ◌||◌, List, [], ◌∷◌, arith, ltb, ◌==◌,
  if◌then◌else◌, Bool-cases, length, get, has_key, keys, Ensures, Ensures-ok, Ensures-if,
  Ensures-panic_if, Ensures-option, Ensures-bind, Ensures-then,
}
use dragonboat.Pb.{Snapshot, UpdateCommit}
use dragonboat.Raft.InMemory
use dragonboat.Raft.EntryLog
use dragonboat.Raft.EntryLog.{EntryLog}
use dragonboat.Raft.Node.{
  Raft, leader_transfering, abort_leader_transfer, set_remote, set_observer, delete_remote,
  delete_observer, reset_match_value_array,
}
use dragonboat.Raft.Members.{
  clear_pending_config_change, add_node, add_observer, remove_node, restore_members,
  restore_observers, restore_remotes,
}
use dragonboat.Raft.Replication.{try_commit}
use dragonboat.Raft.Safety.{same, Advances, Advances-refl, Advances-trans}
use dragonboat.Raft.Safety.Sends.{broadcast_replicate_message-Alike}
use dragonboat.Raft.Safety.Transitions.{Ensures-later, Ensures-Advances, become_follower-Advances}
use dragonboat.Raft.Safety.Campaigns.{try_commit-Advances}

module _ (r : Raft) (node_id : ℕ) where
  pub add_node-Advances : Ensures (Advances r) (add_node r node_id)
  unfolding add_node delete_observer set_remote reset_match_value_array
  add_node-Advances =
      Ensures-if (has_key r.remotes node_id) _ _
        (λ _. Ensures-ok _ (same r _ refl refl refl refl (omega arith)))
        λ _.
          Ensures-option (get r.observers node_id) _ _
            (λ _. Ensures-ok _ (same r _ refl refl refl refl (omega arith)))
            λ rp _.
              Ensures-if (node_id == r.node_id) _ _
                (λ _.
                  Ensures-later _ (same r _ refl refl refl refl (omega arith))
                    (become_follower-Advances _ _ _ (omega arith)))
                (λ _. Ensures-ok _ (same r _ refl refl refl refl (omega arith)))

  pub add_observer-Advances : Advances r (add_observer r node_id)
  unfolding add_observer set_observer
  add_observer-Advances = elim (Bool-cases (has_key r.observers node_id)) [
    | inl e ↦ rw e (same r _ refl refl refl refl (omega arith))
    | inr e ↦ rw e (same r _ refl refl refl refl (omega arith))
  ]

  abbrev removed : Bool → Raft
  removed transfering =
      let r1 : Raft =
        clear_pending_config_change (delete_observer (delete_remote r node_id) node_id) in
      if transfering then abort_leader_transfer r1 else r1

  removed-Advances : (transfering : Bool) → Advances r (removed transfering)
  unfolding delete_observer delete_remote abort_leader_transfer reset_match_value_array
  removed-Advances true = same r _ refl refl refl refl (omega arith)
  removed-Advances false = same r _ refl refl refl refl (omega arith)

  pub remove_node-Advances : Ensures (Advances r) (remove_node r node_id)
  unfolding remove_node
  remove_node-Advances =
      let r1 : Raft =
        clear_pending_config_change (delete_observer (delete_remote r node_id) node_id) in
      let r2 : Raft = removed (leader_transfering r1 && (r1.leader_transfer_target == node_id)) in
      let a = removed-Advances (leader_transfering r1 && (r1.leader_transfer_target == node_id)) in
      Ensures-if (ltb 0 (length r2.remotes)) _ _
        (λ _. Ensures-later _ a (
          Ensures-then (try_commit r2) _ (try_commit-Advances r2) λ p b.
            Ensures-if p.1 _ _
              (λ _. Ensures-later _ b (Ensures-Advances _ (broadcast_replicate_message-Alike p.0)))
              (λ _. Ensures-ok _ b)))
        (λ _. Ensures-ok _ a)

restore_members-Advances : (ids : List ℕ) (r : Raft) → Ensures (Advances r) (restore_members ids r)
unfolding restore_members set_remote reset_match_value_array
restore_members-Advances [] r = Ensures-ok r (Advances-refl r)
restore_members-Advances (id ∷ ids) r =
    Ensures-then _ _
      (Ensures-if (has_key r.observers id) _ _
        (λ _. become_follower-Advances r r.term r.leader_id (omega arith))
        (λ _. Ensures-ok r (Advances-refl r)))
      λ s a.
        Ensures-later _ (Advances-trans a (same s _ refl refl refl refl (omega arith)))
          (restore_members-Advances ids _)

restore_observers-Advances : (ids : List ℕ) (r : Raft) → Advances r (restore_observers ids r)
unfolding restore_observers set_observer
restore_observers-Advances [] r = Advances-refl r
restore_observers-Advances (id ∷ ids) r =
    Advances-trans (same r _ refl refl refl refl (omega arith)) (restore_observers-Advances ids _)

pub restore_remotes-Advances :
    (r : Raft) (ss : Snapshot) → Ensures (Advances r) (restore_remotes r ss)
unfolding restore_remotes reset_match_value_array
restore_remotes-Advances r ss =
    Ensures-later _ (same r (record r { remotes = [] }) refl refl refl refl (omega arith)) (
      Ensures-then _ _
        (restore_members-Advances (keys ss.membership.addresses) (record r { remotes = [] }))
        λ s a. Ensures-ok _ (
          Advances-trans a (
            Advances-trans (same s (record s { observers = [] }) refl refl refl refl (omega arith))
              (Advances-trans
                (restore_observers-Advances (keys ss.membership.observers)
                  (record s { observers = [] }))
                (same _ _ refl refl refl refl (omega arith))))))

pub commit_update-committed :
    (l : EntryLog) (cu : UpdateCommit)
    → Ensures (λ (l' : EntryLog). l'.committed ≡ l.committed) (EntryLog.commit_update l cu)
unfolding EntryLog.commit_update
commit_update-committed l cu = Ensures-bind (InMemory.commit_update l.inmem cu) _ λ im _.
    Ensures-if (ltb 0 cu.applied_to) _ _
      (λ _.
        Ensures-panic_if (ltb cu.applied_to l.applied || ltb l.committed cu.applied_to) _
          λ _. Ensures-bind (InMemory.applied_log_to im cu.applied_to) _ λ im' _. Ensures-ok _ refl)
      (λ _. Ensures-ok _ refl)
