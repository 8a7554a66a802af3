-- ===== src/Raft/Safety/LeaderHandlers.antt =====
-- The leader's message handlers of internal/raft/raft.go only advance a node.
use dragonboat.Prelude.{
  ℕ, refl, Bool, true, false, not, ◌&&◌, ◌||◌, List, [], ◌∷◌, arith, ltb, ◌==◌, ◌!=◌, if◌then◌else◌,
  has_key, ok, Ensures, Ensures-ok, Ensures-panic, Ensures-if, Ensures-panic_if, Ensures-option,
  Ensures-bind, Ensures-then,
}
use dragonboat.Pb.{Message, SystemCtx}
use dragonboat.Raft.Remote
use dragonboat.Raft.Remote.{Remote, RemoteStateType}
use dragonboat.Raft.EntryLog
use dragonboat.Raft.EntryLog.{EntryLog}
use dragonboat.Raft.ReadIndex
use dragonboat.Raft.ReadIndex.{ReadStatus}
use dragonboat.Raft.Node.{
  Raft, is_single_node_quorum, quorum, no_leader, no_node, add_ready_to_read, leader_has_quorum,
  self_removed, leader_transfering,
}
use dragonboat.Raft.Send.{
  broadcast_replicate_message, send_replicate_message, get_remote, put_remote,
}
use dragonboat.Raft.Replication.{try_commit}
use dragonboat.Raft.Leader.{
  handle_leader_check_quorum, handle_leader_propose, ctx_of, has_committed_entry_at_current_term,
  handle_leader_read_index, finish_transfer, acknowledged, handle_leader_replicate_resp,
  answer_reads, handle_read_index_leader_confirmation, handle_leader_heartbeat_resp,
  handle_leader_leader_transfer, handle_leader_snapshot_status,
}
use dragonboat.Raft.Safety.{same, Advances, Advances-refl, Alike, Alike-refl, Advances_of_Alike}
use dragonboat.Raft.Safety.Sends.{
  send-Alike, put_remote-Alike, broadcast_replicate_message-Alike, send_replicate_message-Alike,
  send_timeout_now_message-Alike, broadcast_heartbeat_message_with_hint-Alike, Ensures-next,
  Ensures-after,
}
use dragonboat.Raft.Safety.Transitions.{Ensures-later, Ensures-Advances, become_follower-Advances}
use dragonboat.Raft.Safety.Handlers.{send-Advances}
use dragonboat.Raft.Safety.Campaigns.{try_commit-Advances, append_entries-Advances}

module _ (r : Raft) where
  pub handle_leader_check_quorum-Advances : Ensures (Advances r) (handle_leader_check_quorum r)
  unfolding handle_leader_check_quorum leader_has_quorum
  handle_leader_check_quorum-Advances =
      let s : Raft = (leader_has_quorum r).0 in
      let a : Advances r s = same r s refl refl refl refl (omega arith) in
      Ensures-if (leader_has_quorum r).1 _ _ (λ _. Ensures-ok _ a)
        (λ _. Ensures-later _ a (become_follower-Advances s s.term no_leader (omega arith)))

  pub handle_leader_propose-Advances :
      (m : Message) → Ensures (Advances r) (handle_leader_propose r m)
  unfolding handle_leader_propose
  handle_leader_propose-Advances m =
      Ensures-if (self_removed r || leader_transfering r) _ _ (λ _. Ensures-ok _ (Advances-refl r))
        λ _. Ensures-later _ (same r _ refl refl refl refl (omega arith)) (
          Ensures-then _ _ (append_entries-Advances _ _)
            λ s a. Ensures-later _ a (Ensures-Advances _ (broadcast_replicate_message-Alike s)))

  add_ready_to_read-Alike : (index : ℕ) (ctx : SystemCtx) → Alike r (add_ready_to_read r index ctx)
  unfolding add_ready_to_read
  add_ready_to_read-Alike index ctx = record {
    node_id = refl;
    cluster_id = refl;
    term = refl;
    vote = refl;
    log = refl;
    state = refl;
    leader_id = refl;
  }

  pub handle_leader_read_index-Advances :
      (m : Message) → Ensures (Advances r) (handle_leader_read_index r m)
  unfolding handle_leader_read_index
  handle_leader_read_index-Advances m =
      let s : Raft = add_ready_to_read r r.log.committed (ctx_of m) in
      let a : Advances r s =
        Advances_of_Alike (add_ready_to_read-Alike r.log.committed (ctx_of m)) in
      Ensures-if (not (is_single_node_quorum r)) _ _
        (λ _. Ensures-bind (has_committed_entry_at_current_term r) _ λ committed _.
          Ensures-if (not committed) _ _ (λ _. Ensures-ok _ (Advances-refl r))
            λ _.
              Ensures-bind (ReadIndex.add_request r.read_index r.log.committed (ctx_of m) m.from) _
                λ read_index _.
                  Ensures-later _
                    (same r (record r { read_index = read_index }) refl refl refl refl
                      (omega arith))
                    (Ensures-Advances _ (broadcast_heartbeat_message_with_hint-Alike _ _)))
        (λ _.
          Ensures-if ((m.from != s.node_id) && has_key s.observers m.from) _ _
            (λ _. send-Advances r s _ a) (λ _. Ensures-ok _ a))

  finish_transfer-Alike : (from : ℕ) → Ensures (Alike r) (finish_transfer r from)
  unfolding finish_transfer
  finish_transfer-Alike from =
      Ensures-option (get_remote r from) _ _ (λ _. Ensures-panic)
        λ rp _.
          Ensures-if
            (leader_transfering r
              && ((from == r.leader_transfer_target) && (EntryLog.last_index r.log == rp.match)))
            _ _ (λ _. send_timeout_now_message-Alike r r.leader_transfer_target)
            (λ _. Ensures-ok _ (Alike-refl r))

  -- What the leader sends once a commit has been tried.
  resend-Alike :
      (done paused : Bool) (from : ℕ)
      → Ensures (Alike r) (
          if done
          then broadcast_replicate_message r
          else if paused
          then send_replicate_message r from
          else ok r)
  resend-Alike true paused from = broadcast_replicate_message-Alike r
  resend-Alike false true from = send_replicate_message-Alike r from
  resend-Alike false false from = Ensures-ok r (Alike-refl r)

module _ (r : Raft) where
  acknowledged-Advances :
      (from : ℕ) (rp : Remote) (index : ℕ) → Ensures (Advances r) (acknowledged r from rp index)
  unfolding acknowledged
  acknowledged-Advances from rp index =
      let p = Remote.try_update rp index in
      let s : Raft = put_remote r from (Remote.responded_to p.0) in
      Ensures-if p.1 _ _
        (λ _. Ensures-later _ (Advances_of_Alike (put_remote-Alike r from _)) (
          Ensures-then (try_commit s) _ (try_commit-Advances s) λ q a. Ensures-later _ a (
            Ensures-Advances _ (
              Ensures-next q.0 _ _ (resend-Alike q.0 q.1 (Remote.is_paused rp) from)
                λ t. finish_transfer-Alike t from))))
        (λ _. Ensures-ok _ (Advances_of_Alike (put_remote-Alike r from _)))

  pub handle_leader_replicate_resp-Advances :
      (m : Message) (rp : Remote) → Ensures (Advances r) (handle_leader_replicate_resp r m rp)
  unfolding handle_leader_replicate_resp
  handle_leader_replicate_resp-Advances m rp0 =
      let rp : Remote = Remote.set_active rp0 in
      Ensures-if (not m.reject) _ _ (λ _. acknowledged-Advances m.from rp m.log_index)
        λ _.
          Ensures-if (Remote.decrease_to rp m.log_index m.hint).1 _ _
            (λ _.
              Ensures-later _ (Advances_of_Alike (put_remote-Alike r m.from _))
                (Ensures-Advances _ (send_replicate_message-Alike _ m.from)))
            (λ _. Ensures-ok _ (Advances_of_Alike (put_remote-Alike r m.from _)))

answer_reads-Alike :
    (ss : List ReadStatus) (m : Message) (r : Raft) → Ensures (Alike r) (answer_reads ss m r)
unfolding answer_reads
answer_reads-Alike [] m r = Ensures-ok r (Alike-refl r)
answer_reads-Alike (s ∷ ss) m r =
    Ensures-next r _ _
      (Ensures-if ((s.from == no_node) || (s.from == r.node_id)) _ _
        (λ _. Ensures-ok _ (add_ready_to_read-Alike r s.index s.ctx)) (λ _. send-Alike r _))
      (answer_reads-Alike ss m)

module _ (r : Raft) (m : Message) where
  confirmation-Alike : Ensures (Alike r) (handle_read_index_leader_confirmation r m)
  unfolding handle_read_index_leader_confirmation
  confirmation-Alike =
      Ensures-bind (ReadIndex.confirm r.read_index (ctx_of m) m.from (quorum r)) _ λ p _.
        Ensures-after _
          (record {
            node_id = refl;
            cluster_id = refl;
            term = refl;
            vote = refl;
            log = refl;
            state = refl;
            leader_id = refl;
          })
          (answer_reads-Alike p.1 m (record r { read_index = p.0 }))

module _ (r : Raft) (m : Message) (rp : Remote) where
  pub handle_leader_heartbeat_resp-Advances :
      Ensures (Advances r) (handle_leader_heartbeat_resp r m rp)
  unfolding handle_leader_heartbeat_resp
  handle_leader_heartbeat_resp-Advances =
      let rp' : Remote = Remote.wait_to_retry (Remote.set_active rp) in
      let s : Raft = put_remote r m.from rp' in
      Ensures-Advances _ (
        Ensures-after _ (put_remote-Alike r m.from rp') (
          Ensures-next s _ _
            (Ensures-if (ltb rp'.match (EntryLog.last_index s.log)) _ _
              (λ _. send_replicate_message-Alike s m.from) (λ _. Ensures-ok s (Alike-refl s)))
            λ t.
              Ensures-if (m.hint != 0) _ _ (λ _. confirmation-Alike t m)
                (λ _. Ensures-ok t (Alike-refl t))))

  pub handle_leader_leader_transfer-Advances :
      Ensures (Advances r) (handle_leader_leader_transfer r m rp)
  unfolding handle_leader_leader_transfer
  handle_leader_leader_transfer-Advances =
      let s : Raft = record r { leader_transfer_target = m.hint; election_tick = 0 } in
      let a : Advances r s = same r s refl refl refl refl (omega arith) in
      Ensures-panic_if (m.hint == no_node) _ λ _.
        Ensures-if (leader_transfering r || (r.node_id == m.hint)) _ _
          (λ _. Ensures-ok _ (Advances-refl r))
          λ _.
            Ensures-if (rp.match == EntryLog.last_index s.log) _ _
              (λ _.
                Ensures-later _ a (Ensures-Advances _ (send_timeout_now_message-Alike s m.hint)))
              (λ _. Ensures-ok _ a)

  pub handle_leader_snapshot_status-Alike : Alike r (handle_leader_snapshot_status r m rp)
  unfolding handle_leader_snapshot_status
  handle_leader_snapshot_status-Alike = go rp.state
    where
      go :
          (s : RemoteStateType)
          → Alike r (elim s [
            | RemoteStateType.snapshot ↦
                put_remote r m.from
                  (Remote.become_wait (if m.reject then Remote.clear_pending_snapshot rp else rp))
            | _ ↦ r
          ])
      go RemoteStateType.snapshot = put_remote-Alike r m.from _
      go _ = Alike-refl r
