-- ===== src/Raft/Peer/Runs.antt =====
-- Everything that the layers above can do to a raft node by internal/raft/peer.go, as a relation: a run
-- of calls of a Peer.
use dragonboat.Prelude.{
  ℕ, ◌+◌, ◌^◌, ◌<◌, ◌≡◌, refl, Bool, true, false, not, ◌||◌, Option, List, [], arith, ltb, ◌==◌,
  if◌then◌else◌, has_key, Outcome, ok, Ensures, Ensures-ok, Ensures-if, Ensures-panic_if,
  Ensures-bind, Ensures-then,
}
use dragonboat.Pb.{Message, Entry, Snapshot, SystemCtx, ConfigChange, ConfigChangeType, Update}
use dragonboat.Raft.Node.{Raft, no_leader}
use dragonboat.Raft.EntryLog
use dragonboat.Raft.Step.{handle_message}
use dragonboat.Raft.Members.{add_node, add_observer, remove_node}
use dragonboat.Raft.EntryUtils.{is_local_message_type, is_response_message_type}
use dragonboat.Raft.Peer
use dragonboat.Raft.Peer.{Peer, with_raft, must_marshal}
use dragonboat.Raft.Peer.Update.{commit}
use dragonboat.Raft.Safety.{same, Advances, Advances-refl, Advances-trans}
use dragonboat.Raft.Safety.Handle.{handle_message-Advances, tick-Advances}
use dragonboat.Raft.Safety.Membership.{
  add_node-Advances, add_observer-Advances, remove_node-Advances, restore_remotes-Advances,
  commit_update-committed,
}

-- The calls of the interface that change the node.
pub data Call : Type 0 where
  tick quiesced_tick campaign reject_config_change : Call
  request_leader_transfer report_unreachable_node notify_raft_last_applied : ℕ → Call
  propose_entries : List Entry → Call
  propose_config_change : ConfigChange → ℕ → Call
  apply_config_change : ConfigChange → Call
  restore_peer : Snapshot → Call
  report_snapshot_status : ℕ → Bool → Call
  handle : Message → Call
  read_index : SystemCtx → Call
  commit_update : Update → Call

-- The terms of the node, and of a message that it is given, are below 2 ^ 64 - 1.
abbrev pub HasRoom : Call → Peer → Type 0
HasRoom (Call.handle m) p = (p.raft.term + 1 < 2 ^ 64) × (m.term + 1 < 2 ^ 64)
HasRoom _ p = p.raft.term + 1 < 2 ^ 64

module _ (marshal : ConfigChange → Option (List ℕ)) where
  unfoldable pub run_call : Call → Peer → Outcome Peer
  run_call Call.tick p = Peer.tick p
  run_call Call.quiesced_tick p = ok (Peer.quiesced_tick p)
  run_call Call.campaign p = Peer.campaign p
  run_call Call.reject_config_change p = ok (Peer.reject_config_change p)
  run_call (Call.request_leader_transfer n) p = Peer.request_leader_transfer p n
  run_call (Call.report_unreachable_node n) p = Peer.report_unreachable_node p n
  run_call (Call.notify_raft_last_applied n) p = ok (Peer.notify_raft_last_applied p n)
  run_call (Call.propose_entries es) p = Peer.propose_entries p es
  run_call (Call.propose_config_change cc key) p = Peer.propose_config_change marshal p cc key
  run_call (Call.apply_config_change cc) p = Peer.apply_config_change p cc
  run_call (Call.restore_peer ss) p = Peer.restore_peer p ss
  run_call (Call.report_snapshot_status n reject) p = Peer.report_snapshot_status p n reject
  run_call (Call.handle m) p = Peer.handle p m
  run_call (Call.read_index ctx) p = Peer.read_index p ctx
  run_call (Call.commit_update ud) p = commit p ud

  -- A run of calls that all return.
  pub data Runs : Peer → Peer → Type 0 where
    done : {p : Peer} → Runs p p
    call : (c : Call) {p q s : Peer} → HasRoom c p → run_call c p ≡ ok q → Runs q s → Runs p s

  Later : Peer → Peer → Type 0
  Later p q = Advances p.raft q.raft

  with_raft-Later :
      (p : Peer) (m : Outcome Raft)
      → Ensures (Advances p.raft) m
      → Ensures (Later p) (with_raft p m)
  unfolding Later
  with_raft-Later p m h = Ensures-then m _ h λ r a. Ensures-ok _ a

  message-Later :
      (p : Peer) (m : Message)
      → p.raft.term + 1 < 2 ^ 64
      → m.term + 1 < 2 ^ 64
      → Ensures (Later p) (with_raft p (handle_message p.raft m))
  message-Later p m b b' =
      with_raft-Later p _
        (record { at = λ r e. handle_message-Advances p.raft r m (λ _. (b, b')) e })

  -- The node without its messages, and without its reads if they are handed over.
  abbrev handed : Raft → Bool → Raft
  handed r reads =
      let r1 : Raft = record r { msgs = [] } in
      if reads then record r1 { ready_to_read = [] } else r1

  handed-Advances : (r : Raft) (reads : Bool) → Advances r (handed r reads)
  handed-Advances r true = same r _ refl refl refl refl (omega arith)
  handed-Advances r false = same r _ refl refl refl refl (omega arith)

  commit-Later : (p : Peer) (ud : Update) → Ensures (Later p) (commit p ud)
  unfolding commit Later
  commit-Later p ud =
      let r : Raft = handed p.raft (ltb 0 ud.update_commit.ready_to_read) in
      Ensures-then (EntryLog.commit_update r.log ud.update_commit) _
        (commit_update-committed r.log ud.update_commit)
        λ log e. Ensures-ok _ (
          Advances-trans (handed-Advances p.raft (ltb 0 ud.update_commit.ready_to_read))
            (same r (record r { log = log }) refl refl refl refl (omega arith)))

  run_call-Later : (c : Call) (p : Peer) → HasRoom c p → Ensures (Later p) (run_call c p)
  unfolding run_call Peer.tick Peer.quiesced_tick Peer.campaign Peer.reject_config_change
      Peer.request_leader_transfer Peer.report_unreachable_node Peer.notify_raft_last_applied
      Peer.propose_entries Peer.propose_config_change Peer.apply_config_change Peer.restore_peer
      Peer.report_snapshot_status Peer.handle Peer.read_index Later
  run_call-Later Call.tick p b =
      with_raft-Later p _ (record { at = λ r e. tick-Advances p.raft r b e })
  run_call-Later Call.quiesced_tick p b =
      Ensures-ok _ (same p.raft _ refl refl refl refl (omega arith))
  run_call-Later Call.campaign p b = message-Later p _ b (omega arith)
  run_call-Later Call.reject_config_change p b =
      Ensures-ok _ (same p.raft _ refl refl refl refl (omega arith))
  run_call-Later (Call.request_leader_transfer n) p b = message-Later p _ b (omega arith)
  run_call-Later (Call.report_unreachable_node n) p b = message-Later p _ b (omega arith)
  run_call-Later (Call.notify_raft_last_applied n) p b =
      Ensures-ok _ (same p.raft _ refl refl refl refl (omega arith))
  run_call-Later (Call.propose_entries es) p b = message-Later p _ b (omega arith)
  run_call-Later (Call.propose_config_change cc key) p b =
      Ensures-bind (must_marshal (marshal cc)) _ λ bytes _. message-Later p _ b (omega arith)
  run_call-Later (Call.apply_config_change cc) p b =
      Ensures-if (cc.node_id == no_leader) _ _
        (λ _. Ensures-ok _ (same p.raft _ refl refl refl refl (omega arith)))
        (λ _. with_raft-Later p _ (member cc.type))
    where
      member :
          (t : ConfigChangeType)
          → Ensures (Advances p.raft) (elim t [
            | ConfigChangeType.add_node ↦ add_node p.raft cc.node_id
            | ConfigChangeType.remove_node ↦ remove_node p.raft cc.node_id
            | ConfigChangeType.add_observer ↦ ok (add_observer p.raft cc.node_id)
          ])
      member ConfigChangeType.add_node = add_node-Advances p.raft cc.node_id
      member ConfigChangeType.remove_node = remove_node-Advances p.raft cc.node_id
      member ConfigChangeType.add_observer = Ensures-ok _ (add_observer-Advances p.raft cc.node_id)
  run_call-Later (Call.restore_peer ss) p b =
      with_raft-Later p _ (restore_remotes-Advances p.raft ss)
  run_call-Later (Call.report_snapshot_status n reject) p b = message-Later p _ b (omega arith)
  run_call-Later (Call.handle m) p b = Ensures-panic_if (is_local_message_type m.type) _ λ _.
      Ensures-if
        (has_key p.raft.remotes m.from
          || has_key p.raft.observers m.from
          || not (is_response_message_type m.type))
        _ _ (λ _. message-Later p m b.0 b.1) (λ _. Ensures-ok _ (Advances-refl p.raft))
  run_call-Later (Call.read_index ctx) p b = message-Later p _ b (omega arith)
  run_call-Later (Call.commit_update ud) p b = commit-Later p ud

  -- Whatever calls the layers above make, in whatever order, the node's term does not go back, within a
  -- term it keeps the vote that it has given, and no commit is undone. Terms are taken to be below
  -- 2 ^ 64 - 1.
  pub Runs-Advances : {p q : Peer} → Runs p q → Advances p.raft q.raft
  unfolding Later
  Runs-Advances {p} done = Advances-refl p.raft
  Runs-Advances {p} (call c {q = q} room e rest) =
      Advances-trans ((run_call-Later c p room).at q e) (Runs-Advances rest)
