-- ===== src/Raft/Leader.antt =====
-- internal/raft/raft.go: the message handlers of a leader. A handler that `lw` wraps gets a pointer to
-- the sender's progress: it is read and written through `get_remote` and `put_remote`, since the calls
-- between may write to it as well.
use dragonboat.Prelude.{
  ℕ, Bool, not, ◌&&◌, ◌||◌, none, some, List, [], ◌∷◌, ltb, ◌==◌, ◌!=◌, if◌then◌else◌, has_key,
  Outcome, ok, panic, ◌>>=◌, ◌>>◌, panic_if,
}
use dragonboat.Pb.{Message, MessageType, message, Entry, empty_entry, SystemCtx, is_config_change}
use dragonboat.Raft.Remote
use dragonboat.Raft.Remote.{Remote, RemoteStateType}
use dragonboat.Raft.EntryLog
use dragonboat.Raft.EntryLog.{LogError, Fetched, fetched, failed}
use dragonboat.Raft.ReadIndex
use dragonboat.Raft.ReadIndex.{ReadStatus}
use dragonboat.Raft.Node.{
  Raft, no_leader, no_node, quorum, is_single_node_quorum, leader_transfering, leader_has_quorum,
  self_removed, add_ready_to_read,
}
use dragonboat.Raft.Send.{
  send, get_remote, put_remote, send_replicate_message, broadcast_replicate_message,
  broadcast_heartbeat_message_with_hint, send_timeout_now_message,
}
use dragonboat.Raft.Replication.{try_commit, append_entries}
use dragonboat.Raft.Transition.{become_follower}

unfoldable pub handle_leader_check_quorum : Raft → Outcome Raft
handle_leader_check_quorum r =
    let (r', has_quorum) = leader_has_quorum r in
    if has_quorum then ok r' else become_follower r' r'.term no_leader

-- The loop of `handleLeaderPropose`: a configuration change that finds another pending is replaced by
-- an empty entry.
unfoldable pub filter_config_changes : Bool → List Entry → Bool × List Entry
filter_config_changes pending [] = (pending, [])
filter_config_changes pending (e ∷ es) =
    let change = is_config_change e in
    let (pending', es') = filter_config_changes (pending || change) es in
    (pending', (if change && pending then empty_entry else e) ∷ es')

unfoldable pub handle_leader_propose : Raft → Message → Outcome Raft
handle_leader_propose r m =
    if self_removed r || leader_transfering r
    then ok r
    else let (pending, entries) = filter_config_changes r.pending_config_change m.entries in
      (do
        r' ← append_entries (record r { pending_config_change = pending }) entries
        broadcast_replicate_message r')

-- The term of the last committed entry; a compacted entry has none.
abbrev pub committed_term : Fetched ℕ → Outcome ℕ
committed_term (fetched t) = ok t
committed_term (failed LogError.compacted) = ok 0
committed_term (failed _) = panic

unfoldable pub has_committed_entry_at_current_term : Raft → Outcome Bool
has_committed_entry_at_current_term r = do
  panic_if (r.term == 0)
  found ← EntryLog.term r.log r.log.committed
  t ← committed_term found
  ok (t == r.term)

abbrev pub ctx_of : Message → SystemCtx
ctx_of m = record { low = m.hint; high = m.hint_high }

unfoldable pub handle_leader_read_index : Raft → Message → Outcome Raft
handle_leader_read_index r m =
    if not (is_single_node_quorum r)
    then (do
      committed ← has_committed_entry_at_current_term r
      if not committed then ok r else (do
        read_index ← ReadIndex.add_request r.read_index r.log.committed (ctx_of m) m.from
        broadcast_heartbeat_message_with_hint (record r { read_index = read_index }) (ctx_of m)))
    else let r' : Raft = add_ready_to_read r r.log.committed (ctx_of m) in
      if (m.from != r'.node_id) && has_key r'.observers m.from
      then send r' (record (message MessageType.read_index_resp) {
        to = m.from;
        log_index = r'.log.committed;
        hint = m.hint;
        hint_high = m.hint_high;
        commit = m.commit;
      })
      else ok r'

unfoldable pub enter_retry_state : Remote → Remote
enter_retry_state rp = elim rp.state [ RemoteStateType.replicate ↦ Remote.become_retry rp | _ ↦ rp ]

-- The end of `handleLeaderReplicateResp`: a transfer target that has the whole log may campaign.
unfoldable pub finish_transfer : Raft → ℕ → Outcome Raft
finish_transfer r from = elim (get_remote r from) [
  | none ↦ panic
  | some rp ↦
      if leader_transfering r
        && ((from == r.leader_transfer_target) && (EntryLog.last_index r.log == rp.match))
      then send_timeout_now_message r r.leader_transfer_target
      else ok r
]

unfoldable pub acknowledged : Raft → ℕ → Remote → ℕ → Outcome Raft
acknowledged r from rp index =
    let paused = Remote.is_paused rp in
    let (rp', updated) = Remote.try_update rp index in
    if updated
    then (do
      (r1, done) ← try_commit (put_remote r from (Remote.responded_to rp'))
      r2 ←
          if done
          then broadcast_replicate_message r1
          else if paused
          then send_replicate_message r1 from
          else ok r1
      finish_transfer r2 from)
    else ok (put_remote r from rp')

unfoldable pub handle_leader_replicate_resp : Raft → Message → Remote → Outcome Raft
handle_leader_replicate_resp r m rp0 =
    let rp : Remote = Remote.set_active rp0 in
    if not m.reject
    then acknowledged r m.from rp m.log_index
    else let (rp', decreased) = Remote.decrease_to rp m.log_index m.hint in
      if decreased
      then send_replicate_message (put_remote r m.from (enter_retry_state rp')) m.from
      else ok (put_remote r m.from rp')

-- The loop of `handleReadIndexLeaderConfirmation`.
unfoldable pub answer_reads : List ReadStatus → Message → Raft → Outcome Raft
answer_reads [] m r = ok r
answer_reads (s ∷ ss) m r = do
  r' ←
      if (s.from == no_node) || (s.from == r.node_id)
      then ok (add_ready_to_read r s.index s.ctx)
      else send r (record (message MessageType.read_index_resp) {
        to = s.from;
        log_index = s.index;
        hint = m.hint;
        hint_high = m.hint_high;
      })
  answer_reads ss m r'

unfoldable pub handle_read_index_leader_confirmation : Raft → Message → Outcome Raft
handle_read_index_leader_confirmation r m = do
  (read_index, ris) ← ReadIndex.confirm r.read_index (ctx_of m) m.from (quorum r)
  answer_reads ris m (record r { read_index = read_index })

unfoldable pub handle_leader_heartbeat_resp : Raft → Message → Remote → Outcome Raft
handle_leader_heartbeat_resp r m rp0 = do
  let rp : Remote = Remote.wait_to_retry (Remote.set_active rp0)
  let r1 : Raft = put_remote r m.from rp
  r2 ← if ltb rp.match (EntryLog.last_index r1.log) then send_replicate_message r1 m.from else ok r1
  if m.hint != 0 then handle_read_index_leader_confirmation r2 m else ok r2

unfoldable pub handle_leader_leader_transfer : Raft → Message → Remote → Outcome Raft
handle_leader_leader_transfer r m rp = do
  let target = m.hint
  panic_if (target == no_node)
  if leader_transfering r || (r.node_id == target)
      then ok r
      else let r' : Raft = record r { leader_transfer_target = target; election_tick = 0 } in
        if rp.match == EntryLog.last_index r'.log then send_timeout_now_message r' target else ok r'

unfoldable pub handle_leader_snapshot_status : Raft → Message → Remote → Raft
handle_leader_snapshot_status r m rp = elim rp.state [
  | RemoteStateType.snapshot ↦
      let rp' : Remote = if m.reject then Remote.clear_pending_snapshot rp else rp in
      put_remote r m.from (Remote.become_wait rp')
  | _ ↦ r
]

unfoldable pub handle_leader_unreachable : Raft → Message → Remote → Raft
handle_leader_unreachable r m rp = put_remote r m.from (enter_retry_state rp)
