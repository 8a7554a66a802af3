-- ===== src/Raft/Follower.antt =====
-- internal/raft/raft.go: the message handlers that nodes of every state, followers, observers and
-- candidates share, and those of followers and candidates. `TimeoutNow` is in `Step`.
use dragonboat.Prelude.{
  ℕ, ◌-◌, Bool, true, not, ◌&&◌, ◌||◌, ltb, ◌==◌, if◌then◌else◌, add64, length, has_key, Outcome,
  ok, ◌>>=◌,
}
use dragonboat.Pb.{Message, MessageType, message}
use dragonboat.Raft.EntryUtils.{min}
use dragonboat.Raft.EntryLog
use dragonboat.Raft.Node.{
  Raft, no_leader, no_node, is_leader, quorum, set_leader_id, add_ready_to_read,
  has_config_change_to_apply,
}
use dragonboat.Raft.Send.{send, broadcast_replicate_message}
use dragonboat.Raft.Transition.{become_follower, become_leader, campaign, handle_vote_resp}
use dragonboat.Raft.Members.{restore}

unfoldable pub handle_heartbeat_message : Raft → Message → Outcome Raft
handle_heartbeat_message r m = do
  log ← EntryLog.commit_to r.log m.commit
  send (record r { log = log })
      (record (message MessageType.heartbeat_resp) {
        to = m.from;
        hint = m.hint;
        hint_high = m.hint_high;
      })

unfoldable pub handle_install_snapshot_message : Raft → Message → Outcome Raft
handle_install_snapshot_message r m = do
  (r', restored) ← restore r m.snapshot
  let index : ℕ = if restored then EntryLog.last_index r'.log else r'.log.committed
  send r' (record (message MessageType.replicate_resp) { to = m.from; log_index = index })

-- The log index that `handleReplicateMessage` answers with after it appended, and the appending.
unfoldable pub accept_entries : Raft → Message → Outcome Raft
unfolding min
accept_entries r m = do
  (log, _) ← EntryLog.try_append r.log m.log_index m.entries
  let last_idx = add64 m.log_index (length m.entries)
  log' ← EntryLog.commit_to log (min last_idx m.commit)
  send (record r { log = log' })
      (record (message MessageType.replicate_resp) { to = m.from; log_index = last_idx })

unfoldable pub handle_replicate_message : Raft → Message → Outcome Raft
handle_replicate_message r m =
    if ltb m.log_index r.log.committed
    then send r
        (record (message MessageType.replicate_resp) { to = m.from; log_index = r.log.committed })
    else (do
      matched ← EntryLog.match_term r.log m.log_index m.log_term
      if matched
          then accept_entries r m
          else send r (record (message MessageType.replicate_resp) {
            to = m.from;
            reject = true;
            log_index = m.log_index;
            hint = EntryLog.last_index r.log;
          }))

unfoldable pub can_grant_vote : Raft → Message → Bool
can_grant_vote r m = (r.vote == no_node) || (r.vote == m.from) || ltb r.term m.term

unfoldable pub handle_node_election : Raft → Outcome Raft
handle_node_election r =
    if not (is_leader r) then if has_config_change_to_apply r then ok r else campaign r else ok r

unfoldable pub handle_node_request_vote : Raft → Message → Outcome Raft
handle_node_request_vote r m = do
  is_up_to_date ← EntryLog.up_to_date r.log m.log_index m.log_term
  let resp = record (message MessageType.request_vote_resp) { to = m.from }
  if can_grant_vote r m && is_up_to_date
      then send (record r { election_tick = 0; vote = m.from }) resp
      else send r (record resp { reject = true })

unfoldable pub handle_follower_propose : Raft → Message → Outcome Raft
handle_follower_propose r m =
    if r.leader_id == no_leader then ok r else send r (record m { to = r.leader_id })

-- The start of the handlers of a message from the leader.
abbrev pub hear_leader : Raft → Message → Raft
hear_leader r m = set_leader_id (record r { election_tick = 0 }) m.from

unfoldable pub handle_follower_replicate : Raft → Message → Outcome Raft
handle_follower_replicate r m = handle_replicate_message (hear_leader r m) m

unfoldable pub handle_follower_heartbeat : Raft → Message → Outcome Raft
handle_follower_heartbeat r m = handle_heartbeat_message (hear_leader r m) m

unfoldable pub handle_follower_read_index : Raft → Message → Outcome Raft
handle_follower_read_index r m =
    if r.leader_id == no_leader then ok r else send r (record m { to = r.leader_id })

unfoldable pub handle_follower_leader_transfer : Raft → Message → Outcome Raft
handle_follower_leader_transfer r m =
    if r.leader_id == no_leader then ok r else send r (record m { to = r.leader_id })

unfoldable pub handle_follower_read_index_resp : Raft → Message → Raft
handle_follower_read_index_resp r m =
    add_ready_to_read (hear_leader r m) m.log_index (record { low = m.hint; high = m.hint_high })

unfoldable pub handle_follower_install_snapshot : Raft → Message → Outcome Raft
handle_follower_install_snapshot r m = handle_install_snapshot_message (hear_leader r m) m

unfoldable pub handle_candidate_replicate : Raft → Message → Outcome Raft
handle_candidate_replicate r m = do
  r' ← become_follower r r.term m.from
  handle_replicate_message r' m

unfoldable pub handle_candidate_install_snapshot : Raft → Message → Outcome Raft
handle_candidate_install_snapshot r m = do
  r' ← become_follower r r.term m.from
  handle_install_snapshot_message r' m

unfoldable pub handle_candidate_heartbeat : Raft → Message → Outcome Raft
handle_candidate_heartbeat r m = do
  r' ← become_follower r r.term m.from
  handle_heartbeat_message r' m

unfoldable pub handle_candidate_request_vote_resp : Raft → Message → Outcome Raft
handle_candidate_request_vote_resp r m =
    if has_key r.observers m.from
    then ok r
    else let (r', count) = handle_vote_resp r m.from m.reject in
      if count == quorum r'
      then (do r'' ← become_leader r'; broadcast_replicate_message r'')
      else if length r'.votes - count == quorum r'
      then become_follower r' r'.term no_leader
      else ok r'
