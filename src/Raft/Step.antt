-- ===== src/Raft/Step.antt =====
-- internal/raft/raft.go: the handler table, `Handle` and the clock. A handler may call `Handle` for a
-- message of the node to itself, by `tick`; `handle` takes the depth of such calls as fuel.
use dragonboat.Prelude.{
  ℕ, zero, suc, Bool, true, false, not, ◌&&◌, ◌||◌, Option, none, some, ltb, leb, ◌==◌, ◌!=◌,
  if◌then◌else◌, add64, Outcome, ok, panic, ◌>>=◌, ◌>>◌, panic_if,
}
use dragonboat.Pb.{Message, MessageType, message}
use dragonboat.Raft.Node.{
  Raft, State, no_leader, is_leader, is_observer, self_removed, time_for_election,
  time_for_heartbeat, time_for_check_quorum, time_to_abort_leader_transfer, abort_leader_transfer,
}
use dragonboat.Raft.Remote.{Remote}
use dragonboat.Raft.Send.{send, get_remote, broadcast_heartbeat_message}
use dragonboat.Raft.Transition.{become_follower, become_observer}
use dragonboat.Raft.Follower
use dragonboat.Raft.Leader

-- The functions that the table registers.
pub data Handler : Type 0 where
  candidate_heartbeat candidate_propose candidate_replicate candidate_install_snapshot : Handler
  candidate_request_vote_resp node_election node_request_vote : Handler
  follower_propose follower_replicate follower_heartbeat follower_read_index : Handler
  follower_leader_transfer follower_read_index_resp follower_install_snapshot : Handler
  follower_timeout_now leader_leader_heartbeat leader_check_quorum leader_propose : Handler
  leader_read_index leader_replicate_resp leader_heartbeat_resp leader_snapshot_status : Handler
  leader_unreachable leader_leader_transfer : Handler

abbrev pub candidate_handlers : MessageType → Option Handler
candidate_handlers MessageType.heartbeat = some Handler.candidate_heartbeat
candidate_handlers MessageType.propose = some Handler.candidate_propose
candidate_handlers MessageType.replicate = some Handler.candidate_replicate
candidate_handlers MessageType.install_snapshot = some Handler.candidate_install_snapshot
candidate_handlers MessageType.request_vote_resp = some Handler.candidate_request_vote_resp
candidate_handlers MessageType.election = some Handler.node_election
candidate_handlers MessageType.request_vote = some Handler.node_request_vote
candidate_handlers _ = none

abbrev pub follower_handlers : MessageType → Option Handler
follower_handlers MessageType.propose = some Handler.follower_propose
follower_handlers MessageType.replicate = some Handler.follower_replicate
follower_handlers MessageType.heartbeat = some Handler.follower_heartbeat
follower_handlers MessageType.read_index = some Handler.follower_read_index
follower_handlers MessageType.leader_transfer = some Handler.follower_leader_transfer
follower_handlers MessageType.read_index_resp = some Handler.follower_read_index_resp
follower_handlers MessageType.install_snapshot = some Handler.follower_install_snapshot
follower_handlers MessageType.election = some Handler.node_election
follower_handlers MessageType.request_vote = some Handler.node_request_vote
follower_handlers MessageType.timeout_now = some Handler.follower_timeout_now
follower_handlers _ = none

abbrev pub leader_handlers : MessageType → Option Handler
leader_handlers MessageType.leader_heartbeat = some Handler.leader_leader_heartbeat
leader_handlers MessageType.check_quorum = some Handler.leader_check_quorum
leader_handlers MessageType.propose = some Handler.leader_propose
leader_handlers MessageType.read_index = some Handler.leader_read_index
leader_handlers MessageType.replicate_resp = some Handler.leader_replicate_resp
leader_handlers MessageType.heartbeat_resp = some Handler.leader_heartbeat_resp
leader_handlers MessageType.snapshot_status = some Handler.leader_snapshot_status
leader_handlers MessageType.unreachable = some Handler.leader_unreachable
leader_handlers MessageType.leader_transfer = some Handler.leader_leader_transfer
leader_handlers MessageType.election = some Handler.node_election
leader_handlers MessageType.request_vote = some Handler.node_request_vote
leader_handlers _ = none

-- Observers use the followers' functions.
abbrev pub observer_handlers : MessageType → Option Handler
observer_handlers MessageType.heartbeat = some Handler.follower_heartbeat
observer_handlers MessageType.replicate = some Handler.follower_replicate
observer_handlers MessageType.install_snapshot = some Handler.follower_install_snapshot
observer_handlers MessageType.propose = some Handler.follower_propose
observer_handlers MessageType.read_index = some Handler.follower_read_index
observer_handlers MessageType.read_index_resp = some Handler.follower_read_index_resp
observer_handlers _ = none

-- initializeHandlerMap
unfoldable pub handlers : State → MessageType → Option Handler
handlers State.candidate t = candidate_handlers t
handlers State.follower t = follower_handlers t
handlers State.leader t = leader_handlers t
handlers State.observer t = observer_handlers t

-- lw: the sender's progress, or nothing to do for a node that has none.
unfoldable pub lw : Raft → Message → (Remote → Outcome Raft) → Outcome Raft
lw r m f = elim (get_remote r m.from) [ some rp ↦ f rp | none ↦ ok r ]

module _ (handle : Raft → Message → Outcome Raft) where
  unfoldable pub non_leader_tick : Raft → Outcome Raft
  non_leader_tick r0 = do
    panic_if (is_leader r0)
    let r : Raft = record r0 { election_tick = add64 r0.election_tick 1 }
    if is_observer r
        then ok r
        else (if not (self_removed r) && time_for_election r
            then handle (record r { election_tick = 0 })
                (record (message MessageType.election) { from = r.node_id })
            else ok r)

  -- The quorum check of `leaderTick`, once in every election timeout.
  unfoldable pub tick_check_quorum : Raft → Outcome Raft
  tick_check_quorum r =
      if time_for_check_quorum r
      then if r.check_quorum
        then handle (record r { election_tick = 0 })
            (record (message MessageType.check_quorum) { from = r.node_id })
        else ok (record r { election_tick = 0 })
      else ok r

  -- The heartbeat of `leaderTick`, once in every heartbeat timeout.
  unfoldable pub tick_heartbeat : Raft → Outcome Raft
  tick_heartbeat r =
      if time_for_heartbeat r
      then handle (record r { heartbeat_tick = 0 })
          (record (message MessageType.leader_heartbeat) { from = r.node_id })
      else ok r

  unfoldable pub leader_tick : Raft → Outcome Raft
  leader_tick r0 = do
    panic_if (not (is_leader r0))
    let r : Raft = record r0 { election_tick = add64 r0.election_tick 1 }
    let time_to_abort = time_to_abort_leader_transfer r
    r1 ← tick_check_quorum r
    let r2 : Raft = if time_to_abort then abort_leader_transfer r1 else r1
    tick_heartbeat (record r2 { heartbeat_tick = add64 r2.heartbeat_tick 1 })

  unfoldable pub tick_with : Raft → Outcome Raft
  tick_with r0 =
      let r : Raft = record r0 { tick_count = add64 r0.tick_count 1 } in
      if is_leader r then leader_tick r else non_leader_tick r

  unfoldable pub handle_follower_timeout_now : Raft → Outcome Raft
  handle_follower_timeout_now r = do
    r' ← tick_with (record r {
      election_tick = r.randomized_election_timeout;
      is_leader_transfer_target = true;
    })
    ok (record r' { is_leader_transfer_target = false })

  unfoldable pub run_handler : Handler → Raft → Message → Outcome Raft
  run_handler Handler.candidate_heartbeat r m = Follower.handle_candidate_heartbeat r m
  run_handler Handler.candidate_propose r m = ok r
  run_handler Handler.candidate_replicate r m = Follower.handle_candidate_replicate r m
  run_handler Handler.candidate_install_snapshot r m =
      Follower.handle_candidate_install_snapshot r m
  run_handler Handler.candidate_request_vote_resp r m =
      Follower.handle_candidate_request_vote_resp r m
  run_handler Handler.node_election r m = Follower.handle_node_election r
  run_handler Handler.node_request_vote r m = Follower.handle_node_request_vote r m
  run_handler Handler.follower_propose r m = Follower.handle_follower_propose r m
  run_handler Handler.follower_replicate r m = Follower.handle_follower_replicate r m
  run_handler Handler.follower_heartbeat r m = Follower.handle_follower_heartbeat r m
  run_handler Handler.follower_read_index r m = Follower.handle_follower_read_index r m
  run_handler Handler.follower_leader_transfer r m = Follower.handle_follower_leader_transfer r m
  run_handler Handler.follower_read_index_resp r m =
      ok (Follower.handle_follower_read_index_resp r m)
  run_handler Handler.follower_install_snapshot r m = Follower.handle_follower_install_snapshot r m
  run_handler Handler.follower_timeout_now r m = handle_follower_timeout_now r
  run_handler Handler.leader_leader_heartbeat r m = broadcast_heartbeat_message r
  run_handler Handler.leader_check_quorum r m = Leader.handle_leader_check_quorum r
  run_handler Handler.leader_propose r m = Leader.handle_leader_propose r m
  run_handler Handler.leader_read_index r m = Leader.handle_leader_read_index r m
  run_handler Handler.leader_replicate_resp r m =
      lw r m (λ rp. Leader.handle_leader_replicate_resp r m rp)
  run_handler Handler.leader_heartbeat_resp r m =
      lw r m (λ rp. Leader.handle_leader_heartbeat_resp r m rp)
  run_handler Handler.leader_snapshot_status r m =
      lw r m (λ rp. ok (Leader.handle_leader_snapshot_status r m rp))
  run_handler Handler.leader_unreachable r m =
      lw r m (λ rp. ok (Leader.handle_leader_unreachable r m rp))
  run_handler Handler.leader_leader_transfer r m =
      lw r m (λ rp. Leader.handle_leader_leader_transfer r m rp)

  -- defaultHandle
  unfoldable pub default_handle : Raft → Message → Outcome Raft
  default_handle r m = elim (handlers r.state m.type) [ some h ↦ run_handler h r m | none ↦ ok r ]

unfoldable pub is_leader_message : MessageType → Bool
is_leader_message MessageType.replicate = true
is_leader_message MessageType.install_snapshot = true
is_leader_message MessageType.heartbeat = true
is_leader_message MessageType.timeout_now = true
is_leader_message MessageType.read_index_resp = true
is_leader_message _ = false

abbrev pub is_vote_request : MessageType → Bool
is_vote_request MessageType.request_vote = true
is_vote_request _ = false

unfoldable pub drop_request_vote_from_high_term_node : Raft → Message → Bool
drop_request_vote_from_high_term_node r m =
    if not (is_vote_request m.type) || (not r.check_quorum || leb m.term r.term)
    then false
    else if m.hint == m.from
    then false
    else (r.leader_id != no_leader) && ltb r.election_tick r.election_timeout

-- The message is ignored where the second part is true.
unfoldable pub on_message_term_not_matched : Raft → Message → Outcome (Raft × Bool)
on_message_term_not_matched r m =
    if (m.term == 0) || (m.term == r.term)
    then ok (r, false)
    else if drop_request_vote_from_high_term_node r m
    then ok (r, true)
    else if ltb r.term m.term
    then (do
      let leader_id = if is_leader_message m.type then m.from else no_leader
      r' ←
          if is_observer r
          then become_observer r m.term leader_id
          else become_follower r m.term leader_id
      ok (r', false))
    else if is_leader_message m.type && r.check_quorum
    then (do r' ← send r (record (message MessageType.no_op) { to = m.from }); ok (r', true))
    else ok (r, true)

abbrev pub double_check_term_matched : Raft → ℕ → Outcome (Unit {0})
double_check_term_matched r msg_term = panic_if ((msg_term != 0) && (r.term != msg_term))

-- raft.Handle, over the `Handle` of the calls inside.
unfoldable pub handle_with : (Raft → Message → Outcome Raft) → Raft → Message → Outcome Raft
handle_with inner r m = do
  (r', ignored) ← on_message_term_not_matched r m
  if ignored then ok r' else (do double_check_term_matched r' m.term; default_handle inner r' m)

unfoldable pub handle : ℕ → Raft → Message → Outcome Raft
handle zero r m = panic
handle (suc depth) r m = handle_with (handle depth) r m

-- raft.Handle, with fuel for the message and for one that its handler sends to the node itself.
unfoldable pub handle_message : Raft → Message → Outcome Raft
handle_message = handle 2

unfoldable pub tick : Raft → Outcome Raft
tick = tick_with (handle 1)
