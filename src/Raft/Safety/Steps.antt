-- ===== src/Raft/Safety/Steps.antt =====
-- `Handle` and `tick` of internal/raft/raft.go only advance a node, and the depth of the nested calls
-- of `Handle` is at most two.
use dragonboat.Prelude.{
  ◌+◌, ◌^◌, ◌≤◌, ◌<◌, ◌≡◌, refl, Bool, true, false, not, ◌&&◌, arith, ◌==◌, if◌then◌else◌, add64,
  Outcome, ok, Ensures, Ensures-ok, Ensures-if, Ensures-panic_if, Ensures-option, Ensures-then,
}
use dragonboat.Pb.{Message, MessageType}
use dragonboat.Raft.Remote.{Remote}
use dragonboat.Raft.Node.{
  Raft, no_leader, is_leader, is_observer, self_removed, time_for_election, time_for_heartbeat,
  time_for_check_quorum, time_to_abort_leader_transfer, abort_leader_transfer, add_ready_to_read,
}
use dragonboat.Raft.Send.{send, get_remote}
use dragonboat.Raft.Follower
use dragonboat.Raft.Leader
use dragonboat.Raft.Step.{
  Handler, lw, non_leader_tick, tick_check_quorum, tick_heartbeat, leader_tick, tick_with,
  handle_follower_timeout_now, run_handler,
}
use dragonboat.Raft.Safety.{same, Advances, Advances-refl, Advances-trans, Advances_of_Alike}
use dragonboat.Raft.Safety.Sends.{put_remote-Alike, broadcast_heartbeat_message-Alike}
use dragonboat.Raft.Safety.Transitions.{Ensures-later, Ensures-Advances}
use dragonboat.Raft.Safety.Handlers
use dragonboat.Raft.Safety.Handlers.{send-Advances, hear_leader-Advances, as_follower}
use dragonboat.Raft.Safety.LeaderHandlers

abbrev pub Bounded : Raft → Type 0
Bounded r = r.term + 1 < 2 ^ 64

-- The messages that can make a node campaign, and so raise its term by one.
abbrev pub campaigns : MessageType → Bool
campaigns MessageType.election = true
campaigns MessageType.timeout_now = true
campaigns _ = false

abbrev pub HasRoom : Raft → Message → Type 0
HasRoom r m = campaigns m.type ≡ true → Bounded r

-- What is assumed of the nested `Handle`: messages of a node to itself carry no term.
abbrev pub InnerAdvances : (Raft → Message → Outcome Raft) → Type 0
InnerAdvances inner =
    (r : Raft) (m : Message) → m.term ≡ 0 → HasRoom r m → Ensures (Advances r) (inner r m)

module _ (inner : Raft → Message → Outcome Raft) (advances : InnerAdvances inner) where
  non_leader_tick-Advances : (r : Raft) → Bounded r → Ensures (Advances r) (non_leader_tick inner r)
  unfolding non_leader_tick
  non_leader_tick-Advances r b =
      let s : Raft = record r { election_tick = add64 r.election_tick 1 } in
      let a : Advances r s = same r s refl refl refl refl (omega arith) in
      Ensures-panic_if (is_leader r) _ λ _.
        Ensures-if (is_observer s) _ _ (λ _. Ensures-ok _ a)
          λ _.
            Ensures-if (not (self_removed s) && time_for_election s) _ _
              (λ _.
                Ensures-later _ (same r _ refl refl refl refl (omega arith))
                  (advances _ _ refl (λ _. b)))
              (λ _. Ensures-ok _ a)

  tick_check_quorum-Advances : (r : Raft) → Ensures (Advances r) (tick_check_quorum inner r)
  unfolding tick_check_quorum
  tick_check_quorum-Advances r =
      let a : Advances r (record r { election_tick = 0 }) =
        same r _ refl refl refl refl (omega arith) in
      Ensures-if (time_for_check_quorum r) _ _
        (λ _.
          Ensures-if r.check_quorum _ _ (λ _. Ensures-later _ a (advances _ _ refl (λ c. cc)))
            (λ _. Ensures-ok _ a))
        (λ _. Ensures-ok _ (Advances-refl r))

  tick_heartbeat-Advances : (r : Raft) → Ensures (Advances r) (tick_heartbeat inner r)
  unfolding tick_heartbeat
  tick_heartbeat-Advances r =
      Ensures-if (time_for_heartbeat r) _ _
        (λ _.
          Ensures-later _ (same r _ refl refl refl refl (omega arith))
            (advances _ _ refl (λ c. cc)))
        (λ _. Ensures-ok _ (Advances-refl r))

  aborted-Advances : (b : Bool) (r : Raft) → Advances r (if b then abort_leader_transfer r else r)
  unfolding abort_leader_transfer
  aborted-Advances true r = same r _ refl refl refl refl (omega arith)
  aborted-Advances false r = Advances-refl r

  leader_tick-Advances : (r : Raft) → Ensures (Advances r) (leader_tick inner r)
  unfolding leader_tick
  leader_tick-Advances r =
      let s : Raft = record r { election_tick = add64 r.election_tick 1 } in
      Ensures-panic_if (not (is_leader r)) _ λ _.
        Ensures-later _ (same r s refl refl refl refl (omega arith)) (
          Ensures-then _ _ (tick_check_quorum-Advances s) λ t a.
            Ensures-later _
              (Advances-trans a (
                Advances-trans (aborted-Advances (time_to_abort_leader_transfer s) t)
                  (same _ _ refl refl refl refl (omega arith))))
              (tick_heartbeat-Advances _))

  pub tick_with-Advances : (r : Raft) → Bounded r → Ensures (Advances r) (tick_with inner r)
  unfolding tick_with
  tick_with-Advances r b =
      let s : Raft = record r { tick_count = add64 r.tick_count 1 } in
      Ensures-later _ (same r s refl refl refl refl (omega arith)) (
        Ensures-if (is_leader s) _ _ (λ _. leader_tick-Advances s)
          (λ _. non_leader_tick-Advances s b))

  timeout_now-Advances :
      (r : Raft) → Bounded r → Ensures (Advances r) (handle_follower_timeout_now inner r)
  unfolding handle_follower_timeout_now
  timeout_now-Advances r b = Ensures-later _ (same r _ refl refl refl refl (omega arith)) (
      Ensures-then _ _ (tick_with-Advances _ b)
        λ t a. Ensures-ok _ (Advances-trans a (same t _ refl refl refl refl (omega arith))))

  lw-Advances :
      (r : Raft) (m : Message) (f : Remote → Outcome Raft)
      → ((rp : Remote) → Ensures (Advances r) (f rp))
      → Ensures (Advances r) (lw r m f)
  unfolding lw
  lw-Advances r m f h =
      Ensures-option (get_remote r m.from) _ _ (λ _. Ensures-ok _ (Advances-refl r)) (λ rp _. h rp)

  -- A message that a node may send on.
  forward-Advances :
      (r : Raft) (m : Message)
      → Ensures (Advances r) (if r.leader_id == no_leader then ok r else send r m)
  forward-Advances r m =
      Ensures-if (r.leader_id == no_leader) _ _ (λ _. Ensures-ok _ (Advances-refl r))
        (λ _. send-Advances r r m (Advances-refl r))

  pub run_handler-Advances :
      (h : Handler) (r : Raft) (m : Message)
      → m.term ≤ r.term
      → (h ≡ Handler.node_election → Bounded r)
      → (h ≡ Handler.follower_timeout_now → Bounded r)
      → Ensures (Advances r) (run_handler inner h r m)
  unfolding run_handler Follower.handle_follower_propose Follower.handle_follower_read_index
      Follower.handle_follower_leader_transfer Follower.handle_follower_replicate
      Follower.handle_follower_heartbeat Follower.handle_follower_install_snapshot
      Follower.handle_candidate_heartbeat Follower.handle_candidate_replicate
      Follower.handle_candidate_install_snapshot Follower.handle_follower_read_index_resp
      add_ready_to_read Leader.handle_leader_unreachable
  run_handler-Advances Handler.candidate_heartbeat r m t e n =
      as_follower r m _ (λ s. Handlers.handle_heartbeat_message-Advances s m)
  run_handler-Advances Handler.candidate_propose r m t e n = Ensures-ok _ (Advances-refl r)
  run_handler-Advances Handler.candidate_replicate r m t e n =
      as_follower r m _ (λ s. Handlers.handle_replicate_message-Advances s m)
  run_handler-Advances Handler.candidate_install_snapshot r m t e n =
      as_follower r m _ (λ s. Handlers.handle_install_snapshot_message-Advances s m)
  run_handler-Advances Handler.candidate_request_vote_resp r m t e n =
      Handlers.handle_candidate_request_vote_resp-Advances r m
  run_handler-Advances Handler.node_election r m t e n =
      Handlers.handle_node_election-Advances r m (e refl)
  run_handler-Advances Handler.node_request_vote r m t e n =
      Handlers.handle_node_request_vote-Advances r m t
  run_handler-Advances Handler.follower_propose r m t e n = forward-Advances r _
  run_handler-Advances Handler.follower_replicate r m t e n =
      Ensures-later _ (hear_leader-Advances r m) (Handlers.handle_replicate_message-Advances _ m)
  run_handler-Advances Handler.follower_heartbeat r m t e n =
      Ensures-later _ (hear_leader-Advances r m) (Handlers.handle_heartbeat_message-Advances _ m)
  run_handler-Advances Handler.follower_read_index r m t e n = forward-Advances r _
  run_handler-Advances Handler.follower_leader_transfer r m t e n = forward-Advances r _
  run_handler-Advances Handler.follower_read_index_resp r m t e n =
      Ensures-ok _
        (Advances-trans (hear_leader-Advances r m) (same _ _ refl refl refl refl (omega arith)))
  run_handler-Advances Handler.follower_install_snapshot r m t e n =
      Ensures-later _ (hear_leader-Advances r m)
        (Handlers.handle_install_snapshot_message-Advances _ m)
  run_handler-Advances Handler.follower_timeout_now r m t e n = timeout_now-Advances r (n refl)
  run_handler-Advances Handler.leader_leader_heartbeat r m t e n =
      Ensures-Advances _ (broadcast_heartbeat_message-Alike r)
  run_handler-Advances Handler.leader_check_quorum r m t e n =
      LeaderHandlers.handle_leader_check_quorum-Advances r
  run_handler-Advances Handler.leader_propose r m t e n =
      LeaderHandlers.handle_leader_propose-Advances r m
  run_handler-Advances Handler.leader_read_index r m t e n =
      LeaderHandlers.handle_leader_read_index-Advances r m
  run_handler-Advances Handler.leader_replicate_resp r m t e n =
      lw-Advances r m _ (λ rp. LeaderHandlers.handle_leader_replicate_resp-Advances r m rp)
  run_handler-Advances Handler.leader_heartbeat_resp r m t e n =
      lw-Advances r m _ (λ rp. LeaderHandlers.handle_leader_heartbeat_resp-Advances r m rp)
  run_handler-Advances Handler.leader_snapshot_status r m t e n = lw-Advances r m _ (λ rp.
      Ensures-ok _ (Advances_of_Alike (LeaderHandlers.handle_leader_snapshot_status-Alike r m rp)))
  run_handler-Advances Handler.leader_unreachable r m t e n =
      lw-Advances r m _ (λ rp. Ensures-ok _ (Advances_of_Alike (put_remote-Alike r m.from _)))
  run_handler-Advances Handler.leader_leader_transfer r m t e n =
      lw-Advances r m _ (λ rp. LeaderHandlers.handle_leader_leader_transfer-Advances r m rp)
