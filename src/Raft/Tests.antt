-- ===== src/Raft/Tests.antt =====
-- Runs of internal/raft at concrete inputs, and the theorems applied to them: a cluster of three nodes
-- with an empty persistent log.
mod Parts
mod Reads
mod Peers
use dragonboat.Prelude.{
  ℕ, ◌+◌, ◌*◌, ◌≤◌, ◌<◌, ◌≡◌, refl, Bool, true, false, none, [], ◌∷◌, arith, ◌==◌, if◌then◌else◌,
  length, Outcome, ok, panic, ◌>>=◌,
}
use dragonboat.Pb
use dragonboat.Pb.{Message, MessageType, message, empty_snapshot}
use dragonboat.Raft.EntryUtils.{min, max, limit_size, check_entries_to_append, count_config_change}
use dragonboat.Raft.Remote
use dragonboat.Raft.Remote.{Remote, fresh}
use dragonboat.Raft.InMemory
use dragonboat.Raft.InMemory.{InMemory}
use dragonboat.Raft.EntryLog
use dragonboat.Raft.EntryLog.{EntryLog, LogDb, fetched, failed, LogError, new_entry_log}
use dragonboat.Raft.ReadIndex
use dragonboat.Raft.ReadIndex.{new_read_index}
use dragonboat.Raft.Node
use dragonboat.Raft.Node.{Raft, State}
use dragonboat.Raft.Send
use dragonboat.Raft.Replication
use dragonboat.Raft.Transition
use dragonboat.Raft.Follower
use dragonboat.Raft.Leader
use dragonboat.Raft.Step
use dragonboat.Raft.Replication.Quorum.{
  at_least, IsSorted, try_commit-quorum, commit_candidate_lem, sort_match_values_lem,
}
use dragonboat.Raft.Safety.{Advances}
use dragonboat.Raft.Safety.Handle.{handle_message-Advances, tick-Advances}
use dragonboat.Raft.Safety.Depth.{handle-depth}

-- All that a run of `Handle` computes with.
pub program : Unit {0}
unfolding ◌>>=◌ min max limit_size check_entries_to_append count_config_change Remote.become_retry
    Remote.retry_to_wait Remote.wait_to_retry Remote.become_wait Remote.become_replicate
    Remote.become_snapshot Remote.clear_pending_snapshot Remote.try_update Remote.progress
    Remote.responded_to Remote.decrease_to Remote.is_paused Remote.set_active Remote.set_not_active
    InMemory.check_marker_index InMemory.get_entries InMemory.get_last_index InMemory.get_term
    InMemory.entries_to_save InMemory.saved_log_to InMemory.applied_log_to InMemory.merge
    EntryLog.first_index EntryLog.last_index EntryLog.entry_range EntryLog.term EntryLog.last_term
    EntryLog.check_bound EntryLog.get_entries_from_logdb EntryLog.get_entries_from_inmem
    EntryLog.get_entries EntryLog.entries EntryLog.snapshot EntryLog.match_term
    EntryLog.get_conflict_index EntryLog.append EntryLog.try_append EntryLog.commit_to
    EntryLog.up_to_date EntryLog.try_commit ReadIndex.has_pending_request ReadIndex.peep_ctx
    ReadIndex.add_request Node.reset_match_value_array Node.set_leader_id Node.leader_transfering
    Node.abort_leader_transfer Node.quorum Node.is_single_node_quorum Node.leader_has_quorum
    Node.count_active Node.time_for_election Node.time_for_heartbeat Node.time_for_check_quorum
    Node.time_to_abort_leader_transfer Node.set_randomized_election_timeout Node.self_removed
    Node.add_ready_to_read Node.has_config_change_to_apply Send.is_request_message
    Send.finalize_message_term Send.send Send.make_replicate_message Send.get_remote Send.put_remote
    Send.send_snapshot Send.send_entries Send.send_replicate_message Send.replicate_to
    Send.replicate_to_observers Send.broadcast_replicate_message Send.send_heartbeat_message
    Send.heartbeat_to Send.heartbeat_to_observers Send.broadcast_heartbeat_message_with_hint
    Send.broadcast_heartbeat_message Replication.insert_sorted Replication.sort_slice
    Replication.bubble_sort Replication.sort_match_values Replication.commit_candidate
    Replication.try_commit Replication.append_entries Transition.reset_progress
    Transition.reset_rest Transition.reset Transition.become_follower Transition.become_candidate
    Transition.count_pending Transition.get_pending_config_change_count
    Transition.pre_leader_promotion_handle_config_change Transition.become_leader
    Transition.handle_vote_resp Transition.request_votes Transition.campaign Follower.accept_entries
    Follower.handle_replicate_message Follower.can_grant_vote Follower.handle_node_election
    Follower.handle_node_request_vote Follower.handle_candidate_request_vote_resp
    Leader.finish_transfer Leader.acknowledged Leader.handle_leader_replicate_resp Step.handlers
    Step.lw Step.non_leader_tick Step.tick_with Step.run_handler Step.default_handle
    Step.is_leader_message Step.drop_request_vote_from_high_term_node
    Step.on_message_term_not_matched Step.handle_with Step.handle Step.handle_message Step.tick
program = tt

abbrev empty_logdb : LogDb
empty_logdb = record {
  get_range = (1, 0);
  node_state = (Pb.empty_state, Pb.empty_snapshot.membership);
  term = λ i. if i == 0 then fetched 0 else failed LogError.unavailable;
  entries = λ _ _ _. failed LogError.unavailable;
  snapshot = empty_snapshot;
}

-- Node 1 of the nodes 1, 2 and 3, at term 1.
abbrev pub follower : Raft
follower = record {
  applied = 0;
  node_id = 1;
  cluster_id = 9;
  term = 1;
  vote = 0;
  log = new_entry_log empty_logdb;
  remotes = (1, fresh 0 1) ∷ (2, fresh 0 1) ∷ (3, fresh 0 1) ∷ [];
  observers = [];
  state = State.follower;
  votes = [];
  msgs = [];
  leader_id = 0;
  leader_transfer_target = 0;
  is_leader_transfer_target = false;
  pending_config_change = false;
  read_index = new_read_index;
  ready_to_read = [];
  check_quorum = true;
  tick_count = 0;
  election_tick = 14;
  heartbeat_tick = 0;
  heartbeat_timeout = 1;
  election_timeout = 10;
  randomized_election_timeout = 15;
  matched = 0 ∷ 0 ∷ 0 ∷ [];
  recorded_leader = none;
  random_source = λ n. 7 * n + 3;
  draws = 0;
}

abbrev pub or_else {ℓ} : {A : Type ℓ} → Outcome A → A → A
or_else (ok a) d = a
or_else panic d = d

-- The election timer of node 1 runs out.
abbrev pub candidate : Raft
candidate = or_else (Step.tick follower) follower

-- Node 2 grants its vote, and node 1 is elected.
abbrev pub granted : Message
granted = record (message MessageType.request_vote_resp) { from = 2; to = 1; term = 2 }

abbrev pub leader : Raft
leader = or_else (Step.handle_message candidate granted) candidate

-- Node 3 acknowledges the entry of the new term, which is committed.
abbrev acknowledged : Message
acknowledged = record (message MessageType.replicate_resp) {
  from = 3;
  to = 1;
  term = 2;
  log_index = 1;
}

abbrev committed : Raft
committed = or_else (Step.handle_message leader acknowledged) leader

election :
    (Step.tick follower ≡ ok candidate)
    × (candidate.term ≡ 2)
    × (length candidate.msgs ≡ 2)
    × (Step.handle_message candidate granted ≡ ok leader)
    × (leader.leader_id ≡ 1)
    × (leader.log.committed ≡ 0)
    × (Step.handle_message leader acknowledged ≡ ok committed)
    × (committed.log.committed ≡ 1)
unfolding program
election = (refl, refl, refl, refl, refl, refl, refl, refl)

handle_message-Advances_example : Advances candidate leader
unfolding program
handle_message-Advances_example = handle_message-Advances candidate leader granted (λ c. cc) refl

tick-Advances_example : Advances follower candidate
unfolding program
tick-Advances_example = tick-Advances follower candidate (omega arith) refl

handle-depth_example :
    (Step.handle_with (Step.handle_with (λ r m. ok r)) candidate granted
      ≡ Step.handle_message candidate granted)
    × (Step.tick_with (Step.handle_with (λ r m. ok r)) candidate ≡ Step.tick candidate)
    × (Step.handle_with Step.handle_message candidate granted
        ≡ Step.handle_message candidate granted)
handle-depth_example = handle-depth (λ r m. ok r) candidate granted

-- The leader before it looks at the acknowledgement's effect on the commit index.
abbrev acknowledging : Raft
acknowledging = record leader { remotes = (1, fresh 1 2) ∷ (2, fresh 0 1) ∷ (3, fresh 1 2) ∷ [] }

abbrev committing : Raft × Bool
committing = or_else (Replication.try_commit acknowledging) (acknowledging, false)

try_commit-quorum_example :
    (0 < committing.0.log.committed)
    × (committing.0.log.committed ≤ EntryLog.last_index leader.log)
    × (EntryLog.term leader.log committing.0.log.committed ≡ ok (fetched 2))
    × (2 ≤ at_least committing.0.log.committed (1 ∷ 0 ∷ 1 ∷ []))
    × ((p : ℕ) → committing.0.log.committed < p → at_least p (1 ∷ 0 ∷ 1 ∷ []) < 2)
unfolding program
try_commit-quorum_example = try_commit-quorum acknowledging committing.0 (omega arith) refl

commit_candidate_lem_example :
    (q : ℕ) × (Replication.commit_candidate acknowledging ≡ ok q)
    × (2 ≤ at_least q (1 ∷ 0 ∷ 1 ∷ []))
    × ((p : ℕ) → q < p → at_least p (1 ∷ 0 ∷ 1 ∷ []) < 2)
unfolding program
commit_candidate_lem_example = commit_candidate_lem acknowledging (omega arith)

sort_match_values_lem_example :
    IsSorted (Replication.sort_match_values (9 ∷ 4 ∷ 7 ∷ 4 ∷ []))
    × (length (Replication.sort_match_values (9 ∷ 4 ∷ 7 ∷ 4 ∷ [])) ≡ 4)
    × ((q : ℕ)
        → at_least q (Replication.sort_match_values (9 ∷ 4 ∷ 7 ∷ 4 ∷ []))
          ≡ at_least q (9 ∷ 4 ∷ 7 ∷ 4 ∷ []))
sort_match_values_lem_example = sort_match_values_lem (9 ∷ 4 ∷ 7 ∷ 4 ∷ [])
