-- ===== src/Raft/Tests/Peers.antt =====
-- Runs of a Peer and of an election of internal/raft, and the theorems on them, at concrete inputs.
use dragonboat.Prelude.{ℕ, refl, true, false, Option, some, List, [], ◌∷◌, arith, ◌>>=◌}
use dragonboat.Pb
use dragonboat.Pb.{ConfigChange, Update, Message, MessageType, message}
use dragonboat.Raft.EntryUtils.{
  is_local_message_type, is_response_message_type, limit_size, check_entries_to_append, max,
}
use dragonboat.Raft.InMemory
use dragonboat.Raft.EntryLog
use dragonboat.Raft.EntryLog.{EntryLog}
use dragonboat.Raft.Node
use dragonboat.Raft.Node.{Raft, State}
use dragonboat.Raft.Transition
use dragonboat.Raft.Safety.Election.{Decided, handle_candidate_request_vote_resp_lem}
use dragonboat.Raft.Peer.{Peer}
use dragonboat.Raft.Peer
use dragonboat.Raft.Peer.Runs.{Call, Runs, run_call, Runs-Advances}
use dragonboat.Raft.Safety.{Advances}
use dragonboat.Raft.Peer.Update
use dragonboat.Raft.Peer.Commit.{IsReady, Done, get_update-commit}
use dragonboat.Raft.Tests.{program, follower, candidate, granted, leader}
use dragonboat.Raft.Tests.Parts
use dragonboat.Raft.Tests.Parts.{log, log-IsValid}

handle_candidate_request_vote_resp_lem_example : Decided candidate granted leader
unfolding program
handle_candidate_request_vote_resp_lem_example =
    handle_candidate_request_vote_resp_lem candidate granted leader refl refl

abbrev peer : Peer
peer = record { raft = record follower { log = log }; prev_state = Pb.empty_state }

peer-IsReady : IsReady log
peer-IsReady = record {
  valid = log-IsValid;
  applied_le = omega arith;
  snapshot_between = λ ss e. cc;
}

-- Entry 4 is applied, 5 and 6 are saved.
abbrev update : Update
update = record {
  cluster_id = 9;
  node_id = 1;
  state = record { term = 1; vote = 0; commit = 4 };
  entries_to_save = Parts.entry 5 1 ∷ Parts.entry 6 2 ∷ [];
  committed_entries = Parts.entry 4 1 ∷ [];
  more_committed_entries = false;
  snapshot = Pb.empty_snapshot;
  ready_to_reads = [];
  messages = [];
  last_applied = 0;
  update_commit = record {
    applied_to = 4;
    stable_log_to = 6;
    stable_log_term = 2;
    stable_snapshot_to = 0;
    ready_to_read = 0;
  };
}

get_update-commit_example : Done peer peer-IsReady update
unfolding ◌>>=◌ Update.get_update Update.get_update_commit EntryLog.entries_to_apply
    EntryLog.get_entries_to_apply EntryLog.has_entries_to_apply EntryLog.first_not_applied_index
    EntryLog.has_more_entries_to_apply EntryLog.get_entries EntryLog.check_bound
    EntryLog.entry_range EntryLog.first_index EntryLog.last_index EntryLog.get_entries_from_logdb
    EntryLog.get_entries_from_inmem InMemory.get_entries InMemory.get_last_index
    InMemory.entries_to_save Node.raft_state limit_size check_entries_to_append max
get_update-commit_example = get_update-commit peer peer-IsReady true update refl

abbrev start : Peer
start = record { raft = follower; prev_state = Pb.empty_state }

abbrev marshal : ConfigChange → Option (List ℕ)
marshal cc = some []

-- The election as calls of a Peer: the clock, and the answer of node 2.
Runs-Advances_example : Advances follower leader
unfolding program run_call Peer.tick Peer.handle is_local_message_type is_response_message_type
Runs-Advances_example = Runs-Advances marshal {p = start} {q = record start { raft = leader }} (
    Runs.call Call.tick {q = record start { raft = candidate }} (omega arith) refl (
      Runs.call (Call.handle granted) {q = record start { raft = leader }}
        (omega arith, omega arith) refl Runs.done))
