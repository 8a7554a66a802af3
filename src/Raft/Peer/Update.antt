-- ===== src/Raft/Peer/Update.antt =====
-- internal/raft/peer.go: what a raft node hands to the layers above, and how it learns that this has
-- been processed.
use dragonboat.Prelude.{
  ℕ, Bool, false, not, ◌&&◌, ◌||◌, Option, none, some, List, [], ltb, if◌then◌else◌, length, last?,
  Outcome, ok, ◌>>=◌,
}
use dragonboat.Pb.{
  Entry, last_entry, Snapshot, empty_snapshot, Update, UpdateCommit, is_state_equal, is_empty_state,
  is_empty_snapshot, is_some_snapshot, empty_state,
}
use dragonboat.Pb
use dragonboat.Raft.EntryUtils.{max}
use dragonboat.Raft.EntryLog
use dragonboat.Raft.Node.{Raft, raft_state}
use dragonboat.Raft.Peer.{Peer}

abbrev pub or_empty : Option Snapshot → Snapshot
or_empty none = empty_snapshot
or_empty (some ss) = ss

-- getUpdateCommit: an empty list of entries gives 0, as the empty entry does.
unfoldable pub get_update_commit : Update → UpdateCommit
unfolding max
get_update_commit ud =
    let applied_to = (last_entry ud.committed_entries).index in
    let saved : Entry = last_entry ud.entries_to_save in
    let snapshot_to : ℕ = if is_empty_snapshot ud.snapshot then 0 else ud.snapshot.index in
    record {
      applied_to = if is_empty_snapshot ud.snapshot then applied_to else max applied_to snapshot_to;
      stable_log_to = saved.index;
      stable_log_term = saved.term;
      stable_snapshot_to = snapshot_to;
      ready_to_read = length ud.ready_to_reads;
    }

-- The update without its `update_commit`.
abbrev pub pending_update : Raft → Pb.State → List Entry → Update
pending_update r prev committed = record {
  cluster_id = r.cluster_id;
  node_id = r.node_id;
  state = if is_state_equal (raft_state r) prev then empty_state else raft_state r;
  entries_to_save = EntryLog.entries_to_save r.log;
  committed_entries = committed;
  more_committed_entries = elim (last? committed) [
    | none ↦ false
    | some e ↦ EntryLog.has_more_entries_to_apply r.log e.index
  ];
  snapshot = or_empty r.log.inmem.snapshot;
  ready_to_reads = r.ready_to_read;
  messages = r.msgs;
  last_applied = 0;
  update_commit = record {
    applied_to = 0;
    stable_log_to = 0;
    stable_log_term = 0;
    stable_snapshot_to = 0;
    ready_to_read = 0;
  };
}

unfoldable pub get_update : Peer → Bool → Outcome Update
get_update p more_entries_to_apply = do
  committed ← if more_entries_to_apply then EntryLog.entries_to_apply p.raft.log else ok []
  let ud : Update = pending_update p.raft p.prev_state committed
  ok (record ud { update_commit = get_update_commit ud })

unfoldable pub has_update : Peer → Bool → Bool
has_update p more_entries_to_apply =
    let pst = raft_state p.raft in
    (not (is_empty_state pst) && not (is_state_equal pst p.prev_state))
    || is_some_snapshot p.raft.log.inmem.snapshot
    || ltb 0 (length p.raft.msgs)
    || ltb 0 (length (EntryLog.entries_to_save p.raft.log))
    || (more_entries_to_apply && EntryLog.has_entries_to_apply p.raft.log)
    || ltb 0 (length p.raft.ready_to_read)

unfoldable pub commit : Peer → Update → Outcome Peer
commit p ud = do
  let r1 : Raft = record (p.raft) { msgs = [] }
  let r2 : Raft =
      if ltb 0 ud.update_commit.ready_to_read then record r1 { ready_to_read = [] } else r1
  log ← EntryLog.commit_update r2.log ud.update_commit
  ok (record {
    raft = record r2 { log = log };
    prev_state = if is_empty_state ud.state then p.prev_state else ud.state;
  })
