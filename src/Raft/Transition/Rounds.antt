-- ===== src/Raft/Transition/Rounds.antt =====
-- The loop of `getPendingConfigChangeCount` in internal/raft/raft.go, round by round.
use dragonboat.Prelude.{ℕ, ◌+◌, ◌≡◌, some, List, [], add64, last?, Outcome, ok, panic}
use dragonboat.Pb.{Entry}
use dragonboat.Raft.EntryUtils.{count_config_change}
use dragonboat.Raft.EntryLog
use dragonboat.Raft.EntryLog.{EntryLog, LogError, fetched, failed, max_entries_to_apply_size}
use dragonboat.Raft.Node.{Raft}

-- The loop of the code, from the entry `index` on and with `count` counted so far: how it ends. A derivation
-- is a finite run of rounds; a loop without end has none.
pub data Counts (l : EntryLog) : (index count : ℕ) → Outcome ℕ → Type 0 where
  panics :
      {index count : ℕ}
      → EntryLog.entries l index max_entries_to_apply_size ≡ panic
      → Counts l index count panic
  fails :
      {index count : ℕ} (e : LogError)
      → EntryLog.entries l index max_entries_to_apply_size ≡ ok (failed e)
      → Counts l index count panic
  ends :
      {index count : ℕ}
      → EntryLog.entries l index max_entries_to_apply_size ≡ ok (fetched [])
      → Counts l index count (ok count)
  goes :
      {index count : ℕ} {outcome : Outcome ℕ} (ents : List Entry) (last : Entry)
      → EntryLog.entries l index max_entries_to_apply_size ≡ ok (fetched ents)
      → last? ents ≡ some last
      → Counts l (add64 last.index 1) (count + count_config_change ents) outcome
      → Counts l index count outcome
