-- ===== src/Raft/Tests/Parts.antt =====
-- Runs of the parts of internal/raft, and the theorems on them, at concrete inputs: the remote, the
-- in-memory log and the log.
use dragonboat.Prelude.{
  ℕ, ◌+◌, ◌-◌, ◌≤◌, ◌<◌, ◌≡◌, refl, ap, ◌↔◌, ◌⊎◌, true, none, List, [], ◌∷◌, arith, ltb,
  if◌then◌else◌, length, get_elem?, ok, panic, ◌>>=◌,
}
use dragonboat.Pb
use dragonboat.Pb.{Entry, empty_entry, empty_snapshot}
use dragonboat.Raft.Remote
use dragonboat.Raft.Remote.{Remote, RemoteStateType, fresh}
use dragonboat.Raft.Remote.Progress
use dragonboat.Raft.Remote.Progress.{Call, call, try_update_lem, decrease_to_lem, call-snapshot}
use dragonboat.Raft.InMemory
use dragonboat.Raft.InMemory.{InMemory}
use dragonboat.Raft.InMemory.Window.{IsValid, entry_at}
use dragonboat.Raft.InMemory.Merge.{merge_lem}
use dragonboat.Raft.EntryLog
use dragonboat.Raft.EntryLog.{EntryLog, LogDb, Fetched, fetched, failed, LogError, new_entry_log}
use dragonboat.Raft.EntryUtils.{limit_size, check_entries_to_append, max}
use dragonboat.Raft.EntryLog.Fetch
use dragonboat.Raft.EntryLog.Fetch.{Within, entries_lem}
use dragonboat.Raft.EntryLog.Commit.{up_to_date_lem, append-committed}

abbrev pub entry : ℕ → ℕ → Entry
entry i t = record empty_entry { index = i; term = t }

-- The entries 4, 5 and 6, of which 4 is saved.
abbrev pub window : InMemory
window = record {
  snapshot = none;
  entries = entry 4 1 ∷ entry 5 1 ∷ entry 6 2 ∷ [];
  marker_index = 4;
  saved_to = 4;
}

pub window-IsValid : IsValid window
window-IsValid = record {
  contiguous = (refl, (refl, (refl, tt)));
  positive = omega arith;
  fits = omega arith;
  saved_from = omega arith;
  saved_upto = omega arith;
  snapshot_below = λ ss e n. absurd (omega (arith, ap length n));
}

-- A new leader overwrites entry 6.
merge_lem_example :
    (im' : InMemory) × (InMemory.merge window (entry 6 3 ∷ entry 7 3 ∷ []) ≡ ok im')
    × IsValid im'
    × (im'.marker_index + length im'.entries ≡ 8)
    × (im'.saved_to < 6)
    × ((i : ℕ)
        → im'.marker_index ≤ i
        → entry_at im' i
          ≡ (if ltb i 6 then entry_at window i else get_elem? (entry 6 3 ∷ entry 7 3 ∷ []) (i - 6)))
merge_lem_example = merge_lem window (entry 6 3) (entry 7 3 ∷ []) window-IsValid (record {
  contiguous = (refl, (refl, tt));
  positive = omega arith;
  reach = omega arith;
  fits = omega arith;
  joint = λ l e. ground arith;
})

abbrev pub logdb : LogDb
logdb = record {
  get_range = (1, 3);
  node_state = (Pb.empty_state, Pb.empty_snapshot.membership);
  term = λ i. fetched 1;
  entries = λ _ _ _. failed LogError.unavailable;
  snapshot = empty_snapshot;
}

abbrev pub log : EntryLog
log = record (new_entry_log logdb) { inmem = window; committed = 4; applied = 3 }

abbrev overwritten : EntryLog
overwritten = record log {
  inmem = record window { entries = entry 4 1 ∷ entry 5 1 ∷ entry 6 3 ∷ [] };
}

append-committed_example :
    ((e : Entry) (more : List Entry)
      → (entry 6 3 ∷ []) ≡ e ∷ more
      → e.index ≤ 4
      → EntryLog.append log (entry 6 3 ∷ []) ≡ panic)
    × ((l' : EntryLog)
        → EntryLog.append log (entry 6 3 ∷ []) ≡ ok l'
        → (l'.committed ≡ log.committed)
          × (l'.applied ≡ log.applied)
          × ((i : ℕ) → i ≤ 4 → l'.inmem.marker_index ≤ i → entry_at l'.inmem i ≡ entry_at window i))
append-committed_example = append-committed log (entry 6 3 ∷ []) window-IsValid

up_to_date_lem_example :
    (EntryLog.up_to_date log 7 2 ≡ ok true)
    ↔ ((2 < 2) ⊎ (((entry 6 2).term ≡ 2) × (EntryLog.last_index log ≤ 7)))
unfolding ◌>>=◌ EntryLog.last_term EntryLog.last_index EntryLog.term EntryLog.entry_range
    InMemory.get_last_index InMemory.get_term EntryLog.first_index
up_to_date_lem_example = up_to_date_lem log 7 2 2 refl

-- A node that has 3, and is sent what is above.
abbrev behind : Remote
behind = fresh 3 6

abbrev probing : Remote
probing = record behind { next = 5; state = RemoteStateType.retry }

abbrev receiving : Remote
receiving = record behind { state = RemoteStateType.snapshot; snapshot_index = 9 }

call-snapshot_example :
    ((i : ℕ) → Call.respond ≡ Call.sent i → call Call.respond receiving ≡ panic)
    × ((r' : Remote)
        → call Call.respond receiving ≡ ok r'
        → ((r'.state ≡ RemoteStateType.snapshot) × (Remote.is_paused r' ≡ true))
          ⊎ ((Call.respond ≡ Call.retry)
              ⊎ (Call.respond ≡ Call.wait)
              ⊎ (Call.respond ≡ Call.replicate)
              ⊎ ((Call.respond ≡ Call.respond) × (9 ≤ 3))))
call-snapshot_example = call-snapshot receiving Call.respond refl

pub log-IsValid : Fetch.IsValid log
unfolding EntryLog.last_index InMemory.get_last_index
log-IsValid = record {
  logdb = record { in_order = λ low high limit es h. cc };
  inmem = window-IsValid;
  joined = refl;
  committed_le = omega arith;
}

entries_lem_example : Within 5 (EntryLog.last_index log + 1) (entry 5 1 ∷ entry 6 2 ∷ [])
unfolding ◌>>=◌ EntryLog.entries EntryLog.get_entries EntryLog.check_bound EntryLog.entry_range
    EntryLog.first_index EntryLog.last_index EntryLog.get_entries_from_logdb
    EntryLog.get_entries_from_inmem InMemory.get_entries InMemory.get_last_index limit_size
    check_entries_to_append max
entries_lem_example = entries_lem log log-IsValid 5 1000 (entry 5 1 ∷ entry 6 2 ∷ []) refl
