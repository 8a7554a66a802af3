-- ===== src/Raft/InMemory.antt =====
-- internal/raft/inmemory.go: the entries that are not yet both persisted and applied.
-- The capacity of the slice, which `resizeEntrySlice` manages, is not modelled: it copies the entries
-- to a larger array and leaves them as they are. An index out of range panics, as in Go.
-- `Window` has the invariant, `Merge` and `Reads` what the operations do to the window.
pub mod Window
pub mod Merge
pub mod Reads
pub mod Saving
use dragonboat.Prelude.{
  ℕ, ◌-◌, ◌||◌, Option, none, some, List, [], ◌∷◌, ◌++◌, ltb, leb, ◌==◌, ◌!=◌, if◌then◌else◌, add64,
  sub64, length, get_elem?, take, drop, last?, Outcome, ok, panic, ◌>>=◌, ◌>>◌,
}
use dragonboat.Pb.{Entry, Snapshot, UpdateCommit}
use dragonboat.Raft.EntryUtils.{min, check_entries_to_append}

pub record InMemory : Type 0 where
  pub snapshot : Option Snapshot
  pub entries : List Entry
  pub marker_index : ℕ
  pub saved_to : ℕ

abbrev pub new_in_memory : ℕ → InMemory
new_in_memory last_index = record {
  snapshot = none;
  entries = [];
  marker_index = add64 last_index 1;
  saved_to = last_index;
}

unfoldable pub check_marker_index : InMemory → Outcome InMemory
check_marker_index im = elim im.entries [
  | [] ↦ ok im
  | e ∷ es ↦ if e.index != im.marker_index then panic else ok im
]

unfoldable pub get_entries : InMemory → ℕ → ℕ → Outcome (List Entry)
get_entries im low high =
    let upper_bound = add64 im.marker_index (length im.entries) in
    if ltb high low || ltb low im.marker_index
    then panic
    else if ltb upper_bound high
    then panic
    else ok (take (high - low) (drop (low - im.marker_index) im.entries))

unfoldable pub get_snapshot_index : InMemory → Option ℕ
get_snapshot_index im = elim im.snapshot [ some ss ↦ some ss.index | none ↦ none ]

unfoldable pub get_last_index : InMemory → Option ℕ
unfolding get_snapshot_index
get_last_index im = elim (last? im.entries) [ some e ↦ some e.index | none ↦ get_snapshot_index im ]

-- `entries[i].Term`
abbrev pub term_at : List Entry → ℕ → Outcome ℕ
term_at es i = elim (get_elem? es i) [ some e ↦ ok e.term | none ↦ panic ]

-- The term of the snapshot at `index`, if that is the snapshot's index.
abbrev pub snapshot_term : Option Snapshot → ℕ → Option ℕ
snapshot_term none index = none
snapshot_term (some ss) index = if ss.index == index then some ss.term else none

abbrev pub term_upto : InMemory → Option ℕ → ℕ → Outcome (Option ℕ)
term_upto im none index = ok none
term_upto im (some last) index =
    if leb index last
    then (do t ← term_at im.entries (index - im.marker_index); ok (some t))
    else ok none

unfoldable pub get_term : InMemory → ℕ → Outcome (Option ℕ)
unfolding ◌>>=◌ get_last_index
get_term im index =
    if ltb index im.marker_index
    then ok (snapshot_term im.snapshot index)
    else term_upto im (get_last_index im) index

unfoldable pub entries_to_save : InMemory → List Entry
entries_to_save im =
    let idx = add64 im.saved_to 1 in
    if ltb (length im.entries) (sub64 idx im.marker_index)
    then []
    else drop (sub64 idx im.marker_index) im.entries

unfoldable pub saved_log_to : InMemory → ℕ → ℕ → Outcome InMemory
unfolding ◌>>=◌
saved_log_to im index term = if ltb index im.marker_index then ok im else elim (last? im.entries) [
  | none ↦ ok im
  | some l ↦ if ltb l.index index then ok im else do
    t ← term_at im.entries (index - im.marker_index)
    if term != t then ok im else ok (record im { saved_to = index })
]

unfoldable pub applied_log_to : InMemory → ℕ → Outcome InMemory
unfolding check_marker_index
applied_log_to im index = if ltb index im.marker_index then ok im else elim (last? im.entries) [
  | none ↦ ok im
  | some l ↦
      if ltb l.index index
      then ok im
      else check_marker_index
          (record im { entries = drop (index - im.marker_index) im.entries; marker_index = index })
]

unfoldable pub saved_snapshot_to : InMemory → ℕ → InMemory
saved_snapshot_to im index = elim im.snapshot [
  | none ↦ im
  | some ss ↦ if ss.index == index then record im { snapshot = none } else im
]

unfoldable pub commit_update : InMemory → UpdateCommit → Outcome InMemory
unfolding ◌>>=◌ saved_log_to saved_snapshot_to
commit_update im cu = do
  im' ←
      if ltb 0 cu.stable_log_to then saved_log_to im cu.stable_log_to cu.stable_log_term else ok im
  ok (if ltb 0 cu.stable_snapshot_to then saved_snapshot_to im' cu.stable_snapshot_to else im')

-- The three cases of `merge`, by where the new entries begin.
unfoldable pub merge_from : InMemory → ℕ → List Entry → Outcome InMemory
unfolding ◌>>=◌ get_entries check_entries_to_append min
merge_from im first_new_index ents =
    if first_new_index == add64 im.marker_index (length im.entries)
    then (do
      check_entries_to_append im.entries ents
      ok (record im { entries = im.entries ++ ents }))
    else if leb first_new_index im.marker_index
    then ok (record im {
      marker_index = first_new_index;
      entries = ents;
      saved_to = sub64 first_new_index 1;
    })
    else do
      existing ← get_entries im im.marker_index first_new_index
      check_entries_to_append existing ents
      ok (record im {
        entries = existing ++ ents;
        saved_to = min im.saved_to (sub64 first_new_index 1);
      })

-- `ents[0]` panics on an empty slice.
unfoldable pub merge : InMemory → List Entry → Outcome InMemory
unfolding ◌>>=◌ merge_from check_marker_index
merge im [] = panic
merge im (e ∷ es) = do im' ← merge_from im e.index (e ∷ es); check_marker_index im'

unfoldable pub restore : InMemory → Snapshot → InMemory
restore im ss = record {
  snapshot = some ss;
  entries = [];
  marker_index = add64 ss.index 1;
  saved_to = ss.index;
}
