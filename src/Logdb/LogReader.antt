-- ===== src/Logdb/LogReader.antt =====
-- internal/logdb/logreader.go: the part of the persistent log that a raft node has not compacted. It
-- fills the interface that internal/raft/logentry.go reads.
pub mod Range
pub mod Reads
use dragonboat.Prelude.{
  ℕ, ◌-◌, not, ◌&&◌, ◌||◌, Option, none, some, List, [], ◌∷◌, ltb, leb, ◌==◌, if◌then◌else◌, add64,
  sub64, length, take, Outcome, ok, panic, ◌>>=◌, ◌>>◌, panic_if,
}
use dragonboat.Pb.{Entry, Snapshot, State, empty_snapshot, empty_state, last_entry}
use dragonboat.Raft.EntryLog.{LogDb, LogError, Fetched, fetched, failed}

pub record LogReader : Type 0 where
  pub state : State
  pub snapshot : Snapshot
  pub marker_index : ℕ
  pub marker_term : ℕ
  pub length : ℕ

abbrev pub new_log_reader : LogReader
new_log_reader = record {
  state = empty_state;
  snapshot = empty_snapshot;
  marker_index = 0;
  marker_term = 0;
  length = 1;
}

-- The part of raftio.ILogDB that it reads: `IterateEntries` for its node, from no entries and size 0.
abbrev pub Store : Type 0
Store = (low high max_size : ℕ) → Fetched (List Entry × ℕ)

unfoldable pub first_index : LogReader → ℕ
first_index lr = add64 lr.marker_index 1

unfoldable pub last_index : LogReader → ℕ
last_index lr = sub64 (add64 lr.marker_index lr.length) 1

-- What `entriesLocked` makes of the entries that it got.
unfoldable pub check_entries :
    LogReader → (low high max_size : ℕ) → List Entry → ℕ → Fetched (List Entry × ℕ)
check_entries lr low high max_size es size =
    if (length es == sub64 high low) || ltb max_size size then fetched (es, size) else elim es [
      | [] ↦ failed LogError.unavailable
      | e ∷ es' ↦
          if ltb low e.index
          then failed LogError.compacted
          else if leb (last_index lr) (add64 (last_entry (e ∷ es')).index 1)
          then failed LogError.unavailable
          else failed LogError.other
    ]

unfoldable pub entries_locked :
    Store → LogReader → (low high max_size : ℕ) → Fetched (List Entry × ℕ)
entries_locked db lr low high max_size =
    if ltb high low
    then failed LogError.other
    else if leb low lr.marker_index
    then failed LogError.compacted
    else if ltb (add64 (last_index lr) 1) high
    then failed LogError.unavailable
    else elim (db low high max_size) [
      | failed e ↦ failed e
      | fetched (es, size) ↦ check_entries lr low high max_size es size
    ]

-- What `Entries` returns of them.
unfoldable pub limited : ℕ → List Entry → ℕ → List Entry
limited max_size es size =
    if ltb 0 max_size && ltb max_size size && ltb 1 (length es)
    then take (length es - 1) es
    else if (max_size == 0) && ltb max_size size && ltb 1 (length es)
    then take 1 es
    else es

unfoldable pub entries : Store → LogReader → (low high max_size : ℕ) → Fetched (List Entry)
entries db lr low high max_size = elim (entries_locked db lr low high max_size) [
  | failed e ↦ failed e
  | fetched (es, size) ↦ fetched (limited max_size es size)
]

unfoldable pub term : Store → LogReader → ℕ → Fetched ℕ
term db lr index =
    if index == lr.marker_index
    then fetched lr.marker_term
    else elim (entries_locked db lr index (add64 index 1) 0) [
      | failed e ↦ failed e
      | fetched ([], size) ↦ fetched 0
      | fetched (e ∷ es, size) ↦ fetched e.term
    ]

-- `none` where it returns no error.
unfoldable pub apply_snapshot : LogReader → Snapshot → Option LogError × LogReader
apply_snapshot lr ss =
    if leb ss.index lr.snapshot.index then (some LogError.snapshot_out_of_date, lr) else (
      none,
      record lr { snapshot = ss; marker_index = ss.index; marker_term = ss.term; length = 1 },
    )

unfoldable pub create_snapshot : LogReader → Snapshot → Option LogError × LogReader
create_snapshot lr ss =
    if leb ss.index lr.snapshot.index
    then (some LogError.snapshot_out_of_date, lr)
    else (none, record lr { snapshot = ss })

-- The end of `SetRange`, for a range that begins behind the marker.
unfoldable pub extend : LogReader → (first n : ℕ) → Outcome LogReader
extend lr first n =
    let offset = sub64 first lr.marker_index in
    if ltb offset lr.length
    then ok (record lr { length = add64 offset n })
    else if lr.length == offset
    then ok (record lr { length = add64 lr.length n })
    else panic

unfoldable pub set_range : LogReader → (first n : ℕ) → Outcome LogReader
set_range lr first n =
    let mine = first_index lr in
    if n == 0
    then ok lr
    else if ltb (sub64 (add64 first n) 1) mine
    then ok lr
    else if ltb first mine
    then extend lr mine (sub64 n (sub64 mine first))
    else extend lr first n

unfoldable pub append : LogReader → List Entry → Outcome LogReader
append lr [] = ok lr
append lr (e ∷ es) = do
  panic_if (not (sub64 (add64 e.index (length (e ∷ es))) 1 == (last_entry (e ∷ es)).index))
  set_range lr e.index (length (e ∷ es))

unfoldable pub set_state : LogReader → State → LogReader
set_state lr st = record lr { state = st }

unfoldable pub compact : Store → LogReader → ℕ → Option LogError × LogReader
compact db lr index =
    if ltb index lr.marker_index
    then (some LogError.compacted, lr)
    else if ltb (last_index lr) index
    then (some LogError.unavailable, lr)
    else elim (term db lr index) [
      | failed e ↦ (some e, lr)
      | fetched t ↦ (
        none,
        record lr {
          length = sub64 lr.length (sub64 index lr.marker_index);
          marker_index = index;
          marker_term = t;
        },
      )
    ]

-- The interface that the raft log reads.
unfoldable pub as_log_db : Store → LogReader → LogDb
as_log_db db lr = record {
  get_range = (first_index lr, last_index lr);
  node_state = (lr.state, lr.snapshot.membership);
  term = term db lr;
  entries = entries db lr;
  snapshot = lr.snapshot;
}
