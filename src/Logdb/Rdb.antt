-- ===== src/Logdb/Rdb.antt =====
-- internal/logdb/rdb.go and rdbcache.go: the entries of one raft node in the key-value store, as far as
-- they concern entries. The codec is taken to read what it has written.
pub mod Iterate
use dragonboat.Prelude.{
  ℕ, zero, suc, ◌+◌, ◌-◌, ◌%◌, ◌^◌, Bool, true, false, not, ◌&&◌, Option, none, some, List, [], ◌∷◌,
  ◌++◌, ltb, leb, ◌==◌, if◌then◌else◌, add64, length, Map, get, put, Outcome, ok, panic, ◌>>=◌,
  ◌>>◌,
}
use dragonboat.Pb.{Entry, size_upper_limit, last_entry}
use dragonboat.Logdb.Batch.{
  batch_size, get_batch_id, get_batch_id_range, entries_size, restore_batch_fields,
  compact_batch_fields, merge_first_batch,
}

-- What the store holds for a node, the batches by their ids, and what the cache does.
pub record Rdb : Type 0 where
  pub batches : Map (List Entry)
  pub max_index : Option ℕ
  pub cached_max_index : Option ℕ
  pub last_entry_batch : Option (List Entry)

abbrev pub new_rdb : Rdb
new_rdb = record {
  batches = [];
  max_index = none;
  cached_max_index = none;
  last_entry_batch = none;
}

-- `none` is ErrNoSavedLog.
unfoldable pub read_max_index : Rdb → Option ℕ
read_max_index r = elim r.cached_max_index [ some i ↦ some i | none ↦ r.max_index ]

unfoldable pub set_max_index : Rdb → ℕ → Rdb
set_max_index r index = record r { cached_max_index = some index; max_index = some index }

-- A batch as it is read: the fields restored, if there are several entries.
unfoldable pub restored : List Entry → Outcome (List Entry)
restored eb = if ltb 1 (length eb) then restore_batch_fields eb else ok eb

-- The values that IterateValue visits: of the keys `id`, `id + 1`, … that are there, `n` keys at most.
unfoldable pub values : ℕ → ℕ → Map (List Entry) → List (List Entry)
values zero id m = []
values (suc n) id m =
    let rest = values n (id + 1) m in elim (get m id) [ none ↦ rest | some eb ↦ eb ∷ rest ]

-- The visits of `iterateEntryBatches`, which stop at a batch of another id than the expected one.
unfoldable pub expected_batches : ℕ → List (List Entry) → Outcome (List (List Entry))
expected_batches id [] = ok []
expected_batches id ([] ∷ ebs) = panic
expected_batches id ((e ∷ es) ∷ ebs) =
    let rest : Outcome (List (List Entry)) = (do
      r ← expected_batches (id + 1) ebs
      ok ((e ∷ es) ∷ r)) in
    if not (get_batch_id e.index == id) then ok [] else rest

unfoldable pub get_entry_batch_from_db : Rdb → ℕ → Outcome (Option (List Entry))
get_entry_batch_from_db r id = elim (get r.batches id) [
  | none ↦ ok none
  | some eb ↦ (do es ← restored eb; ok (some es))
]

unfoldable pub iterate_entry_batches : Rdb → (low high : ℕ) → Outcome (List (List Entry))
iterate_entry_batches r low high =
    if low + 1 == high
    then (do
      found ← get_entry_batch_from_db r low
      elim found [ none ↦ ok [] | some eb ↦ ok (eb ∷ []) ])
    else expected_batches low (values (high - low) low r.batches)

-- What the loops of `iterateEntries` have collected, and whether they have returned.
pub record Collected : Type 0 where
  pub entries : List Entry
  pub size : ℕ
  pub exp : ℕ
  pub done : Bool

-- A round of the inner loop.
unfoldable pub visit : (low high max_size : ℕ) → Entry → Collected → Collected
visit low high max_size e c =
    let size = add64 c.size (size_upper_limit e) in
    if not (leb low e.index && ltb e.index high)
    then c
    else if not (e.index == c.exp)
    then record c { done = true }
    else record {
      entries = c.entries ++ (e ∷ []);
      size = size;
      exp = add64 e.index 1;
      done = ltb max_size size;
    }

-- The inner loop, over the entries of a batch.
unfoldable pub collect : (low high max_size : ℕ) → List Entry → Collected → Collected
collect low high max_size [] c = c
collect low high max_size (e ∷ es) c =
    let next = visit low high max_size e c in
    let rest = collect low high max_size es next in if next.done then next else rest

-- The outer loop.
unfoldable pub collect_batches :
    (low high max_size : ℕ) → List (List Entry) → Collected → Outcome Collected
collect_batches low high max_size [] c = ok c
collect_batches low high max_size (eb ∷ ebs) c = do
  es ← restored eb
  let c' = collect low high max_size es c
  let rest = collect_batches low high max_size ebs c'
  if c'.done then ok c' else rest

-- From no entries and size 0, as the log reader calls it.
unfoldable pub iterate_entries : Rdb → (low high max_size : ℕ) → Outcome (List Entry × ℕ)
iterate_entries r low high max_size = elim (read_max_index r) [
  | none ↦ ok ([], 0)
  | some max_index ↦
      let high' = if ltb (add64 max_index 1) high then add64 max_index 1 else high in
      let (low_id, high_id) = get_batch_id_range low high' in
      (do
        ebs ← iterate_entry_batches r low_id high_id
        c ←
            collect_batches low high' max_size ebs
              (record { entries = []; size = 0; exp = low; done = false })
        ok (c.entries, if c.done then c.size else entries_size c.entries % 2 ^ 64))
]

unfoldable pub get_last_batch : Rdb → ℕ → Outcome (Option (List Entry))
get_last_batch r first_index =
    let from_db = get_entry_batch_from_db r (get_batch_id first_index) in
    elim r.last_entry_batch [
      | none ↦ from_db
      | some [] ↦ panic
      | some (l ∷ ls) ↦
          if ltb (get_batch_id first_index) (get_batch_id l.index)
          then from_db
          else ok (some (l ∷ ls))
    ]

unfoldable pub get_merged_first_batch : Rdb → List Entry → Outcome (List Entry)
get_merged_first_batch r [] = panic
get_merged_first_batch r (e ∷ es) = if e.index % batch_size == 0 then ok (e ∷ es) else do
  last ← get_last_batch r e.index
  elim last [ none ↦ ok (e ∷ es) | some lb ↦ merge_first_batch (e ∷ es) lb ]

-- The puts of a write batch are done when it is committed: `wb` has those that wait.
unfoldable pub record_entry_batch :
    Rdb → Map (List Entry) → List Entry → (first_id last_id : ℕ) → Outcome (Rdb × Map (List Entry))
record_entry_batch r wb [] first_id last_id = ok (r, wb)
record_entry_batch r wb (e ∷ es) first_id last_id =
    let id = get_batch_id e.index in
    do
      meb ← (if first_id == id then get_merged_first_batch r (e ∷ es) else ok (e ∷ es))
      let r' = if last_id == id then record r { last_entry_batch = some meb } else r
      stored ← (if ltb 1 (length meb) then compact_batch_fields meb else ok meb)
      ok (r', put wb id stored)

-- The loop of `recordEntries`; `current` is none before the first batch.
unfoldable pub record_batches :
    Rdb
    → Map (List Entry)
    → List Entry
    → (eb : List Entry) → (current : Option ℕ) → (first_id last_id max_index : ℕ)
    → Outcome ((Rdb × Map (List Entry)) × ℕ)
record_batches r wb [] eb current first_id last_id max_index = do
  p ← record_entry_batch r wb eb first_id last_id
  ok (p, max_index)
record_batches r wb (ent ∷ ents) eb current first_id last_id max_index =
    let id = get_batch_id ent.index in
    let same : Bool = elim current [ none ↦ false | some c ↦ id == c ] in
    do
      (r', wb') ← (if same then ok (r, wb) else record_entry_batch r wb eb first_id last_id)
      record_batches r' wb' ents (if same then eb ++ (ent ∷ []) else ent ∷ []) (some id) first_id
          last_id (if ltb max_index ent.index then ent.index else max_index)

unfoldable pub record_entries : Rdb → List Entry → Outcome ((Rdb × Map (List Entry)) × ℕ)
record_entries r [] = panic
record_entries r (e ∷ es) =
    record_batches r [] (e ∷ es) [] none (get_batch_id e.index)
      (get_batch_id (last_entry (e ∷ es)).index) 0

-- The puts of the batches.
unfoldable pub commit_write_batch : Map (List Entry) → Rdb → Rdb
commit_write_batch [] r = r
commit_write_batch ((id, eb) ∷ wb) r =
    commit_write_batch wb (record r { batches = put r.batches id eb })

-- `saveRaftState` for the entries and the snapshot of one update.
unfoldable pub save_entries : Rdb → (snapshot_index : ℕ) → List Entry → Outcome Rdb
save_entries r snapshot_index es =
    let snap = if snapshot_index == 0 then r else set_max_index r snapshot_index in
    let save : Outcome Rdb = (do
      ((r', wb), max_index) ← record_entries snap es
      let r'' = if ltb 0 max_index then set_max_index r' max_index else r'
      ok (commit_write_batch wb r'')) in
    if length es == 0
    then ok snap
    else if not (snapshot_index == 0) && ltb (last_entry es).index snapshot_index
    then panic
    else save
