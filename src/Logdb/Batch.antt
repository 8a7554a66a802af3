-- ===== src/Logdb/Batch.antt =====
-- internal/logdb/batch.go: entries stored in batches of consecutive indices.
pub mod Fields
use dragonboat.Prelude.{
  ℕ, ◌+◌, ◌/◌, ◌%◌, ◌&&◌, List, [], ◌∷◌, ◌++◌, ltb, leb, ◌==◌, if◌then◌else◌, add64, length,
  Outcome, ok, panic,
}
use dragonboat.Pb.{Entry, size_upper_limit, last_entry}

-- settings.Hard.LogDBEntryBatchSize, by default
abbrev pub batch_size : ℕ
batch_size = 48

abbrev pub get_batch_id : ℕ → ℕ
get_batch_id index = index / batch_size

unfoldable pub entries_size : List Entry → ℕ
entries_size [] = 0
entries_size (e ∷ es) = size_upper_limit e + entries_size es

-- The ids of the batches of the entries [low, high).
abbrev pub get_batch_id_range : ℕ → ℕ → ℕ × ℕ
get_batch_id_range low high =
    if high % batch_size == 0
    then (get_batch_id low, get_batch_id high)
    else (get_batch_id low, get_batch_id high + 1)

-- The loop of `restoreBatchFields`, from the entry with index `index`.
unfoldable pub restore_fields : (term index : ℕ) → List Entry → List Entry
restore_fields term index [] = []
restore_fields term index (e ∷ es) =
    record e { term = term; index = index } ∷ restore_fields term (add64 index 1) es

unfoldable pub restore_batch_fields : List Entry → Outcome (List Entry)
restore_batch_fields [] = panic
restore_batch_fields (e ∷ []) = panic
restore_batch_fields (e ∷ f ∷ es) =
    if (last_entry (f ∷ es)).term == 0
    then ok (e ∷ restore_fields e.term (add64 e.index 1) (f ∷ es))
    else ok (e ∷ f ∷ es)

-- The loop of `compactBatchFields`.
unfoldable pub clear_fields : List Entry → List Entry
clear_fields [] = []
clear_fields (e ∷ es) = record e { term = 0; index = 0 } ∷ clear_fields es

unfoldable pub compact_batch_fields : List Entry → Outcome (List Entry)
compact_batch_fields [] = panic
compact_batch_fields (e ∷ []) = panic
compact_batch_fields (e ∷ f ∷ es) =
    let last = last_entry (f ∷ es) in
    if (e.term == last.term) && (add64 e.index (length (f ∷ es)) == last.index)
    then ok (e ∷ clear_fields (f ∷ es))
    else ok (e ∷ f ∷ es)

-- The loop of `getMergedFirstBatch`: the entries in front of the first one at or above an index.
unfoldable pub entries_below : ℕ → List Entry → List Entry
entries_below index [] = []
entries_below index (e ∷ es) =
    let rest = entries_below index es in if leb index e.index then [] else e ∷ rest

-- The new batch `eb` over the last batch `lb`.
unfoldable pub merge_first_batch : List Entry → List Entry → Outcome (List Entry)
merge_first_batch [] lb = panic
merge_first_batch (e ∷ es) [] = panic
merge_first_batch (e ∷ es) (l ∷ ls) =
    let batch_id = get_batch_id e.index in
    let merged =
      if leb e.index (last_entry (l ∷ ls)).index
      then entries_below e.index (l ∷ ls) ++ (e ∷ es)
      else (l ∷ ls) ++ (e ∷ es) in
    if ltb batch_id (get_batch_id l.index)
    then panic
    else if ltb (get_batch_id l.index) batch_id
    then ok (e ∷ es)
    else if ltb l.index e.index
    then ok merged
    else ok (e ∷ es)
