-- ===== src/Logdb/Tests.antt =====
-- internal/logdb, on concrete inputs.
use dragonboat.Prelude.{ℕ, ◌≡◌, refl, none, some, [], ◌∷◌, arith, ok, ◌>>=◌}
use dragonboat.Pb.{Entry, empty_entry}
use dragonboat.Raft.EntryLog.{fetched}
use dragonboat.Raft.EntryLog.Fetch.{IsLawful}
use dragonboat.Logdb.Batch.{
  compact_batch_fields, restore_batch_fields, merge_first_batch, clear_fields, entries_below,
  restore_fields, entries_size,
}
use dragonboat.Logdb.Batch.Fields.{restore-compact, merge_first_batch_lem}
use dragonboat.Logdb.Rdb.{
  Rdb, new_rdb, save_entries, iterate_entries, read_max_index, set_max_index, restored, values,
  expected_batches, get_entry_batch_from_db, iterate_entry_batches, visit, collect, collect_batches,
  get_last_batch, get_merged_first_batch, record_entry_batch, record_batches, record_entries,
  commit_write_batch,
}
use dragonboat.Logdb.LogReader
use dragonboat.Logdb.LogReader.{
  LogReader, new_log_reader, set_range, first_index, last_index, as_log_db,
}
use dragonboat.Logdb.LogReader.Range
use dragonboat.Logdb.LogReader.Range.{set_range_lem}
use dragonboat.Logdb.LogReader.Reads.{store_of, rdb-IsLawful}

abbrev entry : ℕ → ℕ → Entry
entry index term = record empty_entry { index = index; term = term }

abbrev stored : Rdb
stored = record {
  batches =
      (0, entry 1 1 ∷ record empty_entry { index = 0 } ∷ record empty_entry { index = 0 } ∷ [])
      ∷ [];
  max_index = some 3;
  cached_max_index = none;
  last_entry_batch = none;
}

abbrev reader : LogReader
reader = record new_log_reader { length = 4 }

read_back :
    (as_log_db (store_of stored) reader).entries 1 4 10000
    ≡ fetched (entry 1 1 ∷ entry 2 1 ∷ entry 3 1 ∷ [])
unfolding as_log_db LogReader.entries LogReader.entries_locked LogReader.check_entries
    LogReader.limited last_index iterate_entries read_max_index iterate_entry_batches
    get_entry_batch_from_db restored collect_batches collect visit restore_batch_fields
    restore_fields entries_size ◌>>=◌
read_back = refl

-- Over the end of a batch, and over entries that were stored before.
saved :
    (do
      r ← save_entries new_rdb 0 (entry 46 1 ∷ entry 47 1 ∷ entry 48 1 ∷ [])
      r' ← save_entries r 0 (entry 47 2 ∷ entry 48 2 ∷ entry 49 2 ∷ [])
      p ← iterate_entries r' 46 50 10000
      ok p.0)
    ≡ ok (entry 46 1 ∷ entry 47 2 ∷ entry 48 2 ∷ entry 49 2 ∷ [])
unfolding save_entries record_entries record_batches record_entry_batch get_merged_first_batch
    get_last_batch commit_write_batch set_max_index compact_batch_fields clear_fields
    merge_first_batch entries_below iterate_entries read_max_index iterate_entry_batches
    get_entry_batch_from_db values expected_batches restored collect_batches collect visit
    restore_batch_fields restore_fields entries_size ◌>>=◌
saved = refl

rdb-IsLawful_example : IsLawful (as_log_db (store_of stored) reader)
rdb-IsLawful_example = rdb-IsLawful stored reader

restore-compact_example :
    restore_batch_fields (entry 5 2 ∷ entry 0 0 ∷ []) ≡ ok (entry 5 2 ∷ entry 6 2 ∷ [])
unfolding compact_batch_fields clear_fields
restore-compact_example =
    restore-compact (entry 5 2 ∷ entry 6 2 ∷ []) (entry 5 2 ∷ entry 0 0 ∷ []) 5 (omega arith)
      (omega arith) (omega arith) (omega arith) refl

merge_first_batch_lem_example :
    merge_first_batch (entry 6 2 ∷ []) (entry 5 1 ∷ entry 6 1 ∷ [])
    ≡ ok (entry 5 1 ∷ entry 6 2 ∷ [])
merge_first_batch_lem_example =
    merge_first_batch_lem (entry 6 2) (entry 5 1) [] (entry 6 1 ∷ []) (omega arith) (omega arith)
      (omega arith)

set_range_lem_example :
    (lr : LogReader) × (set_range reader 2 1 ≡ ok lr)
    × Range.IsValid lr
    × (first_index lr ≡ 1)
    × (last_index lr ≡ 2)
unfolding first_index last_index
set_range_lem_example =
    set_range_lem reader 2 1 (record { marked = omega arith; fits = omega arith }) (omega arith)
      (omega arith) (omega arith)
