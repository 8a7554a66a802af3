-- ===== src/Logdb/LogReader/Reads.antt =====
-- internal/logdb/logreader.go over internal/logdb/rdb.go: the log reader keeps the promise that the raft
-- log relies on.
use dragonboat.Prelude.{ℕ, ◌-◌, ◌^◌, ◌<◌, ◌≡◌, refl, sym, subst, List, arith, length, ok, panic}
use dragonboat.Pb.{Entry}
use dragonboat.Raft.InMemory.Window.{Contiguous, Contiguous-take}
use dragonboat.Raft.EntryLog.{LogError, Fetched, fetched, failed}
use dragonboat.Raft.EntryLog.Fetch.{IsLawful}
use dragonboat.Logdb.Rdb.{Rdb, iterate_entries}
use dragonboat.Logdb.Rdb.Iterate.{iterate_entries_lem}
use dragonboat.Logdb.LogReader.{
  LogReader, Store, check_entries, entries_locked, limited, entries, as_log_db,
}

-- The documented behaviour of IterateEntries: the entries are continuous from `low`.
pub record IsStore (db : Store) : Type 0 where
  pub in_order :
      (low high max_size : ℕ) (es : List Entry) (size : ℕ)
      → high < 2 ^ 64
      → db low high max_size ≡ fetched (es, size)
      → Contiguous low es

-- The store of a node. A panic ends the process: no caller sees an answer.
abbrev pub store_of : Rdb → Store
store_of r low high max_size = elim (iterate_entries r low high max_size) [
  | ok p ↦ fetched p
  | panic ↦ failed LogError.other
]

pub store_of-IsStore : (r : Rdb) → IsStore (store_of r)
store_of-IsStore r = record {
  in_order = λ low high max_size es size fits h.
      ((iterate_entries_lem r low high max_size fits).at (es, size) (ground arith)).0;
}

module _ (db : Store) (lr : LogReader) where
  limited-Contiguous :
      (low max_size : ℕ) (es : List Entry) (size : ℕ)
      → Contiguous low es
      → Contiguous low (limited max_size es size)
  unfolding limited
  limited-Contiguous low max_size es size c =
      ground (arith, c, Contiguous-take low (length es - 1) es c, Contiguous-take low 1 es c)

  entries_locked-eq_fetched :
      (low high max_size : ℕ) (es : List Entry) (size : ℕ)
      → entries_locked db lr low high max_size ≡ fetched (es, size)
      → (high < 2 ^ 64) × (db low high max_size ≡ fetched (es, size))
  unfolding entries_locked check_entries
  entries_locked-eq_fetched low high max_size es size h = (ground arith, ground arith)

  entries-eq_fetched :
      (low high max_size : ℕ) (es : List Entry) (o : Fetched (List Entry × ℕ))
      → entries_locked db lr low high max_size ≡ o
      → entries db lr low high max_size ≡ fetched es
      → (p : List Entry × ℕ) × (entries_locked db lr low high max_size ≡ fetched p)
        × (es ≡ limited max_size p.0 p.1)
  unfolding entries
  entries-eq_fetched low high max_size es (fetched p) e h = (p, e, ground arith)
  entries-eq_fetched low high max_size es (failed x) e h = absurd (ground arith)

  pub as_log_db-IsLawful : IsStore db → IsLawful (as_log_db db lr)
  unfolding as_log_db entries
  as_log_db-IsLawful store = record {
    in_order = λ low high limit es h.
        let (p, found, same) = entries-eq_fetched low high limit es _ refl h in
        let (fits, read) = entries_locked-eq_fetched low high limit p.0 p.1 found in
        subst (Contiguous low) (sym same)
          (limited-Contiguous low limit p.0 p.1 (store.in_order low high limit p.0 p.1 fits read));
  }

-- Over the batches of a node, whatever they hold, the log reader is a lawful persistent log for the raft
-- log: what it answers for the entries from `low` begins at `low` and has no gap.
pub rdb-IsLawful : (r : Rdb) (lr : LogReader) → IsLawful (as_log_db (store_of r) lr)
rdb-IsLawful r lr = as_log_db-IsLawful (store_of r) lr (store_of-IsStore r)
