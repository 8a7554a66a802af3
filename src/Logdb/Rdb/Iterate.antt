-- ===== src/Logdb/Rdb/Iterate.antt =====
-- internal/logdb/rdb.go: what iterateEntries reads, whatever the store holds.
use dragonboat.Prelude.{
  ℕ, ◌+◌, ◌^◌, ◌≤◌, ◌<◌, ◌≡◌, refl, ◌⊎◌, inl, false, List, [], ◌∷◌, arith, ltb, if◌then◌else◌,
  add64, length, length-append, Ensures, Ensures-ok, Ensures-if, Ensures-option, Ensures-bind,
  Ensures-then,
}
use dragonboat.Pb.{Entry}
use dragonboat.Raft.InMemory.Window.{Contiguous, Contiguous-append}
use dragonboat.Logdb.Batch.{get_batch_id_range}
use dragonboat.Logdb.Rdb.{
  Rdb, read_max_index, restored, iterate_entry_batches, Collected, visit, collect, collect_batches,
  iterate_entries,
}

-- The entries that were collected are the log from `low`, and end below `high`.
pub record Inside (low high : ℕ) (c : Collected) : Type 0 where
  pub contiguous : Contiguous low c.entries
  pub expects : c.exp ≡ low + length c.entries
  pub below : (c.entries ≡ []) ⊎ (low + length c.entries ≤ high)

module _ (low high max_size : ℕ) (fits : high < 2 ^ 64) where
  visit-Inside :
      (e : Entry) (c : Collected)
      → Inside low high c
      → Inside low high (visit low high max_size e c)
  unfolding visit
  visit-Inside e c v = record {
    contiguous = ground (
      arith,
      λ (h : e.index ≡ c.exp).
          Contiguous-append low c.entries (e ∷ []) v.contiguous (omega (arith, v.expects), tt),
    );
    expects = ground (arith, length-append c.entries (e ∷ []), v.expects);
    below = ground (arith, length-append c.entries (e ∷ []), v.expects, v.below);
  }

  collect-Inside :
      (es : List Entry) (c : Collected)
      → Inside low high c
      → Inside low high (collect low high max_size es c)
  unfolding collect
  collect-Inside [] c v = v
  collect-Inside (e ∷ es) c v =
      let v' = visit-Inside e c v in
      ground (arith, v', collect-Inside es (visit low high max_size e c) v')

  collect_batches-Inside :
      (ebs : List (List Entry)) (c : Collected)
      → Inside low high c
      → Ensures (Inside low high) (collect_batches low high max_size ebs c)
  unfolding collect_batches
  collect_batches-Inside [] c v = Ensures-ok _ v
  collect_batches-Inside (eb ∷ ebs) c v = Ensures-bind (restored eb) _ (λ es _.
      let v' = collect-Inside es c v in
      Ensures-if (collect low high max_size es c).done _ _ (λ _. Ensures-ok _ v')
        (λ _. collect_batches-Inside ebs (collect low high max_size es c) v'))

pub iterate_entries_lem :
    (r : Rdb) (low high max_size : ℕ)
    → high < 2 ^ 64
    → Ensures
        (λ (es, size). Contiguous low es × ((es ≡ []) ⊎ (low + length es ≤ high)))
        (iterate_entries r low high max_size)
unfolding iterate_entries
iterate_entries_lem r low high max_size fits =
    Ensures-option (read_max_index r) _ _ (λ _. Ensures-ok _ (tt, inl refl))
      (λ max_index _.
        let high' = if ltb (add64 max_index 1) high then add64 max_index 1 else high in
        let start : Collected = record { entries = []; size = 0; exp = low; done = false } in
        Ensures-bind
          (iterate_entry_batches r (get_batch_id_range low high').0
            (get_batch_id_range low high').1)
          _
          (λ ebs _.
            Ensures-then _ _
              (collect_batches-Inside low high' max_size (ground arith) ebs start
                (record { contiguous = tt; expects = omega arith; below = inl refl }))
              (λ c v. Ensures-ok _ (v.contiguous, ground (arith, v.below)))))
