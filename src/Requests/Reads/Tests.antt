-- ===== src/Requests/Reads/Tests.antt =====
-- pendingReadIndex of requests.go, on concrete inputs: two reads of one batch.
use dragonboat.Prelude.{ℕ, ◌≡◌, refl, false, some, [], ◌∷◌, Outcome, ok, panic, ◌>>=◌}
use dragonboat.Pb.{SystemCtx}
use dragonboat.Queue.ReadIndexQueue.{new_read_index_queue}
use dragonboat.Requests.{RequestResultCode, RequestState}
use dragonboat.Requests.Proposals.{delete_keys}
use dragonboat.Requests.Reads.{
  PendingReadIndex, get_batch, put_batch, next_system_ctx, put_batches, add_ready_to_read,
  put_reads, add_pending_read, due, tell_reads, applied,
}
use dragonboat.Requests.Reads.Applied.{Tells, applied-Tells}

abbrev batch : SystemCtx
batch = record { low = 5; high = 6 }

abbrev read : (key deadline : ℕ) → RequestState
read key deadline = record { key = key; client_id = 0; series_id = 0; deadline = deadline }

abbrev table : PendingReadIndex
table = record {
  seq_key = 2;
  pending = (1, read 1 9) ∷ (2, read 2 0) ∷ [];
  batches = (batch, 4) ∷ [];
  mapping = (1, batch) ∷ (2, batch) ∷ [];
  system = record { low = 7; high = 8 };
  system_gc_time = (batch, 15000) ∷ [];
  requests = new_read_index_queue RequestState 1;
  stopped = false;
  clock = record { tick = 1; last_gc_time = 0; gc_tick = 2; tick_in_millisecond = 1 };
  told = [];
}

abbrev left_by : Outcome PendingReadIndex → PendingReadIndex
left_by (ok p) = p
left_by panic = table

-- The index of the batch is 4: at 3 the reads wait, at 4 the one that is in time completes.
served :
    ((left_by (applied table 3)).told ≡ [])
    × ((left_by (applied table 4)).told
        ≡ (read 1 9, record { code = RequestResultCode.request_completed; result = 0 })
          ∷ (read 2 0, record { code = RequestResultCode.request_timeout; result = 0 })
          ∷ [])
    × ((left_by (applied table 4)).pending ≡ [])
    × ((add_ready_to_read table (record { index = 9; system_ctx = batch } ∷ [])).batches
        ≡ (batch, 9) ∷ [])
    × (add_pending_read table batch (read 2 9 ∷ []) ≡ panic)
    × (next_system_ctx (0 ∷ 3 ∷ 5 ∷ 6 ∷ []) ≡ some (batch, []))
unfolding applied due get_batch tell_reads delete_keys add_ready_to_read put_batches put_batch
    add_pending_read put_reads next_system_ctx ◌>>=◌
served = (refl, refl, refl, refl, refl, refl)

applied-Tells_example : Tells table 4 (applied table 4)
applied-Tells_example = applied-Tells table 4 (refl, refl, (refl, refl, tt))
