-- ===== src/Requests/Reads.antt =====
-- pendingReadIndex of requests.go: the linearizable reads of a node that wait until the state machine has
-- applied what they have to see. A method is one step. The random source is the list of what it
-- yields.
pub mod Applied
mod Tests
use dragonboat.Prelude.{
  ℕ, ◌/◌, ◌⊎◌, inl, inr, Bool, true, false, not, ◌&&◌, Option, none, some, List, [], ◌∷◌, ◌++◌, ltb,
  ◌==◌, if◌then◌else◌, add64, sub64, length, Map, get, has_key, put, keys, Outcome, ok, panic,
  ◌>>=◌, ◌>>◌, panic_if,
}
use dragonboat.Pb.{SystemCtx, ReadyToRead, ctx_eq}
use dragonboat.Queue.ReadIndexQueue
use dragonboat.Queue.ReadIndexQueue.{ReadIndexQueue}
use dragonboat.Requests.{
  RequestResultCode, RequestResult, get_terminated_result, RequestState, LogicalClock,
  get_timeout_tick,
}
use dragonboat.Requests.Proposals.{
  ProposeError, default_gc_tick, terminate_all, expired, tell_timeout, delete_keys,
}

abbrev pub sys_gc_millisecond : ℕ
sys_gc_millisecond = 15000

-- `told` is what the requests have been told so far.
pub record PendingReadIndex : Type 0 where
  pub seq_key : ℕ
  pub pending : Map RequestState
  pub batches : List (SystemCtx × ℕ)
  pub mapping : Map SystemCtx
  pub system : SystemCtx
  pub system_gc_time : List (SystemCtx × ℕ)
  pub requests : ReadIndexQueue RequestState
  pub stopped : Bool
  pub clock : LogicalClock
  pub told : List (RequestState × RequestResult)

-- The map `batches`, with contexts as keys.
unfoldable pub get_batch : List (SystemCtx × ℕ) → SystemCtx → Option ℕ
get_batch [] ctx = none
get_batch ((c, i) ∷ m) ctx = if ctx_eq c ctx then some i else get_batch m ctx

unfoldable pub put_batch : List (SystemCtx × ℕ) → SystemCtx → ℕ → List (SystemCtx × ℕ)
put_batch [] ctx index = (ctx, index) ∷ []
put_batch ((c, i) ∷ m) ctx index =
    let rest = put_batch m ctx index in if ctx_eq c ctx then (c, index) ∷ m else (c, i) ∷ rest

unfoldable pub delete_batch : List (SystemCtx × ℕ) → SystemCtx → List (SystemCtx × ℕ)
delete_batch [] ctx = []
delete_batch ((c, i) ∷ m) ctx =
    let rest = delete_batch m ctx in if ctx_eq c ctx then rest else (c, i) ∷ rest

-- `none` while the source yields no two numbers without a zero.
unfoldable pub next_system_ctx : List ℕ → Option (SystemCtx × List ℕ)
next_system_ctx [] = none
next_system_ctx (low ∷ []) = none
next_system_ctx (low ∷ high ∷ rng) =
    let rest = next_system_ctx rng in
    if not (low == 0) && not (high == 0)
    then some (record { low = low; high = high }, rng)
    else rest

unfoldable pub new_pending_read_index :
    ReadIndexQueue RequestState
    → (tick_in_millisecond : ℕ) → List ℕ
    → Option (PendingReadIndex × List ℕ)
new_pending_read_index requests tick_in_millisecond rng = elim (next_system_ctx rng) [
  | none ↦ none
  | some (system, rng') ↦ some (
    record {
      seq_key = 0;
      pending = [];
      batches = [];
      mapping = [];
      system = system;
      system_gc_time = [];
      requests = requests;
      stopped = false;
      clock = record {
        tick = 0;
        last_gc_time = 0;
        gc_tick = default_gc_tick;
        tick_in_millisecond = tick_in_millisecond;
      };
      told = [];
    },
    rng',
  )
]

-- The first loop of `close`, over what the queue holds; a nil request panics in `notify`.
unfoldable pub terminate_queued :
    List (Option RequestState) → Outcome (List (RequestState × RequestResult))
terminate_queued [] = ok []
terminate_queued (none ∷ rs) = panic
terminate_queued (some r ∷ rs) = do
  told ← terminate_queued rs
  ok ((r, get_terminated_result) ∷ told)

unfoldable pub close : PendingReadIndex → Outcome PendingReadIndex
close p = do
  (requests, tmp) ← ReadIndexQueue.get RequestState (ReadIndexQueue.close RequestState p.requests)
  queued ← terminate_queued tmp
  ok (record p {
    stopped = true;
    requests = requests;
    told = p.told ++ (queued ++ terminate_all p.pending);
  })

-- The part of `read` behind its check.
unfoldable pub enqueue_read :
    PendingReadIndex → RequestState → Outcome ((ProposeError ⊎ RequestState) × PendingReadIndex)
enqueue_read p req = do
  (requests, added, closed) ← ReadIndexQueue.add RequestState p.requests req
  let p' = record p { seq_key = req.key; requests = requests }
  if closed
      then ok (inl ProposeError.err_cluster_closed, p')
      else if not added
      then ok (inl ProposeError.err_system_busy, p')
      else ok (inr req, p')

unfoldable pub read :
    PendingReadIndex → (timeout : ℕ) → Outcome ((ProposeError ⊎ RequestState) × PendingReadIndex)
read p timeout = do
  timeout_tick ← get_timeout_tick p.clock timeout
  let req : RequestState = record {
    key = add64 p.seq_key 1;
    client_id = 0;
    series_id = 0;
    deadline = add64 p.clock.tick timeout_tick;
  }
  if timeout_tick == 0 then ok (inl ProposeError.err_timeout_too_small, p) else enqueue_read p req

-- The context for the next batch of reads, which is cached until the batch is sent.
unfoldable pub next_ctx :
    PendingReadIndex → List ℕ → Outcome (Option (SystemCtx × PendingReadIndex × List ℕ))
next_ctx p rng = do
  panic_if (p.clock.tick_in_millisecond == 0)
  let expire = add64 p.clock.tick (sys_gc_millisecond / p.clock.tick_in_millisecond)
  ok (elim (next_system_ctx rng) [
    | none ↦ none
    | some (system, rng') ↦ some (
      p.system,
      record p { system = system; system_gc_time = p.system_gc_time ++ ((p.system, expire) ∷ []) },
      rng',
    )
  ])

abbrev pub peep_next_ctx : PendingReadIndex → SystemCtx
peep_next_ctx p = p.system

unfoldable pub put_batches : List ReadyToRead → List (SystemCtx × ℕ) → List (SystemCtx × ℕ)
put_batches [] m = m
put_batches (v ∷ vs) m = put_batches vs (put_batch m v.system_ctx v.index)

unfoldable pub add_ready_to_read : PendingReadIndex → List ReadyToRead → PendingReadIndex
add_ready_to_read p read_states = record p { batches = put_batches read_states p.batches }

-- The loop of `addPendingRead`.
unfoldable pub put_reads :
    SystemCtx → List RequestState → PendingReadIndex → Outcome PendingReadIndex
put_reads system [] p = ok p
put_reads system (req ∷ reqs) p = do
  panic_if (has_key p.pending req.key)
  put_reads system reqs
      (record p { pending = put p.pending req.key req; mapping = put p.mapping req.key system })

unfoldable pub add_pending_read :
    PendingReadIndex → SystemCtx → List RequestState → Outcome PendingReadIndex
add_pending_read p system reqs = if p.stopped then ok p else put_reads system reqs p

-- The first loop of `applied`: the reads whose batch is ready, and whose index is applied.
unfoldable pub due : PendingReadIndex → ℕ → Map RequestState → Outcome (Map RequestState)
due p applied [] = ok []
due p applied ((k, r) ∷ m) = do
  rest ← due p applied m
  elim (get p.mapping k) [
    | none ↦ panic
    | some system_ctx ↦ elim (get_batch p.batches system_ctx) [
      | none ↦ ok rest
      | some index ↦ if ltb applied index then ok rest else ok ((k, r) ∷ rest)
    ]
  ]

unfoldable pub tell_reads : ℕ → Map RequestState → List (RequestState × RequestResult)
tell_reads now [] = []
tell_reads now ((k, r) ∷ m) =
    (
      r,
      record {
        code =
            if ltb now r.deadline
            then RequestResultCode.request_completed
            else RequestResultCode.request_timeout;
        result = 0;
      },
    )
    ∷ tell_reads now m

-- The first loop of `gc`: the batches of contexts that are too old, and the contexts that stay.
unfoldable pub drop_contexts :
    ℕ → List (SystemCtx × ℕ) → List (SystemCtx × ℕ) → List (SystemCtx × ℕ) × List (SystemCtx × ℕ)
drop_contexts now [] batches = ([], batches)
drop_contexts now ((ctx, expire) ∷ times) batches =
    let rest = drop_contexts now times (delete_batch batches ctx) in
    if ltb expire now then rest else ((ctx, expire) ∷ times, batches)

unfoldable pub gc : PendingReadIndex → ℕ → PendingReadIndex
gc p now =
    let (times, batches) = drop_contexts now p.system_gc_time p.batches in
    let out = expired p.pending now in
    record p {
      system_gc_time = times;
      batches = batches;
      told = p.told ++ tell_timeout out;
      pending = delete_keys (keys out) p.pending;
      mapping = delete_keys (keys out) p.mapping;
    }

unfoldable pub applied : PendingReadIndex → ℕ → Outcome PendingReadIndex
applied p n =
    let now = p.clock.tick in
    if p.stopped
    then ok p
    else if (length p.pending == 0) && ltb (length p.system_gc_time) sys_gc_millisecond
    then ok p
    else do
      out ← due p n p.pending
      let p1 = record p {
        told = p.told ++ tell_reads now out;
        pending = delete_keys (keys out) p.pending;
        mapping = delete_keys (keys out) p.mapping;
      }
      ok (
          if ltb (sub64 now p.clock.last_gc_time) p.clock.gc_tick
          then p1
          else gc (record p1 { clock = record p.clock { last_gc_time = now } }) now)
