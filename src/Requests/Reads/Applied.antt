-- ===== src/Requests/Reads/Applied.antt =====
-- pendingReadIndex of requests.go: a read completes only when what it has to see has been applied.
use dragonboat.Prelude.{
  ℕ, ◌≤◌, ◌<◌, ◌≡◌, refl, sym, subst, ◌⊎◌, inl, inr, true, ◌&&◌, some, List, [], ◌∷◌, ◌++◌,
  append_assoc, append-nil, arith, ltb, ◌==◌, Bool-cases, Option-cases, if_cases, sub64, length,
  All, Map, get, has_key, put, delete, keys, has_key-put, has_key-delete, has_key-get, Outcome, ok,
  ◌>>=◌, Ensures, Ensures-ok, Ensures-panic_if,
}
use dragonboat.Pb.{SystemCtx}
use dragonboat.Requests.{RequestResultCode, RequestResult, RequestState, get_timeout_result}
use dragonboat.Requests.Proposals.{expired, tell_timeout, delete_keys}
use dragonboat.Requests.Reads
use dragonboat.Requests.Reads.{
  sys_gc_millisecond, PendingReadIndex, get_batch, put_reads, add_pending_read, due, tell_reads, gc,
}

-- Each read stands under its own key and belongs to a batch.
abbrev pub IsMapped : Map SystemCtx → Map RequestState → Type 0
IsMapped mapping [] = Unit
IsMapped mapping ((k, r) ∷ m) = (r.key ≡ k) × (has_key mapping k ≡ true) × IsMapped mapping m

abbrev pub IsValid : PendingReadIndex → Type 0
IsValid p = IsMapped p.mapping p.pending

-- The batch of the read is ready at an index that is applied.
abbrev pub IsReady : PendingReadIndex → ℕ → ℕ → Type 0
IsReady p n k =
    (ctx : SystemCtx) × (index : ℕ) × (get p.mapping k ≡ some ctx)
    × (get_batch p.batches ctx ≡ some index)
    × (index ≤ n)

-- What a read may be told: that it has completed if it is ready and in time, and else that it has timed
-- out.
abbrev pub IsJustified : PendingReadIndex → ℕ → RequestState × RequestResult → Type 0
IsJustified p n (r, x) =
    (x ≡ get_timeout_result)
    ⊎ ((x ≡ record { code = RequestResultCode.request_completed; result = 0 })
        × (p.clock.tick < r.deadline)
        × IsReady p n r.key)

abbrev AllReady : PendingReadIndex → ℕ → Map RequestState → Type 0
AllReady p n [] = Unit
AllReady p n ((k, r) ∷ m) = (r.key ≡ k) × IsReady p n k × AllReady p n m

due_lem :
    (p : PendingReadIndex) (n : ℕ) (m : Map RequestState)
    → IsMapped p.mapping m
    → (out : Map RequestState) × (due p n m ≡ ok out) × AllReady p n out
unfolding due ◌>>=◌
due_lem p n [] t = ([], refl, tt)
due_lem p n ((k, r) ∷ m) (own, mapped, t) =
    let (out, e, ready) = due_lem p n m t in
    elim (Option-cases (get p.mapping k)) [
      | inl missing ↦ absurd (ground (arith, has_key-get p.mapping k))
      | inr (ctx, there) ↦ elim (Option-cases (get_batch p.batches ctx)) [
        | inl waiting ↦ (out, ground arith, ready)
        | inr (index, known) ↦ elim (Bool-cases (ltb n index)) [
          | inl ahead ↦ (out, ground arith, ready)
          | inr reached ↦
              ((k, r) ∷ out, ground arith, (own, (ctx, index, there, known, ground arith), ready))
        ]
      ]
    ]

tell_reads-IsJustified :
    (p : PendingReadIndex) (n : ℕ) (out : Map RequestState)
    → AllReady p n out
    → All (IsJustified p n) (tell_reads p.clock.tick out)
unfolding tell_reads
tell_reads-IsJustified p n [] h = tt
tell_reads-IsJustified p n ((k, r) ∷ out) (own, ready, h) =
    let rest = tell_reads-IsJustified p n out h in
    elim (Bool-cases (ltb p.clock.tick r.deadline)) [
      | inl timely ↦ (inr (ground arith, ground arith, subst (IsReady p n) (sym own) ready), rest)
      | inr late ↦ (inl (ground arith), rest)
    ]

tell_timeout-IsJustified :
    (p : PendingReadIndex) (n : ℕ) (out : Map RequestState)
    → All (IsJustified p n) (tell_timeout out)
unfolding tell_timeout
tell_timeout-IsJustified p n [] = tt
tell_timeout-IsJustified p n ((k, r) ∷ out) = (inl refl, tell_timeout-IsJustified p n out)

delete_key-IsMapped :
    (mapping : Map SystemCtx) (m : Map RequestState) (k : ℕ)
    → IsMapped mapping m
    → IsMapped (delete mapping k) (delete m k)
delete_key-IsMapped mapping [] k t = tt
delete_key-IsMapped mapping ((j, r) ∷ m) k (own, mapped, t) = elim (Bool-cases (j == k)) [
  | inl same ↦ rw same (delete_key-IsMapped mapping m k t)
  | inr other ↦
      rw other (own, ground (arith, has_key-delete mapping k j), delete_key-IsMapped mapping m k t)
]

delete_keys-IsMapped :
    (mapping : Map SystemCtx) (m : Map RequestState) (ks : List ℕ)
    → IsMapped mapping m
    → IsMapped (delete_keys ks mapping) (delete_keys ks m)
unfolding delete_keys
delete_keys-IsMapped mapping m [] t = t
delete_keys-IsMapped mapping m (k ∷ ks) t =
    delete_keys-IsMapped (delete mapping k) (delete m k) ks (delete_key-IsMapped mapping m k t)

All-append {ℓ κ} :
    {A : Type ℓ} (P : A → Type κ) (xs ys : List A) → All P xs → All P ys → All P (xs ++ ys)
All-append P [] ys h k = k
All-append P (x ∷ xs) ys h k = (h.0, All-append P xs ys h.1 k)

has_key_put-IsMapped :
    (mapping : Map SystemCtx) (m : Map RequestState) (k : ℕ) (ctx : SystemCtx)
    → IsMapped mapping m
    → IsMapped (put mapping k ctx) m
has_key_put-IsMapped mapping [] k ctx t = tt
has_key_put-IsMapped mapping ((j, r) ∷ m) k ctx (own, mapped, t) =
    (own, ground (arith, has_key-put mapping k j ctx), has_key_put-IsMapped mapping m k ctx t)

put-IsMapped :
    (mapping : Map SystemCtx) (m : Map RequestState) (k : ℕ) (r : RequestState)
    → r.key ≡ k
    → has_key mapping k ≡ true
    → IsMapped mapping m
    → IsMapped mapping (put m k r)
put-IsMapped mapping [] k r own there t = (own, there, tt)
put-IsMapped mapping ((j, s) ∷ m) k r own there (own', mapped, t) = elim (Bool-cases (j == k)) [
  | inl same ↦ rw same (ground arith, mapped, t)
  | inr other ↦ rw other (own', mapped, put-IsMapped mapping m k r own there t)
]

-- Reads that are added keep the table valid.
pub put_reads-IsValid :
    (system : SystemCtx) (reqs : List RequestState) (p : PendingReadIndex)
    → IsValid p
    → Ensures IsValid (put_reads system reqs p)
unfolding put_reads
put_reads-IsValid system [] p v = Ensures-ok p v
put_reads-IsValid system (req ∷ reqs) p v = Ensures-panic_if (has_key p.pending req.key) _ (λ _.
    put_reads-IsValid system reqs _ (
      put-IsMapped (put p.mapping req.key system) p.pending req.key req refl
        (ground (arith, has_key-put p.mapping req.key req.key system))
        (has_key_put-IsMapped p.mapping p.pending req.key system v)))

bind_of_ok {ℓ κ μ} :
    {A : Type ℓ} {B : Type κ} (P : Outcome B → Type μ) (m : Outcome A) (f : A → Outcome B) {a : A}
    → m ≡ ok a
    → P (f a)
    → P (m >>= f)
unfolding ◌>>=◌
bind_of_ok P m f e h = subst (λ x. P (x >>= f)) (sym e) h

-- The reads that are told, if the run returns, are justified, and the table stays valid.
abbrev pub Tells : PendingReadIndex → ℕ → Outcome PendingReadIndex → Type 0
Tells p n m =
    (p' : PendingReadIndex) × (new : List (RequestState × RequestResult)) × (m ≡ ok p')
    × (p'.told ≡ p.told ++ new)
    × All (IsJustified p n) new
    × IsValid p'

-- In a table where each read stands under its own key and belongs to a batch, `applied` returns, for any
-- index `n` that the state machine has applied. None is told that it has completed unless it is in time
-- and raft has confirmed its batch at an index up to `n`; the other reads that are told have timed out.
-- The table stays valid.
pub applied-Tells : (p : PendingReadIndex) (n : ℕ) → IsValid p → Tells p n (Reads.applied p n)
unfolding Reads.applied gc
applied-Tells p n v =
    let now = p.clock.tick in
    let stays : Tells p n (ok p) = (p, [], refl, sym (append-nil p.told), tt, v) in
    let (out, e, ready) = due_lem p n p.pending v in
    let pending = delete_keys (keys out) p.pending in
    let mapping = delete_keys (keys out) p.mapping in
    let left = delete_keys-IsMapped p.mapping p.pending (keys out) v in
    let first = tell_reads-IsJustified p n out ready in
    let late = expired pending now in
    if_cases (Tells p n) p.stopped _ _ (λ _. stays)
      (λ _.
        if_cases (Tells p n)
          ((length p.pending == 0) && ltb (length p.system_gc_time) sys_gc_millisecond) _ _
          (λ _. stays)
          (λ _. bind_of_ok (Tells p n) (due p n p.pending) _ e (
            if_cases (λ q. Tells p n (ok q)) (ltb (sub64 now p.clock.last_gc_time) p.clock.gc_tick)
              _ _ (λ _. (_, tell_reads now out, refl, refl, first, left))
              (λ _. (
                _,
                tell_reads now out ++ tell_timeout late,
                refl,
                append_assoc p.told (tell_reads now out) (tell_timeout late),
                All-append (IsJustified p n) (tell_reads now out) (tell_timeout late) first
                    (tell_timeout-IsJustified p n late),
                delete_keys-IsMapped mapping pending (keys late) left,
              )))))
