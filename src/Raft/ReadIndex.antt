-- ===== src/Raft/ReadIndex.antt =====
-- internal/raft/readindex.go: the read requests that wait for a quorum to confirm the leader.
-- The map `pending` from contexts is an association list, a set of node ids is a list without repeats.
-- `Pending` has the invariant, `Confirm` and `Add` what the operations do.
pub mod Pending
pub mod Confirm
pub mod Add
use dragonboat.Prelude.{
  ℕ, ◌+◌, Bool, true, false, Option, none, some, List, [], ◌∷◌, ◌++◌, ltb, ◌==◌, ◌!=◌,
  if◌then◌else◌, length, last?, Outcome, ok, panic, ◌>>=◌, ◌>>◌, panic_if,
}
use dragonboat.Pb.{SystemCtx, ctx_eq}

pub record ReadStatus : Type 0 where
  pub index : ℕ
  pub from : ℕ
  pub ctx : SystemCtx
  pub confirmed : List ℕ

pub record ReadIndex : Type 0 where
  pub pending : List (SystemCtx × ReadStatus)
  pub queue : List SystemCtx

abbrev pub new_read_index : ReadIndex
new_read_index = record { pending = []; queue = [] }

abbrev pub lookup : List (SystemCtx × ReadStatus) → SystemCtx → Option ReadStatus
lookup [] c = none
lookup ((d, s) ∷ m) c = if ctx_eq d c then some s else lookup m c

-- `pending[c] = s`
abbrev pub store :
    List (SystemCtx × ReadStatus) → SystemCtx → ReadStatus → List (SystemCtx × ReadStatus)
store [] c s = (c, s) ∷ []
store ((d, t) ∷ m) c s = if ctx_eq d c then (d, s) ∷ m else (d, t) ∷ store m c s

-- `delete(pending, c)`
abbrev pub remove : List (SystemCtx × ReadStatus) → SystemCtx → List (SystemCtx × ReadStatus)
remove [] c = []
remove ((d, t) ∷ m) c = let rest = remove m c in if ctx_eq d c then rest else (d, t) ∷ rest

unfoldable pub has_pending_request : ReadIndex → Bool
has_pending_request r = ltb 0 (length r.queue)

-- `queue[len(queue)-1]`
unfoldable pub peep_ctx : ReadIndex → Outcome SystemCtx
peep_ctx r = elim (last? r.queue) [ some c ↦ ok c | none ↦ panic ]

-- The check of `addRequest` against the newest request.
abbrev pub newest_below : ReadIndex → ℕ → Outcome (Unit {0})
newest_below r index = elim (last? r.queue) [
  | none ↦ ok tt
  | some c ↦ elim (lookup r.pending c) [ none ↦ panic | some p ↦ panic_if (ltb index p.index) ]
]

unfoldable pub add_request : ReadIndex → ℕ → SystemCtx → ℕ → Outcome ReadIndex
add_request r index ctx from = elim (lookup r.pending ctx) [
  | some _ ↦ ok r
  | none ↦ do
    newest_below r index
    ok (record {
      queue = r.queue ++ (ctx ∷ []);
      pending =
          store r.pending ctx (record { index = index; from = from; ctx = ctx; confirmed = [] });
    })
]

-- `confirmed[from] = struct{}{}`
abbrev pub add_member : List ℕ → ℕ → List ℕ
add_member [] n = n ∷ []
add_member (x ∷ xs) n = if x == n then x ∷ xs else x ∷ add_member xs n

-- The loop of `confirm`: the requests up to `ctx`, and what is left of the queue.
unfoldable pub collect :
    List (SystemCtx × ReadStatus)
    → List SystemCtx
    → SystemCtx
    → Outcome (Option (List ReadStatus × List SystemCtx))
collect pending [] ctx = ok none
collect pending (c ∷ queue) ctx = elim (lookup pending c) [
  | none ↦ panic
  | some s ↦ elim (ctx_eq c ctx) [
    | true ↦ ok (some (s ∷ [], queue))
    | false ↦ do
      rest ← collect pending queue ctx
      elim rest [ none ↦ ok none | some (cs, left) ↦ ok (some (s ∷ cs, left)) ]
  ]
]

-- The released requests take the index of the confirmed one, which no earlier one may exceed.
unfoldable pub release : ℕ → List ReadStatus → Outcome (List ReadStatus)
release index [] = ok []
release index (v ∷ vs) = do
  panic_if (ltb index v.index)
  rest ← release index vs
  ok (record v { index = index } ∷ rest)

unfoldable pub remove_all :
    List (SystemCtx × ReadStatus) → List ReadStatus → List (SystemCtx × ReadStatus)
remove_all pending [] = pending
remove_all pending (v ∷ vs) = remove_all (remove pending v.ctx) vs

-- An empty list of requests stands for nil.
unfoldable pub confirm : ReadIndex → SystemCtx → ℕ → ℕ → Outcome (ReadIndex × List ReadStatus)
confirm r ctx from quorum = elim (lookup r.pending ctx) [
  | none ↦ ok (r, [])
  | some p ↦
      let p' : ReadStatus = record p { confirmed = add_member p.confirmed from } in
      let pending : List (SystemCtx × ReadStatus) = store r.pending ctx p' in
      if ltb (length p'.confirmed + 1) quorum then ok (record r { pending = pending }, []) else (do
        found ← collect pending r.queue ctx
        elim found [
          | none ↦ ok (record r { pending = pending }, [])
          | some (cs, queue) ↦ do
            released ← release p'.index cs
            let pending' = remove_all pending cs
            panic_if (length queue != length pending')
            ok (record { pending = pending'; queue = queue }, released)
        ])
]
