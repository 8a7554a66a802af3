-- ===== src/Raft/ReadIndex/Confirm.antt =====
-- What the operations of internal/raft/readindex.go do to the queue, and that none of their checks
-- fails.
use dragonboat.Prelude.{
  ℕ, ◌+◌, ◌≤◌, ◌<◌, ◌≡◌, refl, sym, ap, ◌∙◌, subst, ◌⊎◌, inl, inr, true, false, none, some, List,
  [], ◌∷◌, ◌++◌, arith, ltb, ◌!=◌, if◌then◌else◌, Bool-cases, Option-cases, length, last?, All, ok,
  ◌>>=◌,
}
use native.Mathlib.Decide.{dec_lt}
use dragonboat.Pb.{SystemCtx, ctx_eq}
use dragonboat.Raft.ReadIndex.{
  ReadStatus, ReadIndex, lookup, store, remove, add_member, collect, release, remove_all, confirm,
}
use dragonboat.Raft.ReadIndex.Pending.{
  Pending, ctxs, IsOrdered, IsValid, eq_of_ctx_eq, ctx_eq_refl, length-ctxs, ctxs-store,
  lookup-store, store-IsOrdered, Found, Found-refl,
}

-- The requests up to the one of a context, and those behind it.
abbrev upto : Pending → SystemCtx → List ReadStatus
upto [] ctx = []
upto ((c, s) ∷ m) ctx = if ctx_eq c ctx then s ∷ [] else s ∷ upto m ctx

abbrev after : Pending → SystemCtx → Pending
after [] ctx = []
after ((c, s) ∷ m) ctx = if ctx_eq c ctx then m else after m ctx

abbrev pub ctx_list : List ReadStatus → List SystemCtx
ctx_list [] = []
ctx_list (v ∷ vs) = v.ctx ∷ ctx_list vs

abbrev at_index : ℕ → List ReadStatus → List ReadStatus
at_index i [] = []
at_index i (v ∷ vs) = record v { index = i } ∷ at_index i vs

lookup-All :
    (b : ℕ) (m : Pending) (ctx : SystemCtx) (p : ReadStatus)
    → All (λ e. b ≤ e.1.index) m
    → lookup m ctx ≡ some p
    → b ≤ p.index
lookup-All b [] ctx p a h = cc
lookup-All b ((c, s) ∷ m) ctx p a h = elim (Bool-cases (ctx_eq c ctx)) [
  | inl e ↦ let f : some s ≡ some p = rw e at h in ground arith
  | inr e ↦ lookup-All b m ctx p a.1 (rw e at h)
]

remove_absent : (m : Pending) (c : SystemCtx) → lookup m c ≡ none → remove m c ≡ m
remove_absent [] c h = refl
remove_absent ((d, t) ∷ m) c h = elim (Bool-cases (ctx_eq d c)) [
  | inl e ↦ cc (rw e at h)
  | inr e ↦ rw e (ap (◌∷◌ (d, t)) (remove_absent m c (rw e at h)))
]

remove_head :
    (c : SystemCtx) (s : ReadStatus) (m : Pending)
    → IsOrdered ((c, s) ∷ m)
    → remove ((c, s) ∷ m) s.ctx ≡ m
remove_head c s m o =
    let e : ctx_eq c s.ctx ≡ true =
      subst (λ (d : SystemCtx). ctx_eq c d ≡ true) (sym o.0) (ctx_eq_refl c) in
    rw e (remove_absent m s.ctx (subst (λ (d : SystemCtx). lookup m d ≡ none) (sym o.0) o.1))

release_lem :
    (i : ℕ) (vs : List ReadStatus) → All (λ v. v.index ≤ i) vs → release i vs ≡ ok (at_index i vs)
unfolding release ◌>>=◌
release_lem i [] a = refl
release_lem i (v ∷ vs) a =
    let b : ltb i v.index ≡ false = ground arith in rw (b, release_lem i vs a.1) refl

last?-cons :
    (c : SystemCtx) (cs : List SystemCtx) {d : SystemCtx}
    → last? cs ≡ some d
    → last? (c ∷ cs) ≡ some d
last?-cons c [] h = cc
last?-cons c (x ∷ cs) h = h

module _ (ctx : SystemCtx) (p : ReadStatus) where
  collect_lem :
      (all m : Pending)
      → Found all m
      → lookup m ctx ≡ some p
      → collect all (ctxs m) ctx ≡ ok (some (upto m ctx, ctxs (after m ctx)))
  unfolding collect ◌>>=◌
  collect_lem all [] f h = cc
  collect_lem all ((c, s) ∷ m) f h = elim (Bool-cases (ctx_eq c ctx)) [
    | inl e ↦ rw (f.0, e, collect) refl
    | inr e ↦ rw (f.0, e, collect_lem all m f.1 (rw e at h), collect) refl
  ]

  upto_bound :
      (m : Pending)
      → IsOrdered m
      → lookup m ctx ≡ some p
      → All (λ v. v.index ≤ p.index) (upto m ctx)
  upto_bound [] o h = cc
  upto_bound ((c, s) ∷ m) o h = elim (Bool-cases (ctx_eq c ctx)) [
    | inl e ↦ let f : some s ≡ some p = rw e at h in rw e (ground arith, tt)
    | inr e ↦ rw e (lookup-All s.index m ctx p o.2 (rw e at h), upto_bound m o.3 (rw e at h))
  ]

  after-IsOrdered : (m : Pending) → IsOrdered m → IsOrdered (after m ctx)
  after-IsOrdered [] o = tt
  after-IsOrdered ((c, s) ∷ m) o = elim (Bool-cases (ctx_eq c ctx)) [
    | inl e ↦ rw e o.3
    | inr e ↦ rw e (after-IsOrdered m o.3)
  ]

  remove_all-upto :
      (m : Pending) → IsOrdered m → lookup m ctx ≡ some p → remove_all m (upto m ctx) ≡ after m ctx
  unfolding remove_all
  remove_all-upto [] o h = cc
  remove_all-upto ((c, s) ∷ m) o h = elim (Bool-cases (ctx_eq c ctx)) [
    | inl e ↦ rw e (remove_head c s m o)
    | inr e ↦ rw e (
        ap (λ (n : Pending). remove_all n (upto m ctx)) (remove_head c s m o)
        ∙ remove_all-upto m o.3 (rw e at h))
  ]

  upto-append-after :
      (i : ℕ) (m : Pending)
      → IsOrdered m
      → lookup m ctx ≡ some p
      → (ctx_list (at_index i (upto m ctx)) ++ ctxs (after m ctx) ≡ ctxs m)
        × (last? (ctx_list (at_index i (upto m ctx))) ≡ some ctx)
        × All (λ v. v.index ≡ i) (at_index i (upto m ctx))
  upto-append-after i [] o h = cc
  upto-append-after i ((c, s) ∷ m) o h = elim (Bool-cases (ctx_eq c ctx)) [
    | inl e ↦
        rw e
          (ap (λ (d : SystemCtx). d ∷ ctxs m) o.0, ap some (o.0 ∙ eq_of_ctx_eq c ctx e), (refl, tt))
    | inr e ↦
        let (all, l, is) = upto-append-after i m o.3 (rw e at h) in
        rw e (
          ap (λ (d : SystemCtx). d ∷ (ctx_list (at_index i (upto m ctx)) ++ ctxs (after m ctx))) o.0
              ∙ ap (◌∷◌ c) all,
          last?-cons s.ctx (ctx_list (at_index i (upto m ctx))) l,
          (refl, is),
        )
  ]

same_length : (m : Pending) → (length (ctxs m) != length m) ≡ false
same_length m = ground (arith, length-ctxs m)

module _ (r : ReadIndex) (ctx : SystemCtx) (from quorum : ℕ) where
  -- Nothing is released: the context is unknown, or too few nodes have confirmed it so far.
  abbrev pub Waits : ReadIndex × List ReadStatus → Type 0
  Waits (r', cs) =
      (cs ≡ [])
      × (r'.queue ≡ r.queue)
      × ((lookup r.pending ctx ≡ none)
          ⊎ ((p : ReadStatus) × (lookup r.pending ctx ≡ some p)
              × (length (add_member p.confirmed from) + 1 < quorum)))

  -- A quorum has confirmed the context: it is released with all that came before it, in their order,
  -- and at its index.
  abbrev pub Releases : ReadIndex × List ReadStatus → Type 0
  Releases (r', cs) =
      (p : ReadStatus) × (lookup r.pending ctx ≡ some p)
      × (quorum ≤ length (add_member p.confirmed from) + 1)
      × (ctx_list cs ++ r'.queue ≡ r.queue)
      × (last? (ctx_list cs) ≡ some ctx)
      × All (λ v. v.index ≡ p.index) cs

  module _ (valid : IsValid r) (p : ReadStatus) (known : lookup r.pending ctx ≡ some p) where
    abbrev seen : ReadStatus
    seen = record p { confirmed = add_member p.confirmed from }

    abbrev noted : Pending
    noted = store r.pending ctx seen

    noted-IsOrdered : IsOrdered noted
    noted-IsOrdered = store-IsOrdered ctx seen p refl refl r.pending known valid.ordered

    noted_queue : ctxs noted ≡ r.queue
    noted_queue = ctxs-store ctx seen r.pending known ∙ valid.in_queue

    noted_found : lookup noted ctx ≡ some seen
    noted_found = lookup-store ctx seen r.pending

    confirm_release :
        quorum ≤ length seen.confirmed + 1
        → confirm r ctx from quorum
          ≡ ok (
            record { pending = after noted ctx; queue = ctxs (after noted ctx) },
            at_index p.index (upto noted ctx),
          )
    unfolding confirm ◌>>=◌
    confirm_release enough =
        let b : ltb (length seen.confirmed + 1) quorum ≡ false = ground arith in
        let found : collect noted r.queue ctx ≡ ok (some (upto noted ctx, ctxs (after noted ctx))) =
          ap (λ (q : List SystemCtx). collect noted q ctx) (sym noted_queue)
          ∙ collect_lem ctx seen noted noted (Found-refl noted noted-IsOrdered) noted_found in
        let released : release p.index (upto noted ctx) ≡ ok (at_index p.index (upto noted ctx)) =
          release_lem p.index (upto noted ctx)
            (upto_bound ctx seen noted noted-IsOrdered noted_found) in
        let removed : remove_all noted (upto noted ctx) ≡ after noted ctx =
          remove_all-upto ctx seen noted noted-IsOrdered noted_found in
        rw (known, confirm, b, found, released, ◌>>=◌, removed, same_length (after noted ctx)) refl

    confirm_wait :
        length seen.confirmed + 1 < quorum
        → confirm r ctx from quorum ≡ ok (record r { pending = noted }, [])
    unfolding confirm ◌>>=◌
    confirm_wait few =
        let b : ltb (length seen.confirmed + 1) quorum ≡ true = ground arith in
        rw (known, confirm, b) refl

  -- A confirmation never panics and keeps the invariant: it releases nothing unless a quorum has
  -- confirmed the context, and then the requests up to it, in order, all at its index.
  pub confirm_lem :
      IsValid r
      → (p : ReadIndex × List ReadStatus) × (confirm r ctx from quorum ≡ ok p)
        × IsValid p.0
        × (Waits p ⊎ Releases p)
  unfolding confirm
  confirm_lem valid = elim (Option-cases (lookup r.pending ctx)) [
    | inl unknown ↦ ((r, []), rw (unknown, confirm) refl, valid, inl (refl, refl, inl unknown))
    | inr (p, known) ↦ elim (dec_lt (length (add_member p.confirmed from) + 1) quorum) [
      | yes few ↦ (
        (record r { pending = noted valid p known }, []),
        confirm_wait valid p known few,
        record { in_queue = noted_queue valid p known; ordered = noted-IsOrdered valid p known },
        inl (refl, refl, inr (p, known, few)),
      )
      | no enough ↦
          let m : Pending = noted valid p known in
          let o : IsOrdered m = noted-IsOrdered valid p known in
          let found = noted_found valid p known in
          let (all, l, is) = upto-append-after ctx (seen valid p known) p.index m o found in
          (
            (
              record { pending = after m ctx; queue = ctxs (after m ctx) },
              at_index p.index (upto m ctx),
            ),
            confirm_release valid p known (omega arith),
            record { in_queue = refl; ordered = after-IsOrdered ctx (seen valid p known) m o },
            inr (p, known, omega arith, all ∙ noted_queue valid p known, l, is),
          )
    ]
  ]
