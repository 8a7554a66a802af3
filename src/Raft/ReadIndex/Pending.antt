-- ===== src/Raft/ReadIndex/Pending.antt =====
-- The invariant of internal/raft/readindex.go: the queue lists the contexts of the pending requests,
-- each once, in the order of their indices.
use dragonboat.Prelude.{
  ℕ, suc, ◌≤◌, ◌≡◌, refl, ap, ◌∙◌, subst, inl, inr, true, false, none, some, List, [], ◌∷◌, ◌++◌,
  arith, Bool-cases, length, All,
}
use dragonboat.Pb.{SystemCtx, ctx_eq}
use dragonboat.Raft.ReadIndex.{ReadStatus, ReadIndex, lookup, store}

abbrev pub Pending : Type 0
Pending = List (SystemCtx × ReadStatus)

abbrev pub ctxs : Pending → List SystemCtx
ctxs [] = []
ctxs ((c, s) ∷ m) = c ∷ ctxs m

-- Contexts that differ, with requests of indices that do not fall.
abbrev pub IsOrdered : Pending → Type 0
IsOrdered [] = Unit
IsOrdered ((c, s) ∷ m) =
    (s.ctx ≡ c) × (lookup m c ≡ none) × All (λ p. s.index ≤ p.1.index) m × IsOrdered m

pub record IsValid (r : ReadIndex) : Type 0 where
  pub in_queue : ctxs r.pending ≡ r.queue
  pub ordered : IsOrdered r.pending

pub eq_of_ctx_eq : (a b : SystemCtx) → ctx_eq a b ≡ true → a ≡ b
eq_of_ctx_eq a b h = ground arith

pub ctx_eq_refl : (a : SystemCtx) → ctx_eq a a ≡ true
ctx_eq_refl a = ground arith

some-injective : (s t : ReadStatus) → some s ≡ some t → s ≡ t
some-injective s t h = cc

pub length-ctxs : (m : Pending) → length (ctxs m) ≡ length m
length-ctxs [] = refl
length-ctxs (p ∷ m) = ap suc (length-ctxs m)

module _ (ctx : SystemCtx) (q : ReadStatus) where
  -- A write to a known context changes one request, a write to a new one appends it.
  pub ctxs-store :
      (m : Pending) {p : ReadStatus} → lookup m ctx ≡ some p → ctxs (store m ctx q) ≡ ctxs m
  ctxs-store [] h = cc
  ctxs-store ((c, s) ∷ m) h = elim (Bool-cases (ctx_eq c ctx)) [
    | inl e ↦ rw e refl
    | inr e ↦ rw e (ap (◌∷◌ c) (ctxs-store m (rw e at h)))
  ]

  pub store_new : (m : Pending) → lookup m ctx ≡ none → store m ctx q ≡ m ++ ((ctx, q) ∷ [])
  store_new [] h = refl
  store_new ((c, s) ∷ m) h = elim (Bool-cases (ctx_eq c ctx)) [
    | inl e ↦ ground arith
    | inr e ↦ rw e (ap (◌∷◌ (c, s)) (store_new m (rw e at h)))
  ]

  pub lookup-store : (m : Pending) → lookup (store m ctx q) ctx ≡ some q
  lookup-store [] = rw (ctx_eq_refl ctx) refl
  lookup-store ((c, s) ∷ m) = elim (Bool-cases (ctx_eq c ctx)) [
    | inl e ↦ rw (e, e) refl
    | inr e ↦ rw (e, e) (lookup-store m)
  ]

  module _ (p : ReadStatus) (same_index : q.index ≡ p.index) (same_ctx : q.ctx ≡ p.ctx) where
    lookup-store_other :
        (m : Pending) (d : SystemCtx)
        → lookup m ctx ≡ some p
        → lookup m d ≡ none
        → lookup (store m ctx q) d ≡ none
    lookup-store_other [] d h k = cc
    lookup-store_other ((c, s) ∷ m) d h k = elim (Bool-cases (ctx_eq c d)) [
      | inl f ↦ cc (rw f at k)
      | inr f ↦ elim (Bool-cases (ctx_eq c ctx)) [
        | inl e ↦ rw (e, f) (rw f at k)
        | inr e ↦ rw (e, f) (lookup-store_other m d (rw e at h) (rw f at k))
      ]
    ]

    All-store :
        (b : ℕ) (m : Pending)
        → lookup m ctx ≡ some p
        → All (λ e. b ≤ e.1.index) m
        → All (λ e. b ≤ e.1.index) (store m ctx q)
    All-store b [] h a = cc
    All-store b ((c, s) ∷ m) h a = elim (Bool-cases (ctx_eq c ctx)) [
      | inl e ↦ rw e (
        omega (arith, a.0, ap (λ (t : ReadStatus). t.index) (some-injective s p (rw e at h))),
        a.1,
      )
      | inr e ↦ rw e (a.0, All-store b m (rw e at h) a.1)
    ]

    pub store-IsOrdered :
        (m : Pending) → lookup m ctx ≡ some p → IsOrdered m → IsOrdered (store m ctx q)
    store-IsOrdered [] h o = cc
    store-IsOrdered ((c, s) ∷ m) h o = elim (Bool-cases (ctx_eq c ctx)) [
      | inl e ↦
          let f : s ≡ p = some-injective s p (rw e at h) in
          let i : s.index ≡ q.index = cc in
          rw e (cc, o.1, subst (λ (j : ℕ). All (λ x. j ≤ x.1.index) m) i o.2, o.3)
      | inr e ↦ rw e (
        o.0,
        lookup-store_other m c (rw e at h) o.1,
        All-store s.index m (rw e at h) o.2,
        store-IsOrdered m (rw e at h) o.3,
      )
    ]

-- Every request of the second list is found in the first.
abbrev pub Found : Pending → Pending → Type 0
Found all m = All (λ e. lookup all e.0 ≡ some e.1) m

pub ctx_eq-sym : (a b : SystemCtx) → ctx_eq a b ≡ ctx_eq b a
ctx_eq-sym a b = ground arith

Found-skip :
    (c : SystemCtx) (s : ReadStatus) (all m : Pending)
    → lookup m c ≡ none
    → Found all m
    → Found ((c, s) ∷ all) m
Found-skip c s all [] n f = tt
Found-skip c s all ((d, t) ∷ m) n f = elim (Bool-cases (ctx_eq d c)) [
  | inl e ↦ cc (rw e at n)
  | inr e ↦
      let e' : ctx_eq c d ≡ false = ctx_eq-sym c d ∙ e in
      (rw e' f.0, Found-skip c s all m (rw e at n) f.1)
]

pub Found-refl : (m : Pending) → IsOrdered m → Found m m
Found-refl [] o = tt
Found-refl ((c, s) ∷ m) o = (rw (ctx_eq_refl c) refl, Found-skip c s m m o.1 (Found-refl m o.3))
