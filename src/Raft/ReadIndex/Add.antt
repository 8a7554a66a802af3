-- ===== src/Raft/ReadIndex/Add.antt =====
-- What `addRequest` of internal/raft/readindex.go does to the queue.
use dragonboat.Prelude.{
  ℕ, ◌≤◌, ◌≡◌, refl, sym, ap, ◌∙◌, subst, ◌⊎◌, inl, inr, false, none, some, List, [], ◌∷◌, ◌++◌,
  arith, ltb, Bool-cases, Option-cases, last?, All, ok, ◌>>=◌,
}
use dragonboat.Pb.{SystemCtx, ctx_eq}
use dragonboat.Raft.ReadIndex.{ReadStatus, ReadIndex, lookup, store, newest_below, add_request}
use dragonboat.Raft.ReadIndex.Pending.{
  Pending, ctxs, IsOrdered, IsValid, store_new, lookup-store, Found, Found-refl, ctx_eq-sym,
}

module _ (index : ℕ) where
  last_known :
      (all m : Pending) (c : SystemCtx)
      → Found all m
      → All (λ e. e.1.index ≤ index) m
      → last? (ctxs m) ≡ some c
      → (p : ReadStatus) × (lookup all c ≡ some p) × (p.index ≤ index)
  last_known all [] c f a h = cc
  last_known all ((d, s) ∷ []) c f a h =
      let e : d ≡ c = cc in (s, subst (λ (x : SystemCtx). lookup all x ≡ some s) e f.0, a.0)
  last_known all ((d, s) ∷ e ∷ m) c f a h = last_known all (e ∷ m) c f.1 a.1 h

  newest_below_lem :
      (r : ReadIndex)
      → IsValid r
      → All (λ e. e.1.index ≤ index) r.pending
      → newest_below r index ≡ ok tt
  newest_below_lem r valid below = elim (Option-cases (last? r.queue)) [
    | inl none_left ↦ rw (newest_below, none_left) refl
    | inr (c, newest) ↦
        let (p, known, le) =
          last_known r.pending r.pending c (Found-refl r.pending valid.ordered) below
            (ap last? valid.in_queue ∙ newest) in
        let b : ltb index p.index ≡ false = ground arith in rw (newest_below, newest, known, b) refl
  ]

module _ (ctx : SystemCtx) (q : ReadStatus) where
  ctxs-append : (m : Pending) → ctxs (m ++ ((ctx, q) ∷ [])) ≡ ctxs m ++ (ctx ∷ [])
  ctxs-append [] = refl
  ctxs-append ((c, s) ∷ m) = ap (◌∷◌ c) (ctxs-append m)

  lookup-append :
      (m : Pending) (c : SystemCtx)
      → ctx_eq ctx c ≡ false
      → lookup m c ≡ none
      → lookup (m ++ ((ctx, q) ∷ [])) c ≡ none
  lookup-append [] c e h = rw e refl
  lookup-append ((d, s) ∷ m) c e h = elim (Bool-cases (ctx_eq d c)) [
    | inl f ↦ cc (rw f at h)
    | inr f ↦ rw f (lookup-append m c e (rw f at h))
  ]

  All-append :
      (b : ℕ) (m : Pending)
      → b ≤ q.index
      → All (λ e. b ≤ e.1.index) m
      → All (λ e. b ≤ e.1.index) (m ++ ((ctx, q) ∷ []))
  All-append b [] h a = (h, tt)
  All-append b (e ∷ m) h a = (a.0, All-append b m h a.1)

  append-IsOrdered :
      (m : Pending)
      → q.ctx ≡ ctx
      → IsOrdered m
      → lookup m ctx ≡ none
      → All (λ e. e.1.index ≤ q.index) m
      → IsOrdered (m ++ ((ctx, q) ∷ []))
  append-IsOrdered [] same o n a = (same, refl, tt, tt)
  append-IsOrdered ((c, s) ∷ m) same o n a = elim (Bool-cases (ctx_eq c ctx)) [
    | inl e ↦ cc (rw e at n)
    | inr e ↦ (
      o.0,
      lookup-append m c (ctx_eq-sym ctx c ∙ e) o.1,
      All-append s.index m a.0 o.2,
      append-IsOrdered m same o.3 (rw e at n) a.1,
    )
  ]

module _ (r : ReadIndex) (index : ℕ) (ctx : SystemCtx) (from : ℕ) where
  -- A new request at or above every pending one never panics and joins the end of the queue, with no
  -- node's confirmation; a known context changes nothing. The invariant is kept.
  pub add_request_lem :
      IsValid r
      → All (λ e. e.1.index ≤ index) r.pending
      → (r' : ReadIndex) × (add_request r index ctx from ≡ ok r')
        × IsValid r'
        × (((p : ReadStatus) × (lookup r.pending ctx ≡ some p) × (r' ≡ r))
            ⊎ ((lookup r.pending ctx ≡ none)
                × (r'.queue ≡ r.queue ++ (ctx ∷ []))
                × (lookup r'.pending ctx
                    ≡ some (record { index = index; from = from; ctx = ctx; confirmed = [] }))))
  unfolding add_request ◌>>=◌
  add_request_lem valid below = elim (Option-cases (lookup r.pending ctx)) [
    | inr (p, known) ↦ (r, rw (known, add_request) refl, valid, inl (p, known, refl))
    | inl unknown ↦
        let q : ReadStatus = record { index = index; from = from; ctx = ctx; confirmed = [] } in
        let e = store_new ctx q r.pending unknown in
        (
          record { queue = r.queue ++ (ctx ∷ []); pending = store r.pending ctx q },
          rw (unknown, add_request, newest_below_lem index r valid below, ◌>>=◌) refl,
          record {
            in_queue =
                ap ctxs e
                ∙ ctxs-append ctx q r.pending
                ∙ ap (λ (cs : List SystemCtx). cs ++ (ctx ∷ [])) valid.in_queue;
            ordered =
                subst IsOrdered (sym e)
                  (append-IsOrdered ctx q r.pending refl valid.ordered unknown below);
          },
          inr (unknown, refl, lookup-store ctx q r.pending),
        )
  ]
