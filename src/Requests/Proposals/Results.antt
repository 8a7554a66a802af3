-- ===== src/Requests/Proposals/Results.antt =====
-- proposalShard of requests.go: what becomes of a proposal that waits.
use dragonboat.Prelude.{
  ℕ, zero, suc, ◌≤◌, ◌<◌, ◌≡◌, refl, sym, ap, ◌∙◌, subst, inl, inr, Bool, false, not, none, some,
  List, [], ◌∷◌, ◌++◌, arith, ltb, ◌==◌, if◌then◌else◌, Bool-cases, if_cases, sub64, length,
  get_elem?, Map, get, delete, keys, get-delete, has_key-get,
}
use dragonboat.Requests.{RequestResult, RequestState, get_timeout_result}
use dragonboat.Requests.Proposals
use dragonboat.Requests.Proposals.{
  ProposalShard, expired, tell_timeout, delete_keys, gc_at, get_proposal, answer,
}
use dragonboat.Requests.Proposals.Tables.{IsTable, get-delete_keys, get-expired}
use dragonboat.Requests.Proposals.Calls.{result_of}

-- Among what the requests have been told.
abbrev pub Told : RequestState → RequestResult → ProposalShard → Type 0
Told r x p = (i : ℕ) × (get_elem? p.told i ≡ some (r, x))

get_elem-middle {ℓ} :
    {A : Type ℓ} (xs ys : List A) (y : A) → get_elem? (xs ++ (y ∷ ys)) (length xs) ≡ some y
get_elem-middle [] ys y = refl
get_elem-middle (x ∷ xs) ys y = get_elem-middle xs ys y

get_elem-append {ℓ} :
    {A : Type ℓ} (xs ys : List A) (i : ℕ) (y : A)
    → get_elem? ys i ≡ some y
    → (j : ℕ) × (get_elem? (xs ++ ys) j ≡ some y)
get_elem-append [] ys i y h = (i, h)
get_elem-append (x ∷ xs) ys i y h = let (j, e) = get_elem-append xs ys i y h in (suc j, e)

get_elem-prefix {ℓ} :
    {A : Type ℓ} (xs ys : List A) (i : ℕ) (x : A)
    → get_elem? xs i ≡ some x
    → get_elem? (xs ++ ys) i ≡ some x
get_elem-prefix [] ys i x h = cc
get_elem-prefix (y ∷ xs) ys zero x h = h
get_elem-prefix (y ∷ xs) ys (suc i) x h = get_elem-prefix xs ys i x h

tell_timeout_complete :
    (m : Map RequestState) (k : ℕ) (r : RequestState)
    → get m k ≡ some r
    → (i : ℕ) × (get_elem? (tell_timeout m) i ≡ some (r, get_timeout_result))
unfolding tell_timeout
tell_timeout_complete [] k r h = cc
tell_timeout_complete ((j, s) ∷ m) k r h = elim (Bool-cases (j == k)) [
  | inl same ↦ (0, ground arith)
  | inr other ↦ let (i, e) = tell_timeout_complete m k r (ground arith) in (suc i, e)
]

-- In a shard that is open, where each request stands under its own key, a run of `gc` that is due tells
-- every request that waits past its deadline that it has timed out and takes it out of the table; the
-- others go on waiting.
pub gc_lem :
    (p : ProposalShard) (k : ℕ) (r : RequestState)
    → IsTable p.pending
    → p.stopped ≡ false
    → p.clock.gc_tick ≤ sub64 p.clock.tick p.clock.last_gc_time
    → get p.pending k ≡ some r
    → (r.deadline < p.clock.tick
        → Told r get_timeout_result (Proposals.gc p) × (get (Proposals.gc p).pending k ≡ none))
      × (p.clock.tick ≤ r.deadline → get (Proposals.gc p).pending k ≡ some r)
unfolding Proposals.gc gc_at
gc_lem p k r t going due there =
    let now = p.clock.tick in
    let out = expired p.pending now in
    let run : Proposals.gc p ≡ record p {
      clock = record p.clock { last_gc_time = now };
      told = p.told ++ tell_timeout out;
      pending = delete_keys (keys out) p.pending;
    } =
      ground arith in
    let stays =
      ap (λ (p' : ProposalShard). get p'.pending k) run ∙ get-delete_keys out p.pending k in
    let late = get-expired p.pending now k r t there in
    let known = has_key-get out k in
    (
      λ past.
          let (i, e) = tell_timeout_complete out k r (ground arith) in
          let (j, f) = get_elem-append p.told (tell_timeout out) i _ e in
          ((j, ap (λ (p' : ProposalShard). get_elem? p'.told j) run ∙ f), ground arith),
      λ timely. ground arith,
    )

-- A run of `gc` takes back nothing that was told and puts nothing into the table.
gc_at-keeps :
    (p : ProposalShard) (now k i : ℕ) (x : RequestState × RequestResult)
    → get p.pending k ≡ none
    → get_elem? p.told i ≡ some x
    → (get (gc_at p now).pending k ≡ none) × (get_elem? (gc_at p now).told i ≡ some x)
unfolding gc_at
gc_at-keeps p now k i x gone told =
    let Kept : ProposalShard → Type 0 =
      λ p'. (get p'.pending k ≡ none) × (get_elem? p'.told i ≡ some x) in
    if_cases Kept p.stopped _ _ (λ _. (gone, told))
      (λ _.
        if_cases Kept (ltb (sub64 now p.clock.last_gc_time) p.clock.gc_tick) _ _ (λ _. (gone, told))
          (λ _. (
            ground (arith, get-delete_keys (expired p.pending now) p.pending k),
            get_elem-prefix p.told _ i x told,
          )))

-- A request that waits in time under the key is told the result of its entry, completed or rejected,
-- and waits no longer.
pub applied_lem :
    (p : ProposalShard) (key result : ℕ) (rejected : Bool) (r : RequestState)
    → p.stopped ≡ false
    → get p.pending key ≡ some r
    → p.clock.tick ≤ r.deadline
    → Told r
        (result_of result rejected)
        (Proposals.applied p r.client_id r.series_id key result rejected)
      × (get (Proposals.applied p r.client_id r.series_id key result rejected).pending key ≡ none)
unfolding Proposals.applied answer get_proposal gc_at
applied_lem p key result rejected r going there timely =
    let now = p.clock.tick in
    let x : RequestState × RequestResult = (r, result_of result rejected) in
    let p1 = record p { pending = delete p.pending key; told = p.told ++ (x ∷ []) } in
    let answered : answer p r.client_id r.series_id key result rejected now ≡ p1 = ground arith in
    let gone : get p1.pending key ≡ none = ground (arith, get-delete p.pending key key) in
    let told : get_elem? p1.told (length p.told) ≡ some x = get_elem-middle p.told [] x in
    let (gone', told') = gc_at-keeps p1 now key (length p.told) x gone told in
    let Ends : ProposalShard → Type 0 =
      λ p'. Told r (result_of result rejected) p' × (get p'.pending key ≡ none) in
    subst
      (λ (p' : ProposalShard). Ends (
        if not (now == p'.expire_notified)
        then record (gc_at p' now) { expire_notified = now }
        else p'))
      (sym answered)
      (if_cases Ends (not (now == p1.expire_notified)) _ _ (λ _. ((length p.told, told'), gone'))
        (λ _. ((length p.told, told), gone)))
