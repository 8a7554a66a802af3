-- ===== src/Requests/Shards/Routes.antt =====
-- pendingProposal of requests.go: a result finds the shard in which its request waits.
use dragonboat.Prelude.{
  ℕ, zero, suc, ◌%◌, ◌≤◌, ◌≡◌, refl, sym, ap, subst, ◌≢◌, ◌⊎◌, inr, Bool, false, not, none, some,
  List, [], ◌∷◌, arith, ltb, ◌==◌, length, get_elem?, get, get-put, ok, ◌>>=◌, Ensures, Ensures-ok,
  Ensures-panic, Ensures-if, Ensures-option, Ensures-bind, Ensures-then,
}
use dragonboat.Client.{ClientSession}
use dragonboat.Queue.Slots.{set_elem}
use dragonboat.Queue.EntryQueue
use dragonboat.Queue.EntryQueue.{EntryQueue}
use dragonboat.Requests.{RequestState, get_timeout_tick, proposal_entry}
use dragonboat.Requests.Proposals
use dragonboat.Requests.Proposals.{ProposalShard, ProposeError, max_proposal_payload_size, enqueue}
use dragonboat.Requests.Proposals.Calls.{result_of}
use dragonboat.Requests.Proposals.Results
use dragonboat.Requests.Proposals.Results.{Told}
use dragonboat.Requests.Shards
use dragonboat.Requests.Shards.{PendingProposal, at, next_key}

get_elem-set_elem :
    {A : Type 0} (xs : List A) (i : ℕ) (x y : A)
    → get_elem? xs i ≡ some y
    → get_elem? (set_elem xs i x) i ≡ some x
get_elem-set_elem [] i x y h = cc
get_elem-set_elem (z ∷ xs) zero x y h = refl
get_elem-set_elem (z ∷ xs) (suc i) x y h = get_elem-set_elem xs i x y h

get_elem-set_elem_other :
    {A : Type 0} (xs : List A) (i j : ℕ) (x : A)
    → j ≢ i
    → get_elem? (set_elem xs i x) j ≡ get_elem? xs j
get_elem-set_elem_other [] i j x h = refl
get_elem-set_elem_other (z ∷ xs) zero zero x h = absurd (h refl)
get_elem-set_elem_other (z ∷ xs) zero (suc j) x h = refl
get_elem-set_elem_other (z ∷ xs) (suc i) zero x h = refl
get_elem-set_elem_other (z ∷ xs) (suc i) (suc j) x h =
    get_elem-set_elem_other xs i j x (λ e. h (ap suc e))

at_lem : {A : Type 0} (xs : List A) (i : ℕ) → Ensures (λ x. get_elem? xs i ≡ some x) (at xs i)
at_lem xs i = Ensures-option (get_elem? xs i) _ _ (λ _. Ensures-panic) (λ x h. Ensures-ok x h)

-- The request that was accepted waits in the shard.
abbrev WaitsIn : ProposalShard → ℕ → ProposeError ⊎ RequestState → Type 0
WaitsIn p key reply =
    (r : RequestState) → reply ≡ inr r → (r.key ≡ key) × (get p.pending key ≡ some r)

enqueue-WaitsIn :
    (p : ProposalShard) (q : EntryQueue) (session : ClientSession) (cmd : List ℕ)
    (req : RequestState)
    → Ensures (λ r. WaitsIn r.1 req.key r.0) (enqueue p q session cmd req)
unfolding enqueue
enqueue-WaitsIn p q session cmd req =
    Ensures-bind (EntryQueue.add q (proposal_entry session req.key cmd)) _ (λ a _.
      Ensures-if a.2 _ _ (λ _. Ensures-ok _ (λ r e. cc))
        (λ _.
          Ensures-if (not a.1) _ _ (λ _. Ensures-ok _ (λ r e. cc))
            (λ _. Ensures-ok _ (λ r e. ground (arith, get-put p.pending req.key req.key req)))))

propose-WaitsIn :
    (p : ProposalShard) (q : EntryQueue) (session : ClientSession) (cmd : List ℕ) (key timeout : ℕ)
    → Ensures (λ r. WaitsIn r.1 key r.0) (Proposals.propose p q session cmd key timeout)
unfolding Proposals.propose
propose-WaitsIn p q session cmd key timeout =
    Ensures-bind (get_timeout_tick p.clock timeout) _ (λ ticks _.
      Ensures-if (ticks == 0) _ _ (λ _. Ensures-ok _ (λ r e. cc))
        (λ _.
          Ensures-if (ltb max_proposal_payload_size (length cmd)) _ _
            (λ _. Ensures-ok _ (λ r e. cc)) (λ _. enqueue-WaitsIn p q session cmd _)))

-- The shard of the key has the request waiting.
abbrev pub WaitsAt : PendingProposal → RequestState → Type 0
WaitsAt p r =
    (s : ProposalShard) × (get_elem? p.shards (r.key % p.ps) ≡ some s)
    × (get s.pending r.key ≡ some r)

-- A request that is accepted waits in the shard in which `applied` looks for its key.
pub propose-WaitsAt :
    (p : PendingProposal) (q : EntryQueue) (session : ClientSession) (cmd : List ℕ) (timeout : ℕ)
    → Ensures
        (λ res. (r : RequestState) → res.0 ≡ inr r → WaitsAt res.1 r)
        (Shards.propose p q session cmd timeout)
unfolding Shards.propose
propose-WaitsAt p q session cmd timeout =
    Ensures-bind (next_key p session.client_id) _ (λ (key, p1) _.
      Ensures-then _ _ (at_lem p1.shards (key % p1.ps)) (λ pp there.
        Ensures-then _ _ (propose-WaitsIn pp q session cmd key timeout) (λ (reply, pp', q') waits.
          Ensures-ok _ (λ r e.
            let (own, found) = waits r e in
            let shards = set_elem p1.shards (key % p1.ps) pp' in
            let At : ℕ → Type 0 = λ k.
              (s : ProposalShard) × (get_elem? shards (k % p1.ps) ≡ some s)
              × (get s.pending k ≡ some r) in
            subst At (sym own)
              (pp', get_elem-set_elem p1.shards (key % p1.ps) pp' pp there, found)))))

-- A request that waits in time in the shard of its key, which is open, is told the result of its entry, completed or
-- rejected, and waits no longer; the other shards stay as they were.
pub route_lem :
    (p : PendingProposal) (result : ℕ) (rejected : Bool) (r : RequestState) (s : ProposalShard)
    → (p.ps == 0) ≡ false
    → get_elem? p.shards (r.key % p.ps) ≡ some s
    → get s.pending r.key ≡ some r
    → s.stopped ≡ false
    → s.clock.tick ≤ r.deadline
    → (p' : PendingProposal) × (s' : ProposalShard) × (Shards.applied p r.client_id r.series_id
          r.key result rejected
        ≡ ok p')
      × (get_elem? p'.shards (r.key % p.ps) ≡ some s')
      × Told r (result_of result rejected) s'
      × (get s'.pending r.key ≡ none)
      × ((j : ℕ) → j ≢ r.key % p.ps → get_elem? p'.shards j ≡ get_elem? p.shards j)
unfolding Shards.applied ◌>>=◌
route_lem p result rejected r s some_shards there waits going timely =
    let i = r.key % p.ps in
    let s' = Proposals.applied s r.client_id r.series_id r.key result rejected in
    let (told, gone) = Results.applied_lem s r.key result rejected r going waits timely in
    (
      record p { shards = set_elem p.shards i s' },
      s',
      ground arith,
      get_elem-set_elem p.shards i s' s there,
      told,
      gone,
      λ j other. get_elem-set_elem_other p.shards i j s' other,
    )
