-- ===== src/Requests/Proposals/Steps.antt =====
-- proposalShard of requests.go: every method of a shard balances.
use dragonboat.Prelude.{
  ℕ, ◌+◌, ◌≡◌, refl, sym, subst, ◌⊎◌, inl, inr, Bool, true, false, not, ◌&&◌, none, some, List, [],
  ◌∷◌, ◌++◌, arith, ltb, leb, ◌==◌, Bool-cases, Option-cases, if_cases, sub64, length, get, has_key,
  put, delete, keys, has_key-put, has_key-get, Ensures, Ensures-ok, Ensures-if, Ensures-bind,
  Ensures-then,
}
use dragonboat.Pb.{Entry}
use dragonboat.Client.{ClientSession}
use dragonboat.Queue.EntryQueue
use dragonboat.Queue.EntryQueue.{EntryQueue, target_queue, put_target}
use dragonboat.Requests.{RequestState, get_timeout_tick, proposal_entry}
use dragonboat.Requests.Proposals
use dragonboat.Requests.Proposals.{
  ProposalShard, ProposeError, max_proposal_payload_size, enqueue, terminate_all, get_proposal,
  expired, tell_timeout, gc_at, answer,
}
use dragonboat.Requests.Proposals.Tables.{
  IsTable, count, present, count-append, put-IsTable, delete-IsTable, delete_keys-IsTable, get-key,
  present-delete, count-terminate_all, expired-balance,
}
use dragonboat.Requests.Proposals.Calls.{IsValid, accepted_of, asked, Balances, result_of}

add-stopped :
    (q : EntryQueue) (e : Entry)
    → Ensures
        (λ r. (r.0.stopped ≡ q.stopped) × (q.stopped ≡ true → r.2 ≡ true))
        (EntryQueue.add q e)
unfolding EntryQueue.add
add-stopped q e =
    Ensures-if (leb q.size q.idx) _ _ (λ _. Ensures-ok _ (refl, λ h. h))
      (λ _.
        Ensures-if q.stopped _ _ (λ h. Ensures-ok _ (refl, λ _. refl))
          (λ going. Ensures-bind _ _ (λ w _. Ensures-ok _ (ground arith, λ h. cc))))

enqueue-Balances :
    (k : ℕ) (p : ProposalShard) (q : EntryQueue) (session : ClientSession) (cmd : List ℕ)
    (req : RequestState)
    → IsValid p q
    → has_key p.pending req.key ≡ false
    → Ensures (λ r. Balances k p (accepted_of r.0, r.1, r.2)) (enqueue p q session cmd req)
unfolding enqueue
enqueue-Balances k p q session cmd req v new =
    let m = put p.pending req.key req in
    let t = put-IsTable p.pending req.key req refl v.table in
    let back : IsTable (delete m req.key) = delete-IsTable m req.key t in
    let now = has_key-put p.pending req.key k req in
    let then_ = present-delete m req.key k in
    let counted : p.stopped ≡ false
        → count k p.told + present k m ≡ count k p.told + present k p.pending + asked k (some req) =
      λ open_. elim (Bool-cases (req.key == k)) [
        | inl same ↦ ground arith
        | inr other ↦ ground arith
      ] in
    Ensures-then _ _ (add-stopped q (proposal_entry session req.key cmd)) (λ r s.
      Ensures-if r.2 _ _
        (λ _.
          Ensures-ok _
            (record { table = back; closed = λ h. ground (arith, s.0, v.closed h) }, ground arith))
        (λ going.
          Ensures-if (not r.1) _ _
            (λ _. Ensures-ok _ (
              record { table = back; closed = λ h. ground (arith, s.0, v.closed h) },
              ground arith,
            ))
            (λ _. Ensures-ok _ (
              record { table = t; closed = λ h. ground (arith, s.0, v.closed h) },
              ground (arith, s.1, v.closed, counted),
            ))))

pub propose-Balances :
    (k : ℕ) (p : ProposalShard) (q : EntryQueue) (session : ClientSession) (cmd : List ℕ)
    (key timeout : ℕ)
    → IsValid p q
    → has_key p.pending key ≡ false
    → Ensures
        (λ r. Balances k p (accepted_of r.0, r.1, r.2))
        (Proposals.propose p q session cmd key timeout)
unfolding Proposals.propose
propose-Balances k p q session cmd key timeout v new =
    Ensures-bind (get_timeout_tick p.clock timeout) _ (λ ticks _.
      Ensures-if (ticks == 0) _ _ (λ _. Ensures-ok _ (v, omega arith))
        (λ _.
          Ensures-if (ltb max_proposal_payload_size (length cmd)) _ _
            (λ _. Ensures-ok _ (v, omega arith)) (λ _. enqueue-Balances k p q session cmd _ v new)))

pub gc_at-Balances :
    (k : ℕ) (p : ProposalShard) (q : EntryQueue) (now : ℕ)
    → IsValid p q
    → Balances k p (none, gc_at p now, q)
unfolding gc_at
gc_at-Balances k p q now v =
    if_cases (λ p'. Balances k p (none, p', q)) p.stopped _ _ (λ _. (v, omega arith))
      (λ going.
        if_cases (λ p'. Balances k p (none, p', q))
          (ltb (sub64 now p.clock.last_gc_time) p.clock.gc_tick) _ _ (λ _. (v, omega arith))
          (λ due.
            let out = expired p.pending now in
            (
              record {
                table = delete_keys-IsTable (keys out) p.pending v.table;
                closed = v.closed;
              },
              ground (
                arith,
                expired-balance p.pending now k v.table,
                count-append k p.told (tell_timeout out),
              ),
            )))

-- The request is told and taken out of the table when it waits under the key, is in time and of that
-- client and series.
pub answer-cases :
    (p : ProposalShard) (client_id series_id key result : ℕ) (rejected : Bool) (now : ℕ)
    → (answer p client_id series_id key result rejected now ≡ p)
      ⊎ ((r : RequestState) × (get p.pending key ≡ some r)
          × (p.stopped ≡ false)
          × (answer p client_id series_id key result rejected now ≡ record p {
            pending = delete p.pending key;
            told = p.told ++ ((r, result_of result rejected) ∷ []);
          }))
unfolding answer get_proposal
answer-cases p client_id series_id key result rejected now = elim (Bool-cases p.stopped) [
  | inl stopped ↦ inl (ground arith)
  | inr going ↦ elim (Option-cases (get p.pending key)) [
    | inl missing ↦ inl (ground arith)
    | inr (r, there) ↦
        elim (Bool-cases
          (leb now r.deadline && (r.client_id == client_id) && (r.series_id == series_id))) [
            | inl right ↦ inr (r, there, going, ground arith)
            | inr wrong ↦ inl (ground arith)
          ]
  ]
]

answer-Balances :
    (k : ℕ) (p : ProposalShard) (q : EntryQueue) (client_id series_id key result : ℕ)
    (rejected : Bool) (now : ℕ)
    → IsValid p q
    → Balances k p (none, answer p client_id series_id key result rejected now, q)
answer-Balances k p q client_id series_id key result rejected now v =
    elim (answer-cases p client_id series_id key result rejected now) [
      | inl same ↦ subst (λ p'. Balances k p (none, p', q)) (sym same) (v, omega arith)
      | inr (r, there, going, told) ↦
          let own = get-key p.pending key r v.table there in
          subst (λ p'. Balances k p (none, p', q)) (sym told)
            (
              record { table = delete-IsTable p.pending key v.table; closed = v.closed },
              ground (
                arith,
                present-delete p.pending key k,
                has_key-get p.pending key,
                count-append k p.told ((r, result_of result rejected) ∷ []),
              ),
            )
    ]

pub applied-Balances :
    (k : ℕ) (p : ProposalShard) (q : EntryQueue) (client_id series_id key result : ℕ)
    (rejected : Bool)
    → IsValid p q
    → Balances k p (none, Proposals.applied p client_id series_id key result rejected, q)
unfolding Proposals.applied
applied-Balances k p q client_id series_id key result rejected v =
    let now = p.clock.tick in
    let p1 = answer p client_id series_id key result rejected now in
    let (v1, told) = answer-Balances k p q client_id series_id key result rejected now v in
    let (v2, told') = gc_at-Balances k p1 q now v1 in
    if_cases (λ p'. Balances k p (none, p', q)) (not (now == p1.expire_notified)) _ _
      (λ _. (record { table = v2.table; closed = v2.closed }, omega arith)) (λ _. (v1, told))

pub close-Balances :
    (k : ℕ) (p : ProposalShard) (q : EntryQueue)
    → IsValid p q
    → p.stopped ≡ false
    → Balances k p (none, (Proposals.close p q).0, (Proposals.close p q).1)
unfolding Proposals.close
close-Balances k p q v open_ = (
  record { table = v.table; closed = λ h. refl },
  ground (
    arith,
    count-terminate_all p.pending k v.table,
    count-append k p.told (terminate_all p.pending),
  ),
)
