-- ===== src/Requests/Proposals/Balance.antt =====
-- proposalShard of requests.go: no accepted proposal is lost, and none is told twice.
use dragonboat.Prelude.{
  ℕ, ◌+◌, ◌≡◌, refl, Option, List, [], ◌∷◌, arith, ok, Ensures, Ensures-ok, Ensures-then,
}
use dragonboat.Queue.EntryQueue.{EntryQueue}
use dragonboat.Requests.{RequestState}
use dragonboat.Requests.Proposals
use dragonboat.Requests.Proposals.{
  ProposalShard, ProposeError, max_proposal_payload_size, enqueue, terminate_all, get_proposal,
  expired, tell_timeout, gc_at, answer,
}
use dragonboat.Requests.Proposals.Tables.{count}
use dragonboat.Requests.Proposals.Calls.{waiting, IsValid, Call, call, Allowed, asked, Balances}
use dragonboat.Requests.Proposals.Steps.{
  propose-Balances, gc_at-Balances, applied-Balances, close-Balances,
}

pub call-Balances :
    (k : ℕ) (c : Call) (p : ProposalShard) (q : EntryQueue)
    → IsValid p q
    → Allowed c p
    → Ensures (Balances k p) (call c p q)
unfolding Proposals.gc
call-Balances k (Call.propose session cmd key timeout) p q v new =
    Ensures-then _ _ (propose-Balances k p q session cmd key timeout v new) (λ r b. Ensures-ok _ b)
call-Balances k (Call.applied client_id series_id key result rejected) p q v _ =
    Ensures-ok _ (applied-Balances k p q client_id series_id key result rejected v)
call-Balances k Call.gc p q v _ = Ensures-ok _ (gc_at-Balances k p q p.clock.tick v)
call-Balances k Call.increase_tick p q v _ =
    Ensures-ok _ (record { table = v.table; closed = v.closed }, omega arith)
call-Balances k Call.close p q v open_ = Ensures-ok _ (close-Balances k p q v open_)

-- Calls one after another, with their replies.
pub data Calls (p : ProposalShard) (q : EntryQueue)
    : List (Option RequestState) → ProposalShard → EntryQueue → Type 0 where
  here : Calls p q [] p q
  next :
      {rs : List (Option RequestState)} {p1 p2 : ProposalShard} {q1 q2 : EntryQueue}
      {r : Option RequestState} (c : Call)
      → Calls p q rs p1 q1
      → Allowed c p1
      → call c p1 q1 ≡ ok (r, p2, q2)
      → Calls p q (r ∷ rs) p2 q2

abbrev pub asked_by : ℕ → List (Option RequestState) → ℕ
asked_by k [] = 0
asked_by k (r ∷ rs) = asked k r + asked_by k rs

-- Whatever calls are made of a new shard, if no new proposal takes a key that waits and the shard is closed
-- at most once: for each key, the results that were told and the requests that still wait make up the
-- requests that were accepted. So no request is lost, none is told twice, and none is told that was
-- refused; once the shard is closed, all have been told.
pub Calls-count :
    (k tick_in_millisecond : ℕ) (q : EntryQueue) (rs : List (Option RequestState))
    (p' : ProposalShard) (q' : EntryQueue)
    → Calls (Proposals.new_pending_proposal_shard tick_in_millisecond) q rs p' q'
    → IsValid p' q' × (count k p'.told + waiting k p' ≡ asked_by k rs)
Calls-count k ms q rs p' q' here = (record { table = tt; closed = λ h. cc }, refl)
Calls-count k ms q rs p' q' (next {rs = rs'} {p1} {q1 = q1} {r} c calls allowed done) =
    let (v, total) = Calls-count k ms q rs' p1 q1 calls in
    let (v', more) = (call-Balances k c p1 q1 v allowed).at (r, p', q') done in (v', omega arith)
