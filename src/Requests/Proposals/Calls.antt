-- ===== src/Requests/Proposals/Calls.antt =====
-- proposalShard of requests.go: the calls of a shard, and what has to balance.
use dragonboat.Prelude.{
  ℕ, ◌+◌, ◌≡◌, ◌⊎◌, inl, inr, Bool, true, false, Option, none, some, List, ◌==◌, if◌then◌else◌,
  has_key, Outcome, ok, ◌>>=◌,
}
use dragonboat.Client.{ClientSession}
use dragonboat.Queue.EntryQueue.{EntryQueue}
use dragonboat.Requests.{RequestResultCode, RequestResult, RequestState}
use dragonboat.Requests.Proposals
use dragonboat.Requests.Proposals.{
  ProposalShard, ProposeError, max_proposal_payload_size, enqueue, terminate_all, get_proposal,
  expired, tell_timeout, gc_at, answer,
}
use dragonboat.Requests.Proposals.Tables.{IsTable, count, present}

-- What `applied` tells a request.
abbrev pub result_of : ℕ → Bool → RequestResult
result_of result rejected = record {
  code =
      if rejected then RequestResultCode.request_rejected else RequestResultCode.request_completed;
  result = result;
}

-- How many requests with the key are still to be told their result. A shard that is stopped has told all.
abbrev pub waiting : ℕ → ProposalShard → ℕ
waiting k p = if p.stopped then 0 else present k p.pending

pub record IsValid (p : ProposalShard) (q : EntryQueue) : Type 0 where
  pub table : IsTable p.pending
  pub closed : p.stopped ≡ true → q.stopped ≡ true

-- The methods that the rest of the node calls.
pub data Call : Type 0 where
  propose : (session : ClientSession) (cmd : List ℕ) (key timeout : ℕ) → Call
  applied : (client_id series_id key result : ℕ) (rejected : Bool) → Call
  gc increase_tick close : Call

-- The reply is the request, if one was accepted.
abbrev pub accepted_of : ProposeError ⊎ RequestState → Option RequestState
accepted_of (inl e) = none
accepted_of (inr r) = some r

abbrev pub call :
    Call → ProposalShard → EntryQueue → Outcome (Option RequestState × ProposalShard × EntryQueue)
call (Call.propose session cmd key timeout) p q = do
  (r, p', q') ← Proposals.propose p q session cmd key timeout
  ok (accepted_of r, p', q')
call (Call.applied client_id series_id key result rejected) p q =
    ok (none, Proposals.applied p client_id series_id key result rejected, q)
call Call.gc p q = ok (none, Proposals.gc p, q)
call Call.increase_tick p q = ok (none, Proposals.increase_tick p, q)
call Call.close p q = let (p', q') = Proposals.close p q in ok (none, p', q')

-- A new proposal has a key that no waiting one has, and the shard is closed once.
abbrev pub Allowed : Call → ProposalShard → Type 0
Allowed (Call.propose session cmd key timeout) p = has_key p.pending key ≡ false
Allowed Call.close p = p.stopped ≡ false
Allowed _ p = Unit

abbrev pub asked : ℕ → Option RequestState → ℕ
asked k none = 0
asked k (some r) = if r.key == k then 1 else 0

-- The state after a call, for its reply.
abbrev pub Balances : ℕ → ProposalShard → Option RequestState × ProposalShard × EntryQueue → Type 0
Balances k p (r, p', q') =
    IsValid p' q' × (count k p'.told + waiting k p' ≡ count k p.told + waiting k p + asked k r)
