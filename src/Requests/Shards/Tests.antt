-- ===== src/Requests/Shards/Tests.antt =====
-- pendingProposal of requests.go, on concrete inputs: generators that yield 19 first.
use dragonboat.Prelude.{
  ℕ, ◌+◌, ◌≡◌, refl, ◌≢◌, ◌⊎◌, inr, true, none, some, [], ◌∷◌, arith, get_elem?, get, Outcome, ok,
  panic, ◌>>=◌, Ensures,
}
use dragonboat.Client.{ClientSession}
use dragonboat.Queue.EntryQueue
use dragonboat.Queue.EntryQueue.{EntryQueue, new_entry_queue}
use dragonboat.Requests.{RequestState}
use dragonboat.Requests.Proposals
use dragonboat.Requests.Proposals.{ProposalShard, ProposeError, enqueue, new_pending_proposal_shard}
use dragonboat.Requests.Proposals.Calls.{result_of}
use dragonboat.Requests.Proposals.Results.{Told}
use dragonboat.Requests.Shards
use dragonboat.Requests.Shards.{PendingProposal, new_pending_proposal, next_key}
use dragonboat.Requests.Shards.Routes.{WaitsAt, propose-WaitsAt, route_lem}

abbrev session : ClientSession
session = record { cluster_id = 1; client_id = 9; series_id = 2; responded_to = 1 }

abbrev start : PendingProposal
start = new_pending_proposal (λ i n. 19 + n) 1

abbrev left_by :
    Outcome ((ProposeError ⊎ RequestState) × PendingProposal × EntryQueue) → PendingProposal
left_by (ok r) = r.1
left_by panic = start

abbrev asked : PendingProposal
asked = left_by (Shards.propose start (new_entry_queue 4 0) session (5 ∷ []) 3_000_000)

abbrev request : RequestState
request = record { key = 19; client_id = 9; series_id = 2; deadline = 3 }

abbrev shard : ProposalShard
shard = record (new_pending_proposal_shard 1) { pending = (19, request) ∷ [] }

-- The request waits in the shard 3, since 19 is 3 modulo 16.
route_lem_example :
    (p' : PendingProposal) × (s' : ProposalShard) × (Shards.applied asked 9 2 19 4 true ≡ ok p')
    × (get_elem? p'.shards 3 ≡ some s')
    × Told request (result_of 4 true) s'
    × (get s'.pending 19 ≡ none)
    × ((j : ℕ) → j ≢ 3 → get_elem? p'.shards j ≡ get_elem? asked.shards j)
unfolding Shards.propose next_key Proposals.propose enqueue EntryQueue.add ◌>>=◌
route_lem_example = route_lem asked 4 true request shard refl refl refl refl (omega arith)

propose-WaitsAt_example :
    Ensures
      (λ res. (r : RequestState) → res.0 ≡ inr r → WaitsAt res.1 r)
      (Shards.propose start (new_entry_queue 4 0) session (5 ∷ []) 3_000_000)
propose-WaitsAt_example = propose-WaitsAt start (new_entry_queue 4 0) session (5 ∷ []) 3_000_000
