-- ===== src/Requests/Proposals/Tests.antt =====
-- proposalShard of requests.go, on concrete inputs: a shard with a millisecond between its ticks.
use dragonboat.Prelude.{
  ℕ, zero, suc, ◌+◌, ◌≤◌, ◌<◌, ◌≡◌, refl, ◌⊎◌, inl, false, none, some, [], ◌∷◌, arith, length, get,
  Outcome, ok, panic, ◌>>=◌,
}
use dragonboat.Client.{ClientSession}
use dragonboat.Queue.EntryQueue
use dragonboat.Queue.EntryQueue.{EntryQueue, new_entry_queue}
use dragonboat.Requests.{RequestState, get_timeout_result}
use dragonboat.Requests.Proposals
use dragonboat.Requests.Proposals.{
  ProposalShard, ProposeError, new_pending_proposal_shard, enqueue, propose, applied, gc,
  increase_tick, terminate_all, get_proposal, expired, tell_timeout, delete_keys, gc_at, answer,
}
use dragonboat.Requests.Proposals.Tables.{count}
use dragonboat.Requests.Proposals.Calls.{IsValid, Call, waiting}
use dragonboat.Requests.Proposals.Balance.{asked_by, here, next, Calls-count}
use dragonboat.Requests.Proposals.Results.{Told, gc_lem}

abbrev session : ClientSession
session = record { cluster_id = 1; client_id = 9; series_id = 2; responded_to = 1 }

abbrev shard : ProposalShard
shard = new_pending_proposal_shard 1

abbrev queue : EntryQueue
queue = new_entry_queue 1 0

abbrev request : ℕ → RequestState
request key = record { key = key; client_id = 9; series_id = 2; deadline = 3 }

abbrev left_by :
    Outcome ((ProposeError ⊎ RequestState) × ProposalShard × EntryQueue)
    → ProposalShard × EntryQueue
left_by (ok r) = (r.1, r.2)
left_by panic = (shard, queue)

abbrev asked_one : ProposalShard × EntryQueue
asked_one = left_by (propose shard queue session (5 ∷ []) 7 3_000_000)

abbrev ticks : ℕ → ProposalShard → ProposalShard
ticks zero p = p
ticks (suc n) p = ticks n (increase_tick p)

-- A short timeout is refused, a full queue takes no second proposal, and a shard that was closed tells the
-- first one that it ends.
refusals :
    (propose shard queue session [] 7 999_999
      ≡ ok (inl ProposeError.err_timeout_too_small, shard, queue))
    × (propose asked_one.0 asked_one.1 session [] 8 3_000_000
        ≡ ok (inl ProposeError.err_system_busy, asked_one.0, asked_one.1))
    × (length (Proposals.close asked_one.0 asked_one.1).0.told ≡ 1)
    × ((ticks 3 asked_one.0).pending ≡ asked_one.0.pending)
unfolding propose enqueue EntryQueue.add terminate_all Proposals.close ◌>>=◌
refusals = (refl, refl, refl, refl)

Calls-count_example :
    IsValid (applied asked_one.0 9 2 7 4 false) asked_one.1
    × (count 7 (applied asked_one.0 9 2 7 4 false).told
          + waiting 7 (applied asked_one.0 9 2 7 4 false)
        ≡ asked_by 7 (none ∷ some (request 7) ∷ []))
unfolding propose enqueue EntryQueue.add applied answer get_proposal gc_at ◌>>=◌
Calls-count_example =
    Calls-count 7 1 queue (none ∷ some (request 7) ∷ []) (applied asked_one.0 9 2 7 4 false)
      asked_one.1
      (next {p1 = asked_one.0} {q1 = asked_one.1} {r = none} (Call.applied 9 2 7 4 false)
        (next {p1 = shard} {q1 = queue} {r = some (request 7)}
          (Call.propose session (5 ∷ []) 7 3_000_000) here refl refl)
        tt refl)

gc_lem_example :
    (3 < 4
      → Told (request 7) get_timeout_result (gc (ticks 4 asked_one.0))
        × (get (gc (ticks 4 asked_one.0)).pending 7 ≡ none))
    × (4 ≤ 3 → get (gc (ticks 4 asked_one.0)).pending 7 ≡ some (request 7))
unfolding propose enqueue EntryQueue.add ◌>>=◌
gc_lem_example = gc_lem (ticks 4 asked_one.0) 7 (request 7) (refl, refl, tt) refl (omega arith) refl
