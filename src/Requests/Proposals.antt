-- ===== src/Requests/Proposals.antt =====
-- proposalShard of requests.go: the proposals of a node that have not been told their result. A method is
-- one step; `propose` lets go of the mutex before it adds to the queue, which is not modelled.
pub mod Tables
pub mod Calls
pub mod Steps
pub mod Balance
pub mod Results
mod Tests
use dragonboat.Prelude.{
  ℕ, ◌*◌, ◌⊎◌, inl, inr, Bool, true, false, not, ◌&&◌, Option, none, some, List, [], ◌∷◌, ◌++◌, ltb,
  leb, ◌==◌, if◌then◌else◌, add64, sub64, length, Map, get, put, delete, keys, Outcome, ok, ◌>>=◌,
  ◌>>◌,
}
use dragonboat.Client.{ClientSession}
use dragonboat.Queue.EntryQueue
use dragonboat.Queue.EntryQueue.{EntryQueue}
use dragonboat.Requests.{
  RequestResultCode, RequestResult, get_terminated_result, get_timeout_result, RequestState,
  LogicalClock, get_timeout_tick, proposal_entry,
}

abbrev pub default_gc_tick : ℕ
default_gc_tick = 2

-- settings.MaxProposalPayloadSize
abbrev pub max_proposal_payload_size : ℕ
max_proposal_payload_size = 32 * 1024 * 1024

-- `told` is what the requests have been told so far. The queue of proposals is shared by the shards, so it
-- is an argument of the methods that use it.
pub record ProposalShard : Type 0 where
  pub pending : Map RequestState
  pub stopped : Bool
  pub expire_notified : ℕ
  pub clock : LogicalClock
  pub told : List (RequestState × RequestResult)

abbrev pub new_pending_proposal_shard : ℕ → ProposalShard
new_pending_proposal_shard tick_in_millisecond = record {
  pending = [];
  stopped = false;
  expire_notified = 0;
  clock = record {
    tick = 0;
    last_gc_time = 0;
    gc_tick = default_gc_tick;
    tick_in_millisecond = tick_in_millisecond;
  };
  told = [];
}

abbrev pub increase_tick : ProposalShard → ProposalShard
increase_tick p = record p { clock = record p.clock { tick = add64 p.clock.tick 1 } }

-- The errors of `propose`. ErrBadKey is for `badKeyCheck`, which is off.
pub data ProposeError : Type 0 where
  err_timeout_too_small err_payload_too_big err_cluster_closed err_system_busy : ProposeError

-- The part of `propose` behind its checks.
unfoldable pub enqueue :
    ProposalShard
    → EntryQueue
    → ClientSession
    → (cmd : List ℕ) → RequestState
    → Outcome ((ProposeError ⊎ RequestState) × ProposalShard × EntryQueue)
enqueue p proposals session cmd req = do
  let p1 = record p { pending = put p.pending req.key req }
  let dropped = record p1 { pending = delete p1.pending req.key }
  (proposals', added, stopped) ← EntryQueue.add proposals (proposal_entry session req.key cmd)
  if stopped
      then ok (inl ProposeError.err_cluster_closed, dropped, proposals')
      else if not added
      then ok (inl ProposeError.err_system_busy, dropped, proposals')
      else ok (inr req, p1, proposals')

unfoldable pub propose :
    ProposalShard
    → EntryQueue
    → ClientSession
    → (cmd : List ℕ) → (key timeout : ℕ)
    → Outcome ((ProposeError ⊎ RequestState) × ProposalShard × EntryQueue)
propose p proposals session cmd key timeout = do
  timeout_tick ← get_timeout_tick p.clock timeout
  let req : RequestState = record {
    key = key;
    client_id = session.client_id;
    series_id = session.series_id;
    deadline = add64 p.clock.tick timeout_tick;
  }
  if timeout_tick == 0
      then ok (inl ProposeError.err_timeout_too_small, p, proposals)
      else if ltb max_proposal_payload_size (length cmd)
      then ok (inl ProposeError.err_payload_too_big, p, proposals)
      else enqueue p proposals session cmd req

-- The loop of `close`.
unfoldable pub terminate_all : Map RequestState → List (RequestState × RequestResult)
terminate_all [] = []
terminate_all ((k, r) ∷ m) = (r, get_terminated_result) ∷ terminate_all m

unfoldable pub close : ProposalShard → EntryQueue → ProposalShard × EntryQueue
close p proposals = (
  record p { stopped = true; told = p.told ++ terminate_all p.pending },
  EntryQueue.close proposals,
)

unfoldable pub get_proposal :
    ProposalShard → (client_id series_id key now : ℕ) → Option RequestState × ProposalShard
get_proposal p client_id series_id key now =
    if p.stopped then (none, p) else elim (get p.pending key) [
      | none ↦ (none, p)
      | some ps ↦
          if leb now ps.deadline && (ps.client_id == client_id) && (ps.series_id == series_id)
          then (some ps, record p { pending = delete p.pending key })
          else (none, p)
    ]

-- The first loop of `gcAt`, which tells the requests, and what its second loop deletes.
unfoldable pub expired : Map RequestState → ℕ → Map RequestState
expired [] now = []
expired ((k, r) ∷ m) now =
    let rest = expired m now in if ltb r.deadline now then (k, r) ∷ rest else rest

unfoldable pub tell_timeout : Map RequestState → List (RequestState × RequestResult)
tell_timeout [] = []
tell_timeout ((k, r) ∷ m) = (r, get_timeout_result) ∷ tell_timeout m

unfoldable pub delete_keys : {V : Type 0} → List ℕ → Map V → Map V
delete_keys [] m = m
delete_keys (k ∷ ks) m = delete_keys ks (delete m k)

unfoldable pub gc_at : ProposalShard → ℕ → ProposalShard
gc_at p now =
    if p.stopped
    then p
    else if ltb (sub64 now p.clock.last_gc_time) p.clock.gc_tick
    then p
    else let out = expired p.pending now in
      record p {
        clock = record p.clock { last_gc_time = now };
        told = p.told ++ tell_timeout out;
        pending = delete_keys (keys out) p.pending;
      }

unfoldable pub gc : ProposalShard → ProposalShard
gc p = gc_at p p.clock.tick

-- The part of `applied` that tells the request.
unfoldable pub answer :
    ProposalShard
    → (client_id series_id key result : ℕ) → (rejected : Bool) → (now : ℕ) → ProposalShard
answer p client_id series_id key result rejected now =
    let code =
      if rejected
      then RequestResultCode.request_rejected
      else RequestResultCode.request_completed in
    let (ps, p1) = get_proposal p client_id series_id key now in
    elim ps [
      | none ↦ p1
      | some r ↦ record p1 { told = p1.told ++ ((r, record { code = code; result = result }) ∷ []) }
    ]

unfoldable pub applied :
    ProposalShard → (client_id series_id key result : ℕ) → (rejected : Bool) → ProposalShard
applied p client_id series_id key result rejected =
    let now = p.clock.tick in
    let p1 = answer p client_id series_id key result rejected now in
    if not (now == p1.expire_notified) then record (gc_at p1 now) { expire_notified = now } else p1
