-- ===== src/Requests/Shards.antt =====
-- pendingProposal of requests.go: the proposals of a node, spread over shards by their keys. A key
-- generator is a function of the number of calls made.
pub mod Routes
mod Tests
use dragonboat.Prelude.{
  ℕ, zero, suc, ◌+◌, ◌%◌, ◌⊎◌, Bool, none, some, List, [], ◌∷◌, map, ◌==◌, get_elem?, Outcome, ok,
  panic, ◌>>=◌, ◌>>◌, panic_if,
}
use dragonboat.Client.{ClientSession}
use dragonboat.Queue.Slots.{set_elem, make}
use dragonboat.Queue.EntryQueue.{EntryQueue}
use dragonboat.Requests.{RequestState}
use dragonboat.Requests.Proposals
use dragonboat.Requests.Proposals.{ProposalShard, ProposeError, new_pending_proposal_shard}

pub record KeyGenerator : Type 0 where
  pub rand : ℕ → ℕ
  pub calls : ℕ

pub record PendingProposal : Type 0 where
  pub shards : List ProposalShard
  pub keyg : List KeyGenerator
  pub ps : ℕ

-- The generators, of which one is made for each partition from a seed of its own, are an argument.
abbrev pub new_pending_proposal : (ℕ → ℕ → ℕ) → (tick_in_millisecond : ℕ) → PendingProposal
new_pending_proposal rand tick_in_millisecond = record {
  shards = make 16 (new_pending_proposal_shard tick_in_millisecond);
  keyg = generators 0 16;
  ps = 16;
}
  where
    generators : ℕ → ℕ → List KeyGenerator
    generators i zero = []
    generators i (suc n) = record { rand = rand i; calls = 0 } ∷ generators (suc i) n

-- `xs[i]`
abbrev pub at : {A : Type 0} → List A → ℕ → Outcome A
at xs i = elim (get_elem? xs i) [ none ↦ panic | some x ↦ ok x ]

unfoldable pub next_key : PendingProposal → (client_id : ℕ) → Outcome (ℕ × PendingProposal)
next_key p client_id = do
  panic_if (p.ps == 0)
  let i = client_id % p.ps
  g ← at p.keyg i
  ok (g.rand g.calls, record p { keyg = set_elem p.keyg i (record g { calls = g.calls + 1 }) })

unfoldable pub propose :
    PendingProposal
    → EntryQueue
    → ClientSession
    → (cmd : List ℕ) → (timeout : ℕ)
    → Outcome ((ProposeError ⊎ RequestState) × PendingProposal × EntryQueue)
propose p proposals session cmd timeout = do
  (key, p1) ← next_key p session.client_id
  pp ← at p1.shards (key % p1.ps)
  (r, pp', proposals') ← Proposals.propose pp proposals session cmd key timeout
  ok (r, record p1 { shards = set_elem p1.shards (key % p1.ps) pp' }, proposals')

unfoldable pub applied :
    PendingProposal
    → (client_id series_id key result : ℕ) → (rejected : Bool) → Outcome PendingProposal
applied p client_id series_id key result rejected = do
  panic_if (p.ps == 0)
  pp ← at p.shards (key % p.ps)
  ok (record p {
    shards =
        set_elem p.shards (key % p.ps)
          (Proposals.applied pp client_id series_id key result rejected);
  })

unfoldable pub increase_tick : PendingProposal → PendingProposal
increase_tick p = record p { shards = map Proposals.increase_tick p.shards }

unfoldable pub gc : PendingProposal → PendingProposal
gc p = record p { shards = map Proposals.gc p.shards }

unfoldable pub close_all : List ProposalShard → EntryQueue → List ProposalShard × EntryQueue
close_all [] proposals = ([], proposals)
close_all (pp ∷ shards) proposals =
    let (pp', proposals') = Proposals.close pp proposals in
    let (rest, last) = close_all shards proposals' in (pp' ∷ rest, last)

unfoldable pub close : PendingProposal → EntryQueue → PendingProposal × EntryQueue
close p proposals =
    let (shards, last) = close_all p.shards proposals in (record p { shards = shards }, last)
