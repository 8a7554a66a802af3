-- ===== src/Requests/Node.antt =====
-- node.go: how a node proposes for a client, and how it tells the client's request what the state machine
-- has made of the entry. The cluster id of the node is a parameter; of its shards of proposals it is
-- the one of the entry's key.
use dragonboat.Prelude.{
  ℕ, ◌⊎◌, Bool, not, Option, none, some, List, [], ◌==◌, if◌then◌else◌, Outcome, ok, panic, ◌>>=◌,
}
use dragonboat.Pb.{Entry}
use dragonboat.Client.{ClientSession, valid_for_proposal, valid_for_session_op}
use dragonboat.Queue.EntryQueue.{EntryQueue}
use dragonboat.Requests.{RequestState}
use dragonboat.Requests.Proposals
use dragonboat.Requests.Proposals.{ProposalShard, ProposeError}
use dragonboat.Rsm.StateMachine.{NodeCall}

-- `none` for ErrInvalidSession.
abbrev pub Proposed : Type 0
Proposed = Option (ProposeError ⊎ RequestState) × ProposalShard × EntryQueue

module _ (cluster_id : ℕ) where
  unfoldable pub enqueue :
      ProposalShard
      → EntryQueue
      → ClientSession
      → (cmd : List ℕ) → (key timeout : ℕ) → Outcome Proposed
  enqueue p proposals session cmd key timeout = do
    (r, p', proposals') ← Proposals.propose p proposals session cmd key timeout
    ok (some r, p', proposals')

  unfoldable pub propose_session :
      ProposalShard → EntryQueue → ClientSession → (key timeout : ℕ) → Outcome Proposed
  propose_session p proposals session key timeout =
      if not (valid_for_session_op session cluster_id)
      then ok (none, p, proposals)
      else enqueue p proposals session [] key timeout

  unfoldable pub propose :
      ProposalShard
      → EntryQueue
      → ClientSession
      → (cmd : List ℕ) → (key timeout : ℕ) → Outcome Proposed
  propose p proposals session cmd key timeout = do
    valid ← valid_for_proposal session cluster_id
    if not valid then ok (none, p, proposals) else enqueue p proposals session cmd key timeout

-- `applyUpdate`, without the reads that wait for the index of the entry.
unfoldable pub apply_update :
    ProposalShard → Entry → (result : ℕ) → (rejected ignored : Bool) → Outcome ProposalShard
apply_update p entry result rejected ignored =
    if not ignored
    then if entry.key == 0
      then panic
      else ok (Proposals.applied p entry.client_id entry.series_id entry.key result rejected)
    else ok p

-- The call of the node that the state machine has made, as far as the proposals are concerned.
abbrev pub receive : ProposalShard → NodeCall → Outcome ProposalShard
receive p (NodeCall.apply_update entry result rejected ignored last) =
    apply_update p entry result rejected ignored
receive p _ = ok p
