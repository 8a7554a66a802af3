-- ===== src/Client/Told.antt =====
-- client/session.go with internal/rsm, node.go and requests.go: a client is told the result of its current
-- request.
use dragonboat.Prelude.{
  ℕ, ◌≤◌, ◌≡◌, Bool, true, false, none, some, List, [], ◌∷◌, ◌++◌, arith, ◌==◌, get, ok,
}
use dragonboat.Pb.{Entry}
use dragonboat.Client.{ClientSession, valid_for_proposal}
use dragonboat.Client.Protocol.{Uses}
use dragonboat.Client.Answers.{Applies, logged, current_request_answered}
use dragonboat.Requests.{RequestState, proposal_entry}
use dragonboat.Requests.Node.{apply_update, receive}
use dragonboat.Requests.Proposals
use dragonboat.Requests.Proposals.{ProposalShard}
use dragonboat.Requests.Proposals.Calls.{result_of}
use dragonboat.Requests.Proposals.Results.{Told, applied_lem}
use dragonboat.Rsm.Sessions.{IsCache}
use dragonboat.Rsm.Managed.Knows.{session_of, Registered}
use dragonboat.Rsm.StateMachine.{StateMachine, Env, NodeCall}
use dragonboat.Rsm.Apply.{handle_commit_rec}
use dragonboat.Rsm.Apply.Change.{IsNext}

-- The proposal of the session waits in time under the key, which is not the one that the node refuses.
pub record Waits (p : ProposalShard) (cs : ClientSession) (key : ℕ) (r : RequestState)
    : Type 0 where
  pub nonzero : (key == 0) ≡ false
  pub going : p.stopped ≡ false
  pub there : get p.pending key ≡ some r
  pub of_client : r.client_id ≡ cs.client_id
  pub of_series : r.series_id ≡ cs.series_id
  pub timely : p.clock.tick ≤ r.deadline

module _ {C D : Type 0} (env : Env C D) (cache : IsCache env.ops) (c : ℕ) where
  -- A client that registers, proposes one request at a time and acknowledges each before the next is told
  -- a result of its current request once that is applied: whatever was applied before (the client's
  -- earlier proposals and attempts of this one, in any order and any number, and any other entries),
  -- if the client is still registered and the proposal waits in time at the node, applying it as the
  -- next entry succeeds, the state machine makes one call of the node, for a result, and on that call
  -- the waiting request is told that it has completed with that result, and waits no longer.
  pub current_request-Told :
      (cs : ClientSession) (es : List Entry) (key index term : ℕ) (cmd : List ℕ) (last : Bool)
      (s0 s : StateMachine C D) (p : ProposalShard) (r : RequestState)
      → Uses c cs es
      → valid_for_proposal cs cs.cluster_id ≡ ok true
      → session_of env.ops s0.sm c ≡ none
      → Applies env c es s0 s
      → Registered env.ops s.sm c
      → IsNext s (logged (proposal_entry cs key cmd) index term)
      → Waits p cs key r
      → (v : ℕ) × (s' : StateMachine C D) × (made : NodeCall) × (p' : ProposalShard)
        × (handle_commit_rec env s (logged (proposal_entry cs key cmd) index term) last ≡ ok s')
        × (s'.calls ≡ s.calls ++ (made ∷ []))
        × (receive p made ≡ ok p')
        × Told r (result_of v false) p'
        × (get p'.pending key ≡ none)
  unfolding apply_update
  current_request-Told cs es key index term cmd last s0 s p r u valid unknown run reg next w =
      let (v, s', done, calls) =
        current_request_answered env cache c cs es key index term cmd last s0 s u valid unknown run
          reg next in
      let (told, gone) = applied_lem p key v false r w.going w.there w.timely in
      let ent = logged (proposal_entry cs key cmd) index term in
      (
        v,
        s',
        NodeCall.apply_update ent v false false last,
        Proposals.applied p r.client_id r.series_id key v false,
        done,
        calls,
        ground (arith, w.of_client, w.of_series),
        told,
        gone,
      )
