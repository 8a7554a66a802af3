-- ===== src/Client/Tests.antt =====
-- client/session.go, on concrete inputs: a client with the id 9, whose first request has completed.
use dragonboat.Prelude.{
  ℕ, ◌-◌, ◌^◌, ◌≡◌, refl, true, false, none, some, [], ◌∷◌, ◌++◌, arith, Map, get, ok, panic, ◌>>=◌,
}
use dragonboat.Pb.{Entry}
use dragonboat.Client.{
  ClientSession, new_session, draw_client_id, prepare_for_register, prepare_for_propose,
  proposal_completed, valid_for_proposal, valid_for_session_op,
}
use dragonboat.Client.Protocol.{Uses, register, propose, complete}
use dragonboat.Client.Answers.{here, next, logged}
use dragonboat.Client.Told.{current_request-Told}
use dragonboat.Requests.{RequestState, proposal_entry}
use dragonboat.Requests.Node.{receive}
use dragonboat.Requests.Proposals.{ProposalShard, new_pending_proposal_shard}
use dragonboat.Requests.Proposals.Calls.{result_of}
use dragonboat.Requests.Proposals.Results.{Told}
use dragonboat.Rsm.Session
use dragonboat.Rsm.Session.{
  Session, get_response, add_response, clear_to, responses_above, has_responded,
}
use dragonboat.Rsm.Sessions.{get_session, add_session}
use dragonboat.Rsm.Managed.{
  client_registered, register_client_id, assign_session, update_responded_to, update_required,
  update,
}
use dragonboat.Rsm.StateMachine.{
  StateMachine, NodeCall, call_node, update_last_applied, set_batched_last_applied,
}
use dragonboat.Rsm.Apply.{
  handle_entry, handle_update, handle_register_session, update_sm, update_session,
  handle_commit_rec,
}
use dragonboat.Rsm.Tests.{env, list_cache-IsCache, fresh, state_of}

abbrev session : (series_id responded_to : ℕ) → ClientSession
session series_id responded_to = record {
  cluster_id = 1;
  client_id = 9;
  series_id = series_id;
  responded_to = responded_to;
}

-- Drawing passes over 0; a new session can register only once it is prepared for it, and the session
-- cannot propose while it registers.
drawn :
    (new_session 1 (0 ∷ 9 ∷ 4 ∷ []) ≡ some (session 1 0, 4 ∷ []))
    × (valid_for_session_op (session 1 0) 1 ≡ false)
    × (valid_for_session_op (session (2 ^ 64 - 2) 0) 1 ≡ true)
    × (valid_for_session_op (session (2 ^ 64 - 2) 0) 2 ≡ false)
    × (valid_for_proposal (session (2 ^ 64 - 2) 0) 1 ≡ ok false)
    × (valid_for_proposal (session 1 2) 1 ≡ panic)
    × (proposal_completed (session 3 1) ≡ panic)
    × (prepare_for_register (session 0 0) ≡ panic)
unfolding new_session draw_client_id valid_for_session_op valid_for_proposal proposal_completed
    prepare_for_register ◌>>=◌
drawn = (refl, refl, refl, refl, refl, refl, refl, refl)

abbrev registering : Entry
registering = proposal_entry (session (2 ^ 64 - 2) 0) 3 []

abbrev first : Entry
first = proposal_entry (session 1 0) 4 (5 ∷ 5 ∷ [])

uses : Uses 9 (session 2 1) (first ∷ registering ∷ [])
unfolding new_session draw_client_id prepare_for_register prepare_for_propose valid_for_proposal
    proposal_completed ◌>>=◌
uses = complete {s = session 1 0} refl (
    propose 4 (5 ∷ 5 ∷ []) refl (
      register 1 3 (0 ∷ 9 ∷ []) [] (session 1 0) (session (2 ^ 64 - 2) 0) (session 1 0) refl refl
        refl refl))

abbrev after_register : StateMachine (Map Session) ℕ
after_register = state_of (handle_commit_rec env fresh (logged registering 1 1) false)

abbrev after_first : StateMachine (Map Session) ℕ
after_first = state_of (handle_commit_rec env after_register (logged first 2 1) false)

abbrev second : Entry
second = proposal_entry (session 2 1) 6 (7 ∷ [])

abbrev request : RequestState
request = record { key = 6; client_id = 9; series_id = 2; deadline = 3 }

abbrev shard : ProposalShard
shard = record (new_pending_proposal_shard 1) { pending = (6, request) ∷ [] }

current_request-Told_example :
    (v : ℕ) × (s' : StateMachine (Map Session) ℕ) × (made : NodeCall) × (p' : ProposalShard)
    × (handle_commit_rec env after_first (logged second 3 1) true ≡ ok s')
    × (s'.calls ≡ after_first.calls ++ (made ∷ []))
    × (receive shard made ≡ ok p')
    × Told request (result_of v false) p'
    × (get p'.pending 6 ≡ none)
unfolding handle_commit_rec handle_entry handle_update handle_register_session update_sm
    update_session update_last_applied call_node set_batched_last_applied client_registered
    register_client_id assign_session update_responded_to update_required update get_session
    add_session Session.new_session get_response add_response clear_to responses_above has_responded
    valid_for_proposal ◌>>=◌
current_request-Told_example =
    current_request-Told env list_cache-IsCache 9 (session 2 1) (first ∷ registering ∷ []) 6 3 1
      (7 ∷ []) true fresh after_first shard request uses refl refl
      (next {t = after_register} (logged registering 1 1) false (λ _. (1, registering, refl, refl))
        refl
        (next {t = after_first} (logged first 2 1) false (λ _. (0, first, refl, refl)) refl here))
      (_, refl)
      (record { follows = refl; fits = omega arith; has_term = omega arith; rises = omega arith })
      (record {
        nonzero = refl;
        going = refl;
        there = refl;
        of_client = refl;
        of_series = refl;
        timely = omega arith;
      })
