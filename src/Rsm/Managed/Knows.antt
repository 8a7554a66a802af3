-- ===== src/Rsm/Managed/Knows.antt =====
-- internal/rsm/managedstatemachine.go: a request that a client's session knows stays known for as long
-- as the client is registered.
use dragonboat.Prelude.{
  ℕ, ◌≡◌, refl, inr, false, Option, none, some, List, arith, put, ok, ◌>>=◌, Ensures, Ensures-ok,
}
use dragonboat.Rsm.Session.{Session, get_response, add_response, clear_to}
use dragonboat.Rsm.Session.Answers.{Answered, clear_to-client_id, add_response_lem}
use dragonboat.Rsm.Sessions.{CacheOps, IsCache, get_session}
use dragonboat.Rsm.Managed.{
  DataStore, NativeStateMachine, client_registered, assign_session, update_responded_to,
  update_required, update,
}

-- The session of a client.
abbrev pub session_of : {C D : Type 0} → CacheOps C → NativeStateMachine C D → ℕ → Option Session
session_of ops ds client_id = (ops.get ds.sessions.sessions client_id).0

abbrev pub Registered : {C D : Type 0} → CacheOps C → NativeStateMachine C D → ℕ → Type 0
Registered ops ds client_id = (s : Session) × (session_of ops ds client_id ≡ some s)

-- The session of the client has answered the request `id` with `result`.
abbrev pub Knows :
    {C D : Type 0} → CacheOps C → NativeStateMachine C D → (client_id id result : ℕ) → Type 0
Knows ops ds client_id id result =
    (s : Session) × (session_of ops ds client_id ≡ some s) × Answered s id result

module _ {C D : Type 0} (ops : CacheOps C) (store : DataStore D) (cache : IsCache ops) where
  open cache use {get-get, get-del, get-assign, get-add}

  -- What `client_registered` answers, and that it changes no session.
  pub client_registered_lem :
      (ds ds' : NativeStateMachine C D) (k : ℕ) (es : Option Session)
      → client_registered ops store ds k ≡ ok (es, ds')
      → (session_of ops ds k ≡ es)
        × (ds'.data_store ≡ ds.data_store)
        × ((j : ℕ) → session_of ops ds' j ≡ session_of ops ds j)
  unfolding client_registered get_session
  client_registered_lem ds ds' k es h =
      (ground arith, ground arith, λ j. ground (arith, get-get ds.sessions.sessions k j))

  -- The session that it answers is the one of that client.
  pub client_registered-eq_some :
      (ds ds' : NativeStateMachine C D) (k : ℕ) (es : Option Session) (s : Session)
      → client_registered ops store ds k ≡ ok (es, ds')
      → es ≡ some s
      → (s.client_id ≡ k) × (session_of ops ds' s.client_id ≡ some s)
  unfolding client_registered get_session
  client_registered-eq_some ds ds' k es s h e =
      (ground arith, ground (arith, get-get ds.sessions.sessions k k))

  -- What an update of a session that lacks the request does.
  pub update_lem :
      (ds ds' : NativeStateMachine C D) (s : Session) (k r : ℕ) (cmd : List ℕ)
      → update ops store ds (some s) k cmd ≡ ok (r, ds')
      → (s' : Session) × (add_response s k r ≡ ok s')
        × (ds'
            ≡ assign_session ops store
                (record ds { data_store = (store.update ds.data_store cmd).1 })
                s')
  unfolding update add_response get_response ◌>>=◌
  update_lem ds ds' s k r cmd h =
      (record s { history = put s.history k r }, ground arith, ground arith)

  -- The session behind the pointer after `UpdateRespondedTo`.
  pub update_responded_to_lem :
      (ds : NativeStateMachine C D) (s : Session) (to : ℕ)
      → session_of ops ds s.client_id ≡ some s
      → session_of ops (update_responded_to ops store ds s to).1 (clear_to s to).client_id
        ≡ some (clear_to s to)
  unfolding update_responded_to assign_session
  update_responded_to_lem ds s to there =
      let k = (clear_to s to).client_id in
      ground (arith, clear_to-client_id s to, get-assign ds.sessions.sessions k k (clear_to s to) s)

  pub update_none-sessions :
      (ds : NativeStateMachine C D) (k : ℕ) (cmd : List ℕ)
      → Ensures (λ r. r.1.sessions ≡ ds.sessions) (update ops store ds none k cmd)
  unfolding update
  update_none-sessions ds k cmd = Ensures-ok _ refl

  -- A request is known once its update is made.
  pub update_self-Knows :
      (ds ds' : NativeStateMachine C D) (s : Session) (k r : ℕ) (cmd : List ℕ)
      → session_of ops ds s.client_id ≡ some s
      → update ops store ds (some s) k cmd ≡ ok (r, ds')
      → Knows ops ds' s.client_id k r
  unfolding assign_session
  update_self-Knows ds ds' s k r cmd there h =
      let (s', added, same) = update_lem ds ds' s k r cmd h in
      let (id, known) = add_response_lem s s' k r added in
      let c = s.client_id in
      let sees = get-assign ds.sessions.sessions s'.client_id c s' s (rw id there) in
      (s', ground (arith, sees), inr known)

  pub update_required_lem :
      (s : Session) (k v : ℕ)
      → (update_required ops store s k).1 ≡ false
      → (update_required ops store s k).2 ≡ false
      → get_response s k ≡ some (update_required ops store s k).0
  unfolding update_required
  update_required_lem s k v h = ground arith
