-- ===== src/Rsm/Apply/Evolves.antt =====
-- internal/rsm/statemachine.go: what an entry does to a client's session, and
-- that it makes no registered client's session forget an answer.
use dragonboat.Prelude.{
  ℕ, ◌≡◌, sym, ap, ◌∙◌, subst, Bool, true, false, not, none, some, arith, ◌==◌, ◌>>=◌, Ensures,
  Ensures-ok, Ensures-weaken, Ensures-panic, Ensures-if, Ensures-panic_if, Ensures-option,
  Ensures-bind, Ensures-then,
}
use dragonboat.Pb.{
  Entry, is_config_change, is_session_managed, is_empty, is_new_session_request,
  is_end_of_session_request, is_no_op_session,
}
use dragonboat.Rsm.Session.{Session}
use dragonboat.Rsm.Sessions.{IsCache}
use dragonboat.Rsm.Managed.{
  NativeStateMachine, client_registered, register_client_id, unregister_client_id,
  update_responded_to, update_required, update,
}
use dragonboat.Rsm.Managed.Knows.{
  session_of, Registered, Knows, client_registered_lem, client_registered-eq_some,
  update_none-sessions,
}
use dragonboat.Rsm.Managed.Evolves.{
  Evolves, EvolvesIn, kept, Evolves-Answered, register-Evolves, unregister-Evolves,
  update_responded_to-Evolves, update-Evolves,
}
use dragonboat.Rsm.Members
use dragonboat.Rsm.Members.{accepts}
use dragonboat.Rsm.StateMachine.{
  StateMachine, Env, call_node, update_last_applied, set_batched_last_applied,
}
use dragonboat.Rsm.Apply.{
  handle_config_change, handle_register_session, handle_unregister_session, handle_no_op, update_sm,
  update_session, handle_update, handle_entry, handle_commit_rec, has_empty_address,
}

module _ {C D : Type 0} where
  -- The fields that `update_last_applied` sets, and the part that it leaves alone.
  pub update_last_applied_lem :
      (s : StateMachine C D) (index term : ℕ)
      → Ensures
          (λ s1.
            (s1.sm ≡ s.sm)
            × (s1.calls ≡ s.calls)
            × (s1.members ≡ s.members)
            × (s1.ordered ≡ s.ordered)
            × (s1.last_applied ≡ index))
          (update_last_applied s index term)
  unfolding update_last_applied ◌>>=◌
  update_last_applied_lem s index term = record { at = λ s1 h. ground arith }

module _ {C D : Type 0} (env : Env C D) where
  pub handle_config_change-sm :
      (s : StateMachine C D) (ent : Entry)
      → Ensures (λ r. r.1.sm ≡ s.sm) (handle_config_change env s ent)
  unfolding handle_config_change call_node
  handle_config_change-sm s ent =
      Ensures-option (env.unmarshal ent.cmd) _ _ (λ _. Ensures-panic)
        (λ cc h. Ensures-panic_if (has_empty_address cc) _ (λ _.
          Ensures-then _ _ (update_last_applied_lem s ent.index ent.term) (λ s1 q.
            Ensures-if (accepts s.ordered s.members cc) _ _
              (λ _.
                Ensures-bind (Members.apply_config_change s1.members cc ent.index) _
                  (λ m _. Ensures-ok _ q.0))
              (λ _. Ensures-ok _ q.0))))

module _ {C D : Type 0} (env : Env C D) (cache : IsCache env.ops) (c : ℕ) where
  EvolvesIn-of_eq :
      (ent : Entry) (a b : NativeStateMachine C D)
      → b.sessions ≡ a.sessions
      → EvolvesIn env.ops env.store cache ent c a b
  EvolvesIn-of_eq ent a b e = kept (cc)

  update_session-Evolves :
      (s : StateMachine C D) (session : Session) (ent : Entry)
      → session.client_id ≡ ent.client_id
      → session_of env.ops s.sm session.client_id ≡ some session
      → Ensures
          (λ r. EvolvesIn env.ops env.store cache ent c s.sm r.1.sm)
          (update_session env s session ent)
  unfolding update_session update_sm update_responded_to
  update_session-Evolves s session ent own there =
      let cleared =
        update_responded_to-Evolves env.ops env.store cache ent c s.sm session own there in
      let (session', sm) = update_responded_to env.ops env.store s.sm session ent.responded_to in
      let required = update_required env.ops env.store session' ent.series_id in
      Ensures-if required.1 _ _ (λ _. Ensures-ok _ cleared)
        (λ _.
          Ensures-if (not required.2) _ _ (λ _. Ensures-ok _ cleared)
            (λ _.
              Ensures-bind (update env.ops env.store sm (some session') ent.series_id ent.cmd) _
                (λ r h.
                  Ensures-ok _ (
                    update-Evolves env.ops env.store cache ent c s.sm r.1 session r.0 own there
                      h))))

  update_sm-sessions :
      (s : StateMachine C D) (ent : Entry)
      → Ensures (λ r. r.1.sm.sessions ≡ s.sm.sessions) (update_sm env s none ent)
  unfolding update_sm
  update_sm-sessions s ent =
      Ensures-then _ _ (update_none-sessions env.ops env.store cache s.sm ent.series_id ent.cmd)
        (λ r e. Ensures-ok _ e)

  pub handle_update-Evolves :
      (s : StateMachine C D) (ent : Entry)
      → Ensures (λ r. EvolvesIn env.ops env.store cache ent c s.sm r.1.sm) (handle_update env s ent)
  unfolding handle_update
  handle_update-Evolves s ent =
      Ensures-then _ _ (update_last_applied_lem s ent.index ent.term) (λ s1 q.
        Ensures-if (not (is_no_op_session ent)) _ _
          (λ _. Ensures-bind (client_registered env.ops env.store s1.sm ent.client_id) _ (λ r h.
            let looked =
              client_registered_lem env.ops env.store cache s1.sm r.1 ent.client_id r.0 h in
            let same : session_of env.ops r.1 c ≡ session_of env.ops s.sm c =
              looked.2 c ∙ ap (λ d. session_of env.ops d c) q.0 in
            Ensures-option r.0 _ _ (λ _. Ensures-ok _ (kept same))
              (λ session e.
                let there =
                  client_registered-eq_some env.ops env.store cache s1.sm r.1 ent.client_id r.0
                    session h e in
                Ensures-weaken
                  (λ a ev. subst (λ o. Evolves ent c o (session_of env.ops a.1.sm c)) same ev)
                  (update_session-Evolves (record s1 { sm = r.1 }) session ent there.0 there.1))))
          (λ _.
            Ensures-weaken (λ r e. EvolvesIn-of_eq ent s.sm r.1.sm (e ∙ ap (λ d. d.sessions) q.0))
              (update_sm-sessions s1 ent)))

  handle_register_session-Evolves :
      (s : StateMachine C D) (ent : Entry)
      → Ensures
          (λ r. EvolvesIn env.ops env.store cache ent c s.sm r.1.sm)
          (handle_register_session env s ent)
  unfolding handle_register_session
  handle_register_session-Evolves s ent =
      Ensures-bind (register_client_id env.ops env.store s.sm ent.client_id) _ (λ r h.
        Ensures-then _ _ (update_last_applied_lem (record s { sm = r.1 }) ent.index ent.term)
          (λ s1 q. Ensures-ok _ (
            subst (λ d. EvolvesIn env.ops env.store cache ent c s.sm d) (sym q.0)
              (register-Evolves env.ops env.store cache ent c s.sm r.1 r.0 h))))

  handle_unregister_session-Evolves :
      (s : StateMachine C D) (ent : Entry)
      → Ensures
          (λ r. EvolvesIn env.ops env.store cache ent c s.sm r.1.sm)
          (handle_unregister_session env s ent)
  unfolding handle_unregister_session
  handle_unregister_session-Evolves s ent =
      Ensures-bind (unregister_client_id env.ops env.store s.sm ent.client_id) _ (λ r h.
        Ensures-then _ _ (update_last_applied_lem (record s { sm = r.1 }) ent.index ent.term)
          (λ s1 q. Ensures-ok _ (
            subst (λ d. EvolvesIn env.ops env.store cache ent c s.sm d) (sym q.0)
              (unregister-Evolves env.ops env.store cache ent c s.sm r.1 r.0 h))))

  handle_no_op-Evolves :
      (s : StateMachine C D) (ent : Entry)
      → Ensures (λ s'. EvolvesIn env.ops env.store cache ent c s.sm s'.sm) (handle_no_op env s ent)
  unfolding handle_no_op
  handle_no_op-Evolves s ent = Ensures-panic_if (not (is_empty ent)) _ (λ _.
      Ensures-weaken (λ s1 q. EvolvesIn-of_eq ent s.sm s1.sm (ap (λ d. d.sessions) q.0))
        (update_last_applied_lem s ent.index ent.term))

  handle_entry-Evolves :
      (s : StateMachine C D) (ent : Entry) (last : Bool)
      → Ensures
          (λ s'. EvolvesIn env.ops env.store cache ent c s.sm s'.sm)
          (handle_entry env s ent last)
  unfolding handle_entry call_node
  handle_entry-Evolves s ent last =
      Ensures-if (is_config_change ent) _ _
        (λ _.
          Ensures-then _ _ (handle_config_change-sm env s ent)
            (λ r e. Ensures-ok _ (EvolvesIn-of_eq ent s.sm r.1.sm (ap (λ d. d.sessions) e))))
        (λ _.
          Ensures-if (not (is_session_managed ent)) _ _
            (λ _.
              Ensures-if (is_empty ent) _ _
                (λ _. Ensures-then _ _ (handle_no_op-Evolves s ent) (λ s1 k. Ensures-ok _ k))
                (λ _. Ensures-panic))
            (λ _.
              Ensures-if (is_new_session_request ent) _ _
                (λ _.
                  Ensures-then _ _ (handle_register_session-Evolves s ent) (λ r k. Ensures-ok _ k))
                (λ _.
                  Ensures-if (is_end_of_session_request ent) _ _
                    (λ _.
                      Ensures-then _ _ (handle_unregister_session-Evolves s ent)
                        (λ r k. Ensures-ok _ k))
                    (λ _. Ensures-then _ _ (handle_update-Evolves s ent) (λ r k.
                      Ensures-if (not r.0.1) _ _ (λ _. Ensures-ok _ k) (λ _. Ensures-ok _ k))))))

  -- Applying an entry, where it returns, leaves the session of every client as it was, takes it away, makes
  -- a new one for the client of the entry where there was none, clears the one of the entry's client up
  -- to what the entry acknowledges, or adds to that the entry's answer, which it lacked.
  pub handle_commit_rec-Evolves :
      (s : StateMachine C D) (ent : Entry) (last : Bool)
      → Ensures
          (λ s'. EvolvesIn env.ops env.store cache ent c s.sm s'.sm)
          (handle_commit_rec env s ent last)
  unfolding handle_commit_rec set_batched_last_applied
  handle_commit_rec-Evolves s ent true =
      Ensures-then _ _ (handle_entry-Evolves s ent true)
        (λ s1 k. Ensures-panic_if (not (s1.last_applied == ent.index)) _ (λ _. Ensures-ok _ k))
  handle_commit_rec-Evolves s ent false =
      Ensures-then _ _ (handle_entry-Evolves s ent false)
        (λ s1 k. Ensures-panic_if (not (s1.last_applied == ent.index)) _ (λ _. Ensures-ok _ k))

  -- An answer that the client's session has stays there.
  pub handle_commit_rec-Keeps :
      (s : StateMachine C D) (ent : Entry) (last : Bool) (id result : ℕ)
      → Ensures
          (λ s'.
            Knows env.ops s.sm c id result
            → Registered env.ops s'.sm c
            → Knows env.ops s'.sm c id result)
          (handle_commit_rec env s ent last)
  handle_commit_rec-Keeps s ent last id result =
      Ensures-weaken
        (λ s' ev (t, found, known) (u, there).
          (u, there, Evolves-Answered ent c id result _ _ t u ev found there known))
        (handle_commit_rec-Evolves s ent last)
