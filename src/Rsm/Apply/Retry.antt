-- ===== src/Rsm/Apply/Retry.antt =====
-- internal/rsm/statemachine.go: a request that was answered is known, and one that is known is not made
-- again.
use dragonboat.Prelude.{
  ℕ, ◌≡◌, sym, ap, ◌∙◌, subst, ◌⊎◌, inl, inr, true, false, not, some, arith, Ensures, Ensures-ok,
  Ensures-weaken, Ensures-if, Ensures-option, Ensures-bind, Ensures-then,
}
use dragonboat.Pb.{Entry, is_no_op_session}
use dragonboat.Rsm.Session.{Session, clear_to}
use dragonboat.Rsm.Session.Answers.{Answered, clear_to-client_id, clear_to-Answered}
use dragonboat.Rsm.Sessions.{IsCache}
use dragonboat.Rsm.Managed.{
  client_registered, assign_session, update_responded_to, update_required, update,
}
use dragonboat.Rsm.Managed.Knows.{
  session_of, Knows, client_registered_lem, client_registered-eq_some, update_responded_to_lem,
  update_self-Knows, update_required_lem,
}
use dragonboat.Rsm.StateMachine.{StateMachine, Env, update_last_applied}
use dragonboat.Rsm.Apply.{update_sm, update_session, handle_update}
use dragonboat.Rsm.Apply.Evolves.{update_last_applied_lem}
use dragonboat.Rsm.Apply.Replies.{Reply}

module _ {C D : Type 0} (env : Env C D) (cache : IsCache env.ops) where
  -- A request that was answered is known.
  update_session-Knows :
      (s : StateMachine C D) (session : Session) (ent : Entry)
      → session_of env.ops s.sm session.client_id ≡ some session
      → Ensures
          (λ r.
            (v : ℕ)
            → r.0 ≡ (v, false, false)
            → Knows env.ops r.1.sm session.client_id ent.series_id v)
          (update_session env s session ent)
  unfolding update_session update_sm update_responded_to
  update_session-Knows s session ent there =
      let session' = clear_to session ent.responded_to in
      let sm = assign_session env.ops env.store s.sm session' in
      let required = update_required env.ops env.store session' ent.series_id in
      let now =
        update_responded_to_lem env.ops env.store cache s.sm session ent.responded_to there in
      let id = clear_to-client_id session ent.responded_to in
      Ensures-if required.1 _ _ (λ _. Ensures-ok _ (λ v e. cc))
        (λ fresh.
          Ensures-if (not required.2) _ _
            (λ old. Ensures-ok _ (λ v e. (
              session',
              subst (λ c. session_of env.ops sm c ≡ some session') id now,
              inr (
                  update_required_lem env.ops env.store cache session' ent.series_id v fresh
                    (ground arith)
                  ∙ ap (λ (p : Reply). some p.0) e),
            )))
            (λ _.
              Ensures-bind (update env.ops env.store sm (some session') ent.series_id ent.cmd) _
                (λ r h. Ensures-ok _ (λ v e.
                  subst (λ n. Knows env.ops r.1 session.client_id ent.series_id n)
                    (ap (λ (p : Reply). p.0) e)
                    (subst (λ c. Knows env.ops r.1 c ent.series_id r.0) id
                      (update_self-Knows env.ops env.store cache sm r.1 session' ent.series_id r.0
                        ent.cmd now h))))))

  -- One that is known is not made again.
  update_session_retry :
      (s : StateMachine C D) (session : Session) (ent : Entry) (v : ℕ)
      → Answered session ent.series_id v
      → Ensures
          (λ r.
            (r.1.sm.data_store ≡ s.sm.data_store)
            × ((r.0 ≡ (v, false, false)) ⊎ (r.0 ≡ (0, true, false))))
          (update_session env s session ent)
  unfolding update_session update_sm update_responded_to assign_session update_required
  update_session_retry s session ent v known =
      elim (clear_to-Answered session ent.responded_to ent.series_id v known) [
        | inl h ↦ record { at = λ r e. (ground arith, ground arith) }
        | inr h ↦ record { at = λ r e. (ground arith, ground arith) }
      ]

  pub handle_update-Knows :
      (s : StateMachine C D) (ent : Entry)
      → is_no_op_session ent ≡ false
      → Ensures
          (λ r.
            (v : ℕ) → r.0 ≡ (v, false, false) → Knows env.ops r.1.sm ent.client_id ent.series_id v)
          (handle_update env s ent)
  unfolding handle_update
  handle_update-Knows s ent some_session =
      Ensures-bind (update_last_applied s ent.index ent.term) _ (λ s1 _.
        Ensures-if (not (is_no_op_session ent)) _ _
          (λ _. Ensures-bind (client_registered env.ops env.store s1.sm ent.client_id) _ (λ r h.
            Ensures-option r.0 _ _ (λ _. Ensures-ok _ (λ v e. cc))
              (λ session e.
                let there =
                  client_registered-eq_some env.ops env.store cache s1.sm r.1 ent.client_id r.0
                    session h e in
                Ensures-weaken
                  (λ a knows v same.
                    subst (λ c. Knows env.ops a.1.sm c ent.series_id v) there.0 (knows v same))
                  (update_session-Knows (record s1 { sm = r.1 }) session ent there.1))))
          (λ no. cc))

  pub handle_update_retry :
      (s : StateMachine C D) (ent : Entry) (v : ℕ)
      → is_no_op_session ent ≡ false
      → Knows env.ops s.sm ent.client_id ent.series_id v
      → Ensures
          (λ r.
            (r.1.sm.data_store ≡ s.sm.data_store)
            × ((r.0 ≡ (v, false, false)) ⊎ (r.0 ≡ (0, true, false))))
          (handle_update env s ent)
  unfolding handle_update
  handle_update_retry s ent v some_session (t, found, known) =
      Ensures-then _ _ (update_last_applied_lem s ent.index ent.term) (λ s1 q.
        Ensures-if (not (is_no_op_session ent)) _ _
          (λ _. Ensures-bind (client_registered env.ops env.store s1.sm ent.client_id) _ (λ r h.
            let looked =
              client_registered_lem env.ops env.store cache s1.sm r.1 ent.client_id r.0 h in
            let same : r.0 ≡ some t =
              sym looked.0
              ∙ subst (λ d. session_of env.ops d ent.client_id ≡ some t) (sym q.0) found in
            Ensures-option r.0 _ _ (λ none_found. cc)
              (λ session e.
                Ensures-weaken (λ a kept. (kept.0 ∙ looked.1 ∙ ap (λ d. d.data_store) q.0, kept.1))
                  (update_session_retry (record s1 { sm = r.1 }) session ent v
                    (subst (λ u. Answered u ent.series_id v) (cc) known)))))
          (λ no. cc))
