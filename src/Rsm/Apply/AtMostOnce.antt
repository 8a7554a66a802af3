-- ===== src/Rsm/Apply/AtMostOnce.antt =====
-- internal/rsm/statemachine.go: the user's data store sees the update of a client's request once, however
-- often the request is proposed.
use dragonboat.Prelude.{
  ℕ, ◌≡◌, refl, sym, ap, ◌∙◌, subst, ◌⊎◌, inl, inr, Bool, true, false, [], ◌∷◌, ◌++◌, arith, ok,
  Ensures,
}
use dragonboat.Pb.{Entry, is_no_op_session, is_update_entry}
use dragonboat.Rsm.Sessions.{IsCache}
use dragonboat.Rsm.Managed.Knows.{Registered, Knows}
use dragonboat.Rsm.StateMachine.{StateMachine, Env, NodeCall, call_node}
use dragonboat.Rsm.Apply.{handle_update, handle_commit_rec}
use dragonboat.Rsm.Apply.Evolves.{handle_commit_rec-Keeps}
use dragonboat.Rsm.Apply.Replies.{
  handle_update-calls, handle_commit_rec_update, tell_result, tell_ignored, tell-injective,
}
use dragonboat.Rsm.Apply.Retry.{handle_update-Knows, handle_update_retry}

-- Entries applied one after another, where the client is registered after each.
pub data Run {C D : Type 0} (env : Env C D) (c : ℕ)
    : StateMachine C D → StateMachine C D → Type 0 where
  here : {s : StateMachine C D} → Run env c s s
  next :
      {s t u : StateMachine C D} (ent : Entry) (last : Bool)
      → handle_commit_rec env s ent last ≡ ok t
      → Registered env.ops t.sm c
      → Run env c t u
      → Run env c s u

module _ {C D : Type 0} (env : Env C D) (cache : IsCache env.ops) (c id result : ℕ) where
  Run-Knows :
      {s u : StateMachine C D}
      → Run env c s u
      → Knows env.ops s.sm c id result
      → Knows env.ops u.sm c id result
  Run-Knows here k = k
  Run-Knows (next {s} {t} ent last e reg more) k =
      Run-Knows more ((handle_commit_rec-Keeps env cache c s ent last id result).at t e k reg)

module _ {C D : Type 0} (env : Env C D) (cache : IsCache env.ops) where
  first-Knows :
      (s s1 : StateMachine C D) (ent : Entry) (last : Bool) (v : ℕ)
      → is_update_entry ent ≡ true
      → is_no_op_session ent ≡ false
      → handle_commit_rec env s ent last ≡ ok s1
      → s1.calls ≡ s.calls ++ (NodeCall.apply_update ent v false false last ∷ [])
      → Knows env.ops s1.sm ent.client_id ent.series_id v
  unfolding call_node
  first-Knows s s1 ent last v u n h told =
      let both : Ensures
          (λ r.
            (r.1.calls ≡ s.calls)
            × ((w : ℕ)
                → r.0 ≡ (w, false, false)
                → Knows env.ops r.1.sm ent.client_id ent.series_id w))
          (handle_update env s ent) =
        record {
          at = λ r e. (
            (handle_update-calls env s ent).at r e,
            (handle_update-Knows env cache s ent n).at r e,
          );
        } in
      let (r, (quiet, knows), sm, calls) =
        (handle_commit_rec_update env s ent last u both).at s1 h in
      subst (λ d. Knows env.ops d ent.client_id ent.series_id v) (sym sm)
        (knows v (tell-injective env ent last s.calls r.0 r.1 v quiet (sym told ∙ calls)))

  -- A request that was applied with a result is not applied again: when an entry for the same client and
  -- series id comes later, the data store stays as it is, and the node is told the same result or
  -- nothing. In between any entries may come, as long as the client stays registered.
  pub at_most_once :
      (first again : Entry) (last last' : Bool) (v : ℕ) (s : StateMachine C D)
      {s1 s2 s3 : StateMachine C D}
      → is_update_entry first ≡ true
      → is_no_op_session first ≡ false
      → is_update_entry again ≡ true
      → again.client_id ≡ first.client_id
      → again.series_id ≡ first.series_id
      → handle_commit_rec env s first last ≡ ok s1
      → s1.calls ≡ s.calls ++ (NodeCall.apply_update first v false false last ∷ [])
      → Run env first.client_id s1 s2
      → handle_commit_rec env s2 again last' ≡ ok s3
      → (s3.sm.data_store ≡ s2.sm.data_store)
        × ((s3.calls ≡ s2.calls)
            ⊎ (s3.calls ≡ s2.calls ++ (NodeCall.apply_update again v false false last' ∷ [])))
  unfolding call_node
  at_most_once first again last last' v s {s1} {s2} {s3} u n u' c i h told run h' =
      let knows =
        Run-Knows env cache first.client_id first.series_id v run
          (first-Knows s s1 first last v u n h told) in
      let both : Ensures
          (λ r.
            (r.1.calls ≡ s2.calls)
            × (r.1.sm.data_store ≡ s2.sm.data_store)
            × ((r.0 ≡ (v, false, false)) ⊎ (r.0 ≡ (0, true, false))))
          (handle_update env s2 again) =
        record {
          at = λ r e.
              let kept =
                (handle_update_retry env cache s2 again v (ground arith) (rw (c, i) knows)).at r
                  e in
              ((handle_update-calls env s2 again).at r e, kept.0, kept.1);
        } in
      let (r, (quiet, data_store, reply), sm, calls) =
        (handle_commit_rec_update env s2 again last' u' both).at s3 h' in
      (
        ap (λ d. d.data_store) sm ∙ data_store,
        elim reply [
          | inl e ↦ inr (calls ∙ tell_result env again last' r.0 r.1 v e ∙ rw quiet refl)
          | inr e ↦ inl (calls ∙ tell_ignored env again last' r.0 r.1 (cc) ∙ quiet)
        ],
      )
