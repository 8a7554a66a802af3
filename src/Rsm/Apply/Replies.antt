-- ===== src/Rsm/Apply/Replies.antt =====
-- internal/rsm/statemachine.go: what the node is told of an update.
use dragonboat.Prelude.{
  ℕ, ◌≡◌, refl, sym, ◌∙◌, subst, Bool, true, false, not, none, some, List, [], ◌∷◌, ◌++◌,
  append-nil, arith, ◌==◌, if◌then◌else◌, ok, ◌>>=◌, Ensures, Ensures-ok, Ensures-weaken,
  Ensures-if, Ensures-panic_if, Ensures-option, Ensures-bind, Ensures-then,
}
use dragonboat.Pb.{Entry, is_no_op_session, is_update_entry}
use dragonboat.Rsm.Session.{Session}
use dragonboat.Rsm.Managed.{client_registered, update_responded_to, update_required, update}
use dragonboat.Rsm.StateMachine.{StateMachine, Env, NodeCall, call_node, set_batched_last_applied}
use dragonboat.Rsm.Apply.{update_sm, update_session, handle_update, handle_entry, handle_commit_rec}
use dragonboat.Rsm.Apply.Evolves.{update_last_applied_lem}

-- The outcome of `handleUpdate` for a request with a session.
abbrev pub Reply : Type 0
Reply = ℕ × Bool × Bool

module _ {C D : Type 0} (env : Env C D) where
  -- What the node is told of an update.
  abbrev pub tell : Entry → Bool → Reply × StateMachine C D → StateMachine C D
  tell ent last (r, s) =
      if not r.1 then call_node s (NodeCall.apply_update ent r.0 r.2 r.1 last) else s

  update_session-calls :
      (s : StateMachine C D) (session : Session) (ent : Entry)
      → Ensures (λ r. r.1.calls ≡ s.calls) (update_session env s session ent)
  unfolding update_session update_sm
  update_session-calls s session ent =
      let (session', sm) = update_responded_to env.ops env.store s.sm session ent.responded_to in
      let required = update_required env.ops env.store session' ent.series_id in
      Ensures-if required.1 _ _ (λ _. Ensures-ok _ refl)
        (λ _.
          Ensures-if (not required.2) _ _ (λ _. Ensures-ok _ refl)
            (λ _.
              Ensures-bind (update env.ops env.store sm (some session') ent.series_id ent.cmd) _
                (λ r h. Ensures-ok _ refl)))

  pub handle_update-calls :
      (s : StateMachine C D) (ent : Entry)
      → Ensures (λ r. r.1.calls ≡ s.calls) (handle_update env s ent)
  unfolding handle_update update_sm
  handle_update-calls s ent =
      Ensures-then _ _ (update_last_applied_lem s ent.index ent.term) (λ s1 q.
        Ensures-if (not (is_no_op_session ent)) _ _
          (λ _. Ensures-bind (client_registered env.ops env.store s1.sm ent.client_id) _ (λ r h.
            Ensures-option r.0 _ _ (λ _. Ensures-ok _ q.1)
              (λ session e.
                Ensures-weaken (λ a same. same ∙ q.1)
                  (update_session-calls (record s1 { sm = r.1 }) session ent))))
          (λ _.
            Ensures-bind (update env.ops env.store s1.sm none ent.series_id ent.cmd) _
              (λ r h. Ensures-ok _ q.1)))

  pub handle_entry_update :
      (s : StateMachine C D) (ent : Entry) (last : Bool)
      → is_update_entry ent ≡ true
      → handle_entry env s ent last ≡ (handle_update env s ent >>= λ r. ok (tell ent last r))
  unfolding handle_entry ◌>>=◌
  handle_entry_update s ent last h = ground arith

  -- What holds after `handleUpdate` holds after `handleCommitRec` of an update.
  pub handle_commit_rec_update {κ} :
      {P : Reply × StateMachine C D → Type κ} (s : StateMachine C D) (ent : Entry) (last : Bool)
      → is_update_entry ent ≡ true
      → Ensures P (handle_update env s ent)
      → Ensures
          (λ s'.
            (r : Reply × StateMachine C D) × P r
            × (s'.sm ≡ r.1.sm)
            × (s'.calls ≡ (tell ent last r).calls))
          (handle_commit_rec env s ent last)
  unfolding handle_commit_rec set_batched_last_applied call_node
  handle_commit_rec_update {P} s ent last u p =
      Ensures-then _ _
        (subst
          (λ m.
            Ensures
              (λ s'.
                (r : Reply × StateMachine C D) × P r
                × (s'.sm ≡ r.1.sm)
                × (s'.calls ≡ (tell ent last r).calls))
              m)
          (sym (handle_entry_update s ent last u))
          (Ensures-then _ _ p (λ r q. Ensures-ok _ (r, q, ground arith, refl))))
        (λ s1 (r, q, sm, calls).
          Ensures-panic_if (not (s1.last_applied == ent.index)) _
            (λ _. Ensures-ok _ (r, q, ground arith, ground arith)))

-- Two lists with the same start end alike.
append_cancel {ℓ} : {A : Type ℓ} (xs : List A) (ys zs : List A) → xs ++ ys ≡ xs ++ zs → ys ≡ zs
append_cancel [] ys zs h = h
append_cancel (x ∷ xs) ys zs h = append_cancel xs ys zs (cc)

module _ {C D : Type 0} (env : Env C D) (ent : Entry) (last : Bool) where
  pub tell_result :
      (r : Reply) (s : StateMachine C D) (v : ℕ)
      → r ≡ (v, false, false)
      → (tell env ent last (r, s)).calls
        ≡ s.calls ++ (NodeCall.apply_update ent v false false last ∷ [])
  unfolding call_node
  tell_result r s v h = ground arith

  pub tell_ignored :
      (r : Reply) (s : StateMachine C D) → r.1 ≡ true → (tell env ent last (r, s)).calls ≡ s.calls
  tell_ignored r s h = ground arith

  -- Which reply the node was told of.
  pub tell-injective :
      (calls : List NodeCall) (r : Reply) (s : StateMachine C D) (v : ℕ)
      → s.calls ≡ calls
      → calls ++ (NodeCall.apply_update ent v false false last ∷ [])
        ≡ (tell env ent last (r, s)).calls
      → r ≡ (v, false, false)
  unfolding call_node
  tell-injective calls (n, true, rejected) s v quiet told =
      let impossible = append_cancel calls _ [] (told ∙ quiet ∙ sym (append-nil calls)) in cc
  tell-injective calls (n, false, rejected) s v quiet told =
      let same = append_cancel calls _ (NodeCall.apply_update ent n rejected false last ∷ []) (
        subst
          (λ l.
            calls ++ (NodeCall.apply_update ent v false false last ∷ [])
            ≡ l ++ (NodeCall.apply_update ent n rejected false last ∷ []))
          quiet told) in
      cc
