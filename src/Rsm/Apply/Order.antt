-- ===== src/Rsm/Apply/Order.antt =====
-- internal/rsm/statemachine.go: entries are applied in the order of the log, without a gap.
use dragonboat.Prelude.{
  ℕ, ◌≤◌, ◌≡◌, refl, sym, ◌∙◌, subst, Bool, true, false, not, ◌&&◌, ◌||◌, none, some, List, [], ◌∷◌,
  ◌++◌, arith, ◌==◌, add64, length, ◌>>=◌, Ensures, Ensures-ok, Ensures-weaken, Ensures-panic,
  Ensures-if, Ensures-panic_if, Ensures-option, Ensures-bind, Ensures-then,
}
use dragonboat.Pb.{
  Entry, is_config_change, is_session_managed, is_empty, is_new_session_request,
  is_end_of_session_request, is_no_op_session,
}
use dragonboat.Rsm.Session.{Session}
use dragonboat.Rsm.Managed.{
  client_registered, register_client_id, unregister_client_id, update_responded_to, update_required,
  update,
}
use dragonboat.Rsm.Members
use dragonboat.Rsm.Members.{accepts}
use dragonboat.Rsm.StateMachine.{
  StateMachine, Env, Commit, call_node, update_last_applied, set_batched_last_applied,
}
use dragonboat.Rsm.Apply.{
  handle_config_change, handle_register_session, handle_unregister_session, handle_no_op, update_sm,
  update_session, handle_update, handle_entry, handle_commit_rec, has_empty_address, batch_entry,
  handle_all_update_entries, handle_commit_recs, all_update_entries, handle,
}
use dragonboat.Rsm.Apply.Replies.{tell, Reply}
use dragonboat.Rsm.Apply.Batch.{batch_entry_lem}

-- The entry comes right behind what was applied, and is now the last one applied.
pub record Applies {C D : Type 0} (s : StateMachine C D) (ent : Entry) (s' : StateMachine C D)
    : Type 0 where
  pub next : ent.index ≡ add64 s.last_applied 1
  pub rises : s.last_applied_term ≤ ent.term
  pub index : s'.last_applied ≡ ent.index
  pub term : s'.last_applied_term ≡ ent.term

-- Nothing was applied.
abbrev pub Rests : {C D : Type 0} → StateMachine C D → StateMachine C D → Type 0
Rests s s' = (s'.last_applied ≡ s.last_applied) × (s'.last_applied_term ≡ s.last_applied_term)

module _ {C D : Type 0} where
  Applies-Rests :
      {s s1 s2 : StateMachine C D} {ent : Entry} → Applies s ent s1 → Rests s1 s2 → Applies s ent s2
  Applies-Rests a (i, t) = record {
    next = a.next;
    rises = a.rises;
    index = i ∙ a.index;
    term = t ∙ a.term;
  }

  update_last_applied-Applies :
      (s : StateMachine C D) (ent : Entry)
      → Ensures (Applies s ent) (update_last_applied s ent.index ent.term)
  unfolding update_last_applied ◌>>=◌
  update_last_applied-Applies s ent = record { at = λ s1 h. ground arith }

module _ {C D : Type 0} (env : Env C D) (s : StateMachine C D) (ent : Entry) where
  handle_config_change-Applies : Ensures (λ r. Applies s ent r.1) (handle_config_change env s ent)
  unfolding handle_config_change call_node
  handle_config_change-Applies =
      Ensures-option (env.unmarshal ent.cmd) _ _ (λ _. Ensures-panic)
        (λ cc h. Ensures-panic_if (has_empty_address cc) _ (λ _.
          Ensures-then _ _ (update_last_applied-Applies s ent) (λ s1 q.
            Ensures-if (accepts s.ordered s.members cc) _ _
              (λ _.
                Ensures-bind (Members.apply_config_change s1.members cc ent.index) _
                  (λ m _. Ensures-ok _ (Applies-Rests q (refl, refl))))
              (λ _. Ensures-ok _ q))))

  handle_register_session-Applies :
      Ensures (λ r. Applies s ent r.1) (handle_register_session env s ent)
  unfolding handle_register_session
  handle_register_session-Applies =
      Ensures-bind (register_client_id env.ops env.store s.sm ent.client_id) _ (λ r h.
        Ensures-then _ _ (update_last_applied-Applies (record s { sm = r.1 }) ent) (λ s1 q.
          Ensures-ok _ (record { next = q.next; rises = q.rises; index = q.index; term = q.term })))

  handle_unregister_session-Applies :
      Ensures (λ r. Applies s ent r.1) (handle_unregister_session env s ent)
  unfolding handle_unregister_session
  handle_unregister_session-Applies =
      Ensures-bind (unregister_client_id env.ops env.store s.sm ent.client_id) _ (λ r h.
        Ensures-then _ _ (update_last_applied-Applies (record s { sm = r.1 }) ent) (λ s1 q.
          Ensures-ok _ (record { next = q.next; rises = q.rises; index = q.index; term = q.term })))

  update_session-Rests :
      (session : Session) → Ensures (λ r. Rests s r.1) (update_session env s session ent)
  unfolding update_session update_sm
  update_session-Rests session =
      let (session', sm) = update_responded_to env.ops env.store s.sm session ent.responded_to in
      let required = update_required env.ops env.store session' ent.series_id in
      Ensures-if required.1 _ _ (λ _. Ensures-ok _ (refl, refl))
        (λ _.
          Ensures-if (not required.2) _ _ (λ _. Ensures-ok _ (refl, refl))
            (λ _.
              Ensures-bind (update env.ops env.store sm (some session') ent.series_id ent.cmd) _
                (λ r h. Ensures-ok _ (refl, refl))))

module _ {C D : Type 0} (env : Env C D) (s : StateMachine C D) (ent : Entry) where
  handle_update-Applies : Ensures (λ r. Applies s ent r.1) (handle_update env s ent)
  unfolding handle_update update_sm
  handle_update-Applies = Ensures-then _ _ (update_last_applied-Applies s ent) (λ s1 q.
      Ensures-if (not (is_no_op_session ent)) _ _
        (λ _. Ensures-bind (client_registered env.ops env.store s1.sm ent.client_id) _ (λ r h.
          Ensures-option r.0 _ _ (λ _. Ensures-ok _ (Applies-Rests q (refl, refl)))
            (λ session e.
              Ensures-weaken (λ a same. Applies-Rests q same)
                (update_session-Rests env (record s1 { sm = r.1 }) ent session))))
        (λ _.
          Ensures-bind (update env.ops env.store s1.sm none ent.series_id ent.cmd) _
            (λ r h. Ensures-ok _ (Applies-Rests q (refl, refl)))))

  handle_no_op-Applies : Ensures (Applies s ent) (handle_no_op env s ent)
  unfolding handle_no_op
  handle_no_op-Applies =
      Ensures-panic_if (not (is_empty ent)) _ (λ _. update_last_applied-Applies s ent)

  tell-Applies :
      (last : Bool) (r : Reply × StateMachine C D)
      → Applies s ent r.1
      → Applies s ent (tell env ent last r)
  unfolding call_node
  tell-Applies last r q = Applies-Rests q (ground arith)

  batch_entry-Applies : (last : Bool) → Ensures (Applies s ent) (batch_entry env s ent last)
  batch_entry-Applies last =
      subst (Ensures (Applies s ent)) (sym (batch_entry_lem env s ent last))
        (Ensures-then _ _ handle_update-Applies (λ r q. Ensures-ok _ (tell-Applies last r q)))

  handle_entry-Applies : (last : Bool) → Ensures (Applies s ent) (handle_entry env s ent last)
  unfolding handle_entry call_node
  handle_entry-Applies last =
      Ensures-if (is_config_change ent) _ _
        (λ _.
          Ensures-then _ _ (handle_config_change-Applies env s ent)
            (λ r q. Ensures-ok _ (Applies-Rests q (refl, refl))))
        (λ _.
          Ensures-if (not (is_session_managed ent)) _ _
            (λ _.
              Ensures-if (is_empty ent) _ _
                (λ _.
                  Ensures-then _ _ handle_no_op-Applies
                    (λ s1 q. Ensures-ok _ (Applies-Rests q (refl, refl))))
                (λ _. Ensures-panic))
            (λ _.
              Ensures-if (is_new_session_request ent) _ _
                (λ _.
                  Ensures-then _ _ (handle_register_session-Applies env s ent)
                    (λ r q. Ensures-ok _ (Applies-Rests q (refl, refl))))
                (λ _.
                  Ensures-if (is_end_of_session_request ent) _ _
                    (λ _.
                      Ensures-then _ _ (handle_unregister_session-Applies env s ent)
                        (λ r q. Ensures-ok _ (Applies-Rests q (refl, refl))))
                    (λ _. Ensures-then _ _ handle_update-Applies (λ r q.
                      Ensures-if (not r.0.1) _ _ (λ _. Ensures-ok _ (Applies-Rests q (refl, refl)))
                        (λ _. Ensures-ok _ q))))))

  handle_commit_rec-Applies :
      (last : Bool) → Ensures (Applies s ent) (handle_commit_rec env s ent last)
  unfolding handle_commit_rec set_batched_last_applied
  handle_commit_rec-Applies last = Ensures-then _ _ (handle_entry-Applies last) (λ s1 q.
      Ensures-panic_if (not (s1.last_applied == ent.index)) _
        (λ _. Ensures-ok _ (Applies-Rests q (ground arith))))

-- The entries have consecutive indices from behind `n`, and terms that never fall from `t` on; the last
-- of them has index `n'` and term `t'`.
abbrev pub Follows : (n t : ℕ) → List Entry → (n' t' : ℕ) → Type 0
Follows n t [] n' t' = (n' ≡ n) × (t' ≡ t)
Follows n t (e ∷ es) n' t' = (e.index ≡ add64 n 1) × (t ≤ e.term) × Follows e.index e.term es n' t'

abbrev pub FollowsFrom : {C D : Type 0} → StateMachine C D → List Entry → StateMachine C D → Type 0
FollowsFrom s es s' =
    Follows s.last_applied s.last_applied_term es s'.last_applied s'.last_applied_term

-- The entries of a batch of commits.
abbrev pub batch_entries : List Commit → List Entry
batch_entries [] = []
batch_entries (c ∷ cs) = c.entries ++ batch_entries cs

Follows-append :
    (n t : ℕ) (es fs : List Entry) (n1 t1 n2 t2 : ℕ)
    → Follows n t es n1 t1
    → Follows n1 t1 fs n2 t2
    → Follows n t (es ++ fs) n2 t2
Follows-append n t [] fs n1 t1 n2 t2 (a, b) g =
    subst (λ k. Follows k t fs n2 t2) a (subst (λ u. Follows n1 u fs n2 t2) b g)
Follows-append n t (e ∷ es) fs n1 t1 n2 t2 f g =
    (f.0, f.1, Follows-append e.index e.term es fs n1 t1 n2 t2 f.2 g)

module _ {C D : Type 0} where
  Follows-cons :
      (s s1 s' : StateMachine C D) (e : Entry) (es : List Entry)
      → Applies s e s1
      → FollowsFrom s1 es s'
      → FollowsFrom s (e ∷ es) s'
  Follows-cons s s1 s' e es a f = (a.next, a.rises, rw (sym a.index, sym a.term) f)

module _ {C D : Type 0} (env : Env C D) where
  handle_commit_recs-Follows :
      (s : StateMachine C D) (es : List Entry) (last : Bool)
      → Ensures (FollowsFrom s es) (handle_commit_recs env s es last)
  unfolding handle_commit_recs
  handle_commit_recs-Follows s [] last = Ensures-ok _ (refl, refl)
  handle_commit_recs-Follows s (e ∷ es) last =
      Ensures-then _ _ (handle_commit_rec-Applies env s e (last && (length es == 0))) (λ s1 a.
        Ensures-weaken (λ s' f. Follows-cons s s1 s' e es a f)
          (handle_commit_recs-Follows s1 es last))

  handle_all_update_entries-Follows :
      (s : StateMachine C D) (es : List Entry)
      → Ensures (FollowsFrom s es) (handle_all_update_entries env s es)
  unfolding handle_all_update_entries set_batched_last_applied
  handle_all_update_entries-Follows s [] = Ensures-ok _ (refl, refl)
  handle_all_update_entries-Follows s (e ∷ []) =
      Ensures-then _ _ (batch_entry-Applies env s e true)
        (λ s1 a. Ensures-ok _ (a.next, a.rises, (a.index, a.term)))
  handle_all_update_entries-Follows s (e ∷ f ∷ es) =
      Ensures-then _ _ (batch_entry-Applies env s e false) (λ s1 a.
        Ensures-weaken (λ s' g. Follows-cons s s1 s' e (f ∷ es) a g)
          (handle_all_update_entries-Follows s1 (f ∷ es)))

  -- A batch that is handled is the continuation of the log: its entries, one by one or in batches, have
  -- consecutive indices from behind what was applied, terms that never fall, and the last of them is
  -- what is applied now.
  pub handle-Follows :
      (s : StateMachine C D) (batch : List Commit)
      → Ensures (FollowsFrom s (batch_entries batch)) (handle env s batch)
  unfolding handle
  handle-Follows s [] = Ensures-ok _ (refl, refl)
  handle-Follows s (c ∷ cs) =
      Ensures-panic_if (c.snapshot_available || c.snapshot_requested) _ (λ _.
        Ensures-then _ _
          (Ensures-if (env.batched_entry_apply && all_update_entries env c.entries) _ _
            (λ _. handle_all_update_entries-Follows s c.entries)
            (λ _. handle_commit_recs-Follows s c.entries (length cs == 0)))
          (λ s1 f.
            Ensures-weaken (λ s' g. Follows-append _ _ c.entries (batch_entries cs) _ _ _ _ f g)
              (handle-Follows s1 cs)))
