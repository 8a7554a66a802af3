-- ===== src/Rsm/Apply/Batch.antt =====
-- internal/rsm/statemachine.go: applying a batch of updates at once is applying them one by one.
use dragonboat.Prelude.{
  suc, ◌≡◌, refl, sym, ap, ◌∙◌, subst, Bool, true, false, not, Option, none, some, List, [], ◌∷◌,
  map, arith, ◌==◌, if◌then◌else◌, length, Outcome, ok, panic, ◌>>=◌, Ensures, Ensures-ok,
  Ensures-weaken, Ensures-if, Ensures-option, Ensures-bind, Ensures-then, bind_cong, bind_cong_of,
  if-bind, bind_assoc,
}
use mathlib.Core.List.{map-append}
use dragonboat.Pb.{Entry, is_no_op_session, is_update_entry}
use dragonboat.Rsm.Session.{Session}
use dragonboat.Rsm.Managed.{client_registered, update_responded_to, update_required, update}
use dragonboat.Rsm.StateMachine.{
  StateMachine, Env, NodeCall, call_node, update_last_applied, set_batched_last_applied,
}
use dragonboat.Rsm.Apply.{
  update_sm, update_session, handle_update, handle_commit_rec, on_update_applied, batch_update,
  batch_session, batch_entry, handle_all_update_entries, handle_commit_recs, all_update_entries,
}
use dragonboat.Rsm.Apply.Replies.{tell, Reply, handle_entry_update}
use dragonboat.Rsm.Apply.Evolves.{update_last_applied_lem}

-- A call without the request to look at the waiting reads, which goes with the last entry of a batch.
abbrev pub unnotified : NodeCall → NodeCall
unnotified (NodeCall.apply_update ent result rejected ignored notify) =
    NodeCall.apply_update ent result rejected ignored false
unnotified c = c

module _ {C D : Type 0} (env : Env C D) where
  batch_update_lem :
      (s : StateMachine C D) (session : Option Session) (ent : Entry) (last : Bool)
      → batch_update env s session ent last
        ≡ (update_sm env s session ent >>= λ r. ok (tell env ent last r))
  unfolding batch_update update_sm on_update_applied call_node ◌>>=◌
  batch_update_lem s session ent last = ground arith

  batch_session_lem :
      (s : StateMachine C D) (session : Session) (ent : Entry) (last : Bool)
      → batch_session env s session ent last
        ≡ (update_session env s session ent >>= λ r. ok (tell env ent last r))
  unfolding batch_session update_session on_update_applied call_node ◌>>=◌
  batch_session_lem s session ent last =
      let (session', sm) = update_responded_to env.ops env.store s.sm session ent.responded_to in
      ground (arith, batch_update_lem (record s { sm = sm }) (some session') ent last)

  batch_found_lem :
      (s : StateMachine C D) (o : Option Session) (ent : Entry) (last : Bool)
      → (elim o as (λ _. Outcome (StateMachine C D)) [
        | none ↦ ok (on_update_applied env s ent 0 false true last)
        | some session ↦ batch_session env s session ent last
      ])
        ≡ ((elim o as (λ _. Outcome (Reply × StateMachine C D)) [
          | none ↦ ok ((0, false, true), s)
          | some session ↦ update_session env s session ent
        ])
            >>= λ r. ok (tell env ent last r))
  unfolding on_update_applied ◌>>=◌ call_node
  batch_found_lem s none ent last = refl
  batch_found_lem s (some session) ent last = batch_session_lem s session ent last

  pub batch_entry_lem :
      (s : StateMachine C D) (ent : Entry) (last : Bool)
      → batch_entry env s ent last ≡ (handle_update env s ent >>= λ r. ok (tell env ent last r))
  unfolding batch_entry handle_update
  batch_entry_lem s ent last =
      bind_cong (update_last_applied s ent.index ent.term) (λ s1.
        if-bind (not (is_no_op_session ent)) _ _ _
          (bind_cong (client_registered env.ops env.store s1.sm ent.client_id)
              (λ r. batch_found_lem (record s1 { sm = r.1 }) r.0 ent last)
            ∙ sym (bind_assoc (client_registered env.ops env.store s1.sm ent.client_id) _ _))
          (batch_update_lem s1 none ent last))
      ∙ sym (bind_assoc (update_last_applied s ent.index ent.term) _ _)

  update_session-last_applied :
      (s : StateMachine C D) (session : Session) (ent : Entry)
      → Ensures (λ r. r.1.last_applied ≡ s.last_applied) (update_session env s session ent)
  unfolding update_session update_sm
  update_session-last_applied s session ent =
      let (session', sm) = update_responded_to env.ops env.store s.sm session ent.responded_to in
      let required = update_required env.ops env.store session' ent.series_id in
      Ensures-if required.1 _ _ (λ _. Ensures-ok _ refl)
        (λ _.
          Ensures-if (not required.2) _ _ (λ _. Ensures-ok _ refl)
            (λ _.
              Ensures-bind (update env.ops env.store sm (some session') ent.series_id ent.cmd) _
                (λ r h. Ensures-ok _ refl)))

  -- `handleUpdate` ends at the index of the entry.
  handle_update-last_applied :
      (s : StateMachine C D) (ent : Entry)
      → Ensures (λ r. r.1.last_applied ≡ ent.index) (handle_update env s ent)
  unfolding handle_update update_sm
  handle_update-last_applied s ent =
      Ensures-then _ _ (update_last_applied_lem s ent.index ent.term) (λ s1 q.
        Ensures-if (not (is_no_op_session ent)) _ _
          (λ _. Ensures-bind (client_registered env.ops env.store s1.sm ent.client_id) _ (λ r h.
            Ensures-option r.0 _ _ (λ _. Ensures-ok _ q.4)
              (λ session e.
                Ensures-weaken (λ a same. same ∙ q.4)
                  (update_session-last_applied (record s1 { sm = r.1 }) session ent))))
          (λ _.
            Ensures-bind (update env.ops env.store s1.sm none ent.series_id ent.cmd) _
              (λ r h. Ensures-ok _ q.4)))

  tell-last_applied :
      (ent : Entry) (last : Bool) (r : Reply) (s : StateMachine C D)
      → (tell env ent last (r, s)).last_applied ≡ s.last_applied
  unfolding call_node
  tell-last_applied ent last r s = ground arith

  -- An update entry applied alone.
  handle_commit_rec_lem :
      (s : StateMachine C D) (ent : Entry) (last : Bool)
      → is_update_entry ent ≡ true
      → handle_commit_rec env s ent last ≡ (
          batch_entry env s ent last >>= λ s1.
          ok (if last then set_batched_last_applied s1 ent.index else s1))
  unfolding handle_commit_rec ◌>>=◌
  handle_commit_rec_lem s ent last u =
      let same = handle_entry_update env s ent last u ∙ sym (batch_entry_lem s ent last) in
      let lands : Ensures (λ s1. s1.last_applied ≡ ent.index) (batch_entry env s ent last) =
        subst (Ensures (λ (s1 : StateMachine C D). s1.last_applied ≡ ent.index))
          (sym (batch_entry_lem s ent last))
          (Ensures-then _ _ (handle_update-last_applied s ent)
            (λ r e. Ensures-ok _ (tell-last_applied ent last r.0 r.1 ∙ e))) in
      rw same (bind_cong_of (batch_entry env s ent last) lands (λ s1 e. ground arith))

  -- As the last commit: in every respect as one by one.
  applied_as_last :
      (s : StateMachine C D) (ents : List Entry)
      → all_update_entries env ents ≡ true
      → handle_all_update_entries env s ents ≡ handle_commit_recs env s ents true
  unfolding handle_all_update_entries handle_commit_recs all_update_entries ◌>>=◌
  applied_as_last s [] u = refl
  applied_as_last s (ent ∷ []) u =
      rw (handle_commit_rec_lem s ent true (ground arith))
        (sym (bind_assoc (batch_entry env s ent true) _ _))
  applied_as_last s (ent ∷ e ∷ ents) u =
      let more : (suc (length ents) == 0) ≡ false = ground arith in
      rw (more, handle_commit_rec_lem s ent false (ground arith))
        (bind_cong (batch_entry env s ent false)
            (λ s1. applied_as_last s1 (e ∷ ents) (ground arith))
          ∙ sym (
              bind_assoc (batch_entry env s ent false) (λ s1. ok s1)
                (λ s1. handle_commit_recs env s1 (e ∷ ents) true)))

  -- The state without the marks of the last entry of a batch.
  abbrev pub without_marks : StateMachine C D → StateMachine C D
  without_marks s = record s { batched_last_applied = 0; calls = map unnotified s.calls }

  without_marks-tell :
      (ent : Entry) (r : Reply × StateMachine C D)
      → without_marks (set_batched_last_applied (tell env ent true r) ent.index)
        ≡ without_marks (tell env ent false r)
  unfolding call_node set_batched_last_applied
  without_marks-tell ent ((v, true, rejected), s) = refl
  without_marks-tell ent ((v, false, rejected), s) =
      let last = NodeCall.apply_update ent v rejected false true in
      ap (λ (cs : List NodeCall). record s { batched_last_applied = 0; calls = cs })
        (map-append unnotified s.calls (last ∷ [])
          ∙ sym (map-append unnotified s.calls (unnotified last ∷ [])))

  last_entry_lem :
      (ent : Entry) (m : Outcome (Reply × StateMachine C D))
      → (((m >>= λ r. ok (tell env ent true r)) >>= λ s1.
            ok (set_batched_last_applied s1 ent.index))
          >>= λ t. ok (without_marks t))
        ≡ ((((m >>= λ r. ok (tell env ent false r)) >>= λ s1. ok s1) >>= λ s1. ok s1) >>= λ t.
            ok (without_marks t))
  unfolding ◌>>=◌
  last_entry_lem ent panic = refl
  last_entry_lem ent (ok r) = ap ok (without_marks-tell ent r)

  first_entry_lem :
      (m : Outcome (StateMachine C D)) (f g : StateMachine C D → Outcome (StateMachine C D))
      → ((s : StateMachine C D)
          → (f s >>= λ t. ok (without_marks t)) ≡ (g s >>= λ t. ok (without_marks t)))
      → ((m >>= f) >>= λ t. ok (without_marks t))
        ≡ (((m >>= λ s. ok s) >>= g) >>= λ t. ok (without_marks t))
  unfolding ◌>>=◌
  first_entry_lem panic f g h = refl
  first_entry_lem (ok s) f g h = h s

  -- As another commit: one by one but for the marks.
  applied_as_other :
      (s : StateMachine C D) (ents : List Entry)
      → all_update_entries env ents ≡ true
      → (handle_all_update_entries env s ents >>= λ t. ok (without_marks t))
        ≡ (handle_commit_recs env s ents false >>= λ t. ok (without_marks t))
  unfolding handle_all_update_entries handle_commit_recs all_update_entries
  applied_as_other s [] u = refl
  applied_as_other s (ent ∷ []) u =
      rw
        (
          handle_commit_rec_lem s ent false (ground arith),
          batch_entry_lem s ent true,
          batch_entry_lem s ent false,
        )
        (last_entry_lem ent (handle_update env s ent))
  applied_as_other s (ent ∷ e ∷ ents) u = rw (handle_commit_rec_lem s ent false (ground arith)) (
      first_entry_lem (batch_entry env s ent false) _ _
        λ s1. applied_as_other s1 (e ∷ ents) (ground arith))

  -- A batch of updates at once, where it is switched on, against applying it one by one. As the last commit
  -- that is taken from the channel: the same state, the same calls of the node, and the same panics. As
  -- an earlier one: the same but for the marks of the batch's last entry, which the batch sets and
  -- `handle` then does not: its call has the waiting reads looked at, and `batchedLastApplied` moves.
  pub handle_all_update_entries_lem :
      (s : StateMachine C D) (ents : List Entry)
      → all_update_entries env ents ≡ true
      → (handle_all_update_entries env s ents ≡ handle_commit_recs env s ents true)
        × ((handle_all_update_entries env s ents >>= λ t. ok (without_marks t))
            ≡ (handle_commit_recs env s ents false >>= λ t. ok (without_marks t)))
  handle_all_update_entries_lem s ents u = (applied_as_last s ents u, applied_as_other s ents u)
