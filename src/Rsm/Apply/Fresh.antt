-- ===== src/Rsm/Apply/Fresh.antt =====
-- internal/rsm/statemachine.go: a request that its client has not acknowledged is answered.
use dragonboat.Prelude.{
  ℕ, ◌-◌, ◌<◌, ◌≡◌, refl, inl, inr, Bool, true, false, some, [], ◌∷◌, ◌++◌, arith, if◌then◌else◌,
  Option-cases, put, Outcome, ok, ◌>>=◌,
}
use dragonboat.Pb.{Entry, is_no_op_session, is_update_entry}
use dragonboat.Rsm.Session.{Session, clear_to, has_responded, get_response, add_response}
use dragonboat.Rsm.Session.Answers.{clear_to-responded}
use dragonboat.Rsm.Sessions.{get_session}
use dragonboat.Rsm.Managed.{
  client_registered, assign_session, update_responded_to, update_required, update,
}
use dragonboat.Rsm.Managed.Knows.{session_of}
use dragonboat.Rsm.StateMachine.{StateMachine, Env, NodeCall, call_node, set_batched_last_applied}
use dragonboat.Rsm.Apply.{update_sm, update_session, handle_update, handle_commit_rec}
use dragonboat.Rsm.Apply.Change.{IsNext, update_last_applied-IsNext}
use dragonboat.Rsm.Apply.Replies.{handle_update-calls, handle_entry_update, tell}

module _ {C D : Type 0} (env : Env C D) where
  -- The code answers the request with some result.
  abbrev Answers : StateMachine C D → Outcome ((ℕ × Bool × Bool) × StateMachine C D) → Type 0
  Answers s m =
      (v : ℕ) × (s' : StateMachine C D) × (m ≡ ok ((v, false, false), s'))
      × (s'.last_applied ≡ s.last_applied)

  update_session-Answers :
      (s : StateMachine C D) (session : Session) (ent : Entry)
      → session.responded_up_to < ent.series_id
      → ent.responded_to < ent.series_id
      → Answers s (update_session env s session ent)
  unfolding update_session update_sm update_required update_responded_to update get_response
      add_response has_responded ◌>>=◌
  update_session-Answers s session ent behind before =
      let session' = clear_to session ent.responded_to in
      let sm = (update_responded_to env.ops env.store s.sm session ent.responded_to).1 in
      let fresh : has_responded session' ent.series_id ≡ false = ground (
        arith,
        clear_to-responded session ent.responded_to (ent.series_id - 1) (omega arith) (omega arith),
      ) in
      elim (Option-cases (get_response session' ent.series_id)) [
        | inl new ↦
            let (v, d) = env.store.update sm.data_store ent.cmd in
            let answered = record session' { history = put session'.history ent.series_id v } in
            (
              v,
              record s {
                sm = assign_session env.ops env.store (record sm { data_store = d }) answered;
              },
              ground arith,
              refl,
            )
        | inr (v, old) ↦ (v, record s { sm = sm }, ground arith, refl)
      ]

  handle_update-Answers :
      (s : StateMachine C D) (ent : Entry) (t : Session)
      → IsNext s ent
      → is_no_op_session ent ≡ false
      → session_of env.ops s.sm ent.client_id ≡ some t
      → t.client_id ≡ ent.client_id
      → t.responded_up_to < ent.series_id
      → ent.responded_to < ent.series_id
      → (v : ℕ) × (s' : StateMachine C D) × (handle_update env s ent ≡ ok ((v, false, false), s'))
        × (s'.last_applied ≡ ent.index)
  unfolding handle_update client_registered get_session ◌>>=◌
  handle_update-Answers s ent t next some_session there own behind before =
      let moved = update_last_applied-IsNext s ent next in
      let s1 = record s { last_applied = ent.index; last_applied_term = ent.term } in
      let looked = record s1 {
        sm = record s.sm { sessions = (get_session env.ops s.sm.sessions ent.client_id).1 };
      } in
      let (v, s', answered, index) = update_session-Answers looked t ent behind before in
      (v, s', ground arith, index)

  pub handle_commit_rec_fresh :
      (s : StateMachine C D) (ent : Entry) (last : Bool) (t : Session)
      → IsNext s ent
      → is_update_entry ent ≡ true
      → is_no_op_session ent ≡ false
      → session_of env.ops s.sm ent.client_id ≡ some t
      → t.client_id ≡ ent.client_id
      → t.responded_up_to < ent.series_id
      → ent.responded_to < ent.series_id
      → (v : ℕ) × (s' : StateMachine C D) × (handle_commit_rec env s ent last ≡ ok s')
        × (s'.calls ≡ s.calls ++ (NodeCall.apply_update ent v false false last ∷ []))
  unfolding handle_commit_rec set_batched_last_applied call_node ◌>>=◌
  handle_commit_rec_fresh s ent last t next u some_session there own behind before =
      let (v, s', answered, index) =
        handle_update-Answers s ent t next some_session there own behind before in
      let told = tell env ent last ((v, false, false), s') in
      let quiet = (handle_update-calls env s ent).at ((v, false, false), s') answered in
      let s'' = if last then set_batched_last_applied told ent.index else told in
      (v, s'', ground (arith, handle_entry_update env s ent last u), ground arith)
