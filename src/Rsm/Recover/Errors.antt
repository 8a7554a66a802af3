-- ===== src/Rsm/Recover/Errors.antt =====
-- internal/rsm/statemachine.go: what is left of a recovery that fails.
use dragonboat.Prelude.{
  ℕ, ◌<◌, ◌≡◌, refl, ◌⊎◌, inl, inr, true, false, [], ◌∷◌, ◌++◌, arith, if◌then◌else◌, Bool-cases,
  Outcome, ok, ◌>>=◌, Ensures, Ensures-ok, Ensures-if, Ensures-bind,
}
use dragonboat.Pb.{Snapshot, is_empty_snapshot}
use dragonboat.Rsm.StateMachine.{
  StateMachine, Env, Commit, NodeCall, call_node, set_batched_last_applied,
}
use dragonboat.Rsm.Recover.{
  RsmError, Answer, answer, refused, get_snapshot, recover_snapshot, recover_to,
  recover_from_snapshot,
}

module _ {C D : Type 0} where
  -- The state machine is where it was in the log.
  abbrev pub Unmoved : StateMachine C D → StateMachine C D → Type 0
  Unmoved s s' =
      (s'.last_applied ≡ s.last_applied)
      × (s'.last_applied_term ≡ s.last_applied_term)
      × (s'.members ≡ s.members)
      × (s'.batched_last_applied ≡ s.batched_last_applied)
      × (s'.calls ≡ s.calls)

  -- The state machine has moved forward to a snapshot, and told the node.
  abbrev pub MovedTo : Snapshot → StateMachine C D → StateMachine C D → Type 0
  MovedTo ss s s' =
      (s.last_applied < ss.index)
      × (s.aborted ≡ false)
      × (s'.last_applied ≡ ss.index)
      × (s'.last_applied_term ≡ ss.term)
      × (s'.members ≡ ss.membership)
      × (s'.batched_last_applied ≡ ss.index)
      × (s'.calls ≡ s.calls ++ (NodeCall.restore_remotes ss ∷ []))

  abbrev pub Recovers : StateMachine C D → Answer ℕ × StateMachine C D → Type 0
  Recovers s (reply, s') =
      (Unmoved s s' ⊎ ((ss : Snapshot) × (reply ≡ answer ss.index) × MovedTo ss s s'))
      × (s.aborted ≡ true → (s'.sm ≡ s.sm) × (s'.aborted ≡ true))
      × (s.aborted ≡ false → s'.aborted ≡ true → reply ≡ refused RsmError.snapshot_stopped)

module _ {C D : Type 0} (env : Env C D) (s : StateMachine C D) where
  recover_to-Recovers : (ss : Snapshot) → Recovers s (recover_to env s ss)
  unfolding recover_to recover_snapshot call_node set_batched_last_applied
  recover_to-Recovers ss = (
    elim (Bool-cases (recover_snapshot env s ss).0.0) [
      | inl moved ↦ inr (ss, ground arith, ground arith)
      | inr stayed ↦ inl (ground arith)
    ],
    ground arith,
    ground arith,
  )

  found-Recovers :
      (o : Answer Snapshot)
      → Ensures (Recovers s) (elim o as (λ _. Outcome (Answer ℕ × StateMachine C D)) [
        | refused e ↦ ok (refused e, s)
        | answer ss ↦
            if is_empty_snapshot ss
            then ok (answer 0, s)
            else (env.validate ss >>= λ _. ok (recover_to env s ss))
      ])
  found-Recovers (refused e) =
      Ensures-ok _ (inl (refl, refl, refl, refl, refl), λ a. (refl, a), λ a b. cc)
  found-Recovers (answer ss) =
      Ensures-if (is_empty_snapshot ss) _ _
        (λ _. Ensures-ok _ (inl (refl, refl, refl, refl, refl), λ a. (refl, a), λ a b. cc))
        (λ _. Ensures-bind (env.validate ss) _ (λ _ _. Ensures-ok _ (recover_to-Recovers ss)))

  -- A recovery leaves the state machine where it was in the log, or it moves it forward to the snapshot
  -- that it answers, with the snapshot's membership, and tells the node. A state machine that a
  -- recovery has aborted is not touched again, and one is aborted only with the error that says so.
  pub recover_from_snapshot-Recovers :
      (rec : Commit) → Ensures (Recovers s) (recover_from_snapshot env s rec)
  unfolding recover_from_snapshot
  recover_from_snapshot-Recovers rec = found-Recovers (get_snapshot env rec)
