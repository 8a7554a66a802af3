-- ===== src/Rsm/Recover.antt =====
-- internal/rsm/statemachine.go and snapshotter.go: recovery from a snapshot, and the making of one.
pub mod Errors
use dragonboat.Prelude.{
  ℕ, Bool, true, false, not, ◌&&◌, Option, none, some, List, [], ◌∷◌, ltb, leb, ◌==◌, if◌then◌else◌,
  length, last?, Outcome, ok, panic, ◌>>=◌, ◌>>◌,
}
use dragonboat.Pb.{Snapshot, is_empty_snapshot, empty_snapshot}
use dragonboat.Rsm.Managed
use dragonboat.Rsm.StateMachine.{
  StateMachine, Env, Commit, Recovery, NodeCall, call_node, set_batched_last_applied,
}

-- ErrRestoreSnapshot, ErrNoSnapshot, statemachine.ErrSnapshotStopped, raft.ErrSnapshotOutOfDate,
-- ErrClusterClosed, and the errors that snapshotter.Save hands on.
pub data RsmError : Type 0 where
  restore_snapshot no_snapshot snapshot_stopped snapshot_out_of_date cluster_closed : RsmError
  save_failed : RsmError

pub data Answer {ℓ} (A : Type ℓ) : Type ℓ where
  answer : A → Answer A
  refused : RsmError → Answer A

unfoldable pub find_snapshot : List Snapshot → ℕ → Option Snapshot
find_snapshot [] index = none
find_snapshot (s ∷ ss) index = if s.index == index then some s else find_snapshot ss index

module _ {C D : Type 0} (env : Env C D) where
  -- `getSnapshot`, with GetSnapshot and GetMostRecentSnapshot of snapshotter.go.
  unfoldable pub get_snapshot : Commit → Answer Snapshot
  get_snapshot rec =
      if not rec.initial_snapshot
      then elim env.list_snapshots [
        | none ↦ refused RsmError.restore_snapshot
        | some ss ↦ elim (find_snapshot ss rec.index) [
          | none ↦ refused RsmError.no_snapshot
          | some s ↦ answer s
        ]
      ]
      else elim env.list_snapshots [
        | none ↦ answer empty_snapshot
        | some ss ↦ elim (last? ss) [ none ↦ answer empty_snapshot | some s ↦ answer s ]
      ]

  -- Whether the snapshot was recovered; if not, what the caller answers.
  unfoldable pub recover_snapshot :
      StateMachine C D → Snapshot → (Bool × Answer ℕ) × StateMachine C D
  recover_snapshot s ss =
      let (result, sm) = env.recover_from_snapshot s.sm ss in
      let tried = record s { sm = sm } in
      if leb ss.index s.last_applied
      then ((false, answer s.last_applied), s)
      else if s.aborted
      then ((false, refused RsmError.snapshot_stopped), s)
      else elim result [
        | Recovery.stopped ↦
            ((false, refused RsmError.snapshot_stopped), record tried { aborted = true })
        | Recovery.broken ↦ ((false, refused RsmError.restore_snapshot), tried)
        | Recovery.recovered ↦ (
          (true, answer 0),
          record tried {
            last_applied = ss.index;
            last_applied_term = ss.term;
            members = ss.membership;
          },
        )
      ]

  -- The part of `RecoverFromSnapshot` behind the validation.
  unfoldable pub recover_to : StateMachine C D → Snapshot → Answer ℕ × StateMachine C D
  recover_to s ss =
      let ((recovered, reply), s1) = recover_snapshot s ss in
      if not recovered then (reply, s1) else (
        answer ss.index,
        call_node (set_batched_last_applied s1 ss.index) (NodeCall.restore_remotes ss),
      )

  unfoldable pub recover_from_snapshot :
      StateMachine C D → Commit → Outcome (Answer ℕ × StateMachine C D)
  recover_from_snapshot s rec = elim (get_snapshot rec) [
    | refused e ↦ ok (refused e, s)
    | answer ss ↦
        if is_empty_snapshot ss
        then ok (answer 0, s)
        else (do _ ← env.validate ss; ok (recover_to s ss))
  ]

  unfoldable pub save_snapshot : StateMachine C D → Outcome (Answer Snapshot × StateMachine C D)
  save_snapshot s =
      let save : Outcome (Answer Snapshot × StateMachine C D) =
        elim (env.save s.last_applied s.last_applied_term s.sm) [
          | none ↦ ok (refused RsmError.save_failed, s)
          | some ss ↦
              if length s.members.addresses == 0
              then panic
              else ok (
                answer (record ss { membership = s.members }),
                record s { last_snapshot_index = s.last_applied },
              )
        ] in
      if s.aborted
      then ok (refused RsmError.snapshot_stopped, s)
      else if ltb s.last_applied s.last_snapshot_index
      then panic
      else if ltb 0 s.last_applied && (s.last_applied == s.last_snapshot_index)
      then ok (refused RsmError.snapshot_out_of_date, s)
      else save

  unfoldable pub lookup : StateMachine C D → List ℕ → Answer (List ℕ)
  lookup s query =
      if s.aborted
      then refused RsmError.cluster_closed
      else elim (Managed.lookup env.ops env.store s.sm query) [
        | none ↦ refused RsmError.cluster_closed
        | some v ↦ answer v
      ]
