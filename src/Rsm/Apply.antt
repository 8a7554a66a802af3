-- ===== src/Rsm/Apply.antt =====
-- internal/rsm/statemachine.go: how committed entries are applied, one by one or in a batch.
pub mod Evolves
pub mod Replies
pub mod Retry
pub mod AtMostOnce
pub mod Batch
pub mod Change
pub mod Order
pub mod Fresh
use dragonboat.Prelude.{
  ℕ, Bool, true, false, not, ◌&&◌, ◌||◌, Option, none, some, List, [], ◌∷◌, ◌==◌, if◌then◌else◌,
  length, Outcome, ok, panic, ◌>>=◌, ◌>>◌, panic_if,
}
use dragonboat.Pb.{
  Entry, ConfigChange, ConfigChangeType, is_config_change, is_session_managed, is_empty,
  is_new_session_request, is_end_of_session_request, is_no_op_session, is_update_entry,
}
use dragonboat.Rsm.Session.{Session}
use dragonboat.Rsm.Managed.{
  client_registered, register_client_id, unregister_client_id, update_responded_to, update_required,
  update,
}
use dragonboat.Rsm.Members
use dragonboat.Rsm.Members.{accepts}
use dragonboat.Rsm.StateMachine.{
  StateMachine, Env, Commit, empty_commit, NodeCall, call_node, update_last_applied,
  set_batched_last_applied,
}

abbrev pub has_empty_address : ConfigChange → Bool
has_empty_address cc = elim cc.type [
  | ConfigChangeType.add_node ↦ length cc.address == 0
  | _ ↦ false
]

module _ {C D : Type 0} (env : Env C D) where
  unfoldable pub handle_config_change : StateMachine C D → Entry → Outcome (Bool × StateMachine C D)
  handle_config_change s ent = elim (env.unmarshal ent.cmd) [
    | none ↦ panic
    | some cc ↦ do
      panic_if (has_empty_address cc)
      s1 ← update_last_applied s ent.index ent.term
      let apply : Outcome (Bool × StateMachine C D) = (do
        members ← Members.apply_config_change s1.members cc ent.index
        ok (true, call_node (record s1 { members = members }) (NodeCall.apply_config_change cc)))
      if accepts s.ordered s.members cc then apply else ok (false, s1)
  ]

  unfoldable pub handle_register_session : StateMachine C D → Entry → Outcome (ℕ × StateMachine C D)
  handle_register_session s ent = do
    (result, sm) ← register_client_id env.ops env.store s.sm ent.client_id
    s1 ← update_last_applied (record s { sm = sm }) ent.index ent.term
    ok (result, s1)

  unfoldable pub handle_unregister_session :
      StateMachine C D → Entry → Outcome (ℕ × StateMachine C D)
  handle_unregister_session s ent = do
    (result, sm) ← unregister_client_id env.ops env.store s.sm ent.client_id
    s1 ← update_last_applied (record s { sm = sm }) ent.index ent.term
    ok (result, s1)

  unfoldable pub handle_no_op : StateMachine C D → Entry → Outcome (StateMachine C D)
  handle_no_op s ent = do panic_if (not (is_empty ent)); update_last_applied s ent.index ent.term

  -- The end of `handleUpdate`.
  unfoldable pub update_sm :
      StateMachine C D → Option Session → Entry → Outcome ((ℕ × Bool × Bool) × StateMachine C D)
  update_sm s session ent = do
    (result, sm) ← update env.ops env.store s.sm session ent.series_id ent.cmd
    ok ((result, false, false), record s { sm = sm })

  -- The part of `handleUpdate` for a registered client.
  unfoldable pub update_session :
      StateMachine C D → Session → Entry → Outcome ((ℕ × Bool × Bool) × StateMachine C D)
  update_session s session ent =
      let (session', sm) = update_responded_to env.ops env.store s.sm session ent.responded_to in
      let s1 = record s { sm = sm } in
      let (result, responded, required) =
        update_required env.ops env.store session' ent.series_id in
      if responded
      then ok ((0, true, false), s1)
      else if not required
      then ok ((result, false, false), s1)
      else update_sm s1 (some session') ent

  -- The result, whether to ignore it, and whether it was rejected.
  unfoldable pub handle_update :
      StateMachine C D → Entry → Outcome ((ℕ × Bool × Bool) × StateMachine C D)
  handle_update s ent =
      let managed : StateMachine C D → Outcome ((ℕ × Bool × Bool) × StateMachine C D) = λ s1. (do
        (registered, sm) ← client_registered env.ops env.store s1.sm ent.client_id
        elim registered [
          | none ↦ ok ((0, false, true), record s1 { sm = sm })
          | some session ↦ update_session (record s1 { sm = sm }) session ent
        ]) in
      do
        s1 ← update_last_applied s ent.index ent.term
        if not (is_no_op_session ent) then managed s1 else update_sm s1 none ent

  -- The dispatch of `handleCommitRec`.
  unfoldable pub handle_entry : StateMachine C D → Entry → Bool → Outcome (StateMachine C D)
  handle_entry s ent last =
      if is_config_change ent
      then (do
        (accepted, s1) ← handle_config_change s ent
        ok (call_node s1 (NodeCall.config_change_processed ent.key accepted)))
      else if not (is_session_managed ent)
      then (if is_empty ent
          then (do
            s1 ← handle_no_op s ent
            ok (call_node s1 (NodeCall.apply_update ent 0 false true last)))
          else panic)
      else if is_new_session_request ent
      then (do
        (result, s1) ← handle_register_session s ent
        ok (call_node s1 (NodeCall.apply_update ent result (result == 0) false last)))
      else if is_end_of_session_request ent
      then (do
        (result, s1) ← handle_unregister_session s ent
        ok (call_node s1 (NodeCall.apply_update ent result (result == 0) false last)))
      else (do
        ((result, ignored, rejected), s1) ← handle_update s ent
        if not ignored
            then ok (call_node s1 (NodeCall.apply_update ent result rejected ignored last))
            else ok s1)

  unfoldable pub handle_commit_rec : StateMachine C D → Entry → Bool → Outcome (StateMachine C D)
  handle_commit_rec s ent last = do
    s1 ← handle_entry s ent last
    panic_if (not (s1.last_applied == ent.index))
    ok (if last then set_batched_last_applied s1 ent.index else s1)

  unfoldable pub on_update_applied :
      StateMachine C D → Entry → (result : ℕ) (ignored rejected last : Bool) → StateMachine C D
  on_update_applied s ent result ignored rejected last =
      if not ignored
      then call_node s (NodeCall.apply_update ent result rejected ignored last)
      else s

  -- The end of a round of `handleAllUpdateEntries`.
  unfoldable pub batch_update :
      StateMachine C D → Option Session → Entry → Bool → Outcome (StateMachine C D)
  batch_update s session ent last = do
    (result, sm) ← update env.ops env.store s.sm session ent.series_id ent.cmd
    ok (on_update_applied (record s { sm = sm }) ent result false false last)

  -- A round for a registered client.
  unfoldable pub batch_session :
      StateMachine C D → Session → Entry → Bool → Outcome (StateMachine C D)
  batch_session s session ent last =
      let (session', sm) = update_responded_to env.ops env.store s.sm session ent.responded_to in
      let s1 = record s { sm = sm } in
      let (result, responded, required) =
        update_required env.ops env.store session' ent.series_id in
      if responded
      then ok (on_update_applied s1 ent 0 true false last)
      else if not required
      then ok (on_update_applied s1 ent result false false last)
      else batch_update s1 (some session') ent last

  unfoldable pub batch_entry : StateMachine C D → Entry → Bool → Outcome (StateMachine C D)
  batch_entry s ent last =
      let managed : StateMachine C D → Outcome (StateMachine C D) = λ s1. (do
        (registered, sm) ← client_registered env.ops env.store s1.sm ent.client_id
        elim registered [
          | none ↦ ok (on_update_applied (record s1 { sm = sm }) ent 0 false true last)
          | some session ↦ batch_session (record s1 { sm = sm }) session ent last
        ]) in
      do
        s1 ← update_last_applied s ent.index ent.term
        if not (is_no_op_session ent) then managed s1 else batch_update s1 none ent last

  -- The loop and what follows it: the batch has been applied up to its last entry.
  unfoldable pub handle_all_update_entries :
      StateMachine C D → List Entry → Outcome (StateMachine C D)
  handle_all_update_entries s [] = ok s
  handle_all_update_entries s (ent ∷ []) = do
    s1 ← batch_entry s ent true
    ok (set_batched_last_applied s1 ent.index)
  handle_all_update_entries s (ent ∷ e ∷ ents) = do
    s1 ← batch_entry s ent false
    handle_all_update_entries s1 (e ∷ ents)

  unfoldable pub handle_commit_recs :
      StateMachine C D → List Entry → Bool → Outcome (StateMachine C D)
  handle_commit_recs s [] last_rec = ok s
  handle_commit_recs s (ent ∷ ents) last_rec = do
    s1 ← handle_commit_rec s ent (last_rec && (length ents == 0))
    handle_commit_recs s1 ents last_rec

  unfoldable pub all_update_entries : List Entry → Bool
  all_update_entries [] = true
  all_update_entries (e ∷ es) = if not (is_update_entry e) then false else all_update_entries es

  unfoldable pub handle : StateMachine C D → List Commit → Outcome (StateMachine C D)
  handle s [] = ok s
  handle s (c ∷ batch) = do
    panic_if (c.snapshot_available || c.snapshot_requested)
    s1 ←
        (if env.batched_entry_apply && all_update_entries c.entries
          then handle_all_update_entries s c.entries
          else handle_commit_recs s c.entries (length batch == 0))
    handle s1 batch

  -- What the loop of `Handle` takes from the channel: the commits in front of the first one that is
  -- about a snapshot, that one, and what stays.
  unfoldable pub take_commits : List Commit → List Commit × Option Commit × List Commit
  take_commits [] = ([], none, [])
  take_commits (c ∷ cs) =
      let (batch, stop, rest) = take_commits cs in
      if c.snapshot_available || c.snapshot_requested
      then ([], some c, cs)
      else (c ∷ batch, stop, rest)

  -- `Handle`, where `commit_c` is what the channel holds until it is found empty.
  unfoldable pub handle_commits : StateMachine C D → Outcome ((Commit × Bool) × StateMachine C D)
  handle_commits s = do
    let (batch, stop, rest) = take_commits s.commit_c
    s1 ← handle (record s { commit_c = rest }) batch
    elim stop [ none ↦ ok ((empty_commit, false), s1) | some c ↦ ok ((c, true), s1) ]
