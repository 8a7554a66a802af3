-- ===== src/Rsm/Tests.antt =====
-- internal/rsm, on concrete inputs: a cache without a bound, and a data store that adds up the lengths of
-- its commands.
use dragonboat.Prelude.{
  ℕ, ◌+◌, ◌≡◌, refl, ◌⊎◌, inl, inr, Bool, true, false, not, ◌&&◌, none, some, List, [], ◌∷◌, ◌++◌,
  arith, ◌==◌, if◌then◌else◌, Bool-cases, length, Map, get, put, delete, get-put, get-delete,
  Outcome, ok, panic, ◌>>=◌, Ensures,
}
use dragonboat.Pb.{
  Entry, ConfigChange, ConfigChangeType, empty_entry, empty_snapshot, series_id_for_register,
}
use dragonboat.Rsm.Session.{
  Session, new_session, get_response, add_response, clear_to, responses_above, has_responded,
}
use dragonboat.Rsm.Sessions.{CacheOps, IsCache, get_session, add_session}
use dragonboat.Rsm.Offload.{From, new_status}
use dragonboat.Rsm.Managed.{
  DataStore, offloaded, client_registered, register_client_id, assign_session, update_responded_to,
  update_required, update,
}
use dragonboat.Rsm.Managed.Evolves.{EvolvesIn}
use dragonboat.Rsm.Members.{accepts}
use dragonboat.Rsm.Managed.Destroy
use dragonboat.Rsm.Managed.Destroy.{in_use, new_status-IsValid, offloaded_lem}
use dragonboat.Rsm.Members.Changes.{Applied}
use dragonboat.Rsm.StateMachine.{
  StateMachine, Env, empty_commit, Recovery, NodeCall, new_state_machine, call_node,
  update_last_applied, set_batched_last_applied,
}
use dragonboat.Rsm.Apply.{
  handle_entry, handle_update, handle_register_session, update_sm, update_session,
  handle_commit_rec, handle_config_change, handle_all_update_entries, handle_commit_recs, handle,
  all_update_entries,
}
use dragonboat.Rsm.Apply.AtMostOnce.{here, next, at_most_once}
use dragonboat.Rsm.Apply.Evolves.{handle_commit_rec-Evolves}
use dragonboat.Rsm.Apply.Batch.{without_marks, handle_all_update_entries_lem}
use dragonboat.Rsm.Apply.Change.{handle_config_change_lem}
use dragonboat.Rsm.Apply.Order.{handle-Follows, FollowsFrom}
use dragonboat.Rsm.Recover.{recover_from_snapshot}
use dragonboat.Rsm.Recover.Errors.{Recovers, recover_from_snapshot-Recovers}

abbrev pub list_cache : CacheOps (Map Session)
list_cache = record {
  new_cache = λ size. [];
  get = λ m k. (get m k, m);
  add_entry = put;
  del = delete;
  assign = put;
}

pub list_cache-IsCache : IsCache list_cache
list_cache-IsCache = record {
  get-get = λ m k j. refl;
  get-del = λ m k j. get-delete m k j;
  get-assign = λ m k j s t h. get-put m k j s;
  get-add = λ m k j s t h. elim (Bool-cases (k == j)) [
    | inl same ↦ inl (ground (arith, get-put m k j s), ground (arith, get-put m k j s))
    | inr other ↦ inr (ground (arith, get-put m k j s))
  ];
}

abbrev adder : DataStore ℕ
adder = record {
  update = λ d cmd. (d + length cmd, d + length cmd);
  lookup = λ d query. d ∷ [];
  get_hash = λ d. d;
  close = λ d. 0;
}

abbrev change : ConfigChange
change = record {
  config_change_id = 0;
  type = ConfigChangeType.add_node;
  node_id = 4;
  address = 97 ∷ [];
  initialize = false;
}

abbrev pub env : Env (Map Session) ℕ
env = record {
  ops = list_cache;
  store = adder;
  unmarshal = λ cmd. some change;
  list_snapshots = some (record empty_snapshot { index = 7; term = 2 } ∷ []);
  validate = λ ss. ok true;
  recover_from_snapshot = λ sm ss. (Recovery.recovered, sm);
  save = λ index term sm. none;
  batched_entry_apply = true;
}

abbrev pub fresh : StateMachine (Map Session) ℕ
fresh =
    new_state_machine
      (record {
        data_store = 0;
        sessions = record { size = 4096; sessions = [] };
        status = new_status;
      })
      false

abbrev entry : (index series : ℕ) (cmd : List ℕ) → Entry
entry index series cmd = record empty_entry {
  index = index;
  term = 1;
  client_id = 9;
  series_id = series;
  cmd = cmd;
}

abbrev register : Entry
register = entry 1 series_id_for_register []

abbrev pub state_of : Outcome (StateMachine (Map Session) ℕ) → StateMachine (Map Session) ℕ
state_of (ok s) = s
state_of panic = fresh

abbrev registered : StateMachine (Map Session) ℕ
registered = state_of (handle_commit_rec env fresh register false)

abbrev first : Entry
first = entry 2 1 (5 ∷ 5 ∷ [])

abbrev after_first : StateMachine (Map Session) ℕ
after_first = state_of (handle_commit_rec env registered first false)

abbrev after_second : StateMachine (Map Session) ℕ
after_second = state_of (handle_commit_rec env after_first (entry 3 2 (7 ∷ [])) false)

abbrev again : Entry
again = entry 4 1 (5 ∷ 5 ∷ [])

abbrev after_again : StateMachine (Map Session) ℕ
after_again = state_of (handle_commit_rec env after_second again true)

-- The second request was applied, the repeated one was answered.
totals : (after_second.sm.data_store ≡ 3) × (after_again.sm.data_store ≡ 3)
unfolding handle_commit_rec handle_entry handle_update handle_register_session update_sm
    update_session update_last_applied call_node set_batched_last_applied client_registered
    register_client_id assign_session update_responded_to update_required update get_session
    add_session new_session get_response add_response clear_to responses_above has_responded ◌>>=◌
totals = (refl, refl)

at_most_once_example :
    (after_again.sm.data_store ≡ after_second.sm.data_store)
    × ((after_again.calls ≡ after_second.calls)
        ⊎ (after_again.calls
            ≡ after_second.calls ++ (NodeCall.apply_update again 2 false false true ∷ [])))
unfolding handle_commit_rec handle_entry handle_update handle_register_session update_sm
    update_session update_last_applied call_node set_batched_last_applied client_registered
    register_client_id assign_session update_responded_to update_required update get_session
    add_session new_session get_response add_response clear_to responses_above has_responded ◌>>=◌
at_most_once_example =
    at_most_once env list_cache-IsCache first again false true 2 registered {s1 = after_first}
      {s2 = after_second} {s3 = after_again} refl refl refl refl refl refl refl
      (next (entry 3 2 (7 ∷ [])) false refl (_, refl) here) refl

handle_all_update_entries_lem_example :
    (handle_all_update_entries env registered (first ∷ entry 3 2 (7 ∷ []) ∷ [])
      ≡ handle_commit_recs env registered (first ∷ entry 3 2 (7 ∷ []) ∷ []) true)
    × ((handle_all_update_entries env registered (first ∷ entry 3 2 (7 ∷ []) ∷ []) >>= λ t.
          ok (without_marks env t))
        ≡ (handle_commit_recs env registered (first ∷ entry 3 2 (7 ∷ []) ∷ []) false >>= λ t.
            ok (without_marks env t)))
unfolding all_update_entries
handle_all_update_entries_lem_example =
    handle_all_update_entries_lem env registered (first ∷ entry 3 2 (7 ∷ []) ∷ []) refl

handle-Follows_example :
    Ensures
      (FollowsFrom fresh (register ∷ first ∷ []))
      (handle env fresh (record empty_commit { entries = register ∷ first ∷ [] } ∷ []))
handle-Follows_example =
    handle-Follows env fresh (record empty_commit { entries = register ∷ first ∷ [] } ∷ [])

handle_config_change_lem_example :
    (r : Bool × StateMachine (Map Session) ℕ) × (handle_config_change env fresh register ≡ ok r)
    × (r.1.last_applied ≡ 1)
    × (r.0 ≡ accepts false fresh.members change)
    × (r.0 ≡ false → r.1 ≡ record fresh { last_applied = 1; last_applied_term = 1 })
    × (r.0 ≡ true
        → Applied fresh.members change 1 r.1.members
          × (r.1.calls ≡ NodeCall.apply_config_change change ∷ []))
handle_config_change_lem_example =
    handle_config_change_lem env fresh register change
      (record { apart = λ k h. refl; gone = λ k h. (refl, refl) })
      (record { follows = refl; fits = omega arith; has_term = omega arith; rises = omega arith })
      refl refl

recover_from_snapshot-Recovers_example :
    Ensures
      (Recovers fresh)
      (recover_from_snapshot env fresh (record empty_commit { initial_snapshot = true }))
recover_from_snapshot-Recovers_example =
    recover_from_snapshot-Recovers env fresh (record empty_commit { initial_snapshot = true })

offloaded_lem_example :
    let ds = offloaded list_cache adder fresh.sm From.from_node_host in
    let unused = ds.status.offloaded_from_node_host && not (in_use ds.status) in
    Destroy.IsValid ds.status
    × (ds.data_store ≡ (if unused && true then 0 else 0))
    × (ds.status.destroyed ≡ unused)
    × (ds.sessions ≡ fresh.sm.sessions)
offloaded_lem_example =
    offloaded_lem list_cache adder fresh.sm From.from_node_host new_status-IsValid

handle_commit_rec-Evolves_example :
    Ensures
      (λ s'. EvolvesIn list_cache adder list_cache-IsCache first 9 registered.sm s'.sm)
      (handle_commit_rec env registered first false)
handle_commit_rec-Evolves_example =
    handle_commit_rec-Evolves env list_cache-IsCache 9 registered first false
