-- ===== src/Quiesce.antt =====
-- quiesce.go: when an idle raft group stops its clock, and what wakes it up. The atomic swap and store
-- of the new-state flag are single steps.
use dragonboat.Prelude.{
  ℕ, ◌*◌, ◌%◌, ◌^◌, Bool, true, false, not, ◌&&◌, ltb, ◌==◌, if◌then◌else◌, add64, sub64,
}
use dragonboat.Pb.{MessageType}
pub mod Activity
mod Tests

pub record QuiesceManager : Type 0 where
  pub cluster_id : ℕ
  pub node_id : ℕ
  pub tick : ℕ
  pub election_tick : ℕ
  pub quiesced_since : ℕ
  pub no_activity_since : ℕ
  pub exit_quiesce_tick : ℕ
  pub enabled : Bool
  pub new_quiesce_state_flag : ℕ

-- As newNode makes it, from the fields of its Config.
unfoldable pub new_quiesce_manager :
    (cluster_id node_id election_rtt : ℕ) (quiesce : Bool) → QuiesceManager
new_quiesce_manager cluster_id node_id election_rtt quiesce = record {
  cluster_id = cluster_id;
  node_id = node_id;
  tick = 0;
  election_tick = (election_rtt * 2) % 2 ^ 64;
  quiesced_since = 0;
  no_activity_since = 0;
  exit_quiesce_tick = 0;
  enabled = quiesce;
  new_quiesce_state_flag = 0;
}

unfoldable pub set_new_quiesce_state_flag : QuiesceManager → QuiesceManager
set_new_quiesce_state_flag q = record q { new_quiesce_state_flag = 1 }

-- The answer, and the manager with the flag cleared.
unfoldable pub new_quiesce_state : QuiesceManager → Bool × QuiesceManager
new_quiesce_state q = (q.new_quiesce_state_flag == 1, record q { new_quiesce_state_flag = 0 })

unfoldable pub quiesced : QuiesceManager → Bool
quiesced q = if not q.enabled then false else ltb 0 q.quiesced_since

unfoldable pub quiesce_threshold : QuiesceManager → ℕ
quiesce_threshold q = (q.election_tick * 10) % 2 ^ 64

unfoldable pub new_to_quiesce : QuiesceManager → Bool
new_to_quiesce q =
    if not (quiesced q) then false else ltb (sub64 q.tick q.quiesced_since) q.election_tick

unfoldable pub just_exited_quiesce : QuiesceManager → Bool
just_exited_quiesce q =
    if quiesced q then false else ltb (sub64 q.tick q.exit_quiesce_tick) (quiesce_threshold q)

unfoldable pub enter_quiesce : QuiesceManager → QuiesceManager
enter_quiesce q =
    set_new_quiesce_state_flag (record q { quiesced_since = q.tick; no_activity_since = q.tick })

unfoldable pub exit_quiesce : QuiesceManager → QuiesceManager
exit_quiesce q = record q { quiesced_since = 0; exit_quiesce_tick = q.tick }

-- The new tick, or 0 when quiesce is not enabled.
unfoldable pub increase_quiesce_tick : QuiesceManager → ℕ × QuiesceManager
increase_quiesce_tick q =
    let threshold = quiesce_threshold q in
    let ticked = record q { tick = add64 q.tick 1 } in
    let after =
      if not (quiesced ticked) && ltb threshold (sub64 ticked.tick ticked.no_activity_since)
      then enter_quiesce ticked
      else ticked in
    if not q.enabled then (0, q) else (after.tick, after)

abbrev pub is_heartbeat : MessageType → Bool
is_heartbeat MessageType.heartbeat = true
is_heartbeat MessageType.heartbeat_resp = true
is_heartbeat _ = false

-- What `recordActivity` does with a message that it does not ignore.
unfoldable pub wake : QuiesceManager → QuiesceManager
wake q =
    let active = record q { no_activity_since = q.tick } in
    if quiesced active then exit_quiesce active else active

unfoldable pub record_activity : QuiesceManager → MessageType → QuiesceManager
record_activity q t =
    if not q.enabled
    then q
    else if is_heartbeat t
    then (if not (quiesced q) then q else if new_to_quiesce q then q else wake q)
    else wake q

unfoldable pub try_enter_quiesce : QuiesceManager → QuiesceManager
try_enter_quiesce q =
    if just_exited_quiesce q then q else if not (quiesced q) then enter_quiesce q else q
