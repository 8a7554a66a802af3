-- ===== src/Quiesce/Activity.antt =====
-- quiesce.go: the clock of a group against its activity.
use dragonboat.Prelude.{
  ℕ, zero, suc, ◌+◌, ◌^◌, ◌≤◌, ◌<◌, ◌≡◌, refl, ◌∙◌, inl, inr, Bool, true, false, ◌&&◌, ◌||◌, arith,
  ltb, leb, Bool-cases,
}
use dragonboat.Pb.{MessageType}
use dragonboat.Quiesce.{
  QuiesceManager, new_quiesce_manager, set_new_quiesce_state_flag, new_quiesce_state, quiesced,
  quiesce_threshold, new_to_quiesce, just_exited_quiesce, enter_quiesce, exit_quiesce,
  increase_quiesce_tick, is_heartbeat, wake, record_activity, try_enter_quiesce,
}

-- No time lies in the future, a quiesced group has had no activity since it was quiesced, and any
-- other was active within the threshold.
pub record IsValid (q : QuiesceManager) : Type 0 where
  pub tick_fits : q.tick < 2 ^ 64
  pub quiesced_before : q.quiesced_since ≤ q.tick
  pub active_before : q.no_activity_since ≤ q.tick
  pub exited_before : q.exit_quiesce_tick ≤ q.tick
  pub idle : quiesced q ≡ true → q.no_activity_since ≡ q.quiesced_since
  pub busy : quiesced q ≡ false → q.tick ≤ q.no_activity_since + quiesce_threshold q

pub data Event : Type 0 where
  increase try_enter take_flag : Event
  activity : MessageType → Event

unfoldable pub on_event : Event → QuiesceManager → QuiesceManager
on_event Event.increase q = (increase_quiesce_tick q).1
on_event Event.try_enter q = try_enter_quiesce q
on_event Event.take_flag q = (new_quiesce_state q).1
on_event (Event.activity t) q = record_activity q t

-- Every method keeps the invariant, up to the last tick before the clock wraps around.
pub on_event-IsValid :
    (c : Event) {q : QuiesceManager} → IsValid q → q.tick + 1 < 2 ^ 64 → IsValid (on_event c q)
unfolding on_event increase_quiesce_tick try_enter_quiesce new_quiesce_state record_activity wake
    exit_quiesce enter_quiesce just_exited_quiesce new_to_quiesce quiesced quiesce_threshold
    set_new_quiesce_state_flag
on_event-IsValid Event.increase v h = ground arith
on_event-IsValid Event.try_enter v h = ground arith
on_event-IsValid Event.take_flag v h = ground arith
on_event-IsValid (Event.activity t) v h = ground arith

pub new_quiesce_manager-IsValid :
    (cluster_id node_id election_rtt : ℕ) (quiesce : Bool)
    → IsValid (new_quiesce_manager cluster_id node_id election_rtt quiesce)
unfolding new_quiesce_manager quiesced
new_quiesce_manager-IsValid cluster_id node_id election_rtt quiesce = ground arith

-- In a valid state, a quiesce message from another node leaves the group quiesced exactly if it is
-- already, or if quiesce is enabled, the clock has begun, and the threshold has passed since the group
-- last left quiesce, or since the start.
pub try_enter_quiesce_lem :
    (q : QuiesceManager)
    → IsValid q
    → quiesced (try_enter_quiesce q) ≡ (
        quiesced q
        || (q.enabled && (ltb 0 q.tick && leb (q.exit_quiesce_tick + quiesce_threshold q) q.tick)))
unfolding try_enter_quiesce just_exited_quiesce enter_quiesce set_new_quiesce_state_flag quiesced
    quiesce_threshold
try_enter_quiesce_lem q v = ground arith

-- The clock of the group, `n` ticks without a message.
unfoldable pub idle_ticks : ℕ → QuiesceManager → QuiesceManager
idle_ticks zero q = q
idle_ticks (suc n) q = idle_ticks n (increase_quiesce_tick q).1

-- A message leaves the group quiesced exactly if it is a heartbeat or its response and the group has
-- been quiesced for less than an election timeout.
pub record_activity_lem :
    (q : QuiesceManager) (t : MessageType)
    → quiesced (record_activity q t) ≡ (is_heartbeat t && new_to_quiesce q)
unfolding record_activity wake exit_quiesce quiesced new_to_quiesce
record_activity_lem q t = ground arith

stays_quiesced : (n : ℕ) (q : QuiesceManager) → quiesced q ≡ true → quiesced (idle_ticks n q) ≡ true
unfolding idle_ticks increase_quiesce_tick quiesced enter_quiesce set_new_quiesce_state_flag
stays_quiesced zero q h = h
stays_quiesced (suc n) q h = stays_quiesced n (increase_quiesce_tick q).1 (ground arith)

-- One tick without a message: whether it makes the group quiesced, and what a tick that does not
-- leaves as it was.
increase_quiesce_tick_lem :
    (q : QuiesceManager) {r : ℕ × QuiesceManager}
    → IsValid q
    → q.enabled ≡ true
    → quiesced q ≡ false
    → q.tick + 1 < 2 ^ 64
    → increase_quiesce_tick q ≡ r
    → (quiesced r.1 ≡ ltb (q.no_activity_since + quiesce_threshold q) (q.tick + 1))
      × (r.1.enabled ≡ true)
      × (r.1.tick ≡ q.tick + 1)
      × (quiesced r.1 ≡ false
          → r.1.no_activity_since + quiesce_threshold r.1
            ≡ q.no_activity_since + quiesce_threshold q)
unfolding increase_quiesce_tick quiesced enter_quiesce set_new_quiesce_state_flag quiesce_threshold
increase_quiesce_tick_lem q v e h f p = ground arith

-- In a valid state with quiesce enabled, a group that is not quiesced and gets no message for `n`
-- ticks is quiesced after them exactly if its last activity then lies more than the threshold back,
-- provided the clock does not wrap around.
pub idle_ticks-quiesced :
    (n : ℕ) (q : QuiesceManager)
    → IsValid q
    → q.enabled ≡ true
    → quiesced q ≡ false
    → q.tick + n < 2 ^ 64
    → quiesced (idle_ticks n q) ≡ ltb (q.no_activity_since + quiesce_threshold q) (q.tick + n)
unfolding idle_ticks on_event
idle_ticks-quiesced zero q v e h f = ground arith
idle_ticks-quiesced (suc n) q v e h f =
    let q' = (increase_quiesce_tick q).1 in
    let lem = increase_quiesce_tick_lem q v e h (omega arith) refl in
    elim (Bool-cases (quiesced q')) [
      | inl t ↦ stays_quiesced n q' t ∙ ground arith
      | inr t ↦
          idle_ticks-quiesced n q' (on_event-IsValid Event.increase v (omega arith)) lem.1 t
            (ground arith)
          ∙ ground arith
    ]
