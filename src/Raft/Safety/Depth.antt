-- ===== src/Raft/Safety/Depth.antt =====
-- How deep the calls of `Handle` inside `Handle` go in internal/raft/raft.go: a handler ticks the
-- clock only for TimeoutNow, and no message that a tick makes is a TimeoutNow.
use dragonboat.Prelude.{
  ◌≡◌, refl, ap, ◌∙◌, ◌≢◌, inl, inr, some, arith, if◌then◌else◌, Option-cases, Outcome, ok, ◌>>=◌,
  ◌>>◌,
}
use mathlib.Core.Path.{fun_ext}
use dragonboat.Pb.{Message, MessageType, message}
use dragonboat.Raft.Node.{Raft, State}
use dragonboat.Raft.Step.{
  Handler, handlers, non_leader_tick, tick_check_quorum, tick_heartbeat, leader_tick, tick_with,
  handle_follower_timeout_now, run_handler, default_handle, on_message_term_not_matched,
  double_check_term_matched, handle_with, handle, handle_message, tick,
}

-- Two versions of the nested `Handle` that agree but on TimeoutNow.
abbrev Agree : (a b : Raft → Message → Outcome Raft) → Type 0
Agree a b = (r : Raft) (m : Message) → m.type ≢ MessageType.timeout_now → a r m ≡ b r m

handlers-timeout_now :
    (s : State) (t : MessageType)
    → handlers s t ≡ some Handler.follower_timeout_now
    → t ≡ MessageType.timeout_now
unfolding handlers
handlers-timeout_now State.follower t e = ground arith
handlers-timeout_now State.candidate t e = ground arith
handlers-timeout_now State.leader t e = ground arith
handlers-timeout_now State.observer t e = ground arith

run_handler-any :
    (a b : Raft → Message → Outcome Raft) (h : Handler) (r : Raft) (m : Message)
    → h ≢ Handler.follower_timeout_now
    → run_handler a h r m ≡ run_handler b h r m
unfolding run_handler
run_handler-any a b Handler.follower_timeout_now r m ne = absurd (ne refl)
run_handler-any a b _ r m ne = refl

default_handle-any :
    (a b : Raft → Message → Outcome Raft) (r : Raft) (m : Message)
    → m.type ≢ MessageType.timeout_now
    → default_handle a r m ≡ default_handle b r m
unfolding default_handle
default_handle-any a b r m ne = elim (Option-cases (handlers r.state m.type)) [
  | inl e ↦ rw (e, default_handle)
  | inr (h, e) ↦
      rw (e, default_handle)
        (run_handler-any a b h r m (λ t. ne (handlers-timeout_now r.state m.type (e ∙ ap some t))))
]

-- The dispatch after the checks of the term, for two versions.
after_checks :
    (a b : Raft → Message → Outcome Raft) (m : Message)
    → ((s : Raft) → default_handle a s m ≡ default_handle b s m)
    → (r : Raft) → handle_with a r m ≡ handle_with b r m
unfolding handle_with
after_checks a b m same r =
    ap
      (λ (f : Raft → Outcome Raft). on_message_term_not_matched r m >>= λ p.
        if p.1 then ok p.0 else (double_check_term_matched p.0 m.term >> f p.0))
      (fun_ext same)

handle_with-any : (a b : Raft → Message → Outcome Raft) → Agree (handle_with a) (handle_with b)
handle_with-any a b r m ne = after_checks a b m (λ s. default_handle-any a b s m ne) r

module _ (a b : Raft → Message → Outcome Raft) (agree : Agree a b) where
  non_leader_tick-any : (r : Raft) → non_leader_tick a r ≡ non_leader_tick b r
  unfolding non_leader_tick
  non_leader_tick-any r =
      rw (agree _ (record (message MessageType.election) { from = r.node_id }) (λ e. cc))

  tick_check_quorum-any : (r : Raft) → tick_check_quorum a r ≡ tick_check_quorum b r
  unfolding tick_check_quorum
  tick_check_quorum-any r =
      rw (agree _ (record (message MessageType.check_quorum) { from = r.node_id }) (λ e. cc))

  tick_heartbeat-any : (r : Raft) → tick_heartbeat a r ≡ tick_heartbeat b r
  unfolding tick_heartbeat
  tick_heartbeat-any r =
      rw (agree _ (record (message MessageType.leader_heartbeat) { from = r.node_id }) (λ e. cc))

  leader_tick-any : (r : Raft) → leader_tick a r ≡ leader_tick b r
  unfolding leader_tick
  leader_tick-any r = rw (fun_ext tick_check_quorum-any, fun_ext tick_heartbeat-any)

  tick_with-any : (r : Raft) → tick_with a r ≡ tick_with b r
  unfolding tick_with
  tick_with-any r = rw (leader_tick-any, non_leader_tick-any)

  run_handler-agree :
      (h : Handler) (r : Raft) (m : Message) → run_handler a h r m ≡ run_handler b h r m
  unfolding run_handler handle_follower_timeout_now
  run_handler-agree Handler.follower_timeout_now r m = rw tick_with-any
  run_handler-agree _ r m = refl

  default_handle-agree : (r : Raft) (m : Message) → default_handle a r m ≡ default_handle b r m
  unfolding default_handle
  default_handle-agree r m = elim (Option-cases (handlers r.state m.type)) [
    | inl e ↦ rw (e, default_handle)
    | inr (h, e) ↦ rw (e, default_handle) (run_handler-agree h r m)
  ]

  handle_with-agree : (r : Raft) (m : Message) → handle_with a r m ≡ handle_with b r m
  handle_with-agree r m = after_checks a b m (λ s. default_handle-agree s m) r

-- The call of `Handle` inside `Handle` that is left at the second level is never made: whatever is put in its
-- place, `Handle` and `tick` have the same outcome. So every call of either ends after at most two nested
-- calls, and `handle_message` satisfies the recursive equation by which the code defines `Handle`.
pub handle-depth :
    (inner : Raft → Message → Outcome Raft) (r : Raft) (m : Message)
    → (handle_with (handle_with inner) r m ≡ handle_message r m)
      × (tick_with (handle_with inner) r ≡ tick r)
      × (handle_with handle_message r m ≡ handle_message r m)
unfolding handle_message tick handle
handle-depth inner r m =
    let enough = λ (a : Raft → Message → Outcome Raft).
      handle_with-agree (handle_with a) (handle 1) (handle_with-any a (handle 0)) r m in
    (
      enough inner,
      tick_with-any (handle_with inner) (handle 1) (handle_with-any inner (handle 0)) r,
      enough (handle 1),
    )
