-- ===== src/Raft/Send.antt =====
-- internal/raft/raft.go: the messages that a node sends. An iteration over `r.remotes` or
-- `r.observers` goes through the keys in the order of the list.
use dragonboat.Prelude.{
  ℕ, ◌*◌, Bool, true, false, not, ◌&&◌, Option, none, some, List, [], ◌∷◌, ◌++◌, ltb, ◌==◌, ◌!=◌,
  if◌then◌else◌, add64, sub64, length, last?, Map, get, put, keys, Outcome, ok, panic, ◌>>=◌, ◌>>◌,
  panic_if,
}
use dragonboat.Pb.{Message, MessageType, message, SystemCtx, ctx_eq, Entry, is_empty_snapshot}
use dragonboat.Raft.EntryUtils.{min}
use dragonboat.Raft.Remote
use dragonboat.Raft.Remote.{Remote}
use dragonboat.Raft.EntryLog
use dragonboat.Raft.EntryLog.{Fetched, fetched, failed}
use dragonboat.Raft.ReadIndex
use dragonboat.Raft.Node.{Raft}

-- settings.Soft.MaxEntrySize
abbrev pub max_entry_size : ℕ
max_entry_size = 2 * (32 * 1024 * 1024)

unfoldable pub is_request_message : MessageType → Bool
is_request_message MessageType.propose = true
is_request_message MessageType.read_index = true
is_request_message _ = false

abbrev pub is_request_vote : MessageType → Bool
is_request_vote MessageType.request_vote = true
is_request_vote _ = false

unfoldable pub finalize_message_term : Raft → Message → Outcome Message
unfolding is_request_message
finalize_message_term r m = do
  panic_if ((m.term == 0) && is_request_vote m.type)
  panic_if (ltb 0 m.term && not (is_request_vote m.type))
  ok (if is_request_message m.type then m else record m { term = r.term })

unfoldable pub send : Raft → Message → Outcome Raft
send r m = do
  m' ← finalize_message_term r (record m { from = r.node_id })
  ok (record r { msgs = r.msgs ++ (m' ∷ []) })

unfoldable pub make_install_snapshot_message : Raft → ℕ → Message → Outcome (Message × ℕ)
make_install_snapshot_message r to m =
    let snapshot = EntryLog.snapshot r.log in
    if is_empty_snapshot snapshot
    then panic
    else ok (
      record m { to = to; type = MessageType.install_snapshot; snapshot = snapshot },
      snapshot.index,
    )

-- The check of the last index, and the message.
abbrev pub replicate_message : Raft → ℕ → ℕ → ℕ → Fetched (List Entry) → Outcome (Fetched Message)
replicate_message r to next t (failed err) = ok (failed err)
replicate_message r to next t (fetched entries) = do
  let last_checked : Outcome (Unit {0}) = elim (last? entries) [
    | none ↦ ok tt
    | some e ↦ panic_if (e.index != add64 (sub64 next 1) (length entries))
  ]
  last_checked
  ok (
      fetched (record (message MessageType.replicate) {
        to = to;
        log_index = sub64 next 1;
        log_term = t;
        entries = entries;
        commit = r.log.committed;
      }))

unfoldable pub make_replicate_message : Raft → ℕ → ℕ → ℕ → Outcome (Fetched Message)
make_replicate_message r to next max_size = do
  found ← EntryLog.term r.log (sub64 next 1)
  elim found [
    | failed err ↦ ok (failed err)
    | fetched t ↦ do es ← EntryLog.entries r.log next max_size; replicate_message r to next t es
  ]

-- `r.remotes[to]`, or else `r.observers[to]`.
unfoldable pub get_remote : Raft → ℕ → Option Remote
get_remote r to = elim (get r.remotes to) [ some rp ↦ some rp | none ↦ get r.observers to ]

-- A write through the pointer that `get_remote` returns.
unfoldable pub put_remote : Raft → ℕ → Remote → Raft
put_remote r to rp = elim (get r.remotes to) [
  | some _ ↦ record r { remotes = put r.remotes to rp }
  | none ↦ record r { observers = put r.observers to rp }
]

-- The log is not available: the snapshot is sent, to a node that was heard of.
unfoldable pub send_snapshot : Raft → ℕ → Remote → Outcome Raft
send_snapshot r to rp = if not rp.active then ok r else (do
  (m, index) ← make_install_snapshot_message r to (message MessageType.local_tick)
  send (put_remote r to (Remote.become_snapshot rp index)) m)

unfoldable pub send_entries : Raft → ℕ → Remote → Message → Outcome Raft
send_entries r to rp m = elim (last? m.entries) [
  | none ↦ send r m
  | some e ↦ do rp' ← Remote.progress rp e.index; send (put_remote r to rp') m
]

unfoldable pub send_replicate_message : Raft → ℕ → Outcome Raft
send_replicate_message r to = elim (get_remote r to) [
  | none ↦ panic
  | some rp ↦ if Remote.is_paused rp then ok r else (do
    made ← make_replicate_message r to rp.next max_entry_size
    elim made [ failed _ ↦ send_snapshot r to rp | fetched m ↦ send_entries r to rp m ])
]

unfoldable pub replicate_to : List ℕ → Raft → Outcome Raft
replicate_to [] r = ok r
replicate_to (nid ∷ nids) r = do
  r' ← if nid != r.node_id then send_replicate_message r nid else ok r
  replicate_to nids r'

unfoldable pub replicate_to_observers : List ℕ → Raft → Outcome Raft
replicate_to_observers [] r = ok r
replicate_to_observers (nid ∷ nids) r = do
  panic_if (nid == r.node_id)
  r' ← send_replicate_message r nid
  replicate_to_observers nids r'

unfoldable pub broadcast_replicate_message : Raft → Outcome Raft
broadcast_replicate_message r = do
  r' ← replicate_to (keys r.remotes) r
  replicate_to_observers (keys r'.observers) r'

unfoldable pub send_heartbeat_message : Raft → ℕ → SystemCtx → Map Remote → Outcome Raft
unfolding min
send_heartbeat_message r to hint targets = elim (get targets to) [
  | none ↦ panic
  | some rp ↦ send r (record (message MessageType.heartbeat) {
    to = to;
    commit = min rp.match r.log.committed;
    hint = hint.low;
    hint_high = hint.high;
  })
]

unfoldable pub heartbeat_to : List ℕ → SystemCtx → Raft → Outcome Raft
heartbeat_to [] ctx r = ok r
heartbeat_to (id ∷ ids) ctx r = do
  r' ← if id != r.node_id then send_heartbeat_message r id ctx r.remotes else ok r
  heartbeat_to ids ctx r'

unfoldable pub heartbeat_to_observers : List ℕ → SystemCtx → Raft → Outcome Raft
heartbeat_to_observers [] ctx r = ok r
heartbeat_to_observers (id ∷ ids) ctx r = do
  r' ← send_heartbeat_message r id ctx r.observers
  heartbeat_to_observers ids ctx r'

abbrev pub zero_ctx : SystemCtx
zero_ctx = record { low = 0; high = 0 }

unfoldable pub broadcast_heartbeat_message_with_hint : Raft → SystemCtx → Outcome Raft
broadcast_heartbeat_message_with_hint r ctx = do
  r' ← heartbeat_to (keys r.remotes) ctx r
  if ctx_eq ctx zero_ctx then heartbeat_to_observers (keys r'.observers) zero_ctx r' else ok r'

unfoldable pub broadcast_heartbeat_message : Raft → Outcome Raft
broadcast_heartbeat_message r =
    if ReadIndex.has_pending_request r.read_index
    then (do ctx ← ReadIndex.peep_ctx r.read_index; broadcast_heartbeat_message_with_hint r ctx)
    else broadcast_heartbeat_message_with_hint r zero_ctx

unfoldable pub send_timeout_now_message : Raft → ℕ → Outcome Raft
send_timeout_now_message r target =
    send r (record (message MessageType.timeout_now) { to = target })
