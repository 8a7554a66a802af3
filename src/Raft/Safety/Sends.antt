-- ===== src/Raft/Safety/Sends.antt =====
-- The sends of internal/raft/raft.go leave the term, the vote and the log alone.
use dragonboat.Prelude.{
  ℕ, refl, inl, inr, not, List, [], ◌∷◌, arith, ◌==◌, ◌!=◌, Option-cases, last?, Map, get, keys,
  Outcome, ◌>>=◌, Ensures, Ensures-ok, Ensures-panic, Ensures-if, Ensures-panic_if, Ensures-bind,
  Ensures-then,
}
use dragonboat.Pb.{Message, SystemCtx, ctx_eq}
use dragonboat.Raft.Remote
use dragonboat.Raft.Remote.{Remote}
use dragonboat.Raft.ReadIndex
use dragonboat.Raft.EntryLog.{Fetched}
use dragonboat.Raft.Node.{Raft}
use dragonboat.Raft.Send.{
  send, put_remote, send_snapshot, send_entries, send_replicate_message, replicate_to,
  replicate_to_observers, broadcast_replicate_message, send_heartbeat_message, heartbeat_to,
  heartbeat_to_observers, broadcast_heartbeat_message_with_hint, broadcast_heartbeat_message,
  send_timeout_now_message, zero_ctx, max_entry_size, make_replicate_message, get_remote,
}
use dragonboat.Raft.Safety.{Alike, Alike-refl, Alike-trans}

pub send-Alike : (r : Raft) (m : Message) → Ensures (Alike r) (send r m)
unfolding send
send-Alike r m = Ensures-bind _ _ λ m' _. Ensures-ok _ (record {
  node_id = refl;
  cluster_id = refl;
  term = refl;
  vote = refl;
  log = refl;
  state = refl;
  leader_id = refl;
})

pub put_remote-Alike : (r : Raft) (to : ℕ) (rp : Remote) → Alike r (put_remote r to rp)
unfolding put_remote
put_remote-Alike r to rp = ground arith

-- A run from a state that is alike.
pub Ensures-after :
    {r s : Raft} (m : Outcome Raft) → Alike r s → Ensures (Alike s) m → Ensures (Alike r) m
Ensures-after m a h = record { at = λ t e. Alike-trans a (h.at t e) }

module _ (r : Raft) where
  send_snapshot-Alike : (to : ℕ) (rp : Remote) → Ensures (Alike r) (send_snapshot r to rp)
  unfolding send_snapshot
  send_snapshot-Alike to rp =
      Ensures-if (not rp.active) _ _ (λ _. Ensures-ok r (Alike-refl r))
        λ _. Ensures-bind _ _ λ made _. Ensures-after _ (put_remote-Alike r to _) (send-Alike _ _)

  send_entries-Alike :
      (to : ℕ) (rp : Remote) (m : Message) → Ensures (Alike r) (send_entries r to rp m)
  unfolding send_entries
  send_entries-Alike to rp m = elim (Option-cases (last? m.entries)) [
    | inl e ↦ rw (e, send_entries) (send-Alike r m)
    | inr (l, e) ↦
        rw (e, send_entries)
          (Ensures-bind _ _ λ rp' _. Ensures-after _ (put_remote-Alike r to rp') (send-Alike _ m))
  ]

  pub send_replicate_message-Alike : (to : ℕ) → Ensures (Alike r) (send_replicate_message r to)
  unfolding send_replicate_message
  send_replicate_message-Alike to = elim (Option-cases (get_remote r to)) [
    | inl e ↦ rw (e, send_replicate_message) Ensures-panic
    | inr (rp, e) ↦
        rw (e, send_replicate_message)
          (Ensures-if (Remote.is_paused rp) _ _ (λ _. Ensures-ok r (Alike-refl r))
            λ _. Ensures-bind (make_replicate_message r to rp.next max_entry_size) _ (elim [
              | Fetched.failed err ↦ λ _. send_snapshot-Alike to rp
              | Fetched.fetched m ↦ λ _. send_entries-Alike to rp m
            ]))
  ]

-- A loop whose rounds leave the state alike.
pub Ensures-next :
    (r : Raft) (m : Outcome Raft) (f : Raft → Outcome Raft)
    → Ensures (Alike r) m
    → ((s : Raft) → Ensures (Alike s) (f s))
    → Ensures (Alike r) (m >>= f)
Ensures-next r m f h k = Ensures-then m f h λ s a. Ensures-after (f s) a (k s)

replicate_to-Alike : (nids : List ℕ) (r : Raft) → Ensures (Alike r) (replicate_to nids r)
unfolding replicate_to
replicate_to-Alike [] r = Ensures-ok r (Alike-refl r)
replicate_to-Alike (nid ∷ nids) r =
    Ensures-next r _ _
      (Ensures-if (nid != r.node_id) _ _ (λ _. send_replicate_message-Alike r nid)
        (λ _. Ensures-ok r (Alike-refl r)))
      (replicate_to-Alike nids)

replicate_to_observers-Alike :
    (nids : List ℕ) (r : Raft) → Ensures (Alike r) (replicate_to_observers nids r)
unfolding replicate_to_observers
replicate_to_observers-Alike [] r = Ensures-ok r (Alike-refl r)
replicate_to_observers-Alike (nid ∷ nids) r =
    Ensures-panic_if (nid == r.node_id) _ λ _.
      Ensures-next r _ _ (send_replicate_message-Alike r nid) (replicate_to_observers-Alike nids)

pub broadcast_replicate_message-Alike :
    (r : Raft) → Ensures (Alike r) (broadcast_replicate_message r)
unfolding broadcast_replicate_message
broadcast_replicate_message-Alike r =
    Ensures-next r _ _ (replicate_to-Alike (keys r.remotes) r)
      λ s. replicate_to_observers-Alike (keys s.observers) s

send_heartbeat_message-Alike :
    (r : Raft) (to : ℕ) (hint : SystemCtx) (targets : Map Remote)
    → Ensures (Alike r) (send_heartbeat_message r to hint targets)
unfolding send_heartbeat_message
send_heartbeat_message-Alike r to hint targets = elim (Option-cases (get targets to)) [
  | inl e ↦ rw (e, send_heartbeat_message) Ensures-panic
  | inr (rp, e) ↦ rw (e, send_heartbeat_message) (send-Alike r _)
]

heartbeat_to-Alike :
    (ids : List ℕ) (ctx : SystemCtx) (r : Raft) → Ensures (Alike r) (heartbeat_to ids ctx r)
unfolding heartbeat_to
heartbeat_to-Alike [] ctx r = Ensures-ok r (Alike-refl r)
heartbeat_to-Alike (id ∷ ids) ctx r =
    Ensures-next r _ _
      (Ensures-if (id != r.node_id) _ _ (λ _. send_heartbeat_message-Alike r id ctx r.remotes)
        (λ _. Ensures-ok r (Alike-refl r)))
      (heartbeat_to-Alike ids ctx)

heartbeat_to_observers-Alike :
    (ids : List ℕ) (ctx : SystemCtx) (r : Raft)
    → Ensures (Alike r) (heartbeat_to_observers ids ctx r)
unfolding heartbeat_to_observers
heartbeat_to_observers-Alike [] ctx r = Ensures-ok r (Alike-refl r)
heartbeat_to_observers-Alike (id ∷ ids) ctx r =
    Ensures-next r _ _ (send_heartbeat_message-Alike r id ctx r.observers)
      (heartbeat_to_observers-Alike ids ctx)

pub broadcast_heartbeat_message_with_hint-Alike :
    (r : Raft) (ctx : SystemCtx) → Ensures (Alike r) (broadcast_heartbeat_message_with_hint r ctx)
unfolding broadcast_heartbeat_message_with_hint
broadcast_heartbeat_message_with_hint-Alike r ctx =
    Ensures-next r _ _ (heartbeat_to-Alike (keys r.remotes) ctx r) λ s.
      Ensures-if (ctx_eq ctx zero_ctx) _ _
        (λ _. heartbeat_to_observers-Alike (keys s.observers) zero_ctx s)
        (λ _. Ensures-ok s (Alike-refl s))

pub broadcast_heartbeat_message-Alike :
    (r : Raft) → Ensures (Alike r) (broadcast_heartbeat_message r)
unfolding broadcast_heartbeat_message
broadcast_heartbeat_message-Alike r =
    Ensures-if (ReadIndex.has_pending_request r.read_index) _ _
      (λ _. Ensures-bind _ _ λ ctx _. broadcast_heartbeat_message_with_hint-Alike r ctx)
      (λ _. broadcast_heartbeat_message_with_hint-Alike r zero_ctx)

pub send_timeout_now_message-Alike :
    (r : Raft) (target : ℕ) → Ensures (Alike r) (send_timeout_now_message r target)
unfolding send_timeout_now_message
send_timeout_now_message-Alike r target = send-Alike r _
