-- ===== src/Raft/Remote.antt =====
-- internal/raft/remote.go: what a leader knows of the progress of one other node.
-- `Progress` has the invariant and what the calls do.
pub mod Progress
use dragonboat.Prelude.{
  ℕ, Bool, true, false, Outcome, ok, panic, ltb, leb, ◌!=◌, if◌then◌else◌, add64, sub64,
}
use dragonboat.Raft.EntryUtils.{min, max}

pub data RemoteStateType : Type 0 where
  retry wait replicate snapshot : RemoteStateType

-- The field `match` of the source.
pub record Remote : Type 0 where
  pub match : ℕ
  pub next : ℕ
  pub snapshot_index : ℕ
  pub state : RemoteStateType
  pub active : Bool

-- `&remote{match: m, next: n}`
abbrev pub fresh : ℕ → ℕ → Remote
fresh m n = record {
  match = m;
  next = n;
  snapshot_index = 0;
  state = RemoteStateType.retry;
  active = false;
}

unfoldable pub reset : Remote → Remote
reset r = record r { snapshot_index = 0 }

unfoldable pub become_retry : Remote → Remote
unfolding reset max
become_retry r =
    let next : ℕ = elim r.state [
      | RemoteStateType.snapshot ↦ max (add64 r.match 1) (add64 r.snapshot_index 1)
      | _ ↦ add64 r.match 1
    ] in
    let r' : Remote = reset (record r { next = next }) in
    record r' { state = RemoteStateType.retry }

unfoldable pub retry_to_wait : Remote → Remote
retry_to_wait r = elim r.state [
  | RemoteStateType.retry ↦ record r { state = RemoteStateType.wait }
  | _ ↦ r
]

unfoldable pub wait_to_retry : Remote → Remote
wait_to_retry r = elim r.state [
  | RemoteStateType.wait ↦ record r { state = RemoteStateType.retry }
  | _ ↦ r
]

unfoldable pub become_wait : Remote → Remote
unfolding become_retry retry_to_wait
become_wait r = retry_to_wait (become_retry r)

unfoldable pub become_replicate : Remote → Remote
unfolding reset
become_replicate r =
    let r' : Remote = reset (record r { next = add64 r.match 1 }) in
    record r' { state = RemoteStateType.replicate }

unfoldable pub become_snapshot : Remote → ℕ → Remote
unfolding reset
become_snapshot r index =
    let r' : Remote = reset r in
    record r' { snapshot_index = index; state = RemoteStateType.snapshot }

unfoldable pub clear_pending_snapshot : Remote → Remote
clear_pending_snapshot r = record r { snapshot_index = 0 }

unfoldable pub try_update : Remote → ℕ → Remote × Bool
unfolding wait_to_retry
try_update r index =
    let next = if ltb r.next (add64 index 1) then add64 index 1 else r.next in
    let r' : Remote = record r { next = next } in
    if ltb r'.match index then (record (wait_to_retry r') { match = index }, true) else (r', false)

unfoldable pub progress : Remote → ℕ → Outcome Remote
unfolding retry_to_wait
progress r last_index = elim r.state [
  | RemoteStateType.replicate ↦ ok (record r { next = add64 last_index 1 })
  | RemoteStateType.retry ↦ ok (retry_to_wait r)
  | _ ↦ panic
]

unfoldable pub responded_to : Remote → Remote
unfolding become_replicate become_retry
responded_to r = elim r.state [
  | RemoteStateType.retry ↦ become_replicate r
  | RemoteStateType.snapshot ↦ if leb r.snapshot_index r.match then become_retry r else r
  | _ ↦ r
]

unfoldable pub decrease_to : Remote → ℕ → ℕ → Remote × Bool
unfolding wait_to_retry min max
decrease_to r rejected last = elim r.state [
  | RemoteStateType.replicate ↦
      if leb rejected r.match then (r, false) else (record r { next = add64 r.match 1 }, true)
  | _ ↦
      if sub64 r.next 1 != rejected
      then (r, false)
      else (record (wait_to_retry r) { next = max 1 (min rejected (add64 last 1)) }, true)
]

unfoldable pub is_paused : Remote → Bool
is_paused r = elim r.state [
  | RemoteStateType.retry ↦ false
  | RemoteStateType.wait ↦ true
  | RemoteStateType.replicate ↦ false
  | RemoteStateType.snapshot ↦ true
]

unfoldable pub set_active : Remote → Remote
set_active r = record r { active = true }

unfoldable pub set_not_active : Remote → Remote
set_not_active r = record r { active = false }
