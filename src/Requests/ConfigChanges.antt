-- ===== src/Requests/ConfigChanges.antt =====
-- pendingConfigChange of requests.go: the one configuration change of a node that waits for its result. A
-- mutex makes a method one step. The encoding of a change is a parameter, `none` for an error.
pub mod Balance
mod Tests
use dragonboat.Prelude.{
  ℕ, ◌⊎◌, inl, inr, Bool, Option, none, some, List, [], ◌∷◌, ◌++◌, ltb, ◌==◌, if◌then◌else◌, add64,
  sub64, length, Outcome, ok, panic, ◌>>=◌, ◌>>◌,
}
use dragonboat.Pb.{ConfigChange}
use dragonboat.Requests.{
  RequestResultCode, RequestResult, get_terminated_result, get_timeout_result, RequestState,
  LogicalClock, get_timeout_tick,
}
use dragonboat.Requests.Proposals.{default_gc_tick}

-- The errors of `request`.
pub data ChangeError : Type 0 where
  err_timeout_too_small err_pending_config_change_exist err_cluster_closed err_system_busy :
      ChangeError

-- A RequestState that carries an encoded change.
pub record ChangeRequest : Type 0 where
  pub state : RequestState
  pub encoded : List ℕ

-- The channel is what it holds, `none` for nil, with its capacity; `told` is what the requests have been
-- told so far.
pub record PendingConfigChange : Type 0 where
  pub pending : Option RequestState
  pub conf_change_c : Option (List ChangeRequest)
  pub capacity : ℕ
  pub clock : LogicalClock
  pub told : List (RequestState × RequestResult)

abbrev pub new_pending_config_change : (capacity tick_in_millisecond : ℕ) → PendingConfigChange
new_pending_config_change capacity tick_in_millisecond = record {
  pending = none;
  conf_change_c = some [];
  capacity = capacity;
  clock = record {
    tick = 0;
    last_gc_time = 0;
    gc_tick = default_gc_tick;
    tick_in_millisecond = tick_in_millisecond;
  };
  told = [];
}

-- The request that waits is told, and waits no longer.
abbrev pub tell : PendingConfigChange → RequestState → RequestResult → PendingConfigChange
tell p r x = record p { told = p.told ++ ((r, x) ∷ []); pending = none }

unfoldable pub close : PendingConfigChange → PendingConfigChange
close p = elim p.conf_change_c [
  | none ↦ p
  | some c ↦ elim p.pending [
    | none ↦ record p { conf_change_c = none }
    | some r ↦ record (tell p r get_terminated_result) { conf_change_c = none }
  ]
]

-- `key` is the random number that is drawn.
unfoldable pub request :
    (ConfigChange → Option (List ℕ))
    → PendingConfigChange
    → ConfigChange
    → (key timeout : ℕ) → Outcome ((ChangeError ⊎ RequestState) × PendingConfigChange)
request marshal p cc key timeout = do
  timeout_tick ← get_timeout_tick p.clock timeout
  let req : RequestState = record {
    key = key;
    client_id = 0;
    series_id = 0;
    deadline = add64 p.clock.tick timeout_tick;
  }
  if timeout_tick == 0 then ok (inl ChangeError.err_timeout_too_small, p) else elim p.pending [
    | some r ↦ ok (inl ChangeError.err_pending_config_change_exist, p)
    | none ↦ elim p.conf_change_c [
      | none ↦ ok (inl ChangeError.err_cluster_closed, p)
      | some held ↦ elim (marshal cc) [
        | none ↦ panic
        | some bytes ↦
            if ltb (length held) p.capacity
            then ok (
              inr req,
              record p {
                pending = some req;
                conf_change_c = some (held ++ (record { state = req; encoded = bytes } ∷ []));
              },
            )
            else ok (inl ChangeError.err_system_busy, p)
      ]
    ]
  ]

unfoldable pub gc : PendingConfigChange → PendingConfigChange
gc p = elim p.pending [
  | none ↦ p
  | some r ↦
      let now = p.clock.tick in
      if ltb (sub64 now p.clock.last_gc_time) p.clock.gc_tick
      then p
      else let p1 = record p { clock = record p.clock { last_gc_time = now } } in
        if ltb r.deadline now then tell p1 r get_timeout_result else p1
]

unfoldable pub apply : PendingConfigChange → (key : ℕ) → (rejected : Bool) → PendingConfigChange
apply p key rejected = elim p.pending [
  | none ↦ p
  | some r ↦
      let code =
        if rejected
        then RequestResultCode.request_rejected
        else RequestResultCode.request_completed in
      if r.key == key then tell p r (record { code = code; result = 0 }) else p
]
