-- ===== src/Requests/ConfigChanges/Balance.antt =====
-- pendingConfigChange of requests.go: one request waits at a time, and each is told once.
use dragonboat.Prelude.{
  ℕ, ◌+◌, ◌≡◌, ◌⊎◌, inl, inr, Bool, Option, none, some, List, [], ◌∷◌, ◌++◌, arith, ltb, ◌==◌,
  Option-cases, length, drop, length-append, Outcome, ok, ◌>>=◌, Ensures, Ensures-ok, Ensures-panic,
  Ensures-if, Ensures-option, Ensures-bind, Ensures-then,
}
use dragonboat.Pb.{ConfigChange}
use dragonboat.Requests.{
  RequestResultCode, RequestState, get_terminated_result, get_timeout_result, get_timeout_tick,
}
use dragonboat.Requests.ConfigChanges
use dragonboat.Requests.ConfigChanges.{ChangeError, PendingConfigChange}

abbrev pub waiting : PendingConfigChange → ℕ
waiting p = elim p.pending [ none ↦ 0 | some r ↦ 1 ]

-- The methods, and `receive`, by which the node receives a request from the channel.
pub data Call : Type 0 where
  request : (cc : ConfigChange) (key timeout : ℕ) → Call
  apply : (key : ℕ) (rejected : Bool) → Call
  gc receive close : Call

abbrev pub accepted : ChangeError ⊎ RequestState → ℕ
accepted (inl e) = 0
accepted (inr r) = 1

-- The number of requests that the call has accepted, and the state after it.
abbrev pub call :
    (ConfigChange → Option (List ℕ))
    → Call
    → PendingConfigChange
    → Outcome (ℕ × PendingConfigChange)
call marshal (Call.request cc key timeout) p = do
  (r, p') ← ConfigChanges.request marshal p cc key timeout
  ok (accepted r, p')
call marshal (Call.apply key rejected) p = ok (0, ConfigChanges.apply p key rejected)
call marshal Call.gc p = ok (0, ConfigChanges.gc p)
call marshal Call.receive p = ok (
  0,
  record p {
    conf_change_c = elim p.conf_change_c [ none ↦ none | some held ↦ some (drop 1 held) ];
  },
)
call marshal Call.close p = ok (0, ConfigChanges.close p)

abbrev pub Balances : PendingConfigChange → ℕ × PendingConfigChange → Type 0
Balances p (n, p') = length p'.told + waiting p' ≡ length p.told + waiting p + n

request-Balances :
    (marshal : ConfigChange → Option (List ℕ)) (p : PendingConfigChange) (cc : ConfigChange)
    (key timeout : ℕ)
    → Ensures (λ r. Balances p (accepted r.0, r.1)) (ConfigChanges.request marshal p cc key timeout)
unfolding ConfigChanges.request
request-Balances marshal p cc key timeout =
    Ensures-bind (get_timeout_tick p.clock timeout) _ (λ ticks _.
      Ensures-if (ticks == 0) _ _ (λ _. Ensures-ok _ (omega arith))
        (λ _.
          Ensures-option p.pending _ _
            (λ free.
              Ensures-option p.conf_change_c _ _ (λ _. Ensures-ok _ (omega arith))
                (λ held _.
                  Ensures-option (marshal cc) _ _ (λ _. Ensures-panic)
                    (λ bytes _.
                      Ensures-if (ltb (length held) p.capacity) _ _
                        (λ _. Ensures-ok _ (ground arith)) (λ _. Ensures-ok _ (omega arith)))))
            (λ r _. Ensures-ok _ (omega arith))))

close-Balances : (p : PendingConfigChange) → Balances p (0, ConfigChanges.close p)
unfolding ConfigChanges.close
close-Balances p = elim (Option-cases p.conf_change_c) [
  | inl closed ↦ ground arith
  | inr (c, open_) ↦ elim (Option-cases p.pending) [
    | inl free ↦ ground arith
    | inr (r, waits) ↦ ground (arith, length-append p.told ((r, get_terminated_result) ∷ []))
  ]
]

gc-Balances : (p : PendingConfigChange) → Balances p (0, ConfigChanges.gc p)
unfolding ConfigChanges.gc
gc-Balances p = elim (Option-cases p.pending) [
  | inl free ↦ ground arith
  | inr (r, waits) ↦ ground (arith, length-append p.told ((r, get_timeout_result) ∷ []))
]

apply-Balances :
    (p : PendingConfigChange) (key : ℕ) (rejected : Bool)
    → Balances p (0, ConfigChanges.apply p key rejected)
unfolding ConfigChanges.apply
apply-Balances p key rejected = elim (Option-cases p.pending) [
  | inl free ↦ ground arith
  | inr (r, waits) ↦
      let one : (c : RequestResultCode)
          → length (p.told ++ ((r, record { code = c; result = 0 }) ∷ [])) ≡ length p.told + 1 =
        λ c. length-append p.told ((r, record { code = c; result = 0 }) ∷ []) in
      ground
        (arith, one RequestResultCode.request_completed, one RequestResultCode.request_rejected)
]

-- Every method that returns leaves the number of requests that have been told and of those that wait (one
-- or none) as it was, and one more if it accepts a request: no configuration change is lost when another
-- is requested, applied, timed out or refused, or when the table is closed, and none is told twice.
pub call-Balances :
    (marshal : ConfigChange → Option (List ℕ)) (c : Call) (p : PendingConfigChange)
    → Ensures (Balances p) (call marshal c p)
call-Balances marshal (Call.request cc key timeout) p =
    Ensures-then _ _ (request-Balances marshal p cc key timeout) (λ r b. Ensures-ok _ b)
call-Balances marshal (Call.apply key rejected) p = Ensures-ok _ (apply-Balances p key rejected)
call-Balances marshal Call.gc p = Ensures-ok _ (gc-Balances p)
call-Balances marshal Call.receive p = Ensures-ok _ (omega arith)
call-Balances marshal Call.close p = Ensures-ok _ (close-Balances p)
