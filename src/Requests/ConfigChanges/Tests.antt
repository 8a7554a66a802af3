-- ===== src/Requests/ConfigChanges/Tests.antt =====
-- pendingConfigChange of requests.go, on concrete inputs.
use dragonboat.Prelude.{
  ℕ, ◌≡◌, refl, ◌⊎◌, inl, true, false, Option, some, List, [], ◌∷◌, length, Outcome, ok, panic,
  ◌>>=◌, Ensures,
}
use dragonboat.Pb.{ConfigChange, ConfigChangeType}
use dragonboat.Requests.{RequestState}
use dragonboat.Requests.ConfigChanges.{
  ChangeError, PendingConfigChange, new_pending_config_change, request, apply,
}
use dragonboat.Requests.ConfigChanges.Balance.{Call, call, Balances, call-Balances}

abbrev change : ConfigChange
change = record {
  config_change_id = 0;
  type = ConfigChangeType.add_node;
  node_id = 4;
  address = 97 ∷ [];
  initialize = false;
}

abbrev marshal : ConfigChange → Option (List ℕ)
marshal cc = some (cc.node_id ∷ [])

abbrev empty : PendingConfigChange
empty = new_pending_config_change 1 1

abbrev left_by : Outcome ((ChangeError ⊎ RequestState) × PendingConfigChange) → PendingConfigChange
left_by (ok r) = r.1
left_by panic = empty

abbrev asked : PendingConfigChange
asked = left_by (request marshal empty change 7 3_000_000)

-- One change waits at a time, and the channel, which the node has not emptied, takes no second one.
one_at_a_time :
    (request marshal asked change 8 3_000_000
      ≡ ok (inl ChangeError.err_pending_config_change_exist, asked))
    × (request marshal (apply asked 7 false) change 8 3_000_000
        ≡ ok (inl ChangeError.err_system_busy, apply asked 7 false))
    × (length (apply asked 7 true).told ≡ 1)
    × (apply asked 8 true ≡ asked)
unfolding request apply ◌>>=◌
one_at_a_time = (refl, refl, refl, refl)

call-Balances_example : Ensures (Balances asked) (call marshal (Call.apply 7 false) asked)
call-Balances_example = call-Balances marshal (Call.apply 7 false) asked
