-- ===== src/Rsm/Members.antt =====
-- internal/rsm/statemachine.go, the membership of a raft group: which changes are accepted, and what
-- they do. Addresses are lists of bytes, and case and blanks are those of ASCII.
pub mod Changes
use dragonboat.Prelude.{
  ℕ, ◌+◌, Bool, true, false, not, ◌&&◌, ◌||◌, none, some, List, [], ◌∷◌, leb, ◌==◌, if◌then◌else◌,
  Map, get, has_key, put, delete, Outcome, ok, panic,
}
use dragonboat.Raft.Peer.{same_bytes}
use dragonboat.Pb.{Membership, ConfigChange, ConfigChangeType}

abbrev is_space : ℕ → Bool
is_space c = (leb 9 c && leb c 13) || (c == 32)

abbrev to_lower_byte : ℕ → ℕ
to_lower_byte c = if leb 65 c && leb c 90 then c + 32 else c

-- strings.ToLower
unfoldable pub to_lower : List ℕ → List ℕ
to_lower [] = []
to_lower (c ∷ cs) = to_lower_byte c ∷ to_lower cs

unfoldable pub trim_left : List ℕ → List ℕ
trim_left [] = []
trim_left (c ∷ cs) = let rest = trim_left cs in if is_space c then rest else c ∷ cs

-- Without the blanks at the end.
unfoldable pub trim_right : List ℕ → List ℕ
trim_right [] = []
trim_right (c ∷ cs) =
    let rest = trim_right cs in
    elim rest [ [] ↦ if is_space c then [] else c ∷ [] | d ∷ ds ↦ c ∷ d ∷ ds ]

-- strings.TrimSpace
unfoldable pub trim_space : List ℕ → List ℕ
trim_space cs = trim_right (trim_left cs)

unfoldable pub address_equal : List ℕ → List ℕ → Bool
address_equal a b = same_bytes (to_lower (trim_space a)) (to_lower (trim_space b))

unfoldable pub is_conf_change_up_to_date : Bool → Membership → ConfigChange → Bool
is_conf_change_up_to_date ordered m cc =
    if not ordered || cc.initialize then true else m.config_change_id == cc.config_change_id

unfoldable pub is_adding_removed_node : Membership → ConfigChange → Bool
is_adding_removed_node m cc = elim cc.type [
  | ConfigChangeType.remove_node ↦ false
  | _ ↦ has_key m.removed cc.node_id
]

-- The loops of `isAddingExistingMember`.
unfoldable pub has_address : Map (List ℕ) → List ℕ → Bool
has_address [] a = false
has_address ((k, b) ∷ m) a = address_equal b a || has_address m a

unfoldable pub is_adding_existing_member : Membership → ConfigChange → Bool
is_adding_existing_member m cc = elim cc.type [
  | ConfigChangeType.add_node ↦ has_address m.addresses cc.address
  | ConfigChangeType.add_observer ↦ has_address m.observers cc.address
  | ConfigChangeType.remove_node ↦ false
]

unfoldable pub is_adding_node_as_observer : Membership → ConfigChange → Bool
is_adding_node_as_observer m cc = elim cc.type [
  | ConfigChangeType.add_observer ↦ has_key m.addresses cc.node_id
  | _ ↦ false
]

-- `applyConfigChangeLocked`, but for the call of the node.
unfoldable pub apply_config_change : Membership → ConfigChange → ℕ → Outcome Membership
apply_config_change m cc index =
    let m' = record m { config_change_id = index } in
    elim cc.type [
      | ConfigChangeType.add_node ↦ elim (get m.observers cc.node_id) [
        | none ↦ ok (record m' { addresses = put m.addresses cc.node_id cc.address })
        | some address ↦ ok (record m' {
          observers = delete m.observers cc.node_id;
          addresses = put m.addresses cc.node_id address;
        })
      ]
      | ConfigChangeType.add_observer ↦
          if has_key m.addresses cc.node_id
          then panic
          else ok (record m' { observers = put m.observers cc.node_id cc.address })
      | ConfigChangeType.remove_node ↦ ok (record m' {
        addresses = delete m.addresses cc.node_id;
        observers = delete m.observers cc.node_id;
        removed = put m.removed cc.node_id true;
      })
    ]

-- Whether `handleConfigChange` accepts a change.
unfoldable pub accepts : Bool → Membership → ConfigChange → Bool
accepts ordered m cc =
    is_conf_change_up_to_date ordered m cc
    && not (is_adding_removed_node m cc)
    && not (is_adding_existing_member m cc)
    && not (is_adding_node_as_observer m cc)
