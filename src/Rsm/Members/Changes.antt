-- ===== src/Rsm/Members/Changes.antt =====
-- internal/rsm/statemachine.go: what the accepted changes make of the membership.
use dragonboat.Prelude.{
  ℕ, ◌≡◌, refl, ◌≢◌, ◌⊎◌, inl, inr, Bool, true, false, none, List, arith, ◌==◌, if◌then◌else◌,
  Option-cases, Map, get, has_key, put, delete, get-put, get-delete, has_key-put, has_key-delete,
  has_key-get, ok,
}
use dragonboat.Pb.{Membership, ConfigChange, ConfigChangeType}
use dragonboat.Rsm.Members.{
  is_adding_removed_node, is_adding_node_as_observer, apply_config_change, accepts,
}

-- No node is both a member and an observer, and a removed node is neither.
pub record IsValid (m : Membership) : Type 0 where
  pub apart : (k : ℕ) → has_key m.addresses k ≡ true → has_key m.observers k ≡ false
  pub gone :
      (k : ℕ)
      → has_key m.removed k ≡ true
      → (has_key m.addresses k ≡ false) × (has_key m.observers k ≡ false)

-- The node of the change after it: where it is listed.
abbrev pub Listed : ConfigChange → Membership → Type 0
Listed cc m = elim cc.type [
  | ConfigChangeType.add_node ↦
      (has_key m.addresses cc.node_id ≡ true) × (has_key m.observers cc.node_id ≡ false)
  | ConfigChangeType.add_observer ↦
      (has_key m.observers cc.node_id ≡ true) × (has_key m.addresses cc.node_id ≡ false)
  | ConfigChangeType.remove_node ↦ has_key m.removed cc.node_id ≡ true
]

-- All other nodes are listed as before.
abbrev pub Elsewhere : ConfigChange → Membership → Membership → Type 0
Elsewhere cc m m' =
    (k : ℕ)
    → cc.node_id ≢ k
    → (get m'.addresses k ≡ get m.addresses k)
      × (get m'.observers k ≡ get m.observers k)
      × (has_key m'.removed k ≡ has_key m.removed k)

-- What an accepted change promises of its result.
abbrev pub Applied : Membership → ConfigChange → ℕ → Membership → Type 0
Applied m cc index m' =
    IsValid m'
    × (m'.config_change_id ≡ index)
    × Listed cc m'
    × Elsewhere cc m m'
    × ((k : ℕ) → has_key m.removed k ≡ true → has_key m'.removed k ≡ true)

ConfigChangeType-cases :
    (t : ConfigChangeType)
    → (t ≡ ConfigChangeType.add_node)
      ⊎ (t ≡ ConfigChangeType.add_observer)
      ⊎ (t ≡ ConfigChangeType.remove_node)
ConfigChangeType-cases ConfigChangeType.add_node = inl refl
ConfigChangeType-cases ConfigChangeType.add_observer = inr (inl refl)
ConfigChangeType-cases ConfigChangeType.remove_node = inr (inr refl)

module _ (m : Membership) (cc : ConfigChange) (index : ℕ) (v : IsValid m) where
  add_node-Applied :
      (address : List ℕ) (observers : Map (List ℕ))
      → cc.type ≡ ConfigChangeType.add_node
      → has_key m.removed cc.node_id ≡ false
      → ((k : ℕ) → get observers k ≡ (if cc.node_id == k then none else get m.observers k))
      → Applied m cc index (record m {
        config_change_id = index;
        addresses = put m.addresses cc.node_id address;
        observers = observers;
      })
  add_node-Applied address observers t free left =
      let n = cc.node_id in
      (
        record {
          apart = λ k h. ground (
            arith,
            has_key-put m.addresses n k address,
            has_key-get observers k,
            has_key-get m.observers k,
            left k,
            v.apart k,
          );
          gone = λ k h. ground (
            arith,
            has_key-put m.addresses n k address,
            has_key-get observers k,
            has_key-get m.observers k,
            left k,
            v.gone k,
          );
        },
        refl,
        ground (arith, t, has_key-put m.addresses n n address, has_key-get observers n, left n),
        λ k other. (ground (arith, get-put m.addresses n k address), ground (arith, left k), refl),
        λ k h. h,
      )

  add_observer-Applied :
      cc.type ≡ ConfigChangeType.add_observer
      → has_key m.removed cc.node_id ≡ false
      → has_key m.addresses cc.node_id ≡ false
      → Applied m cc index
          (record m { config_change_id = index; observers = put m.observers cc.node_id cc.address })
  add_observer-Applied t free apart =
      let n = cc.node_id in
      (
        record {
          apart = λ k h. ground (arith, has_key-put m.observers n k cc.address, v.apart k);
          gone = λ k h. ground (arith, has_key-put m.observers n k cc.address, v.gone k);
        },
        refl,
        ground (arith, t, has_key-put m.observers n n cc.address),
        λ k other. (refl, ground (arith, get-put m.observers n k cc.address), refl),
        λ k h. h,
      )

  remove_node-Applied :
      cc.type ≡ ConfigChangeType.remove_node
      → Applied m cc index (record m {
        config_change_id = index;
        addresses = delete m.addresses cc.node_id;
        observers = delete m.observers cc.node_id;
        removed = put m.removed cc.node_id true;
      })
  remove_node-Applied t =
      let n = cc.node_id in
      (
        record {
          apart = λ k h.
              ground
                (arith, has_key-delete m.addresses n k, has_key-delete m.observers n k, v.apart k);
          gone = λ k h. ground (
            arith,
            has_key-delete m.addresses n k,
            has_key-delete m.observers n k,
            has_key-put m.removed n k true,
            v.gone k,
          );
        },
        refl,
        ground (arith, t, has_key-put m.removed n n true),
        λ k other. (
          ground (arith, get-delete m.addresses n k),
          ground (arith, get-delete m.observers n k),
          ground (arith, has_key-put m.removed n k true),
        ),
        λ k h. ground (arith, has_key-put m.removed n k true),
      )

  -- A change that is accepted in a valid membership is applied without a panic.
  pub apply_config_change_lem :
      (ordered : Bool)
      → accepts ordered m cc ≡ true
      → (m' : Membership) × (apply_config_change m cc index ≡ ok m') × Applied m cc index m'
  unfolding accepts is_adding_removed_node is_adding_node_as_observer apply_config_change
  apply_config_change_lem ordered a = elim (ConfigChangeType-cases cc.type) [
    | inl t ↦ elim (Option-cases (get m.observers cc.node_id)) [
      | inl alone ↦ (
        _,
        ground arith,
        add_node-Applied cc.address m.observers t (ground arith) (λ k. ground arith),
      )
      | inr (address, promoted) ↦ (
        _,
        ground arith,
        add_node-Applied address (delete m.observers cc.node_id) t (ground arith)
            (λ k. get-delete m.observers cc.node_id k),
      )
    ]
    | inr (inl t) ↦ (_, ground arith, add_observer-Applied t (ground arith) (ground arith))
    | inr (inr t) ↦ (_, ground arith, remove_node-Applied t)
  ]
