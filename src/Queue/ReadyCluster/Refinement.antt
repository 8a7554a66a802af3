-- ===== src/Queue/ReadyCluster/Refinement.antt =====
-- readyCluster of queue.go against its specification: a set that is emptied as a whole, and the set that was
-- handed out last.
use dragonboat.Prelude.{
  ℕ, ◌+◌, ◌%◌, ◌^◌, ◌≡◌, refl, ap, ◌∙◌, inl, inr, true, List, [], ◌∷◌, arith, ◌==◌, Bool-cases, Map,
  has_key, put, delete, has_key-delete,
}
use dragonboat.Queue.ReadyCluster.{
  Present, present, ReadyCluster, map_at, set_cluster_ready, clear, get_ready_clusters,
}

pub data Op : Type 0 where
  set : (cluster_id : ℕ) → Op
  get_all : Op

-- The specification: what is collected, and what the worker holds.
pub record Ready : Type 0 where
  pub collected : Map Present
  pub held : Map Present

abbrev pub ready_step : Op → Ready → Ready
ready_step (Op.set cluster_id) s = record s { collected = put s.collected cluster_id present }
ready_step Op.get_all s = record { collected = []; held = s.collected }

abbrev pub ready_run : List Op → Ready → Ready
ready_run [] s = s
ready_run (op ∷ ops) s = ready_run ops (ready_step op s)

-- The code, with the place of the map that the worker holds.
abbrev pub step : Op → ℕ × ReadyCluster → ℕ × ReadyCluster
step (Op.set cluster_id) (held, r) = (held, set_cluster_ready r cluster_id)
step Op.get_all (held, r) = get_ready_clusters r

abbrev pub run : List Op → ℕ × ReadyCluster → ℕ × ReadyCluster
run [] s = s
run (op ∷ ops) s = run ops (step op s)

-- What is seen through the pointers.
abbrev pub view : ℕ × ReadyCluster → Ready
view (held, r) = record { collected = map_at r r.ready; held = map_at r held }

-- The worker holds the map that is not collecting.
pub record IsApart (s : ℕ × ReadyCluster) : Type 0 where
  pub ready_of : s.1.ready ≡ s.1.index % 2
  pub other : s.0 ≡ (s.1.index + 1) % 2

clear_all :
    (m nm : Map Present) → ((k : ℕ) → has_key nm k ≡ true → has_key m k ≡ true) → clear m nm ≡ []
unfolding clear
clear_all [] [] h = refl
clear_all [] ((k, v) ∷ nm) h = absurd (ground (arith, h k))
clear_all ((k, v) ∷ m) nm h =
    clear_all m (delete nm k) (λ j there. ground (arith, h j, has_key-delete nm k j))

step_lem :
    (op : Op) (s : ℕ × ReadyCluster)
    → IsApart s
    → IsApart (step op s) × (view (step op s) ≡ ready_step op (view s))
unfolding set_cluster_ready get_ready_clusters
step_lem (Op.set cluster_id) (held, r) a = elim (Bool-cases (r.ready == 0)) [
  | inl first ↦ (
    record { ready_of = ground (arith, a.ready_of); other = ground (arith, a.other) },
    ground (arith, a.ready_of, a.other),
  )
  | inr second ↦ (
    record { ready_of = ground (arith, a.ready_of); other = ground (arith, a.other) },
    ground (arith, a.ready_of, a.other),
  )
]
step_lem Op.get_all (held, r) a =
    let selected = (r.index + 1) % 2 ^ 8 % 2 in
    let parity : selected ≡ (r.index + 1) % 2 = omega arith in
    let nm = map_at r selected in
    let cleared = clear_all nm nm (λ k h. h) in
    elim (Bool-cases (selected == 0)) [
      | inl first ↦ (
        record { ready_of = ground arith; other = ground (arith, a.ready_of) },
        ground (arith, a.ready_of, cleared),
      )
      | inr second ↦ (
        record { ready_of = ground arith; other = ground (arith, a.ready_of) },
        ground (arith, a.ready_of, cleared),
      )
    ]

-- The two maps behave as one set that is emptied as a whole: after every sequence of calls, what is
-- collected is what was set ready since the last call of getReadyClusters, and the map that this call
-- handed out is still what was collected before it, whatever has been set ready since.
pub run-ready_run :
    (ops : List Op) (s : ℕ × ReadyCluster)
    → IsApart s
    → IsApart (run ops s) × (view (run ops s) ≡ ready_run ops (view s))
run-ready_run [] s a = (a, refl)
run-ready_run (op ∷ ops) s a =
    let (a1, e) = step_lem op s a in
    let (a2, e') = run-ready_run ops (step op s) a1 in (a2, e' ∙ ap (ready_run ops) e)
