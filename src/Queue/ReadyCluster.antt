-- ===== src/Queue/ReadyCluster.antt =====
-- readyCluster of queue.go: the groups that have work to do, in two maps of which one collects while the
-- other is in the hands of the worker that has asked for it. Both maps are part of the state, and `ready`
-- says which of them the field `ready` points to, so that a write is seen through every pointer.
pub mod Refinement
use dragonboat.Prelude.{ℕ, ◌+◌, ◌%◌, ◌^◌, [], ◌∷◌, ◌==◌, if◌then◌else◌, Map, put, delete}

-- Go's struct{}
pub data Present : Type 0 where
  present : Present

pub record ReadyCluster : Type 0 where
  pub map0 : Map Present
  pub map1 : Map Present
  pub ready : ℕ
  pub index : ℕ

abbrev pub new_ready_cluster : ReadyCluster
new_ready_cluster = record { map0 = []; map1 = []; ready = 0; index = 0 }

-- The map at a place of `maps`.
abbrev pub map_at : ReadyCluster → ℕ → Map Present
map_at r i = if i == 0 then r.map0 else r.map1

abbrev pub put_map : ReadyCluster → ℕ → Map Present → ReadyCluster
put_map r i m = if i == 0 then record r { map0 = m } else record r { map1 = m }

unfoldable pub set_cluster_ready : ReadyCluster → ℕ → ReadyCluster
set_cluster_ready r cluster_id = put_map r r.ready (put (map_at r r.ready) cluster_id present)

-- The loop that empties a map: each key that it visits is deleted.
unfoldable pub clear : Map Present → Map Present → Map Present
clear [] nm = nm
clear ((k, v) ∷ m) nm = clear m (delete nm k)

-- The answer is the place of the map to which a pointer is returned. `index` is a uint8.
unfoldable pub get_ready_clusters : ReadyCluster → ℕ × ReadyCluster
get_ready_clusters r =
    let index = (r.index + 1) % 2 ^ 8 in
    let selected = index % 2 in
    let nm = map_at r selected in
    (r.ready, record (put_map r selected (clear nm nm)) { index = index; ready = selected })
