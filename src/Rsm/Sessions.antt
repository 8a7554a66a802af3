-- ===== src/Rsm/Sessions.antt =====
-- internal/rsm/lrusession.go: the sessions of a node. The cache that holds them is a copy of another
-- project's package under internal/utils/cache, so it is a parameter.
use dragonboat.Prelude.{
  ℕ, ◌≡◌, ◌⊎◌, Option, none, some, List, [], ◌∷◌, ◌==◌, if◌then◌else◌, Outcome, ok, ◌>>=◌, ◌>>◌,
  panic_if,
}
use dragonboat.Rsm.Session.{Session}

-- The operations of cache.OrderedCache with the policy CacheLRU. `get` also makes the key the most
-- recently used one. The cache holds pointers: `assign` is a write to the session that `get` has
-- answered. `new_cache` takes the number of sessions above which `ShouldEvict` answers true.
pub record CacheOps (C : Type 0) : Type 0 where
  pub new_cache : ℕ → C
  pub get : C → ℕ → Option Session × C
  pub add_entry : C → ℕ → Session → C
  pub del : C → ℕ → C
  pub assign : C → ℕ → Session → C

-- What the code relies on: reading changes no answer, a deleted key is gone, a write is seen at its own
-- key, and what is found after an addition was added or there before. An addition may evict any key.
pub record IsCache {C : Type 0} (ops : CacheOps C) : Type 0 where
  pub get-get : (c : C) (k j : ℕ) → (ops.get (ops.get c k).1 j).0 ≡ (ops.get c j).0
  pub get-del :
      (c : C) (k j : ℕ) → (ops.get (ops.del c k) j).0 ≡ (if k == j then none else (ops.get c j).0)
  pub get-assign :
      (c : C) (k j : ℕ) (s t : Session)
      → (ops.get c k).0 ≡ some t
      → (ops.get (ops.assign c k s) j).0 ≡ (if k == j then some s else (ops.get c j).0)
  pub get-add :
      (c : C) (k j : ℕ) (s t : Session)
      → (ops.get (ops.add_entry c k s) j).0 ≡ some t
      → ((k ≡ j) × (s ≡ t)) ⊎ ((ops.get c j).0 ≡ some t)

pub record LruSession (C : Type 0) : Type 0 where
  pub size : ℕ
  pub sessions : C

module _ {C : Type 0} (ops : CacheOps C) where
  unfoldable pub new_lru_session : ℕ → Outcome (LruSession C)
  new_lru_session size = do
    panic_if (size == 0)
    ok (record { size = size; sessions = ops.new_cache size })

  unfoldable pub get_session : LruSession C → ℕ → Option Session × LruSession C
  get_session r key = let (s, c) = ops.get r.sessions key in (s, record r { sessions = c })

  unfoldable pub add_session : LruSession C → ℕ → Session → LruSession C
  add_session r key s = record r { sessions = ops.add_entry r.sessions key s }

  unfoldable pub del_session : LruSession C → ℕ → LruSession C
  del_session r key = record r { sessions = ops.del r.sessions key }

  -- The end of `load`, behind the decoding of the size and the sessions.
  unfoldable pub add_sessions : List Session → LruSession C → LruSession C
  add_sessions [] r = r
  add_sessions (s ∷ ss) r = add_sessions ss (add_session r s.client_id s)

  unfoldable pub load : ℕ → List Session → Outcome (LruSession C)
  load size ss = do r ← new_lru_session size; ok (add_sessions ss r)
