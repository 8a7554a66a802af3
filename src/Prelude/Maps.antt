-- ===== src/Prelude/Maps.antt =====
-- Go's map with uint64 keys, as an association list. `put` replaces the value of a key that is
-- there and adds one at the end otherwise; `delete` drops the key; an iteration visits the entries
-- in the order of the list.
use Prim.Native.Nat.{ℕ}
use mathlib.Core.Path.{◌≡◌, refl}
use mathlib.Core.Bool.{Bool, true, false, ◌||◌}
use mathlib.Core.List.{List, [], ◌∷◌}
use mathlib.Core.Option.{Option, none, some}
use native.Mathlib.Omega.{arith}
use dragonboat.Prelude.Tests.{◌==◌, if◌then◌else◌}

abbrev pub Map {ℓ} : Type ℓ → Type ℓ
Map V = List (ℕ × V)

module _ {ℓ} {V : Type ℓ} where
  abbrev pub get : Map V → ℕ → Option V
  get [] k = none
  get ((j, v) ∷ m) k = if j == k then some v else get m k

  abbrev pub has_key : Map V → ℕ → Bool
  has_key [] k = false
  has_key ((j, v) ∷ m) k = if j == k then true else has_key m k

  abbrev pub put : Map V → ℕ → V → Map V
  put [] k v = (k, v) ∷ []
  put ((j, w) ∷ m) k v = if j == k then (j, v) ∷ m else (j, w) ∷ put m k v

  abbrev pub delete : Map V → ℕ → Map V
  delete [] k = []
  delete ((j, w) ∷ m) k = let rest = delete m k in if j == k then rest else (j, w) ∷ rest

  abbrev pub keys : Map V → List ℕ
  keys [] = []
  keys ((j, v) ∷ m) = j ∷ keys m

module _ {ℓ} {V : Type ℓ} where
  pub get-put :
      (m : Map V) (k j : ℕ) (v : V) → get (put m k v) j ≡ (if k == j then some v else get m j)
  get-put [] k j v = refl
  get-put ((i, w) ∷ m) k j v = ground (arith, get-put m k j v)

  pub get-delete : (m : Map V) (k j : ℕ) → get (delete m k) j ≡ (if k == j then none else get m j)
  get-delete [] k j = ground arith
  get-delete ((i, w) ∷ m) k j = ground (arith, get-delete m k j)

  pub has_key-put :
      (m : Map V) (k j : ℕ) (v : V) → has_key (put m k v) j ≡ ((k == j) || has_key m j)
  has_key-put [] k j v = ground arith
  has_key-put ((i, w) ∷ m) k j v = ground (arith, has_key-put m k j v)

  pub has_key-delete :
      (m : Map V) (k j : ℕ) → has_key (delete m k) j ≡ (if k == j then false else has_key m j)
  has_key-delete [] k j = ground arith
  has_key-delete ((i, w) ∷ m) k j = ground (arith, has_key-delete m k j)

  pub has_key-get :
      (m : Map V) (k : ℕ) → has_key m k ≡ elim (get m k) [ none ↦ false | some _ ↦ true ]
  has_key-get [] k = refl
  has_key-get ((i, w) ∷ m) k = ground (arith, has_key-get m k)
