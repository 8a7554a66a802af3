-- ===== src/Queue/Slots.antt =====
-- Slices of a fixed length, written at an index.
use dragonboat.Prelude.{
  ℕ, zero, suc, ◌<◌, ◌≡◌, refl, ap, List, [], ◌∷◌, ◌++◌, arith, ltb, if◌then◌else◌, length, take,
  Outcome, ok, panic,
}

module _ {ℓ} {A : Type ℓ} where
  -- `xs[i] = x`, where `i` is in range.
  abbrev pub set_elem : List A → ℕ → A → List A
  set_elem [] i x = []
  set_elem (y ∷ ys) zero x = x ∷ ys
  set_elem (y ∷ ys) (suc i) x = y ∷ set_elem ys i x

  abbrev pub write : List A → ℕ → A → Outcome (List A)
  write xs i x = if ltb i (length xs) then ok (set_elem xs i x) else panic

  -- `make([]A, n)`, of the zero value.
  abbrev pub make : ℕ → A → List A
  make zero x = []
  make (suc n) x = x ∷ make n x

module _ {ℓ} {A : Type ℓ} where
  pub length-set_elem : (xs : List A) (i : ℕ) (x : A) → length (set_elem xs i x) ≡ length xs
  length-set_elem [] i x = refl
  length-set_elem (y ∷ ys) zero x = refl
  length-set_elem (y ∷ ys) (suc i) x = ap suc (length-set_elem ys i x)

  pub take-set_elem :
      (xs : List A) (i : ℕ) (x : A)
      → i < length xs
      → take (suc i) (set_elem xs i x) ≡ take i xs ++ (x ∷ [])
  take-set_elem [] i x h = absurd (omega arith)
  take-set_elem (y ∷ ys) zero x h = refl
  take-set_elem (y ∷ ys) (suc i) x h = ap (◌∷◌ y) (take-set_elem ys i x (omega arith))

  pub length-make : (n : ℕ) (x : A) → length (make n x) ≡ n
  length-make zero x = refl
  length-make (suc n) x = ap suc (length-make n x)
