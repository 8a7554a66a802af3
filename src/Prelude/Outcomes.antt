-- ===== src/Prelude/Outcomes.antt =====
-- The outcome of Go code that may panic: the process stops there, with no state left to speak of.
use mathlib.Core.Path.{◌≡◌, refl, subst}
use dragonboat.Prelude.Tests.{if◌then◌else◌}
use mathlib.Core.Option.{Option, none, some}
use mathlib.Core.Bool.{Bool, true, false}

pub data Outcome {ℓ} (A : Type ℓ) : Type ℓ where
  ok : A → Outcome A
  panic : Outcome A

pub ok-injective {ℓ} : {A : Type ℓ} (a b : A) → ok a ≡ ok b → a ≡ b
ok-injective a b h = cc

infixl 5 ◌>>=◌ ◌>>◌
unfoldable pub ◌>>=◌ {ℓ κ} : {A : Type ℓ} {B : Type κ} → Outcome A → (A → Outcome B) → Outcome B
ok a >>= f = f a
panic >>= f = panic

abbrev pub ◌>>◌ {ℓ} : {B : Type ℓ} → Outcome (Unit {0}) → Outcome B → Outcome B
m >> k = m >>= λ _. k

-- `if test { panic(...) }`
abbrev pub panic_if : Bool → Outcome (Unit {0})
panic_if true = panic
panic_if false = ok tt

-- What a run that returns promises of its result; a panic promises nothing.
pub record Ensures {ℓ κ} {A : Type ℓ} (P : A → Type κ) (m : Outcome A) : Type (ℓ ⊔ κ) where
  pub at : (a : A) → m ≡ ok a → P a

module _ {ℓ κ} {A : Type ℓ} {P : A → Type κ} where
  pub Ensures-ok : (a : A) → P a → Ensures P (ok a)
  Ensures-ok a h = record { at = λ b e. subst P (ok-injective a b e) h }

  pub Ensures-panic : Ensures P panic
  Ensures-panic = record { at = λ b e. cc }

  pub Ensures-weaken {κ'} :
      {Q : A → Type κ'} {m : Outcome A} → ((a : A) → Q a → P a) → Ensures Q m → Ensures P m
  Ensures-weaken f q = record { at = λ a h. f a (q.at a h) }

  pub Ensures-if :
      (b : Bool) (m n : Outcome A)
      → (b ≡ true → Ensures P m)
      → (b ≡ false → Ensures P n)
      → Ensures P (if b then m else n)
  Ensures-if true m n h k = h refl
  Ensures-if false m n h k = k refl

  pub Ensures-panic_if :
      (b : Bool) (m : Outcome A) → (b ≡ false → Ensures P m) → Ensures P (panic_if b >> m)
  unfolding ◌>>=◌
  Ensures-panic_if true m h = Ensures-panic
  Ensures-panic_if false m h = h refl

  pub Ensures-option {κ'} :
      {B : Type κ'} (o : Option B) (m : Outcome A) (f : B → Outcome A)
      → (o ≡ none → Ensures P m)
      → ((b : B) → o ≡ some b → Ensures P (f b))
      → Ensures P (elim o [ none ↦ m | some b ↦ f b ])
  Ensures-option none m f h k = h refl
  Ensures-option (some b) m f h k = k b refl

  pub Ensures-bind {κ'} :
      {B : Type κ'} (m : Outcome B) (f : B → Outcome A)
      → ((b : B) → m ≡ ok b → Ensures P (f b))
      → Ensures P (m >>= f)
  unfolding ◌>>=◌
  Ensures-bind (ok b) f h = h b refl
  Ensures-bind panic f h = Ensures-panic

  -- A run whose start is known by a promise of its own.
  pub Ensures-then {κ' μ} :
      {B : Type κ'} {Q : B → Type μ} (m : Outcome B) (f : B → Outcome A)
      → Ensures Q m
      → ((b : B) → Q b → Ensures P (f b))
      → Ensures P (m >>= f)
  unfolding ◌>>=◌
  Ensures-then (ok b) f q h = h b (q.at b refl)
  Ensures-then panic f q h = Ensures-panic

module _ {ℓ κ} {A : Type ℓ} {B : Type κ} where
  -- Inversion of a bind that returns.
  pub bind-eq-ok :
      (m : Outcome A) (f : A → Outcome B) {b : B}
      → (m >>= f) ≡ ok b
      → (a : A) × (m ≡ ok a) × (f a ≡ ok b)
  unfolding ◌>>=◌
  bind-eq-ok (ok a) f h = (a, refl, h)
  bind-eq-ok panic f h = cc

  pub bind_cong :
      (m : Outcome A) {f g : A → Outcome B} → ((a : A) → f a ≡ g a) → (m >>= f) ≡ (m >>= g)
  unfolding ◌>>=◌
  bind_cong (ok a) h = h a
  bind_cong panic h = refl

  pub bind_cong_of {μ} :
      {Q : A → Type μ} (m : Outcome A) {f g : A → Outcome B}
      → Ensures Q m
      → ((a : A) → Q a → f a ≡ g a)
      → (m >>= f) ≡ (m >>= g)
  unfolding ◌>>=◌
  bind_cong_of (ok a) q h = h a (q.at a refl)
  bind_cong_of panic q h = refl

  pub if-bind :
      (b : Bool) {m m' : Outcome B} (n n' : Outcome A) (f : A → Outcome B)
      → m ≡ (n >>= f)
      → m' ≡ (n' >>= f)
      → (if b then m else m') ≡ ((if b then n else n') >>= f)
  if-bind true n n' f h k = h
  if-bind false n n' f h k = k

pub bind_assoc {ℓ κ μ} :
    {A : Type ℓ} {B : Type κ} {C : Type μ} (m : Outcome A) (f : A → Outcome B) (g : B → Outcome C)
    → ((m >>= f) >>= g) ≡ (m >>= λ a. f a >>= g)
unfolding ◌>>=◌
bind_assoc (ok a) f g = refl
bind_assoc panic f g = refl
