-- ===== src/Engine/Preserving.antt =====
-- Properties that hold of whatever an operation returns.
use sketch_sync.Prelude.{Bool, true, false, ◌≡◌, refl, Option, none, some, if◌then◌else◌}
use mathlib.Core.Option
use mathlib.Core.Path.{subst}

-- `P` holds of the result, if there is one.
unfoldable pub Gives {ℓ κ} : {A : Type ℓ} → (A → Type κ) → Option A → Type κ
Gives P none = Unit
Gives P (some a) = P a

module _ {ℓ κ} {A : Type ℓ} where
  pub Gives-result : (P : A → Type κ) (o : Option A) (a : A) → Gives P o → o ≡ some a → P a
  unfolding Gives
  Gives-result P o a g e = subst (Gives P) e g

  pub Gives-if :
      (P : A → Type κ) (b : Bool) (o p : Option A)
      → (b ≡ true → Gives P o)
      → (b ≡ false → Gives P p)
      → Gives P (if b then o else p)
  Gives-if P true o p h k = h refl
  Gives-if P false o p h k = k refl

  pub Gives-some : (P : A → Type κ) (a : A) → P a → Gives P (some a)
  unfolding Gives
  Gives-some P a h = h

module _ {ℓ κ μ ν} {A : Type ℓ} {B : Type κ} where
  pub Gives-map :
      (P : B → Type μ) (Q : A → Type ν) (f : A → B) (o : Option A)
      → Gives Q o
      → ((a : A) → Q a → P (f a))
      → Gives P (Option.map f o)
  unfolding Gives
  Gives-map P Q f none g k = tt
  Gives-map P Q f (some a) g k = k a g

  pub Gives-bind :
      (P : B → Type μ) (Q : A → Type ν) (o : Option A) (f : A → Option B)
      → Gives Q o
      → ((a : A) → Q a → Gives P (f a))
      → Gives P (Option.bind o f)
  unfolding Gives Option.bind
  Gives-bind P Q none f g k = tt
  Gives-bind P Q (some a) f g k = k a g

-- Nothing is known of the result.
pub Gives-any {ℓ} : {A : Type ℓ} (o : Option A) → Gives (λ _. Unit {0}) o
unfolding Gives
Gives-any none = tt
Gives-any (some a) = tt
