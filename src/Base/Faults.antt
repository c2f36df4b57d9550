-- ===== src/Base/Faults.antt =====
-- Computations that may fault: `none` is an access outside an array, or a loop whose fuel ran out.
use mathlib.Core.Option.{Option, none, some, some-injective}
use mathlib.Core.Path.{◌≡◌, refl, ◌∙◌, sym, subst}

infixl 5 ◌>>=◌
abbrev pub ◌>>=◌ {ℓ κ} : {A : Type ℓ} {B : Type κ} → Option A → (A → Option B) → Option B
none >>= f = none
some a >>= f = f a

-- The computation ends with no fault, and its result has the property.
abbrev pub Returns {ℓ κ} : {A : Type ℓ} → Option A → (A → Type κ) → Type (ℓ ⊔ κ)
Returns {A} m P = (a : A) × (m ≡ some a) × P a

module _ {ℓ κ μ} {A : Type ℓ} {B : Type κ} where
  pub Returns-bind :
      (m : Option A) (f : A → Option B) (P : A → Type μ) (Q : B → Type μ)
      → Returns m P
      → ((a : A) → P a → Returns (f a) Q)
      → Returns (m >>= f) Q
  Returns-bind m f P Q (a, e, p) k = rw e (k a p)

module _ {ℓ κ} {A : Type ℓ} where
  -- What a computation returns has the property that its results have.
  pub Returns-at : (P : A → Type κ) (m : Option A) (a : A) → Returns m P → m ≡ some a → P a
  Returns-at P m a (b, e, p) q = subst (λ x. P x) (some-injective b a (sym e ∙ q)) p

-- The result of a chain comes from a result of its first step.
pub bind-some {ℓ κ} :
    {A : Type ℓ} {B : Type κ} (m : Option A) (f : A → Option B) (b : B)
    → (m >>= f) ≡ some b
    → (a : A) × (m ≡ some a) × (f a ≡ some b)
bind-some none f b e = absurd (cc)
bind-some (some a) f b e = (a, refl, e)

-- A chain whose rest faults in any case.
pub bind-none {ℓ κ} :
    {A : Type ℓ} {B : Type κ} (m : Option A) (f : A → Option B)
    → ((a : A) → f a ≡ none)
    → (m >>= f) ≡ none
bind-none none f h = refl
bind-none (some a) f h = h a
