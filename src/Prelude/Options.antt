-- ===== src/Prelude/Options.antt =====
-- `Option` as the result of code that may throw or run into undefined behaviour: `none`.
use mathlib.Core.Path.{subst, ◌≡◌, refl}
use mathlib.Core.Option.{Option, none, some}

infixl 5 ◌>>=◌
abbrev pub ◌>>=◌ {ℓ κ} : {A : Type ℓ} {B : Type κ} → Option A → (A → Option B) → Option B
none >>= f = none
some a >>= f = f a

-- Inversion of a successful bind.
pub >>=-eq-some {ℓ κ} :
    {A : Type ℓ} {B : Type κ} (o : Option A) (f : A → Option B) {b : B}
    → (o >>= f) ≡ some b
    → (a : A) × (o ≡ some a) × (f a ≡ some b)
>>=-eq-some none f h = cc
>>=-eq-some (some a) f h = (a, refl, h)

module _ {ℓ κ} {A : Type ℓ} (P : A → Type κ) where
  -- A result, where there is one, has the property.
  abbrev pub Ensures : Option A → Type κ
  Ensures none = Unit
  Ensures (some a) = P a

  pub Ensures-some : (o : Option A) (a : A) → Ensures o → o ≡ some a → P a
  Ensures-some o a h e = subst Ensures e h
