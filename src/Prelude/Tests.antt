-- ===== src/Prelude/Tests.antt =====
-- Boolean tests: on the native numbers, by an equality interface, and the conditional.
use Prim.Native.Nat.{ℕ, compare, Ordering}
use mathlib.Core.Path.{◌≡◌, refl}
use mathlib.Core.Logic.{◌↔◌, ◌⊎◌, inl, inr}
use mathlib.Core.Bool.{◌&&◌, ◌||◌, Bool, true, false}
use mathlib.Core.Option.{Option, none, some}
use native.Mathlib.Omega.{arith}

abbrev pub ltb : ℕ → ℕ → Bool
ltb a b = elim (compare a b) [ Ordering.lt ↦ true | _ ↦ false ]

abbrev pub leb : ℕ → ℕ → Bool
leb a b = elim (compare a b) [ Ordering.gt ↦ false | _ ↦ true ]

abbrev pub nat_equal : ℕ → ℕ → Bool
nat_equal a b = elim (compare a b) [ Ordering.eq ↦ true | _ ↦ false ]

infix 1 if◌then◌else◌
abbrev pub if◌then◌else◌ {ℓ} : {A : Type ℓ} → Bool → A → A → A
if true then x else y = x
if false then x else y = y

pub Bool-cases : (b : Bool) → (b ≡ true) ⊎ (b ≡ false)
Bool-cases true = inl refl
Bool-cases false = inr refl

pub Option-cases {ℓ} : {A : Type ℓ} (o : Option A) → (o ≡ none) ⊎ ((a : A) × (o ≡ some a))
Option-cases none = inl refl
Option-cases (some a) = inr (a, refl)

-- `std::equality_comparable`: a type with an `operator==` that decides its equality.
pub record EqualityComparable {κ} (K : Type κ) : Type κ where
  pub equal_to : K → K → Bool
  pub equal_to_iff : (k j : K) → (equal_to k j ≡ true) ↔ (k ≡ j)

pub nat_equal_iff : (a b : ℕ) → (nat_equal a b ≡ true) ↔ (a ≡ b)
nat_equal_iff a b = ground arith

module _ {κ} {K : Type κ} ⦃keys : EqualityComparable K⦄ where
  infix 50 ◌==◌
  abbrev pub ◌==◌ : K → K → Bool
  k == j = keys.equal_to k j

instance abbrev pub nat_eq : EqualityComparable ℕ
nat_eq = record { equal_to_iff = nat_equal_iff; equal_to = nat_equal }

module _ {ℓ} {A : Type ℓ} ⦃e : EqualityComparable A⦄ where
  pub ==_iff : (a b : A) → ((a == b) ≡ true) ↔ (a ≡ b)
  ==_iff = e.equal_to_iff

  pub ==_refl : (a : A) → (a == a) ≡ true
  ==_refl a = (e.equal_to_iff a a).1 refl

  pub ne_of_beq : (a b : A) → (a == b) ≡ false → ¬ (a ≡ b)
  ne_of_beq a b h p = let same = (e.equal_to_iff a b).1 p in cc

  pub beq_apart : (a b c : A) → (a == b) ≡ true → (c == b) ≡ false → (a == c) ≡ false
  beq_apart a b c h k = elim (Bool-cases (a == c)) [
    | inl same ↦
        let p = (e.equal_to_iff a b).0 h in
        let q = (e.equal_to_iff a c).0 same in let r = ne_of_beq c b k in cc
    | inr differs ↦ differs
  ]

-- How a test of the form `x && (y || z)` reads.
pub and_or_iff :
    {P Q R : Type 0} (x y z : Bool)
    → (x ≡ true) ↔ P
    → (y ≡ true) ↔ Q
    → (z ≡ true) ↔ R
    → ((x && (y || z)) ≡ true) ↔ (P × (Q ⊎ R))
and_or_iff false y z p q r = (λ e. cc, λ t. p.1 t.0)
and_or_iff true true z p q r = (λ e. (p.0 refl, inl (q.0 refl)), λ t. refl)
and_or_iff true false true p q r = (λ e. (p.0 refl, inr (r.0 refl)), λ t. refl)
and_or_iff true false false p q r = (λ e. cc, λ t. elim t.1 [ inl h ↦ q.1 h | inr h ↦ r.1 h ])
