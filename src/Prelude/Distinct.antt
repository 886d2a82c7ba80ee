-- ===== src/Prelude/Distinct.antt =====
-- Lists without repetition, over a decided equality.
use mathlib.Core.Path.{◌≡◌, refl, subst}
use mathlib.Core.Logic.{inl, inr}
use mathlib.Core.Bool.{Bool, true, false, ◌||◌}
use mathlib.Core.List.{List, [], ◌∷◌, ◌++◌}
use native.Mathlib.Omega.{arith}
use multi_agent_accelerator.Prelude.Tests.{
  EqualityComparable, ◌==◌, ==_iff, Bool-cases, if◌then◌else◌,
}
use multi_agent_accelerator.Prelude.Algorithms.{any_of, any_of-append}

module _ {ℓ} {A : Type ℓ} ⦃e : EqualityComparable A⦄ where
  abbrev pub occurs : A → List A → Bool
  occurs a xs = any_of (λ x. a == x) xs

  -- No element equals one behind it.
  abbrev pub AreDistinct : List A → Type 0
  AreDistinct [] = Unit
  AreDistinct (x ∷ xs) = (occurs x xs ≡ false) × AreDistinct xs

  pub AreDistinct-concat :
      (xs : List A) (a : A) → AreDistinct xs → occurs a xs ≡ false → AreDistinct (xs ++ a ∷ [])
  AreDistinct-concat [] a h new = (refl, tt)
  AreDistinct-concat (x ∷ xs) a h new = (
    ground (arith, any_of-append (λ (y : A). x == y) xs (a ∷ []), ==_iff x a, ==_iff a x),
    AreDistinct-concat xs a h.1 (ground arith),
  )

  -- What holds of an element that occurs holds somewhere in the list.
  pub any_of-occurs :
      (q : A → Bool) (a : A) (xs : List A) → occurs a xs ≡ true → any_of q xs ≡ any_of q xs || q a
  any_of-occurs q a [] h = cc
  any_of-occurs q a (x ∷ xs) h = elim (Bool-cases (a == x)) [
    | inl same ↦
        subst (λ y. (q y || any_of q xs) ≡ (q y || any_of q xs) || q a) ((==_iff a x).0 same)
          (ground arith)
    | inr other ↦ ground (arith, any_of-occurs q a xs)
  ]

  -- Where a new element is only added if it is not there yet.
  pub any_of-insert :
      (q : A → Bool) (a : A) (xs : List A)
      → any_of q (if occurs a xs then xs else xs ++ a ∷ []) ≡ any_of q xs || q a
  any_of-insert q a xs = elim (Bool-cases (occurs a xs)) [
    | inl old ↦ rw old (any_of-occurs q a xs old)
    | inr new ↦ rw new (ground (arith, any_of-append q xs (a ∷ [])))
  ]

  pub AreDistinct-insert :
      (a : A) (xs : List A)
      → AreDistinct xs
      → AreDistinct (if occurs a xs then xs else xs ++ a ∷ [])
  AreDistinct-insert a xs h = elim (Bool-cases (occurs a xs)) [
    | inl old ↦ rw old h
    | inr new ↦ rw new (AreDistinct-concat xs a h new)
  ]

  pub occurs-prefix : (a : A) (xs ys : List A) → AreDistinct (xs ++ a ∷ ys) → occurs a xs ≡ false
  occurs-prefix a [] ys h = refl
  occurs-prefix a (x ∷ xs) ys h = ground (
    arith,
    occurs-prefix a xs ys h.1,
    any_of-append (λ (y : A). x == y) xs (a ∷ ys),
    ==_iff x a,
    ==_iff a x,
  )
