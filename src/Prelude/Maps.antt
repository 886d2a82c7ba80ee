-- ===== src/Prelude/Maps.antt =====
-- `std::map` as an association list: a key stands at most once where only these operations build it.
use Prim.Native.Nat.{ℕ, suc, ◌<◌}
use mathlib.Core.Path.{◌≡◌, refl}
use mathlib.Core.Logic.{◌≢◌, inl, inr}
use mathlib.Core.List.{List, [], ◌∷◌}
use mathlib.Core.Option.{Option, none, some}
use native.Mathlib.Omega.{arith}
use multi_agent_accelerator.Prelude.Tests.{
  if◌then◌else◌, EqualityComparable, ◌==◌, ==_iff, nat_eq, Bool-cases,
}
use multi_agent_accelerator.Prelude.Lists.{All}

abbrev pub or_else {ℓ} : {V : Type ℓ} → Option V → V → V
or_else none v = v
or_else (some w) v = w

module _ {ℓ κ} {K : Type ℓ} {V : Type κ} ⦃e : EqualityComparable K⦄ where
  -- `find`, with the value at the iterator
  abbrev pub find : K → List (K × V) → Option V
  find k [] = none
  find k (en ∷ m) = if en.0 == k then some en.1 else find k m

  -- `emplace`, which leaves a key that is there as it is
  abbrev pub emplace : K → V → List (K × V) → List (K × V)
  emplace k v [] = (k, v) ∷ []
  emplace k v (en ∷ m) = if en.0 == k then en ∷ m else en ∷ emplace k v m

  -- `m[k] = v`
  abbrev pub assign : K → V → List (K × V) → List (K × V)
  assign k v [] = (k, v) ∷ []
  assign k v (en ∷ m) = if en.0 == k then (k, v) ∷ m else en ∷ assign k v m

  -- A write through a reference to the value of a key.
  abbrev pub modify : K → (V → V) → List (K × V) → List (K × V)
  modify k f [] = []
  modify k f (en ∷ m) = if en.0 == k then (en.0, f en.1) ∷ m else en ∷ modify k f m

  abbrev pub erase : K → List (K × V) → List (K × V)
  erase k [] = []
  erase k (en ∷ m) = if en.0 == k then m else en ∷ erase k m

  pub find-emplace_self :
      (k : K) (v : V) (m : List (K × V)) → find k (emplace k v m) ≡ some (or_else (find k m) v)
  find-emplace_self k v [] = ground (arith, ==_iff k k)
  find-emplace_self k v (en ∷ m) = ground (arith, find-emplace_self k v m)

  pub find-emplace_other :
      (k j : K) (v : V) (m : List (K × V)) → j ≢ k → find j (emplace k v m) ≡ find j m
  find-emplace_other k j v [] ne = ground (arith, ==_iff k j)
  find-emplace_other k j v (en ∷ m) ne = ground (arith, find-emplace_other k j v m)

  pub find-assign_self : (k : K) (v : V) (m : List (K × V)) → find k (assign k v m) ≡ some v
  find-assign_self k v [] = ground (arith, ==_iff k k)
  find-assign_self k v (en ∷ m) = ground (arith, ==_iff k k, find-assign_self k v m)

  pub find-modify_self :
      (k : K) (f : V → V) (m : List (K × V)) (v : V)
      → find k m ≡ some v
      → find k (modify k f m) ≡ some (f v)
  find-modify_self k f [] v h = cc
  find-modify_self k f (en ∷ m) v h = ground (arith, find-modify_self k f m v)

  pub find-modify_other :
      (k j : K) (f : V → V) (m : List (K × V)) → j ≢ k → find j (modify k f m) ≡ find j m
  find-modify_other k j f [] ne = refl
  find-modify_other k j f (en ∷ m) ne =
      ground (arith, ==_iff en.0 k, ==_iff en.0 j, find-modify_other k j f m)

-- Every key is below a counter that gives keys out.
abbrev pub IsBelow : {V : Type 0} → ℕ → List (ℕ × V) → Type 0
IsBelow n m = All (λ en. en.0 < n) m

pub find-IsBelow : {V : Type 0} (n : ℕ) (m : List (ℕ × V)) → IsBelow n m → find n m ≡ none
find-IsBelow n [] h = refl
find-IsBelow n (en ∷ m) h = ground (arith, ==_iff en.0 n, find-IsBelow n m)

pub emplace-IsBelow :
    {V : Type 0} (n : ℕ) (v : V) (m : List (ℕ × V)) → IsBelow n m → IsBelow (suc n) (emplace n v m)
emplace-IsBelow n v [] h = (omega arith, tt)
emplace-IsBelow n v (en ∷ m) h = elim (Bool-cases (en.0 == n)) [
  | inl e ↦ elim (ne_below en.0 n h.0 ((==_iff en.0 n).0 e)) [ ]
  | inr e ↦ rw e (omega (arith, h.0), emplace-IsBelow n v m h.1)
]
  where
    ne_below : (k n : ℕ) → k < n → ¬ (k ≡ n)
    ne_below k n h e = omega arith
