-- ===== src/Prelude/Multimaps.antt =====
-- `std::multimap` as an association list in the order of its keys, those of one key in the order in
-- which they came.
use Prim.Native.Nat.{ℕ, suc, zero, ◌≤◌, ◌<◌}
use mathlib.Core.Path.{◌≡◌, refl, sym, ap, ◌∙◌}
use mathlib.Core.Logic.{inl, inr}
use mathlib.Core.Bool.{Bool, true, ◌&&◌}
use mathlib.Core.List.{List, [], ◌∷◌}
use mathlib.Core.Option.{Option, none, some}
use native.Mathlib.Omega.{arith}
use multi_agent_accelerator.Prelude.Algorithms.{all_of}
use multi_agent_accelerator.Prelude.Lists.{All, All-map, length}
use multi_agent_accelerator.Prelude.Tests.{Bool-cases, if◌then◌else◌, leb, ltb, nat_eq, ◌==◌}

module _ {K : Type 0} (order_of : K → ℕ) {V : Type 0} where
  -- `insert` and `emplace`, behind the entries of the same key
  abbrev pub multi_insert : K → V → List (K × V) → List (K × V)
  multi_insert k v [] = (k, v) ∷ []
  multi_insert k v (en ∷ m) =
      if ltb (order_of k) (order_of en.0) then (k, v) ∷ en ∷ m else en ∷ multi_insert k v m

  -- The values from `equal_range`.
  abbrev pub equal_range : K → List (K × V) → List V
  equal_range k [] = []
  equal_range k (en ∷ m) =
      if order_of en.0 == order_of k then en.1 ∷ equal_range k m else equal_range k m

  -- The entries from the iterator that `upper_bound` returns.
  abbrev pub upper_bound : K → List (K × V) → List (K × V)
  upper_bound k [] = []
  upper_bound k (en ∷ m) = if leb (order_of en.0) (order_of k) then upper_bound k m else en ∷ m

  -- `for( it = begin; it != end; it = upper_bound( it->first ) )`, on fuel
  unfoldable pub for_each_key :
      {S : Type 0} → (K × V → S → S) → List (K × V) → ℕ → List (K × V) → S → Option S
  for_each_key f m n [] s = some s
  for_each_key f m zero (en ∷ pos) s = none
  for_each_key f m (suc n) (en ∷ pos) s = for_each_key f m n (upper_bound en.0 m) (f en s)

  abbrev pub IsSorted : List (K × V) → Type 0
  IsSorted [] = Unit
  IsSorted (en ∷ m) = All (λ f. order_of en.0 ≤ order_of f.0) m × IsSorted m

  All-multi_insert :
      (P : K × V → Type 0) (k : K) (v : V) (m : List (K × V))
      → P (k, v)
      → All P m
      → All P (multi_insert k v m)
  All-multi_insert P k v [] p h = (p, tt)
  All-multi_insert P k v (en ∷ m) p h = elim (Bool-cases (ltb (order_of k) (order_of en.0))) [
    | inl e ↦ rw e (p, h)
    | inr e ↦ rw e (h.0, All-multi_insert P k v m p h.1)
  ]

  pub multi_insert-IsSorted :
      (k : K) (v : V) (m : List (K × V)) → IsSorted m → IsSorted (multi_insert k v m)
  multi_insert-IsSorted k v [] h = (tt, tt)
  multi_insert-IsSorted k v (en ∷ m) h = elim (Bool-cases (ltb (order_of k) (order_of en.0))) [
    | inl e ↦
        let below : order_of k < order_of en.0 = ground (arith, e) in
        rw e ((omega (arith, below), All-map (λ f q. omega (arith, below, q)) m h.0), h)
    | inr e ↦
        rw e (All-multi_insert _ k v m (ground (arith, e)) h.0, multi_insert-IsSorted k v m h.1)
  ]

  upper_bound-twice :
      (j k : K) (m : List (K × V))
      → order_of j ≤ order_of k
      → upper_bound k (upper_bound j m) ≡ upper_bound k m
  upper_bound-twice j k [] h = refl
  upper_bound-twice j k (en ∷ m) h = elim (Bool-cases (leb (order_of en.0) (order_of j))) [
    | inl e ↦
        let over : leb (order_of en.0) (order_of k) ≡ true = ground (arith, e, h) in
        rw (e, over) (upper_bound-twice j k m h)
    | inr e ↦ rw e refl
  ]

  length-upper_bound : (k : K) (m : List (K × V)) → length (upper_bound k m) ≤ length m
  length-upper_bound k [] = omega arith
  length-upper_bound k (en ∷ m) = elim (Bool-cases (leb (order_of en.0) (order_of k))) [
    | inl e ↦ rw e (omega (arith, length-upper_bound k m))
    | inr e ↦ rw e (omega arith)
  ]

  upper_bound-above :
      (k : K) (m : List (K × V)) (en : K × V) (r : List (K × V))
      → upper_bound k m ≡ en ∷ r
      → order_of k < order_of en.0
  upper_bound-above k [] en r h = cc
  upper_bound-above k (f ∷ m) en r h = elim (Bool-cases (leb (order_of f.0) (order_of k))) [
    | inl e ↦ upper_bound-above k m en r (rw e at h)
    | inr e ↦ ground (arith, e, rw e at h)
  ]

  upper_bound-IsSorted : (k : K) (m : List (K × V)) → IsSorted m → IsSorted (upper_bound k m)
  upper_bound-IsSorted k [] h = tt
  upper_bound-IsSorted k (en ∷ m) h = elim (Bool-cases (leb (order_of en.0) (order_of k))) [
    | inl e ↦ rw e (upper_bound-IsSorted k m h.1)
    | inr e ↦ rw e h
  ]

  -- From a position on, a search of the whole map finds what a search from the position finds.
  abbrev IsReached : List (K × V) → List (K × V) → Type 0
  IsReached m [] = Unit
  IsReached m (en ∷ pos) =
      (k : K) → order_of en.0 ≤ order_of k → upper_bound k m ≡ upper_bound k (en ∷ pos)

  IsReached-upper_bound :
      (m : List (K × V)) (en : K × V) (pos next : List (K × V))
      → IsReached m (en ∷ pos)
      → upper_bound en.0 (en ∷ pos) ≡ next
      → IsReached m next
  IsReached-upper_bound m en pos [] h e = tt
  IsReached-upper_bound m en pos (f ∷ next) h e =
      let above = upper_bound-above en.0 (en ∷ pos) f next e in
      λ k q.
        h k (omega (arith, above, q))
        ∙ sym (upper_bound-twice en.0 k (en ∷ pos) (omega (arith, above, q)))
        ∙ ap (upper_bound k) e

  upper_bound_self :
      (en : K × V) (pos : List (K × V)) → upper_bound en.0 (en ∷ pos) ≡ upper_bound en.0 pos
  upper_bound_self en pos =
      let same : leb (order_of en.0) (order_of en.0) ≡ true = ground arith in rw same refl

  for_each_key-ends_from :
      {S : Type 0} (f : K × V → S → S) (m : List (K × V)) (n : ℕ) (pos : List (K × V)) (s : S)
      → length pos ≤ n
      → IsReached m pos
      → (s' : S) × (for_each_key f m n pos s ≡ some s')
  unfolding for_each_key
  for_each_key-ends_from f m n [] s h r = (s, ground arith)
  for_each_key-ends_from f m zero (en ∷ pos) s h r = let bad : ⊥ = omega (arith, h) in elim bad [ ]
  for_each_key-ends_from f m (suc n) (en ∷ pos) s h r =
      let next : upper_bound en.0 m ≡ upper_bound en.0 pos =
        r en.0 (omega arith) ∙ upper_bound_self en pos in
      let fewer = length-upper_bound en.0 pos in
      let (s', runs) =
        for_each_key-ends_from f m n (upper_bound en.0 pos) (f en s) (omega (arith, fewer, h))
          (IsReached-upper_bound m en pos (upper_bound en.0 pos) r (upper_bound_self en pos)) in
      (s', rw (for_each_key, next) runs)

  IsReached-start : (m : List (K × V)) → IsReached m m
  IsReached-start [] = tt
  IsReached-start (en ∷ m) = λ k q. refl

  -- Whatever the loop does, it ends with as many turns as there are entries at most.
  pub for_each_key-ends :
      {S : Type 0} (f : K × V → S → S) (m : List (K × V)) (s : S)
      → (s' : S) × (for_each_key f m (length m) m s ≡ some s')
  for_each_key-ends f m s =
      for_each_key-ends_from f m (length m) m s (omega arith) (IsReached-start m)

  module _ (serves : K → Bool)
      (same : (j k : K) → order_of j ≡ order_of k → serves j ≡ serves k) where
    -- Of the entries of one key the first is enough.
    all_of-upper_bound :
        (j : K) (m : List (K × V))
        → serves j ≡ true
        → All (λ f. order_of j ≤ order_of f.0) m
        → all_of (λ f. serves f.0) (upper_bound j m) ≡ all_of (λ f. serves f.0) m
    all_of-upper_bound j [] t h = refl
    all_of-upper_bound j (en ∷ m) t h = elim (Bool-cases (leb (order_of en.0) (order_of j))) [
      | inl e ↦
          let agree : order_of j ≡ order_of en.0 = ground (arith, e, h.0) in
          let served : serves en.0 ≡ true = sym (same j en.0 agree) ∙ t in
          rw (e, served) (all_of-upper_bound j m t h.1)
      | inr e ↦ rw e refl
    ]

    -- The loop ends, with as many turns as there are entries at most, and over a map that is in
    -- order a conjunction over its keys is one over its entries.
    for_each_key-all_from :
        (m : List (K × V)) (n : ℕ) (pos : List (K × V)) (b : Bool)
        → length pos ≤ n
        → IsSorted pos
        → IsReached m pos
        → for_each_key (λ en s. s && serves en.0) m n pos b
          ≡ some (b && all_of (λ f. serves f.0) pos)
    unfolding for_each_key
    for_each_key-all_from m n [] b h o r = ground arith
    for_each_key-all_from m zero (en ∷ pos) b h o r = let bad : ⊥ = omega (arith, h) in elim bad [ ]
    for_each_key-all_from m (suc n) (en ∷ pos) b h o r =
        let next : upper_bound en.0 m ≡ upper_bound en.0 pos =
          r en.0 (omega arith) ∙ upper_bound_self en pos in
        let fewer = length-upper_bound en.0 pos in
        rw
          (
            for_each_key,
            next,
            for_each_key-all_from m n (upper_bound en.0 pos) (b && serves en.0)
                (omega (arith, fewer, h)) (upper_bound-IsSorted en.0 pos o.1)
                (IsReached-upper_bound m en pos (upper_bound en.0 pos) r (upper_bound_self en pos)),
          )
          (elim (Bool-cases (serves en.0)) [
            | inl t ↦ rw (all_of-upper_bound en.0 pos t o.0) (ground arith)
            | inr f ↦ ground (arith, f)
          ])

    pub for_each_key-all_of :
        (m : List (K × V))
        → IsSorted m
        → for_each_key (λ en s. s && serves en.0) m (length m) m true
          ≡ some (all_of (λ f. serves f.0) m)
    for_each_key-all_of m o =
        for_each_key-all_from m (length m) m true (omega arith) o (IsReached-start m)
