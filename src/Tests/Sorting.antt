-- ===== src/Tests/Sorting.antt =====
-- An insertion sort by the second component, as the sort that the node manager uses.
use multi_agent_accelerator.Bridge.Anode.Recommend.{IsSorted, Sorts}
use multi_agent_accelerator.Prelude.{
  All, All-map, Any, Bool-cases, List, [], arith, if◌then◌else◌, inl, inr, leb, ℕ, ◌↔◌, ◌∷◌, ◌≡◌,
  ◌≤◌, ◌⊎◌,
}

module _ {K : Type 0} where
  abbrev insert : K × ℕ → List (K × ℕ) → List (K × ℕ)
  insert c [] = c ∷ []
  insert c (d ∷ ds) = if leb c.1 d.1 then c ∷ d ∷ ds else d ∷ insert c ds

  abbrev pub insertion_sort : List (K × ℕ) → List (K × ℕ)
  insertion_sort [] = []
  insertion_sort (c ∷ cs) = insert c (insertion_sort cs)

  insert-All :
      (b : ℕ) (c : K × ℕ) (ds : List (K × ℕ))
      → b ≤ c.1
      → All (λ d. b ≤ d.1) ds
      → All (λ d. b ≤ d.1) (insert c ds)
  insert-All b c [] h k = (h, tt)
  insert-All b c (d ∷ ds) h k = elim (Bool-cases (leb c.1 d.1)) [
    | inl e ↦ rw e (h, k)
    | inr e ↦ rw e (k.0, insert-All b c ds h k.1)
  ]

  insert-IsSorted : (c : K × ℕ) (ds : List (K × ℕ)) → IsSorted ds → IsSorted (insert c ds)
  insert-IsSorted c [] h = (tt, tt)
  insert-IsSorted c (d ∷ ds) h = elim (Bool-cases (leb c.1 d.1)) [
    | inl e ↦
        let le : c.1 ≤ d.1 = ground arith in
        rw e (
          (
            le,
            All-map {P = λ (y : K × ℕ). d.1 ≤ y.1} {Q = λ (y : K × ℕ). c.1 ≤ y.1}
                (λ y k. omega arith) ds h.0,
          ),
          h,
        )
    | inr e ↦ rw e (insert-All d.1 c ds (ground arith) h.0, insert-IsSorted c ds h.1)
  ]

  insert-Any :
      (c x : K × ℕ) (ds : List (K × ℕ))
      → Any (λ y. x ≡ y) (insert c ds) ↔ ((x ≡ c) ⊎ Any (λ y. x ≡ y) ds)
  insert-Any c x [] = (λ h. h, λ h. h)
  insert-Any c x (d ∷ ds) = elim (Bool-cases (leb c.1 d.1)) [
    | inl e ↦ rw e (λ h. h, λ h. h)
    | inr e ↦ rw e (
      λ h. elim h [
        | inl q ↦ inr (inl q)
        | inr q ↦ elim ((insert-Any c x ds).0 q) [ inl r ↦ inl r | inr r ↦ inr (inr r) ]
      ],
      λ h. elim h [
        | inl q ↦ inr ((insert-Any c x ds).1 (inl q))
        | inr q ↦ elim q [ inl r ↦ inl r | inr r ↦ inr ((insert-Any c x ds).1 (inr r)) ]
      ],
    )
  ]

  sort-IsSorted : (cs : List (K × ℕ)) → IsSorted (insertion_sort cs)
  sort-IsSorted [] = tt
  sort-IsSorted (c ∷ cs) = insert-IsSorted c (insertion_sort cs) (sort-IsSorted cs)

  sort-Any :
      (cs : List (K × ℕ)) (x : K × ℕ) → Any (λ y. x ≡ y) (insertion_sort cs) ↔ Any (λ y. x ≡ y) cs
  sort-Any [] x = (λ h. h, λ h. h)
  sort-Any (c ∷ cs) x = (
    λ h. elim ((insert-Any c x (insertion_sort cs)).0 h) [
      | inl q ↦ inl q
      | inr q ↦ inr ((sort-Any cs x).0 q)
    ],
    λ h.
        (insert-Any c x (insertion_sort cs)).1
          (elim h [ inl q ↦ inl q | inr q ↦ inr ((sort-Any cs x).1 q) ]),
  )

  pub insertion_sort-Sorts : Sorts insertion_sort
  insertion_sort-Sorts = record { ordered = sort-IsSorted; keeps = sort-Any }
