-- ===== src/Bridge/Anode/Recommend.antt =====
-- bridge_agent/src/anode_manager.cc: `_recommend_node` picks, among the nodes that support a claim,
-- one with the fewest outstanding messages.
use multi_agent_accelerator.Bridge.Anode.{Anode, candidates, front_of, recommend_node}
use multi_agent_accelerator.Ncache.{can_completely_support, supports}
use multi_agent_accelerator.Prelude.{
  All, All-lookup, All-of_mem, Any, Bool, List, Text, [], ap, arith, false, get_elem?,
  if◌then◌else◌, inl, inr, none, refl, some, subst, suc, sym, true, ℕ, ◌+◌, ◌↔◌, ◌∙◌, ◌∷◌, ◌≡◌, ◌≤◌,
  ◌⊎◌,
}
use multi_agent_accelerator.Resource.{Desc, cached_resource_desc}
use multi_agent_accelerator.Wire.{Multipart}

-- Entries of the congestion tables of the bridge and of the nexus: a node or an agent, and its count.
module _ {K : Type 0} where
  abbrev pub IsSorted : List (K × ℕ) → Type 0
  IsSorted [] = Unit
  IsSorted (c ∷ rest) = All (λ d. c.1 ≤ d.1) rest × IsSorted rest

  -- What `boost::sort` by the second component promises: the order, and the same elements.
  pub record Sorts (sort : List (K × ℕ) → List (K × ℕ)) : Type 0 where
    pub ordered : (xs : List (K × ℕ)) → IsSorted (sort xs)
    pub keeps : (xs : List (K × ℕ)) (x : K × ℕ) → Any (λ y. x ≡ y) (sort xs) ↔ Any (λ y. x ≡ y) xs

  abbrev pub row : Bool → K × ℕ → List (K × ℕ) → List (K × ℕ)
  row b c rest = if b then c ∷ rest else rest

  pub row-Any :
      (b : Bool) (c : K × ℕ) (rest : List (K × ℕ)) (x : K × ℕ)
      → Any (λ y. x ≡ y) (row b c rest)
      → ((b ≡ true) × (x ≡ c)) ⊎ Any (λ y. x ≡ y) rest
  row-Any true c rest x (inl q) = inl (refl, q)
  row-Any true c rest x (inr k) = inr k
  row-Any false c rest x k = inr k

  pub row-All :
      (P : ℕ → Type 0) (b : Bool) (c : K × ℕ) (rest : List (K × ℕ))
      → All (λ d. P d.1) (row b c rest)
      → (b ≡ true → P c.1) × All (λ d. P d.1) rest
  row-All P true c rest h = (λ e. h.0, h.1)
  row-All P false c rest h = (λ e. cc, h)

  module _ (sort : List (K × ℕ) → List (K × ℕ)) (sorts : Sorts sort) (entries : List (K × ℕ)) where
    -- A table is empty if it sorts to the empty list.
    pub sorted-empty : (P : K × ℕ → Type 0) → sort entries ≡ [] → All P entries
    sorted-empty P e =
        All-of_mem P entries
          (λ x k. absurd_in (subst (λ s. Any (λ y. x ≡ y) s) e ((sorts.keeps entries x).1 k)))
      where
        absurd_in : {x : K × ℕ} → Any (λ y. x ≡ y) [] → P x
        absurd_in h = elim h [ ]

    -- The first entry of the sorted table is one of the table's, and has the least count.
    pub sorted-front :
        (c : K × ℕ) (rest : List (K × ℕ))
        → sort entries ≡ c ∷ rest
        → Any (λ y. c ≡ y) entries × All (λ d. c.1 ≤ d.1) entries
    sorted-front c rest e =
        let order = subst IsSorted e (sorts.ordered entries) in
        (
          (sorts.keeps entries c).0 (subst (λ s. Any (λ y. c ≡ y) s) (sym e) (inl refl)),
          All-of_mem (λ d. c.1 ≤ d.1) entries
              (λ x k.
                All-lookup (λ d. c.1 ≤ d.1) (c ∷ rest) x (omega arith, order.0)
                  (subst (λ s. Any (λ y. x ≡ y) s) e ((sorts.keeps entries x).1 k))),
        )

module _ {Frame : Type 0} (m : Multipart Frame) (claim_request : Text) (res : Desc)
    (parsed : cached_resource_desc (claim_request ∷ []) ≡ some res) where
  abbrev pub table : ℕ → List (Anode m) → List (ℕ × ℕ)
  table i [] = []
  table i (an ∷ anodes) =
      row (supports res an.ncache) (i, an.outstanding_msg_cnt) (table (suc i) anodes)

  pub candidates-table :
      (i : ℕ) (anodes : List (Anode m))
      → candidates m claim_request i anodes ≡ some (table i anodes)
  unfolding candidates can_completely_support
  candidates-table i [] = refl
  candidates-table i (an ∷ anodes) = rw (parsed, candidates-table (suc i) anodes) refl

  -- What an entry of the table stands for.
  pub record Candidate (index count : ℕ) (anodes : List (Anode m)) : Type 0 where
    pub node : Anode m
    pub at_index : get_elem? anodes index ≡ some node
    pub supported : supports res node.ncache ≡ true
    pub counted : count ≡ node.outstanding_msg_cnt

  later :
      {an : Anode m} {anodes : List (Anode m)} {j c : ℕ}
      → Candidate j c anodes
      → Candidate (suc j) c (an ∷ anodes)
  later k = record {
    node = k.node;
    at_index = k.at_index;
    supported = k.supported;
    counted = k.counted;
  }

  table-Candidate :
      (i : ℕ) (anodes : List (Anode m)) (x : ℕ × ℕ)
      → Any (λ y. x ≡ y) (table i anodes)
      → (j : ℕ) × (x.0 ≡ i + j) × Candidate j x.1 anodes
  table-Candidate i [] x k = elim k [ ]
  table-Candidate i (an ∷ anodes) x k =
      elim (row-Any (supports res an.ncache) (i, an.outstanding_msg_cnt) (table (suc i) anodes) x
        k) [
          | inl q ↦ (
            0,
            ap (λ p. p.0) q.1 ∙ omega arith,
            record { node = an; at_index = refl; supported = q.0; counted = ap (λ p. p.1) q.1 },
          )
          | inr k' ↦
              let (j, q, cand) = table-Candidate (suc i) anodes x k' in
              (suc j, q ∙ omega arith, later cand)
        ]

  table-All :
      (P : ℕ → Type 0) (i : ℕ) (anodes : List (Anode m))
      → All (λ d. P d.1) (table i anodes)
      → All (λ an. supports res an.ncache ≡ true → P an.outstanding_msg_cnt) anodes
  table-All P i [] h = tt
  table-All P i (an ∷ anodes) h =
      let h' =
        row-All P (supports res an.ncache) (i, an.outstanding_msg_cnt) (table (suc i) anodes) h in
      (h'.0, table-All P (suc i) anodes h'.1)

  -- A node that supports the claim, and no supporting node has fewer outstanding messages.
  pub record Chosen (index : ℕ) (anodes : List (Anode m)) : Type 0 where
    pub node : Anode m
    pub at_index : get_elem? anodes index ≡ some node
    pub supported : supports res node.ncache ≡ true
    pub least :
        All
          (λ an. supports res an.ncache ≡ true → node.outstanding_msg_cnt ≤ an.outstanding_msg_cnt)
          anodes

  module _ (sort : List (ℕ × ℕ) → List (ℕ × ℕ)) (sorts : Sorts sort) where
    choose :
        (anodes : List (Anode m)) (sorted : List (ℕ × ℕ))
        → sort (table 0 anodes) ≡ sorted
        → ((front_of sorted ≡ none) × All (λ an. ¬ (supports res an.ncache ≡ true)) anodes)
          ⊎ ((i : ℕ) × (front_of sorted ≡ some i) × Chosen i anodes)
    choose anodes [] e =
        inl
          (refl, table-All (λ n. ⊥) 0 anodes (sorted-empty sort sorts (table 0 anodes) (λ d. ⊥) e))
    choose anodes (c ∷ rest) e =
        let (mem, least) = sorted-front sort sorts (table 0 anodes) c rest e in
        let (j, q, cand) = table-Candidate 0 anodes c mem in
        inr (
          j,
          ap some (q ∙ omega arith),
          record {
            node = cand.node;
            at_index = cand.at_index;
            supported = cand.supported;
            least =
                table-All (λ n. cand.node.outstanding_msg_cnt ≤ n) 0 anodes
                  (subst (λ n. All (λ (d : ℕ × ℕ). n ≤ d.1) (table 0 anodes)) cand.counted least);
          },
        )

    -- For a claim that is understood, the recommendation is empty exactly where no node supports
    -- it, and otherwise a supporting node with the fewest outstanding messages of these.
    pub recommend_node-Chosen :
        (anodes : List (Anode m))
        → ((recommend_node m sort claim_request anodes ≡ some none)
            × All (λ an. ¬ (supports res an.ncache ≡ true)) anodes)
          ⊎ ((i : ℕ) × (recommend_node m sort claim_request anodes ≡ some (some i))
              × Chosen i anodes)
    unfolding recommend_node
    recommend_node-Chosen anodes =
        rw (candidates-table 0 anodes) (elim (choose anodes (sort (table 0 anodes)) refl) [
          | inl q ↦ inl (ap some q.0, q.1)
          | inr q ↦ inr (q.0, ap some q.1, q.2)
        ])
