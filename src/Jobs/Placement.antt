-- ===== src/Jobs/Placement.antt =====
-- accelerator_agent/src/claim_subsys_base.cc: where the ranks of a function that some nexus has are
-- sent.
use multi_agent_accelerator.Jobs.Cache.{
  HasService, NexCache, Offers, contains_function_iff, get_pico_service_list, services_in-front,
}
use multi_agent_accelerator.Jobs.Entries.{FunctionEntry}
use multi_agent_accelerator.Jobs.Ranks.{RankDesc, RegistryEntry, set_alloc_addr}
use multi_agent_accelerator.Jobs.Recommendation.{
  Partition, Partitions, allocate, make_recommendation, recommend_from, recommend_one, valid_nex,
}
use multi_agent_accelerator.Prelude.{
  All, All-lookup, All-map, All-of_mem, Any, Any-append_left, Any-map, List, Text, [], arith, false,
  get_elem?, inl, inr, length, refl, some, subst, suc, sym, true, zero, ℕ, ◌%◌, ◌++◌, ◌<◌, ◌↔◌, ◌∷◌,
  ◌≡◌, ◌⊎◌,
}

get_elem?-within :
    {A : Type 0} (xs : List A) (i : ℕ)
    → i < length xs
    → (x : A) × (get_elem? xs i ≡ some x) × Any (λ y. x ≡ y) xs
get_elem?-within [] i h = let bad : ⊥ = omega (arith, h) in elim bad [ ]
get_elem?-within (x ∷ xs) zero h = (x, refl, inl refl)
get_elem?-within (x ∷ xs) (suc i) h =
    let (y, e, k) = get_elem?-within xs i (omega (arith, h)) in (y, e, inr k)

pub Any-witness :
    {A : Type 0} (P : A → Type 0) (xs : List A) → Any P xs → (x : A) × Any (λ y. x ≡ y) xs × P x
Any-witness P [] h = elim h [ ]
Any-witness P (x ∷ xs) (inl h) = (x, inl refl, h)
Any-witness P (x ∷ xs) (inr h) = let (y, k, p) = Any-witness P xs h in (y, inr k, p)

pub Any-of_mem :
    {A : Type 0} (P : A → Type 0) (xs : List A) (x : A) → Any (λ y. x ≡ y) xs → P x → Any P xs
Any-of_mem P xs x k p = Any-map (λ y e. subst P e p) xs k

pub Any-either :
    {A : Type 0} (P : A → Type 0) (xs ys : List A) → Any P (xs ++ ys) → Any P xs ⊎ Any P ys
Any-either P [] ys h = inr h
Any-either P (x ∷ xs) ys (inl h) = inl (inl h)
Any-either P (x ∷ xs) ys (inr h) = elim (Any-either P xs ys h) [
  | inl k ↦ inl (inr k)
  | inr k ↦ inr k
]

module _ (nexuses : ℕ → NexCache) (fe : FunctionEntry) where
  -- The nexus has a line that offers the function.
  abbrev pub HasFunction : RegistryEntry → Type 0
  HasFunction en = Any (Offers fe) (nexuses en.nex).as_is

  -- Every line of the nexus names a service.
  abbrev pub HasServices : RegistryEntry → Type 0
  HasServices en = All (λ cline. (id : Text) × HasService id cline) (nexuses en.nex).as_is

  -- The rank is told the address of a nexus of the job, and a service there that offers the
  -- function.
  abbrev pub IsPlaced : List RegistryEntry → RankDesc → RankDesc → Type 0
  IsPlaced registry rank rank' =
      (en : RegistryEntry) × (id : Text) × Any (λ y. en ≡ y) registry
      × Any (λ cline. Offers fe cline × HasService id cline) (nexuses en.nex).as_is
      × (rank' ≡ set_alloc_addr (nexuses en.nex).host_addr id rank)

  abbrev pub ArePlaced : List RegistryEntry → List RankDesc → List RankDesc → Type 0
  ArePlaced registry [] [] = Unit
  ArePlaced registry [] (r ∷ rs) = ⊥
  ArePlaced registry (r ∷ rs) [] = ⊥
  ArePlaced registry (r ∷ rs) (r' ∷ rs') = IsPlaced registry r r' × ArePlaced registry rs rs'

  abbrev pub HaveSame : List RegistryEntry → List RegistryEntry → Type 0
  HaveSame xs ys = (x : RegistryEntry) → Any (λ y. x ≡ y) xs ↔ Any (λ y. x ≡ y) ys

  allocate-placed :
      (it : RegistryEntry) (rank : RankDesc)
      → rank.func_details ≡ some fe
      → HasFunction it
      → HasServices it
      → (id : Text) × Any (λ cline. Offers fe cline × HasService id cline) (nexuses it.nex).as_is
        × (allocate nexuses it rank ≡ some (set_alloc_addr (nexuses it.nex).host_addr id rank))
  unfolding allocate get_pico_service_list
  allocate-placed it rank e f s =
      let (ids, runs, found) = services_in-front fe (nexuses it.nex).as_is s in
      let (id, first, which) = found f in (id, which, rw (e, runs, first) refl)

  pub valid_nex_iff :
      (rank : RankDesc) (en : RegistryEntry)
      → rank.func_details ≡ some fe
      → (valid_nex nexuses rank en ≡ true) ↔ HasFunction en
  valid_nex_iff rank en e =
      let (b, runs, reads) = contains_function_iff fe (nexuses en.nex) in rw (e, runs) reads

  module _ (partition : Partition) (splits : Partitions partition) where
    -- Where a nexus has the function the first group is not empty, and each nexus in it has it.
    valid_group :
        (rank : RankDesc) (registry : List RegistryEntry)
        → rank.func_details ≡ some fe
        → Any HasFunction registry
        → (v : RegistryEntry) × (vs : List RegistryEntry) × ((partition
              (valid_nex nexuses rank)
              registry).0
            ≡ v ∷ vs)
          × All HasFunction (v ∷ vs)
    valid_group rank registry e has =
        let p = valid_nex nexuses rank in
        let groups = partition p registry in
        let (en, k, f) = Any-witness HasFunction registry has in
        let there = (splits.keeps p registry en).1 k in
        let in_front : Any (λ y. en ≡ y) groups.0 =
          elim (Any-either (λ y. en ≡ y) groups.0 groups.1 there) [
            | inl q ↦ q
            | inr q ↦
                let fails =
                  All-lookup (λ x. p x ≡ false) groups.1 en (splits.back_fails p registry) q in
                let holds = (valid_nex_iff rank en e).1 f in let bad : ⊥ = cc in elim bad [ ]
          ] in
        let holds =
          All-map (λ x q. (valid_nex_iff rank x e).0 q) groups.0 (splits.front_holds p registry) in
        nonempty en groups.0 in_front holds
      where
        nonempty :
            (en : RegistryEntry) (xs : List RegistryEntry)
            → Any (λ y. en ≡ y) xs
            → All HasFunction xs
            → (v : RegistryEntry) × (vs : List RegistryEntry) × (xs ≡ v ∷ vs)
              × All HasFunction (v ∷ vs)
        nonempty en [] k h = elim k [ ]
        nonempty en (x ∷ xs) k h = (x, xs, refl, h)

    recommend_one-IsPlaced :
        (idx : ℕ) (rank : RankDesc) (registry : List RegistryEntry)
        → rank.func_details ≡ some fe
        → Any HasFunction registry
        → All HasServices registry
        → (rank' : RankDesc) × (registry' : List RegistryEntry) × (recommend_one nexuses partition
              idx rank registry
            ≡ some (rank', registry'))
          × IsPlaced registry rank rank'
          × HaveSame registry' registry
    unfolding recommend_one
    recommend_one-IsPlaced idx rank registry e has services =
        let p = valid_nex nexuses rank in
        let groups = partition p registry in
        let (v, vs, front_is, all_have) = valid_group rank registry e has in
        let (it, at_idx, k) = get_elem?-within (v ∷ vs) (idx % suc (length vs)) (omega arith) in
        let in_registry = (splits.keeps p registry it).0 (
          Any-append_left _ groups.0 groups.1
            (subst (λ xs. Any (λ y. it ≡ y) xs) (sym front_is) k)) in
        let (id, which, runs) =
          allocate-placed it rank e (All-lookup HasFunction (v ∷ vs) it all_have k)
            (All-lookup HasServices registry it services in_registry) in
        (
          set_alloc_addr (nexuses it.nex).host_addr id rank,
          groups.0 ++ groups.1,
          rw (front_is, at_idx, runs) refl,
          (it, id, in_registry, which, refl),
          splits.keeps p registry,
        )

    IsPlaced-same :
        (registry registry' : List RegistryEntry) (rank rank' : RankDesc)
        → HaveSame registry' registry
        → IsPlaced registry' rank rank'
        → IsPlaced registry rank rank'
    IsPlaced-same registry registry' rank rank' same (en, id, k, which, told) =
        (en, id, (same en).0 k, which, told)

    ArePlaced-same :
        (registry registry' : List RegistryEntry) (ranks ranks' : List RankDesc)
        → HaveSame registry' registry
        → ArePlaced registry' ranks ranks'
        → ArePlaced registry ranks ranks'
    ArePlaced-same registry registry' [] [] same h = tt
    ArePlaced-same registry registry' [] (r ∷ rs) same h = h
    ArePlaced-same registry registry' (r ∷ rs) [] same h = h
    ArePlaced-same registry registry' (r ∷ rs) (r' ∷ rs') same h = (
      IsPlaced-same registry registry' r r' same h.0,
      ArePlaced-same registry registry' rs rs' same h.1,
    )

    recommend_from-ArePlaced :
        (idx : ℕ) (ranks : List RankDesc) (registry : List RegistryEntry)
        → All (λ r. r.func_details ≡ some fe) ranks
        → Any HasFunction registry
        → All HasServices registry
        → (ranks' : List RankDesc) × (registry' : List RegistryEntry) × (recommend_from nexuses
              partition idx ranks registry
            ≡ some (ranks', registry'))
          × ArePlaced registry ranks ranks'
          × HaveSame registry' registry
    unfolding recommend_from
    recommend_from-ArePlaced idx [] registry e has services =
        ([], registry, refl, tt, λ x. (λ k. k, λ k. k))
    recommend_from-ArePlaced idx (rank ∷ ranks) registry e has services =
        let (rank', registry1, runs, placed, same) =
          recommend_one-IsPlaced idx rank registry e.0 has services in
        let (en, k, f) = Any-witness HasFunction registry has in
        let (ranks', registry2, runs', placed', same') =
          recommend_from-ArePlaced (suc idx) ranks registry1 e.1
            (Any-of_mem HasFunction registry1 en ((same en).1 k) f)
            (All-of_mem HasServices registry1
              (λ x q. All-lookup HasServices registry x services ((same x).0 q))) in
        (
          rank' ∷ ranks',
          registry2,
          rw (runs, runs') refl,
          (placed, ArePlaced-same registry registry1 ranks ranks' same placed'),
          λ x. (λ q. (same x).0 ((same' x).0 q), λ q. (same' x).1 ((same x).1 q)),
        )

    -- Where a nexus of a job has a function, each of the function's ranks is told the address of
    -- such a nexus and a service there whose line offers the function, and the job keeps its
    -- nexuses. Every line of every nexus names a service, and std::partition makes two groups of
    -- the same elements.
    pub make_recommendation-places :
        (ranks : List RankDesc) (registry : List RegistryEntry)
        → All (λ r. r.func_details ≡ some fe) ranks
        → Any HasFunction registry
        → All HasServices registry
        → (ranks' : List RankDesc) × (registry' : List RegistryEntry) × (make_recommendation nexuses
              partition ranks registry
            ≡ some (ranks', registry'))
          × ArePlaced registry ranks ranks'
          × HaveSame registry' registry
    unfolding make_recommendation
    make_recommendation-places ranks registry e has services =
        recommend_from-ArePlaced 0 ranks registry e has services
