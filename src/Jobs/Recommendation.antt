-- ===== src/Jobs/Recommendation.antt =====
-- accelerator_agent/src/claim_subsys_base.cc and nex_predicates.cc: which nexus a rank is to go to.
-- `std::partition`, whose order within the two groups is not specified, is given, as the two groups
-- of the list that it leaves.
use multi_agent_accelerator.Jobs.Cache.{NexCache, contains_function, get_pico_service_list}
use multi_agent_accelerator.Jobs.Entries.{front}
use multi_agent_accelerator.Jobs.Ranks.{RankDesc, RegistryEntry, set_alloc_addr}
use multi_agent_accelerator.Prelude.{
  All, Any, Bool, List, Option, [], false, get_elem?, length, none, some, suc, true, ℕ, ◌%◌, ◌++◌,
  ◌>>=◌, ◌↔◌, ◌∷◌, ◌≡◌,
}

abbrev pub Partition : Type 0
Partition = (RegistryEntry → Bool) → List RegistryEntry → List RegistryEntry × List RegistryEntry

-- What `std::partition` promises: the two groups, and the same elements.
pub record Partitions (partition : Partition) : Type 0 where
  pub front_holds :
      (p : RegistryEntry → Bool) (xs : List RegistryEntry)
      → All (λ x. p x ≡ true) ((partition p xs).0)
  pub back_fails :
      (p : RegistryEntry → Bool) (xs : List RegistryEntry)
      → All (λ x. p x ≡ false) ((partition p xs).1)
  pub keeps :
      (p : RegistryEntry → Bool) (xs : List RegistryEntry) (x : RegistryEntry)
      → Any (λ y. x ≡ y) ((partition p xs).0 ++ (partition p xs).1) ↔ Any (λ y. x ≡ y) xs

abbrev pub is_true : Option Bool → Bool
is_true none = false
is_true (some b) = b

module _ (nexuses : ℕ → NexCache) where
  -- `SortNexBy<VALID_NEX>`; the test on a function always comes to its end.
  abbrev pub valid_nex : RankDesc → RegistryEntry → Bool
  valid_nex rank jd_reg = elim rank.func_details [
    | none ↦ false
    | some fe ↦ is_true (contains_function fe (nexuses jd_reg.nex))
  ]

  -- What a rank that a nexus is found for is told; the front of an empty list is undefined.
  unfoldable pub allocate : RegistryEntry → RankDesc → Option RankDesc
  allocate it rank = elim rank.func_details [
    | none ↦ some rank
    | some fe ↦ (do
      services ← get_pico_service_list fe (nexuses it.nex)
      pico_id ← front services
      some (set_alloc_addr (nexuses it.nex).host_addr pico_id rank))
  ]

  module _ (partition : Partition) where
    -- One turn of the loop of `make_recommendation`, with the registry that `_init_recommendation`
    -- leaves. The iterator moves on by the rank's place modulo the number of nexuses.
    unfoldable pub recommend_one :
        ℕ → RankDesc → List RegistryEntry → Option (RankDesc × List RegistryEntry)
    unfolding allocate
    recommend_one idx rank registry = do
      let groups = partition (valid_nex rank) registry
      rank' ← elim groups.0 [
        | [] ↦ some rank
        | v ∷ vs ↦ (do it ← get_elem? (v ∷ vs) (idx % length (v ∷ vs)); allocate it rank)
      ]
      some (rank', groups.0 ++ groups.1)

    unfoldable pub recommend_from :
        ℕ → List RankDesc → List RegistryEntry → Option (List RankDesc × List RegistryEntry)
    unfolding recommend_one
    recommend_from idx [] registry = some ([], registry)
    recommend_from idx (rank ∷ rank_reqs) registry = do
      (rank', registry') ← recommend_one idx rank registry
      (rest, registry'') ← recommend_from (suc idx) rank_reqs registry'
      some (rank' ∷ rest, registry'')

    unfoldable pub make_recommendation :
        List RankDesc → List RegistryEntry → Option (List RankDesc × List RegistryEntry)
    unfolding recommend_from
    make_recommendation rank_reqs registry = recommend_from 0 rank_reqs registry
