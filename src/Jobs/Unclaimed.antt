-- ===== src/Jobs/Unclaimed.antt =====
-- accelerator_agent/src/job_interface.cc, `make_claims`: a function that no nexus of the job has.
use multi_agent_accelerator.Bridge.Protocol.{stoul}
use multi_agent_accelerator.Jobs.Cache.{NexCache}
use multi_agent_accelerator.Jobs.Claiming.{allocate_global_ids-few, allocated, copies-func}
use multi_agent_accelerator.Jobs.Claims.{request_global_id-local}
use multi_agent_accelerator.Jobs.Config.{get_platform_attr}
use multi_agent_accelerator.Jobs.Entries.{
  FunctionEntry, get_first_header_attr, get_last_header_attr, get_num_replicas, rec_strat,
}
use multi_agent_accelerator.Jobs.Interface.{
  JobInterface, claim_ranks, copies, has_addr, make_claim, number_ranks, recommend_by,
  register_claim, register_claims, take_ids, transmit_claim, transmit_claims,
}
use multi_agent_accelerator.Jobs.Placement.{
  Any-of_mem, Any-witness, HasFunction, HaveSame, valid_nex_iff,
}
use multi_agent_accelerator.Jobs.Ranks.{
  Memory, RankDesc, RegistryEntry, accel, rank_desc, update_global_id,
}
use multi_agent_accelerator.Jobs.Recommendation.{
  Partition, Partitions, make_recommendation, recommend_from, recommend_one, valid_nex,
}
use multi_agent_accelerator.Prelude.{
  ==_iff, All, All-lookup, All-map, All-of_mem, Any, Any-append_left, Bool-cases, List, Option,
  Text, [], codes, find_if, inl, inr, list_eq, nat_eq, none, refl, some, subst, suc, sym, zero, ℕ,
  ◌%◌, ◌++◌, ◌+◌, ◌<◌, ◌∙◌, ◌∷◌, ◌≡◌, ◌≢◌,
}
use multi_agent_accelerator.Resource.{index, plat_cfg, sw_fid}
use multi_agent_accelerator.Wire.{Multipart}

module _ (nexuses : ℕ → NexCache) (fe : FunctionEntry) (partition : Partition)
    (splits : Partitions partition) where
  valid_none :
      (rank : RankDesc) (registry : List RegistryEntry)
      → rank.func_details ≡ some fe
      → ¬ Any (HasFunction nexuses fe) registry
      → (partition (valid_nex nexuses rank) registry).0 ≡ []
  valid_none rank registry e lacks =
      let p = valid_nex nexuses rank in
      let groups = partition p registry in
      empty groups.0
        (All-map (λ x q. (valid_nex_iff nexuses fe rank x e).0 q) groups.0
          (splits.front_holds p registry))
        (λ x k. (splits.keeps p registry x).0 (Any-append_left _ groups.0 groups.1 k))
    where
      empty :
          (xs : List RegistryEntry)
          → All (HasFunction nexuses fe) xs
          → ((x : RegistryEntry) → Any (λ y. x ≡ y) xs → Any (λ y. x ≡ y) registry)
          → xs ≡ []
      empty [] h k = refl
      empty (x ∷ xs) h k =
          let bad = lacks (Any-of_mem (HasFunction nexuses fe) registry x (k x (inl refl)) h.0) in
          elim bad [ ]

  recommend_from-unplaced :
      (idx : ℕ) (ranks : List RankDesc) (registry : List RegistryEntry)
      → All (λ r. r.func_details ≡ some fe) ranks
      → ¬ Any (HasFunction nexuses fe) registry
      → (registry' : List RegistryEntry) × (recommend_from nexuses partition idx ranks registry
          ≡ some (ranks, registry'))
        × HaveSame nexuses fe registry' registry
  unfolding recommend_from recommend_one
  recommend_from-unplaced idx [] registry e lacks = (registry, refl, λ x. (λ k. k, λ k. k))
  recommend_from-unplaced idx (rank ∷ ranks) registry e lacks =
      let p = valid_nex nexuses rank in
      let groups = partition p registry in
      let nobody = valid_none rank registry e.0 lacks in
      let same = splits.keeps p registry in
      let one : recommend_one nexuses partition idx rank registry
          ≡ some (rank, groups.0 ++ groups.1) =
        rw nobody refl in
      let (registry', runs, same') =
        recommend_from-unplaced (suc idx) ranks (groups.0 ++ groups.1) e.1 (λ has.
          let (en, k, f) = Any-witness (HasFunction nexuses fe) (groups.0 ++ groups.1) has in
          lacks (Any-of_mem (HasFunction nexuses fe) registry en ((same en).0 k) f)) in
      (
        registry',
        rw (one, runs) refl,
        λ x. (λ q. (same x).0 ((same' x).0 q), λ q. (same' x).1 ((same x).1 q)),
      )

  find_if-addressed :
      (registry : List RegistryEntry)
      → All (λ en. (nexuses en.nex).host_addr ≢ []) registry
      → find_if (has_addr nexuses []) registry ≡ none
  find_if-addressed [] h = refl
  find_if-addressed (x ∷ registry) h = elim (Bool-cases (has_addr nexuses [] x)) [
    | inl e ↦ (let bad = h.0 ((==_iff _ _).0 e) in elim bad [ ])
    | inr e ↦ rw e (find_if-addressed registry h.1)
  ]

  module _ {Frame : Type 0} (m : Multipart Frame) (memory : Memory) (answer : Option (ℕ × List ℕ))
      (job : JobInterface) where
    -- A rank of the function with its ids, and no address.
    abbrev IsUnplaced : ℕ → ℕ → RankDesc → Type 0
    IsUnplaced owner group r =
        (i : ℕ) × (r ≡ update_global_id group i (rank_desc memory owner accel (some fe)))

    numbered :
        (owner group first n : ℕ)
        → (rest : List RankDesc) × (number_ranks nexuses m group
              (take_ids n first)
              (copies nexuses m n (rank_desc memory owner accel (some fe)))
            ≡ some rest)
          × All (IsUnplaced owner group) rest
    numbered owner group first zero = ([], refl, tt)
    numbered owner group first (suc n) =
        let (rest, runs, unplaced) = numbered owner group ((first + 1) % 18446744073709551616) n in
        (
          update_global_id group first (rank_desc memory owner accel (some fe)) ∷ rest,
          rw runs refl,
          ((first, refl), unplaced),
        )

    -- A rank for which no nexus has been found is claimed nowhere.
    transmit_claims-nowhere :
        (func_id : Text) (owner group : ℕ) (ranks : List RankDesc) (job' : JobInterface)
        → get_first_header_attr index sw_fid fe ≡ some func_id
        → find_if (has_addr nexuses []) job'.rank_registry ≡ none
        → All (IsUnplaced owner group) ranks
        → transmit_claims nexuses m ranks job' ≡ some []
    unfolding transmit_claims transmit_claim
    transmit_claims-nowhere func_id owner group [] job' e_fid nowhere h = refl
    transmit_claims-nowhere func_id owner group (r ∷ ranks) job' e_fid nowhere h =
        let (i, told) = h.0 in
        let one : transmit_claim nexuses m r job' ≡ some [] =
          subst (λ r'. transmit_claim nexuses m r' job' ≡ some []) (sym told)
            (rw (e_fid, nowhere) refl) in
        rw (one, transmit_claims-nowhere func_id owner group ranks job' e_fid nowhere h.1) refl

    -- A function whose entry is complete, with a replica at least and fewer than 2 to the 31, under
    -- the round robin engine, and that no nexus of the job has, in a job whose rank can be read: the
    -- ranks get their ids and nothing is sent. The search for the nexus of the first rank then ends
    -- at the end of the registry, and the rank is put into the list that would be found there. The
    -- nexuses have addresses, and a new rank has none.
    pub make_claim-undefined :
        (replicas : ℕ) (plat_cfg_id func_id : Text) (owner : ℕ)
        → get_num_replicas fe ≡ some (suc replicas)
        → suc replicas < 2147483648
        → get_last_header_attr index plat_cfg fe ≡ some plat_cfg_id
        → get_platform_attr plat_cfg_id rec_strat job.config_file ≡ some (codes "RR_SCATTER")
        → get_first_header_attr index sw_fid fe ≡ some func_id
        → stoul job.current_rank_id ≡ some owner
        → ¬ Any (HasFunction nexuses fe) job.rank_registry
        → All (λ en. (nexuses en.nex).host_addr ≢ []) job.rank_registry
        → (rank : RankDesc) × (ranks : List RankDesc) × (job' : JobInterface) × (claim_ranks nexuses
              m partition memory answer fe job
            ≡ some (job.global_group_cnt, rank ∷ ranks, job', []))
          × (find_if (has_addr nexuses rank.alloc_addr.0) job'.rank_registry ≡ none)
          × (make_claim nexuses m partition memory answer fe job ≡ none)
    unfolding make_claim claim_ranks recommend_by register_claims register_claim make_recommendation
    make_claim-undefined replicas plat_cfg_id func_id owner e1 few e2 e3 e4 e5 lacks addressed =
        let rd = rank_desc memory owner accel (some fe) in
        let first = job.global_rank_cnt in
        let group = job.global_group_cnt in
        let (registry, placed_at, same) =
          recommend_from-unplaced 0 (copies nexuses m (suc replicas) rd) job.rank_registry
            (copies-func m nexuses partition splits memory answer fe job (suc replicas) rd refl)
            lacks in
        let (rest, runs, unplaced) =
          numbered owner group ((first + 1) % 18446744073709551616) replicas in
        let job2 : JobInterface = record (allocated (suc replicas) job) {
          rank_registry = registry;
        } in
        let nowhere = find_if-addressed registry (
          All-of_mem _ registry
            (λ x k. All-lookup _ job.rank_registry x addressed ((same x).0 k))) in
        let silent =
          transmit_claims-nowhere func_id owner group (update_global_id group first rd ∷ rest) job2
            e4 nowhere ((first, refl), unplaced) in
        let claimed : claim_ranks nexuses m partition memory answer fe job
            ≡ some (group, update_global_id group first rd ∷ rest, job2, []) =
          rw
            (
              e1,
              e2,
              e3,
              request_global_id-local nexuses answer (suc replicas) job
                  ∙ allocate_global_ids-few (suc replicas) job few,
              e5,
              placed_at,
              runs,
              silent,
            )
            refl in
        (update_global_id group first rd, rest, job2, claimed, nowhere, rw (claimed, nowhere) refl)
