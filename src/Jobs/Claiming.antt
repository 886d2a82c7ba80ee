-- ===== src/Jobs/Claiming.antt =====
-- accelerator_agent/src/job_interface.cc, `make_claims`: one function of a job that some nexus has.
use multi_agent_accelerator.Bridge.Protocol.{stoul}
use multi_agent_accelerator.Jobs.Cache.{NexCache}
use multi_agent_accelerator.Jobs.Claims.{request_global_id-local}
use multi_agent_accelerator.Jobs.Config.{get_platform_attr}
use multi_agent_accelerator.Jobs.Entries.{
  FunctionEntry, get_first_header_attr, get_last_header_attr, get_num_replicas, rec_strat,
}
use multi_agent_accelerator.Jobs.Interface.{
  JobInterface, allocate_global_ids, claim_ranks, copies, make_claim, recommend_by, take_ids,
}
use multi_agent_accelerator.Jobs.Placement.{HasFunction, HasServices, make_recommendation-places}
use multi_agent_accelerator.Jobs.Ranks.{Memory, RankDesc, accel, rank_desc}
use multi_agent_accelerator.Jobs.Recommendation.{Partition, Partitions}
use multi_agent_accelerator.Jobs.Transmission.{
  AreClaims, number_ranks-placed, register_claims-none, transmit_claims-sent,
}
use multi_agent_accelerator.Prelude.{
  All, Any, List, Option, Text, [], append-nil, arith, codes, ltb, refl, some, suc, true, zero, ℕ,
  ◌%◌, ◌+◌, ◌<◌, ◌∙◌, ◌≡◌,
}
use multi_agent_accelerator.Resource.{index, plat_cfg, sw_fid}
use multi_agent_accelerator.Wire.{Multipart}

-- The job after ids have been given out.
abbrev pub allocated : ℕ → JobInterface → JobInterface
allocated n job = record job {
  global_rank_cnt = (job.global_rank_cnt + n) % 18446744073709551616;
  global_group_cnt = (job.global_group_cnt + 1) % 18446744073709551616;
}

pub allocate_global_ids-few :
    (n : ℕ) (job : JobInterface)
    → n < 2147483648
    → allocate_global_ids n [] job
      ≡ some (allocated n job, (job.global_group_cnt, take_ids n job.global_rank_cnt))
unfolding allocate_global_ids
allocate_global_ids-few n job h = let e : ltb n 2147483648 ≡ true = ground (arith, h) in rw e refl

module _ {Frame : Type 0} (m : Multipart Frame) (nexuses : ℕ → NexCache) (partition : Partition)
    (splits : Partitions partition) (memory : Memory) (answer : Option (ℕ × List ℕ))
    (fe : FunctionEntry) (job : JobInterface) where
  pub copies-func :
      (n : ℕ) (rd : RankDesc)
      → rd.func_details ≡ some fe
      → All (λ r. r.func_details ≡ some fe) (copies nexuses m n rd)
  copies-func zero rd e = tt
  copies-func (suc n) rd e = (e, copies-func n rd e)

  -- A function whose entry is complete, under the round robin engine, is claimed where a nexus of
  -- the job has it: as many claims go out as the function has replicas, one for each of the next
  -- ids, each to the address of a nexus that has the function, on a service that offers it, and
  -- nothing else goes out. The counters move on past the ids. Every line of every nexus names a
  -- service, and there are fewer than 2 to the 31 replicas.
  pub make_claim-claims :
      (replicas : ℕ) (plat_cfg_id func_id : Text) (owner : ℕ)
      → get_num_replicas fe ≡ some replicas
      → replicas < 2147483648
      → get_last_header_attr index plat_cfg fe ≡ some plat_cfg_id
      → get_platform_attr plat_cfg_id rec_strat job.config_file ≡ some (codes "RR_SCATTER")
      → get_first_header_attr index sw_fid fe ≡ some func_id
      → stoul job.current_rank_id ≡ some owner
      → Any (HasFunction nexuses fe) job.rank_registry
      → All (HasServices nexuses fe) job.rank_registry
      → (job' : JobInterface) × (sent : List (ℕ × List Frame)) × (make_claim nexuses m partition
            memory answer fe job
          ≡ some (job.global_group_cnt, job', sent))
        × AreClaims m nexuses fe func_id job.rank_registry job job.global_group_cnt
            (take_ids replicas job.global_rank_cnt)
            sent
        × (job'.global_rank_cnt ≡ (job.global_rank_cnt + replicas) % 18446744073709551616)
        × (job'.global_group_cnt ≡ (job.global_group_cnt + 1) % 18446744073709551616)
  unfolding make_claim claim_ranks recommend_by
  make_claim-claims replicas plat_cfg_id func_id owner e1 few e2 e3 e4 e5 has services =
      let registry = job.rank_registry in
      let group = job.global_group_cnt in
      let rd = rank_desc memory owner accel (some fe) in
      let (ranks, registry2, placed_at, placed, same) =
        make_recommendation-places nexuses fe partition splits (copies nexuses m replicas rd)
          registry (copies-func replicas rd refl) has services in
      let (rs, numbered, claimants) =
        number_ranks-placed m nexuses fe func_id registry group replicas job.global_rank_cnt rd
          ranks placed in
      let job2 : JobInterface = record (allocated replicas job) { rank_registry = registry2 } in
      let (sent, transmitted, claims) =
        transmit_claims-sent m nexuses fe func_id registry rd refl e4 group
          (take_ids replicas job.global_rank_cnt) rs job2 same claimants in
      let (job3, registered, kept) =
        register_claims-none m nexuses fe func_id registry rd refl e4 group
          (take_ids replicas job.global_rank_cnt) rs job2 (λ en k. (en, (same en).1 k, refl))
          claimants in
      (
        job3,
        sent,
        rw
            (
              e1,
              e2,
              e3,
              request_global_id-local nexuses answer replicas job
                  ∙ allocate_global_ids-few replicas job few,
              e5,
              placed_at,
              numbered,
              transmitted,
              registered,
              append-nil sent,
            )
            refl,
        claims,
        kept.0,
        kept.1,
      )
