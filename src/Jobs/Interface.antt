-- ===== src/Jobs/Interface.antt =====
-- accelerator_agent/src/job_interface.cc: a job at a nexus. What a handler sends is a list of
-- messages, each with the number of the nexus that it goes to.
use multi_agent_accelerator.Bridge.Protocol.{stoul}
use multi_agent_accelerator.Jobs.Cache.{NexCache, is_local}
use multi_agent_accelerator.Jobs.Config.{
  ConfigFile, as_function, as_host, as_platform, get_platform_attr, get_section_json,
}
use multi_agent_accelerator.Jobs.Entries.{
  FunctionEntry, front, get_first_header_attr, get_last_header_attr, get_num_replicas, rec_strat,
}
use multi_agent_accelerator.Jobs.Ranks.{
  Memory, RankDesc, RegistryEntry, accel, cpu, flattened_attrs, get_ggid, rank_desc, rank_equals,
  requested, serialize, set_phase, update_global_id,
}
use multi_agent_accelerator.Jobs.Recommendation.{Partition, make_recommendation}
use multi_agent_accelerator.Prelude.{
  Bool, List, Option, Text, [], any_of, codes, false, ltb, find_if, if◌then◌else◌, list_eq, nat_eq,
  none, not, some, suc, update_if, zero, ℕ, ◌%◌, ◌++◌, ◌+◌, ◌==◌, ◌>>=◌, ◌||◌, ◌∷◌,
}
use multi_agent_accelerator.Resource.{index, plat_cfg, sw_fid}
use multi_agent_accelerator.Wire.{
  Multipart, add_bool, add_string, add_strings, add_ulong, add_ulongs, finalize, zmsg_builder,
}
use multi_agent_accelerator.Wire.Frames.{get_ulongs}

-- `job_interface` and `job_details`
pub record JobInterface : Type 0 where
  pub job_id : Text
  pub current_rank_id : Text
  pub rank_registry : List RegistryEntry
  pub rank_zero : Option ℕ
  pub local_nex_cache : Option ℕ
  pub config_file : ConfigFile
  pub global_rank_cnt : ℕ
  pub global_group_cnt : ℕ

abbrev pub add_rank_zero : ℕ → ℕ → JobInterface → JobInterface
add_rank_zero nptr max_cpu_ranks job = record job {
  rank_zero = some nptr;
  global_rank_cnt = max_cpu_ranks;
  global_group_cnt = max_cpu_ranks;
}

-- Two pointers are compared.
abbrev pub has_nex : ℕ → RegistryEntry → Bool
has_nex nptr regptr = regptr.nex == nptr

abbrev pub insert_nex : ℕ → List RegistryEntry → List RegistryEntry
insert_nex nptr registry =
    if any_of (has_nex nptr) registry
    then registry
    else registry ++ record { updated = false; nex = nptr; ranks = [] } ∷ []

abbrev pub push_rank : RankDesc → RegistryEntry → RegistryEntry
push_rank rank entry = record entry { ranks = entry.ranks ++ rank ∷ [] }

abbrev pub push_new_rank : Text → RankDesc → RegistryEntry → RegistryEntry
push_new_rank global_cpuid rank entry =
    if any_of (rank_equals global_cpuid) entry.ranks then entry else push_rank rank entry

-- `add_nex_and_rank`; the texts of the owner and of the rank are read as numbers.
unfoldable pub add_nex_and_rank : Memory → Bool → ℕ → Text → JobInterface → Option JobInterface
add_nex_and_rank memory local nptr global_cpuid job = do
  owner ← stoul job.current_rank_id
  gid ← stoul global_cpuid
  let rank = record (rank_desc memory owner cpu none) { global_id = gid }
  let registry = insert_nex nptr job.rank_registry
  some (
      if local
      then record job {
        local_nex_cache = some nptr;
        rank_registry = update_if (has_nex nptr) (push_new_rank global_cpuid rank) registry;
      }
      else record job { rank_registry = registry })

abbrev pub take_ids : ℕ → ℕ → List ℕ
take_ids zero start = []
take_ids (suc n) start = start ∷ take_ids n ((start + 1) % 18446744073709551616)

-- `allocate_global_ids`, behind the ids that are there. The counters are of 64 bits. The loop counts
-- with an `int`, which overflows from 2 to the 31 on: `none`.
unfoldable pub allocate_global_ids :
    ℕ → List ℕ → JobInterface → Option (JobInterface × (ℕ × List ℕ))
allocate_global_ids num_of_ids global_ids job =
    if ltb num_of_ids 2147483648
    then some (
      record job {
        global_rank_cnt = (job.global_rank_cnt + num_of_ids) % 18446744073709551616;
        global_group_cnt = (job.global_group_cnt + 1) % 18446744073709551616;
      },
      (job.global_group_cnt, global_ids ++ take_ids num_of_ids job.global_rank_cnt),
    )
    else none

-- `find` with `FIND_NEX` compares addresses.
abbrev pub has_addr : (ℕ → NexCache) → Text → RegistryEntry → Bool
has_addr nexuses nex_addr entry = (nexuses entry.nex).host_addr == nex_addr

module _ (nexuses : ℕ → NexCache) where
  -- `_request_global_id`: rank zero would be asked if it were not local. What it answers is given.
  unfoldable pub request_global_id :
      Option (ℕ × List ℕ) → ℕ → JobInterface → Option (JobInterface × (ℕ × List ℕ))
  unfolding allocate_global_ids
  request_global_id answer num_of_ids job =
      let here = allocate_global_ids num_of_ids [] job in
      elim job.rank_zero [
        | none ↦ here
        | some z ↦ if is_local (nexuses z) then here else (do a ← answer; some (job, a))
      ]

  module _ {Frame : Type 0} (m : Multipart Frame) where
    abbrev pub Outbox : Type 0
    Outbox = List (ℕ × List Frame)

    abbrev pub start : JobInterface → Text → Text → List Frame
    start job rank method = zmsg_builder m (job.job_id ∷ rank ∷ method ∷ [])

    -- `_broadcast_zmsg`
    unfoldable pub broadcast_to : List Frame → Bool → List RegistryEntry → Outbox
    broadcast_to msg include_local [] = []
    broadcast_to msg include_local (entry ∷ registry) =
        let rest = broadcast_to msg include_local registry in
        if not (is_local (nexuses entry.nex)) || include_local
        then (entry.nex, msg) ∷ rest
        else rest

    -- `_broadcast_rank`
    unfoldable pub broadcast_rank : RankDesc → JobInterface → Option Outbox
    unfolding broadcast_to
    broadcast_rank rd job = do
      (rank, base, func) ← serialize rd
      some (
          broadcast_to
            (finalize m (
              add_strings m func (
                add_strings m base
                  (add_strings m rank (start job job.current_rank_id (codes "__REM_RSYNC__"))))))
            false job.rank_registry)

    -- The lambda `send_update_request` of `sync_job`, for the nexuses in turn.
    pub sync_to : Text → Text → JobInterface → List RegistryEntry → Outbox
    unfolding get_section_json
    sync_to hostname global_rank job [] = []
    sync_to hostname global_rank job (entry ∷ registry) =
        let rest = sync_to hostname global_rank job registry in
        let msg = finalize m (
          add_strings m (get_section_json as_platform job.config_file) (
            add_strings m (get_section_json as_function job.config_file) (
              add_strings m (get_section_json as_host job.config_file)
                (add_bool m false (start job global_rank (codes "__NEX_INITJOB__")))))) in
        if hostname == (nexuses entry.nex).host_name then rest else (entry.nex, msg) ∷ rest

    unfoldable pub sync_job : Text → Text → JobInterface → Outbox
    unfolding sync_to
    sync_job hostname global_rank job = sync_to hostname global_rank job job.rank_registry

    -- `_send_zmsg_to_nex`: the first nexus of the name gets the message.
    unfoldable pub send_zmsg_to_nex : Text → List Frame → JobInterface → Outbox
    send_zmsg_to_nex hostname msg job =
        elim (find_if (λ (en : RegistryEntry). (nexuses en.nex).host_name == hostname)
          job.rank_registry) [ none ↦ [] | some en ↦ (en.nex, msg) ∷ [] ]

    -- `_send_zmsg_by_rank`: the first nexus with the rank.
    unfoldable pub send_zmsg_by_rank : Text → List Frame → JobInterface → Outbox
    send_zmsg_by_rank rank_id msg job =
        elim (find_if (λ (en : RegistryEntry). any_of (rank_equals rank_id) en.ranks)
          job.rank_registry) [ none ↦ [] | some en ↦ (en.nex, msg) ∷ [] ]

    abbrev pub claim_message : JobInterface → Text → ℕ → ℕ → Text → List Text → List Frame
    claim_message job pico_addr group_id global_id func_id params = finalize m (
        add_strings m params (
          add_string m func_id (
            add_ulong m global_id (
              add_ulong m group_id (
                add_string m pico_addr (start job job.current_rank_id (codes "__REM_CCLAIM__")))))))

    -- One turn of `_transmit_claims`: a nexus that is not found is only reported.
    unfoldable pub transmit_claim : RankDesc → JobInterface → Option Outbox
    transmit_claim rank job = do
      (group_id, global_id) ← get_ggid rank
      fe ← rank.func_details
      func_id ← get_first_header_attr index sw_fid fe
      some (elim (find_if (has_addr nexuses rank.alloc_addr.0) job.rank_registry) [
        | none ↦ []
        | some en ↦
            (
              en.nex,
              claim_message job rank.alloc_addr.1 group_id global_id func_id
                  (flattened_attrs fe.attrs),
            )
            ∷ []
      ])

    unfoldable pub transmit_claims : List RankDesc → JobInterface → Option Outbox
    unfolding transmit_claim
    transmit_claims [] job = some []
    transmit_claims (rank ∷ rd_list) job = do
      sent ← transmit_claim rank job
      rest ← transmit_claims rd_list job
      some (sent ++ rest)

    -- One turn of `_register_claims`: there is no rank list at the end iterator.
    unfoldable pub register_claim : RankDesc → JobInterface → Option (JobInterface × Outbox)
    unfolding broadcast_rank
    register_claim rank job = do
      let rank' = set_phase requested rank
      en ← find_if (has_addr nexuses rank.alloc_addr.0) job.rank_registry
      let job' = record job {
        rank_registry =
            update_if (has_addr nexuses rank.alloc_addr.0) (push_rank rank') job.rank_registry;
      }
      sent ← broadcast_rank rank' job'
      some (job', sent)

    unfoldable pub register_claims : List RankDesc → JobInterface → Option (JobInterface × Outbox)
    unfolding register_claim
    register_claims [] job = some (job, [])
    register_claims (rank ∷ rd_list) job = do
      (job', sent) ← register_claim rank job
      (job'', rest) ← register_claims rd_list job'
      some (job'', sent ++ rest)

    -- The ids in turn for the ranks; there are as many of both.
    abbrev pub number_ranks : ℕ → List ℕ → List RankDesc → Option (List RankDesc)
    number_ranks group_id ids [] = some []
    number_ranks group_id [] (rank ∷ rd_list) = none
    number_ranks group_id (i ∷ ids) (rank ∷ rd_list) = do
      rest ← number_ranks group_id ids rd_list
      some (update_global_id group_id i rank ∷ rest)

    abbrev pub copies : ℕ → RankDesc → List RankDesc
    copies zero rd = []
    copies (suc n) rd = rd ∷ copies n rd

    module _ (partition : Partition) (memory : Memory) (answer : Option (ℕ × List ℕ)) where
      -- `_get_recommd_sys`: only the round robin engine is registered, and another name gives a
      -- null pointer.
      unfoldable pub recommend_by :
          Text → List RankDesc → List RegistryEntry → Option (List RankDesc × List RegistryEntry)
      recommend_by strategy rank_reqs registry =
          if strategy == codes "RR_SCATTER"
          then make_recommendation nexuses partition rank_reqs registry
          else none

      -- One turn of `make_claims`, up to `_register_claims`: the group, the ranks with their ids and
      -- where they are to go, and the claims that are sent.
      unfoldable pub claim_ranks :
          FunctionEntry → JobInterface → Option (ℕ × List RankDesc × JobInterface × Outbox)
      unfolding transmit_claims
      claim_ranks fe job = do
        replicas ← get_num_replicas fe
        plat_cfg_id ← get_last_header_attr index plat_cfg fe
        rec_strategy ← get_platform_attr plat_cfg_id rec_strat job.config_file
        (job1, (group_id, global_ids)) ← request_global_id answer replicas job
        owner ← stoul job1.current_rank_id
        let rd_list = copies replicas (rank_desc memory owner accel (some fe))
        (rd_list1, registry) ← recommend_by rec_strategy rd_list job1.rank_registry
        let job2 = record job1 { rank_registry = registry }
        rd_list2 ← number_ranks group_id global_ids rd_list1
        sent ← transmit_claims rd_list2 job2
        some (group_id, rd_list2, job2, sent)

      -- One turn of `make_claims`.
      unfoldable pub make_claim : FunctionEntry → JobInterface → Option (ℕ × JobInterface × Outbox)
      unfolding register_claims claim_ranks
      make_claim fe job = do
        (group_id, rd_list2, job2, sent) ← claim_ranks fe job
        (job3, synced) ← register_claims rd_list2 job2
        some (group_id, job3, sent ++ synced)

      unfoldable pub make_claims :
          List FunctionEntry → JobInterface → Option (List ℕ × JobInterface × Outbox)
      unfolding make_claim
      make_claims [] job = some ([], job, [])
      make_claims (fe ∷ fe_s) job = do
        (group_id, job1, sent) ← make_claim fe job
        (group_ids, job2, rest) ← make_claims fe_s job1
        some (group_id ∷ group_ids, job2, sent ++ rest)

-- `_res_nxgidreq_` of the nexus: the list of ids starts with as many zeros as are asked for.
abbrev pub zeros : ℕ → List ℕ
zeros zero = []
zeros (suc n) = 0 ∷ zeros n

-- The view takes three frames for a header, which the caller has taken already. The first fields are
-- those of the message that the nexus is at.
module _ {Frame : Type 0} (m : Multipart Frame) where
  unfoldable pub res_nxgidreq :
      Text → Text → List Frame → JobInterface → Option (List Frame × JobInterface)
  unfolding allocate_global_ids
  res_nxgidreq mpirun_id proc_id req job = do
    counts ← get_ulongs m 3 0 req
    id_cnt ← front counts
    r ← allocate_global_ids id_cnt (zeros id_cnt) job
    some (
      finalize m
          (add_ulongs m r.1.1 (add_ulong m r.1.0 (zmsg_builder m (mpirun_id ∷ proc_id ∷ [] ∷ [])))),
      r.0,
    )
