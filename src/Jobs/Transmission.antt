-- ===== src/Jobs/Transmission.antt =====
-- accelerator_agent/src/job_interface.cc: from a function of a job to the claims on its nexuses.
use multi_agent_accelerator.Jobs.Cache.{HasService, NexCache, Offers}
use multi_agent_accelerator.Jobs.Claims.{Covers, broadcast_rank-none, find_if-found, update_if-nex}
use multi_agent_accelerator.Jobs.Entries.{FunctionEntry, get_first_header_attr}
use multi_agent_accelerator.Jobs.Interface.{
  JobInterface, claim_message, copies, has_addr, number_ranks, push_rank, register_claim,
  register_claims, take_ids, transmit_claim, transmit_claims,
}
use multi_agent_accelerator.Jobs.Placement.{ArePlaced, HaveSame}
use multi_agent_accelerator.Jobs.Ranks.{
  RankDesc, RegistryEntry, flattened_attrs, requested, set_alloc_addr, set_phase, update_global_id,
}
use multi_agent_accelerator.Prelude.{
  Any, List, Text, [], ap, codes, refl, some, subst, suc, sym, update_if, zero, ℕ, ◌%◌, ◌+◌, ◌∙◌,
  ◌∷◌, ◌≡◌,
}
use multi_agent_accelerator.Resource.{index, sw_fid}
use multi_agent_accelerator.Wire.{
  Multipart, add_string, add_strings, add_ulong, add_ulongs, zmsg_builder,
}
use multi_agent_accelerator.Wire.Sections.{message, strings, ulongs}

module _ {Frame : Type 0} (m : Multipart Frame) (nexuses : ℕ → NexCache) (fe : FunctionEntry)
    (func_id : Text) (registry : List RegistryEntry) where
  -- A rank with its ids, at a nexus of the job with a service that offers the function.
  abbrev pub IsClaimant : ℕ → ℕ → RankDesc → RankDesc → Type 0
  IsClaimant group i rd r =
      (en : RegistryEntry) × (service : Text) × Any (λ y. en ≡ y) registry
      × Any (λ cline. Offers fe cline × HasService service cline) (nexuses en.nex).as_is
      × (r ≡ update_global_id group i (set_alloc_addr (nexuses en.nex).host_addr service rd))

  abbrev pub AreClaimants : ℕ → List ℕ → RankDesc → List RankDesc → Type 0
  AreClaimants group [] rd [] = Unit
  AreClaimants group [] rd (r ∷ rs) = ⊥
  AreClaimants group (i ∷ ids) rd [] = ⊥
  AreClaimants group (i ∷ ids) rd (r ∷ rs) = IsClaimant group i rd r × AreClaimants group ids rd rs

  -- The claim of a rank at the address of a nexus of the job that has the function: the service
  -- there that offers it, the two ids, the function's id and its attributes.
  abbrev pub IsClaim : JobInterface → ℕ → ℕ → ℕ × List Frame → Type 0
  IsClaim job group i sent =
      (en : RegistryEntry) × (service : Text) × Any (λ y. en ≡ y) registry
      × Any (λ cline. Offers fe cline × HasService service cline) (nexuses en.nex).as_is
      × ((nexuses sent.0).host_addr ≡ (nexuses en.nex).host_addr)
      × (sent.1
          ≡ message m (job.job_id ∷ job.current_rank_id ∷ codes "__REM_CCLAIM__" ∷ []) (
              strings (service ∷ [])
              ∷ ulongs (group ∷ [])
              ∷ ulongs (i ∷ [])
              ∷ strings (func_id ∷ [])
              ∷ strings (flattened_attrs fe.attrs)
              ∷ []))

  -- One claim for each id, in their order.
  abbrev pub AreClaims : JobInterface → ℕ → List ℕ → List (ℕ × List Frame) → Type 0
  AreClaims job group [] [] = Unit
  AreClaims job group [] (c ∷ sent) = ⊥
  AreClaims job group (i ∷ ids) [] = ⊥
  AreClaims job group (i ∷ ids) (c ∷ sent) = IsClaim job group i c × AreClaims job group ids sent

  pub number_ranks-placed :
      (group n first : ℕ) (rd : RankDesc) (ranks : List RankDesc)
      → ArePlaced nexuses fe registry (copies nexuses m n rd) ranks
      → (rs : List RankDesc) × (number_ranks nexuses m group (take_ids n first) ranks ≡ some rs)
        × AreClaimants group (take_ids n first) rd rs
  number_ranks-placed group zero first rd [] h = ([], refl, tt)
  number_ranks-placed group zero first rd (r ∷ ranks) h = elim h [ ]
  number_ranks-placed group (suc n) first rd [] h = elim h [ ]
  number_ranks-placed group (suc n) first rd (r ∷ ranks) h =
      let (rs, runs, rest) =
        number_ranks-placed group n ((first + 1) % 18446744073709551616) rd ranks h.1 in
      let (en, service, k, which, told) = h.0 in
      (
        update_global_id group first r ∷ rs,
        rw runs refl,
        ((en, service, k, which, ap (update_global_id group first) told), rest),
      )

  module _ (rd : RankDesc) (has_fe : rd.func_details ≡ some fe)
      (has_func_id : get_first_header_attr index sw_fid fe ≡ some func_id) where
    transmit_claim-sent :
        (group i : ℕ) (r : RankDesc) (job : JobInterface)
        → HaveSame nexuses fe job.rank_registry registry
        → IsClaimant group i rd r
        → (c : ℕ × List Frame) × (transmit_claim nexuses m r job ≡ some (c ∷ []))
          × IsClaim job group i c
    unfolding transmit_claim add_string add_ulong add_strings add_ulongs zmsg_builder
    transmit_claim-sent group i r job same (en, service, k, which, told) =
        let (x, found, at_x) =
          find_if-found nexuses (nexuses en.nex).host_addr en job.rank_registry ((same en).1 k)
            refl in
        subst
          (λ r'.
            (c : ℕ × List Frame) × (transmit_claim nexuses m r' job ≡ some (c ∷ []))
            × IsClaim job group i c)
          (sym told)
          (
            (x.nex, claim_message nexuses m job service group i func_id (flattened_attrs fe.attrs)),
            rw (has_fe, has_func_id, found) refl,
            (en, service, k, which, at_x, refl),
          )

    pub transmit_claims-sent :
        (group : ℕ) (ids : List ℕ) (rs : List RankDesc) (job : JobInterface)
        → HaveSame nexuses fe job.rank_registry registry
        → AreClaimants group ids rd rs
        → (sent : List (ℕ × List Frame)) × (transmit_claims nexuses m rs job ≡ some sent)
          × AreClaims job group ids sent
    unfolding transmit_claims
    transmit_claims-sent group [] [] job same h = ([], refl, tt)
    transmit_claims-sent group [] (r ∷ rs) job same h = elim h [ ]
    transmit_claims-sent group (i ∷ ids) [] job same h = elim h [ ]
    transmit_claims-sent group (i ∷ ids) (r ∷ rs) job same h =
        let (c, runs, claim) = transmit_claim-sent group i r job same h.0 in
        let (sent, rest, claims) = transmit_claims-sent group ids rs job same h.1 in
        (c ∷ sent, rw (runs, rest) refl, (claim, claims))

    -- Registering keeps the counters, and nothing is sent.
    abbrev Registers : JobInterface → JobInterface → Type 0
    Registers job job' =
        (job'.global_rank_cnt ≡ job.global_rank_cnt)
        × (job'.global_group_cnt ≡ job.global_group_cnt)

    pub register_claims-none :
        (group : ℕ) (ids : List ℕ) (rs : List RankDesc) (job : JobInterface)
        → Covers nexuses registry job.rank_registry
        → AreClaimants group ids rd rs
        → (job' : JobInterface) × (register_claims nexuses m rs job ≡ some (job', []))
          × Registers job job'
    unfolding register_claim register_claims
    register_claims-none group [] [] job covers h = (job, refl, (refl, refl))
    register_claims-none group [] (r ∷ rs) job covers h = elim h [ ]
    register_claims-none group (i ∷ ids) [] job covers h = elim h [ ]
    register_claims-none group (i ∷ ids) (r ∷ rs) job covers h =
        let (en, service, k, which, told) = h.0 in
        let a = (nexuses en.nex).host_addr in
        let (en', there, same) = covers en k in
        let (x, found, at_x) =
          find_if-found nexuses a en' job.rank_registry there
            (ap (λ n. (nexuses n).host_addr) same) in
        let r1 = update_global_id group i (set_alloc_addr a service rd) in
        let job1 : JobInterface = record job {
          rank_registry =
              update_if (has_addr nexuses a) (push_rank (set_phase requested r1)) job.rank_registry;
        } in
        let (job', runs, kept) =
          register_claims-none group ids rs job1
            (λ e q.
              let (e1, q1, s1) = covers e q in
              let (e2, q2, s2) =
                update_if-nex nexuses (has_addr nexuses a) (set_phase requested r1)
                  job.rank_registry e1 q1 in
              (e2, q2, s2 ∙ s1))
            h.1 in
        let one : register_claim nexuses m r1 job ≡ some (job1, []) =
          rw (found, broadcast_rank-none nexuses m (set_phase requested r1) fe job1 has_fe) refl in
        let one_r : register_claim nexuses m r job ≡ some (job1, []) =
          ap (λ r'. register_claim nexuses m r' job) told ∙ one in
        (job', rw (one_r, runs) refl, kept)
