-- ===== src/Jobs/Claims.antt =====
-- accelerator_agent/src/job_interface.cc: where ids come from, the search for a nexus by its address,
-- and what is broadcast.
use multi_agent_accelerator.Jobs.Cache.{NexCache, is_local}
use multi_agent_accelerator.Jobs.Entries.{FunctionEntry}
use multi_agent_accelerator.Jobs.Interface.{
  JobInterface, allocate_global_ids, broadcast_rank, broadcast_to, has_addr, push_rank,
  request_global_id,
}
use multi_agent_accelerator.Jobs.Ranks.{
  RankDesc, RegistryEntry, flat_line, flattened_map, serialize,
}
use multi_agent_accelerator.Prelude.{
  ==_iff, ==_refl, Any, Bool, Bool-cases, List, Option, Option-cases, Text, [], ap, equal_range,
  false, find_if, for_each_key-ends, inl, inr, list_eq, nat_eq, refl, some, sym, true, update_if, ℕ,
  ◌++◌, ◌∙◌, ◌∷◌, ◌≡◌,
}
use multi_agent_accelerator.Resource.{g_func_map, index}
use multi_agent_accelerator.Wire.{Multipart}

module _ (nexuses : ℕ → NexCache) where
  is_local-always : (c : NexCache) → is_local c ≡ true
  is_local-always c = ==_refl c.host_name

  pub request_global_id-local :
      (answer : Option (ℕ × List ℕ)) (n : ℕ) (job : JobInterface)
      → request_global_id nexuses answer n job ≡ allocate_global_ids n [] job
  unfolding request_global_id
  request_global_id-local answer n job = elim (Option-cases job.rank_zero) [
    | inl e ↦ rw e refl
    | inr (z, e) ↦ rw (e, is_local-always (nexuses z)) refl
  ]

  pub find_if-found :
      (a : Text) (en : RegistryEntry) (registry : List RegistryEntry)
      → Any (λ y. en ≡ y) registry
      → (nexuses en.nex).host_addr ≡ a
      → (x : RegistryEntry) × (find_if (has_addr nexuses a) registry ≡ some x)
        × ((nexuses x.nex).host_addr ≡ a)
  find_if-found a en [] k e = elim k [ ]
  find_if-found a en (x ∷ registry) (inl k) e =
      let here : has_addr nexuses a x ≡ true =
        (==_iff _ _).1 (ap (λ (y : RegistryEntry). (nexuses y.nex).host_addr) (sym k) ∙ e) in
      (x, rw here refl, (==_iff _ _).0 here)
  find_if-found a en (x ∷ registry) (inr k) e = elim (Bool-cases (has_addr nexuses a x)) [
    | inl here ↦ (x, rw here refl, (==_iff _ _).0 here)
    | inr there ↦ let (y, found, q) = find_if-found a en registry k e in (y, rw there found, q)
  ]

  -- Every entry of the first registry has an entry with its nexus in the second.
  abbrev pub Covers : List RegistryEntry → List RegistryEntry → Type 0
  Covers registry registry' =
      (en : RegistryEntry)
      → Any (λ y. en ≡ y) registry
      → (en' : RegistryEntry) × Any (λ y. en' ≡ y) registry' × (en'.nex ≡ en.nex)

  pub update_if-nex :
      (p : RegistryEntry → Bool) (rank : RankDesc) (registry : List RegistryEntry)
      (en : RegistryEntry)
      → Any (λ y. en ≡ y) registry
      → (en' : RegistryEntry) × Any (λ y. en' ≡ y) (update_if p (push_rank rank) registry)
        × (en'.nex ≡ en.nex)
  update_if-nex p rank [] en k = elim k [ ]
  update_if-nex p rank (x ∷ registry) en k = elim (Bool-cases (p x)) [
    | inl e ↦ rw e (elim k [
      | inl q ↦ (push_rank rank x, inl refl, ap (λ (y : RegistryEntry). y.nex) (sym q))
      | inr q ↦ (en, inr q, refl)
    ])
    | inr e ↦ rw e (elim k [
      | inl q ↦ (en, inl q, refl)
      | inr q ↦
          let (en', there, same) = update_if-nex p rank registry en q in (en', inr there, same)
    ])
  ]

  module _ {Frame : Type 0} (m : Multipart Frame) where
    broadcast_to-none :
        (msg : List Frame) (registry : List RegistryEntry)
        → broadcast_to nexuses m msg false registry ≡ []
    unfolding broadcast_to
    broadcast_to-none msg [] = refl
    broadcast_to-none msg (en ∷ registry) =
        rw (broadcast_to, is_local-always (nexuses en.nex)) (broadcast_to-none msg registry)

    pub broadcast_rank-none :
        (rank : RankDesc) (fe : FunctionEntry) (job : JobInterface)
        → rank.func_details ≡ some fe
        → broadcast_rank nexuses m rank job ≡ some []
    unfolding broadcast_rank serialize flattened_map
    broadcast_rank-none rank fe job e =
        let (ll, runs) =
          for_each_key-ends index
            (λ en ll.
              ll ++ flat_line (g_func_map en.0) (equal_range index en.0 fe.header_desc) ∷ [])
            fe.header_desc [] in
        rw (e, runs, broadcast_to-none _ job.rank_registry) refl
