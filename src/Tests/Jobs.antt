-- ===== src/Tests/Jobs.antt =====
-- A job with two nexuses, of which the second has the function of the configuration.
use multi_agent_accelerator.Bridge.Protocol.{stoul, stoul_digits}
use multi_agent_accelerator.Jobs.Cache.{NexCache, Offers, contains_function, contains_function_iff}
use multi_agent_accelerator.Jobs.Claiming.{make_claim-claims}
use multi_agent_accelerator.Jobs.Config.{
  ConfigFile, as_function, as_host, as_platform, function, get_platform_attr, get_section_json,
  get_typed_list, platform, set_config_sections,
}
use multi_agent_accelerator.Jobs.Constraints.{AreCompatible, Meets, compatible_iff, contains_kv_iff}
use multi_agent_accelerator.Jobs.Entries.{
  FunctionEntry, PlatformEntry, compatible, contains_kv, entry_of, function_entry, get_num_replicas,
  named_entry, platform_cfg, rec_strat,
}
use multi_agent_accelerator.Jobs.Interface.{JobInterface, claim_ranks, has_addr, make_claim}
use multi_agent_accelerator.Jobs.Placement.{
  Any-either, ArePlaced, HasFunction, HasServices, HaveSame, make_recommendation-places,
}
use multi_agent_accelerator.Jobs.Ranks.{Memory, RankDesc, RegistryEntry, accel, rank_desc}
use multi_agent_accelerator.Jobs.Recommendation.{Partition, Partitions, make_recommendation}
use multi_agent_accelerator.Jobs.Sections.{get_section-set_config_sections}
use multi_agent_accelerator.Jobs.Sharing.{update_nexus-once}
use multi_agent_accelerator.Jobs.Transmission.{AreClaims}
use multi_agent_accelerator.Jobs.Unclaimed.{make_claim-undefined}
use multi_agent_accelerator.Jobs.Updates.{update_nexus}
use multi_agent_accelerator.Wire.Sections.{bools, message, strings}
use multi_agent_accelerator.Prelude.{
  All, Any, Any-append_left, Any-append_right, Bool, Bool-cases, List, Text, [], any_of_iff, arith,
  codes, false, find_if, inl, inr, keep_if, list_eq, nat_eq, ne_of_beq, none, not, refl, some, suc,
  true, zero, ℕ, ◌&&◌, ◌↔◌, ◌∷◌, ◌≡◌, ◌⊎◌,
}
use multi_agent_accelerator.Resource.{
  func_alias, header_beq, header_beq_iff, hw_pid, hw_ss_pid, hw_ss_vid, hw_vid, plat_cfg, replica,
  sw_clid, sw_fid, sw_pid, sw_verid, sw_vid,
}
use multi_agent_accelerator.Split.{split_str}
use multi_agent_accelerator.Tests.Frames.{Frame, frames}

-- A partition that keeps the order within the groups.
abbrev stable : Partition
stable p xs = (keep_if p xs, keep_if (λ x. not (p x)) xs)

keep_if-All :
    (p q : RegistryEntry → Bool) (b : Bool)
    → ((x : RegistryEntry) → q x ≡ true → p x ≡ b)
    → (xs : List RegistryEntry) → All (λ x. p x ≡ b) (keep_if q xs)
keep_if-All p q b h [] = tt
keep_if-All p q b h (x ∷ xs) = elim (Bool-cases (q x)) [
  | inl e ↦ rw e (h x e, keep_if-All p q b h xs)
  | inr e ↦ rw e (keep_if-All p q b h xs)
]

keep_if-Any :
    (q : RegistryEntry → Bool) (xs : List RegistryEntry) (x : RegistryEntry)
    → Any (λ y. x ≡ y) (keep_if q xs)
    → Any (λ y. x ≡ y) xs
keep_if-Any q [] x h = h
keep_if-Any q (z ∷ xs) x h = elim (Bool-cases (q z)) [
  | inl e ↦ elim (rw e at h) [ inl k ↦ inl k | inr k ↦ inr (keep_if-Any q xs x k) ]
  | inr e ↦ inr (keep_if-Any q xs x (rw e at h))
]

either_kept :
    (p : RegistryEntry → Bool) (xs : List RegistryEntry) (x : RegistryEntry)
    → Any (λ y. x ≡ y) xs
    → Any (λ y. x ≡ y) (keep_if p xs) ⊎ Any (λ y. x ≡ y) (keep_if (λ z. not (p z)) xs)
either_kept p [] x h = elim h [ ]
either_kept p (z ∷ xs) x (inl k) = elim (Bool-cases (p z)) [
  | inl e ↦ rw e (inl (inl k))
  | inr e ↦ rw e (inr (inl k))
]
either_kept p (z ∷ xs) x (inr k) = elim (Bool-cases (p z)) [
  | inl e ↦ rw e (elim (either_kept p xs x k) [ inl r ↦ inl (inr r) | inr r ↦ inr r ])
  | inr e ↦ rw e (elim (either_kept p xs x k) [ inl r ↦ inl r | inr r ↦ inr (inr r) ])
]

stable-Partitions : Partitions stable
stable-Partitions = record {
  front_holds = λ p xs. keep_if-All p p true (λ x e. e) xs;
  back_fails = λ p xs. keep_if-All p (λ x. not (p x)) false (λ x e. ground arith) xs;
  keeps = λ p xs x. (
    λ k. elim (Any-either (λ y. x ≡ y) (keep_if p xs) (keep_if (λ z. not (p z)) xs) k) [
      | inl r ↦ keep_if-Any p xs x r
      | inr r ↦ keep_if-Any (λ z. not (p z)) xs x r
    ],
    λ k. elim (either_kept p xs x k) [
      | inl r ↦ Any-append_left _ (keep_if p xs) _ r
      | inr r ↦ Any-append_right _ (keep_if p xs) _ r
    ],
  );
}

abbrev gemm_entry : FunctionEntry
gemm_entry = record {
  as_is = codes "{}";
  map_key = codes "gemm";
  attrs = (codes "memory", codes "big") ∷ [];
  header_desc =
      (hw_vid, codes "*")
      ∷ (hw_pid, codes "*")
      ∷ (hw_ss_vid, codes "*")
      ∷ (hw_ss_pid, codes "*")
      ∷ (sw_vid, codes "*")
      ∷ (sw_pid, codes "*")
      ∷ (sw_clid, codes "*")
      ∷ (sw_fid, codes "f1")
      ∷ (sw_verid, codes "*")
      ∷ (func_alias, codes "gemm")
      ∷ (plat_cfg, codes "p")
      ∷ (replica, codes "2")
      ∷ [];
}

abbrev gemm_line : Text
gemm_line = codes "svc:1:2:3:4:5:6:f1:7:up:4"

abbrev other_line : Text
other_line = codes "svd:1:2:3:4:5:6:f2:7:up:4"

abbrev two_nexuses : ℕ → NexCache
two_nexuses zero = record {
  host_name = codes "a";
  host_addr = codes "a:1";
  as_is = other_line ∷ [];
}
two_nexuses (suc n) = record {
  host_name = codes "b";
  host_addr = codes "b:1";
  as_is = gemm_line ∷ [];
}

abbrev first_nexus : RegistryEntry
first_nexus = record { updated = true; nex = 0; ranks = [] }

abbrev second_nexus : RegistryEntry
second_nexus = record { updated = true; nex = 1; ranks = [] }

abbrev plat_entry : PlatformEntry
plat_entry = record {
  as_is = codes "{}";
  map_key = codes "p";
  attrs = [];
  header_desc = (platform_cfg, codes "p") ∷ (rec_strat, codes "RR_SCATTER") ∷ [];
}

abbrev job_with : List RegistryEntry → JobInterface
job_with registry = record {
  job_id = codes "j";
  current_rank_id = codes "0";
  rank_registry = registry;
  rank_zero = none;
  local_nex_cache = none;
  config_file = platform plat_entry ∷ function gemm_entry ∷ [];
  global_rank_cnt = 4;
  global_group_cnt = 4;
}

abbrev blank : Memory
blank = record { activation = false; priority = 0; global_id = 0 }

gemm_offered : Offers gemm_entry gemm_line
unfolding split_str
gemm_offered = (
  inl (refl, inr (inl refl)),
  (
    inr (inl (refl, inr (inl refl))),
    (
      inr (inr (inl (refl, inr (inl refl)))),
      (
        inr (inr (inr (inl (refl, inr (inl refl))))),
        (
          inr (inr (inr (inr (inl (refl, inr (inl refl)))))),
          (
            inr (inr (inr (inr (inr (inl (refl, inr (inl refl))))))),
            (
              inr (inr (inr (inr (inr (inr (inr (inl (refl, inr (inr refl))))))))),
              (inr (inr (inr (inr (inr (inr (inr (inr (inl (refl, inr (inl refl)))))))))), tt),
            ),
          ),
        ),
      ),
    ),
  ),
)

has_services : All (HasServices two_nexuses gemm_entry) (first_nexus ∷ second_nexus ∷ [])
unfolding split_str
has_services = (((codes "svd", refl), tt), (((codes "svc", refl), tt), tt))

two_replicas : get_num_replicas gemm_entry ≡ some 2
unfolding get_num_replicas stoul stoul_digits
two_replicas = refl

round_robin :
    (registry : List RegistryEntry)
    → get_platform_attr (codes "p") rec_strat (job_with registry).config_file
      ≡ some (codes "RR_SCATTER")
unfolding get_platform_attr get_typed_list
round_robin registry = refl

owned_by : stoul (codes "0") ≡ some 0
unfolding stoul stoul_digits
owned_by = refl

make_claim-claims_example :
    (job' : JobInterface) × (sent : List (ℕ × List Frame)) × (make_claim two_nexuses frames stable
        blank none gemm_entry
        (job_with (first_nexus ∷ second_nexus ∷ []))
      ≡ some (4, job', sent))
    × AreClaims frames two_nexuses gemm_entry
        (codes "f1")
        (first_nexus ∷ second_nexus ∷ [])
        (job_with (first_nexus ∷ second_nexus ∷ []))
        4
        (4 ∷ 5 ∷ [])
        sent
    × (job'.global_rank_cnt ≡ 6)
    × (job'.global_group_cnt ≡ 5)
make_claim-claims_example =
    make_claim-claims frames two_nexuses stable stable-Partitions blank none gemm_entry
      (job_with (first_nexus ∷ second_nexus ∷ [])) 2 (codes "p") (codes "f1") 0 two_replicas
      (omega arith) refl (round_robin (first_nexus ∷ second_nexus ∷ [])) refl owned_by
      (inr (inl (inl gemm_offered))) has_services

-- The function's constraints on the function id leave another one out.
fid_apart : Meets gemm_entry.header_desc (sw_fid, codes "f2") → ⊥
fid_apart a =
    let t =
      (any_of_iff {P = λ en. (en.0 ≡ sw_fid) × AreCompatible (codes "f2") en.1}
          (λ en. header_beq en.0 sw_fid && compatible (codes "f2") en.1)
          (λ en. ground (arith, header_beq_iff en.0 sw_fid, compatible_iff (codes "f2") en.1))
          gemm_entry.header_desc).1
        a in
    cc

not_offered : ¬ Any (HasFunction two_nexuses gemm_entry) (first_nexus ∷ [])
unfolding split_str
not_offered (inl (inl h)) = fid_apart h.1.1.1.1.1.1.0
not_offered (inl (inr h)) = elim h [ ]
not_offered (inr h) = elim h [ ]

make_claim-undefined_example :
    (rank : RankDesc) × (ranks : List RankDesc) × (job' : JobInterface) × (claim_ranks two_nexuses
        frames stable blank none gemm_entry
        (job_with (first_nexus ∷ []))
      ≡ some (4, rank ∷ ranks, job', []))
    × (find_if (has_addr two_nexuses rank.alloc_addr.0) job'.rank_registry ≡ none)
    × (make_claim two_nexuses frames stable blank none gemm_entry (job_with (first_nexus ∷ []))
        ≡ none)
make_claim-undefined_example =
    make_claim-undefined two_nexuses gemm_entry stable stable-Partitions frames blank none
      (job_with (first_nexus ∷ [])) 1 (codes "p") (codes "f1") 0 two_replicas (omega arith) refl
      (round_robin (first_nexus ∷ [])) refl owned_by not_offered (ne_of_beq _ _ refl, tt)

make_recommendation-places_example :
    (ranks' : List RankDesc) × (registry' : List RegistryEntry) × (make_recommendation two_nexuses
        stable
        (rank_desc blank 0 accel (some gemm_entry) ∷ [])
        (first_nexus ∷ second_nexus ∷ [])
      ≡ some (ranks', registry'))
    × ArePlaced two_nexuses gemm_entry
        (first_nexus ∷ second_nexus ∷ [])
        (rank_desc blank 0 accel (some gemm_entry) ∷ [])
        ranks'
    × HaveSame two_nexuses gemm_entry registry' (first_nexus ∷ second_nexus ∷ [])
make_recommendation-places_example =
    make_recommendation-places two_nexuses gemm_entry stable stable-Partitions
      (rank_desc blank 0 accel (some gemm_entry) ∷ []) (first_nexus ∷ second_nexus ∷ []) (refl, tt)
      (inr (inl (inl gemm_offered))) has_services

contains_function_iff_example :
    (b : Bool) × (contains_function gemm_entry (two_nexuses 1) ≡ some b)
    × ((b ≡ true) ↔ Any (Offers gemm_entry) (gemm_line ∷ []))
contains_function_iff_example = contains_function_iff gemm_entry (two_nexuses 1)

abbrev two_fids : FunctionEntry
two_fids = record {
  as_is = [];
  map_key = codes "*";
  attrs = [];
  header_desc = (sw_fid, codes "f1") ∷ (sw_fid, codes "f2") ∷ (func_alias, codes "gemm") ∷ [];
}

contains_kv_iff_example :
    (b : Bool) × (contains_kv gemm_entry two_fids ≡ some b)
    × ((b ≡ true)
        ↔ All
            (λ f.
              Any (λ g. (g.0 ≡ f.0) × Meets gemm_entry.header_desc (f.0, g.1)) two_fids.header_desc)
            two_fids.header_desc)
contains_kv_iff_example = contains_kv_iff gemm_entry two_fids (omega arith, (omega arith, (tt, tt)))

-- Each header of a text has the text as its one value.
abbrev all_headers : Text → Text → List Text
all_headers key json = json ∷ []

abbrev no_objects : Text → Text → List (Text × Text)
no_objects key json = []

entry_x : (e : FunctionEntry) × (function_entry all_headers no_objects (codes "x") ≡ some e)
unfolding entry_of named_entry
entry_x = (_, refl)

get_section-set_config_sections_example :
    (config : ConfigFile) × (set_config_sections all_headers no_objects []
        (codes "x" ∷ codes "x" ∷ [])
        []
        []
      ≡ some config)
    × (get_section_json as_host config ≡ [])
    × (get_section_json as_function config ≡ codes "x" ∷ codes "x" ∷ [])
    × (get_section_json as_platform config ≡ [])
get_section-set_config_sections_example =
    get_section-set_config_sections all_headers no_objects [] (codes "x" ∷ codes "x" ∷ []) [] tt
      (entry_x, (entry_x, tt)) tt

abbrev local_job : JobInterface
local_job = record (job_with (first_nexus ∷ record second_nexus { updated = false } ∷ [])) {
  local_nex_cache = some 0;
}

update_nexus-once_example :
    (nexuses' : ℕ → NexCache) × (job' : JobInterface) × (update_nexus frames
        (codes "a")
        (codes "0")
        (gemm_line ∷ [])
        stable
        local_job
        two_nexuses
      ≡ some (
        nexuses',
        job',
        (
          1,
          message frames
              (codes "j" ∷ codes "0" ∷ codes "__NEX_UPDATECACHE__" ∷ [])
              (bools (true ∷ []) ∷ strings (codes "a:1" ∷ []) ∷ strings (gemm_line ∷ []) ∷ []),
        )
            ∷ [],
      ))
    × ((nexuses'' : ℕ → NexCache) × (job'' : JobInterface) × (update_nexus frames
            (codes "a")
            (codes "1")
            (other_line ∷ [])
            stable
            job'
            nexuses'
          ≡ some (nexuses'', job'', [])))
update_nexus-once_example =
    update_nexus-once frames (codes "a") stable two_nexuses local_job 0 (codes "0") (codes "1")
      (gemm_line ∷ []) (other_line ∷ []) stable-Partitions refl
