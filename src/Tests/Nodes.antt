-- ===== src/Tests/Nodes.antt =====
-- bridge_agent/src/anode_manager.cc and ads_registry.cc at concrete nodes and processes.
use multi_agent_accelerator.Bridge.Ads.{ads_registry, find_create_adss, is_all_ads_complete}
use multi_agent_accelerator.Bridge.Ads.Invariant.{
  constructed, found_or_made, is_all_ads_complete-Reached,
}
use multi_agent_accelerator.Bridge.Anode.{Anode, candidates, post_init, recommend_node}
use multi_agent_accelerator.Bridge.Anode.Claim.{post_init-supports}
use multi_agent_accelerator.Bridge.Anode.Recommend.{Chosen, recommend_node-Chosen}
use multi_agent_accelerator.Ncache.{
  can_completely_support, can_execute, compare_execute, dump_manifest, functional_exists, supports,
}
use multi_agent_accelerator.Prelude.{
  All, List, Text, [], codes, false, get_elem?, none, refl, some, true, ℕ, ◌||◌, ◌∷◌, ◌≡◌, ◌⊎◌,
}
use multi_agent_accelerator.Resource.{
  Desc, cached_resource_desc, fill_wildcards, insert_at, insert_inputs, insert_key, insert_piece,
  insert_pieces, reverse_map_find, stringify,
}
use multi_agent_accelerator.Resource.RoundTrip.{cached_resource_desc-stringify}
use multi_agent_accelerator.Split.{split_str}
use multi_agent_accelerator.Tests.Frames.{frames}
use multi_agent_accelerator.Tests.Resources.{any_gemm, any_gemm-IsCanonical, gemm, gemm-IsCanonical}
use multi_agent_accelerator.Tests.Sorting.{insertion_sort, insertion_sort-Sorts}

abbrev pub node_of : ℕ → List Desc → Anode frames
node_of count lines = record {
  is_local = false;
  active = true;
  outstanding_msg_cnt = count;
  job_id = codes "job";
  rx_id = [];
  bridge_parms = none;
  ncache = lines;
  sent = [];
}

-- The first does not support a claim on the function, the others do.
abbrev pub three_nodes : List (Anode frames)
three_nodes = node_of 0 [] ∷ node_of 5 (gemm ∷ []) ∷ node_of 2 (gemm ∷ []) ∷ []

abbrev pub gemm_claim : Text
gemm_claim = stringify any_gemm

pub gemm_claim-parsed : cached_resource_desc (gemm_claim ∷ []) ≡ some any_gemm
gemm_claim-parsed = cached_resource_desc-stringify any_gemm any_gemm-IsCanonical

ran : Unit {0}
unfolding recommend_node candidates can_completely_support supports functional_exists can_execute
    compare_execute cached_resource_desc insert_inputs insert_pieces insert_piece insert_key
    insert_at reverse_map_find fill_wildcards split_str stringify
ran = tt

least_loaded : recommend_node frames insertion_sort gemm_claim three_nodes ≡ some (some 2)
unfolding ran
least_loaded = refl

recommend_node-Chosen_example :
    ((recommend_node frames insertion_sort gemm_claim three_nodes ≡ some none)
      × All (λ an. ¬ (supports any_gemm an.ncache ≡ true)) three_nodes)
    ⊎ ((i : ℕ) × (recommend_node frames insertion_sort gemm_claim three_nodes ≡ some (some i))
        × Chosen frames gemm_claim any_gemm gemm_claim-parsed i three_nodes)
recommend_node-Chosen_example =
    recommend_node-Chosen frames gemm_claim any_gemm gemm_claim-parsed insertion_sort
      insertion_sort-Sorts three_nodes

post_init-supports_example :
    (anodes' : List (Anode frames)) × (an' : Anode frames) × (post_init frames 0
        (codes "nex")
        (dump_manifest (gemm ∷ []))
        three_nodes
      ≡ some anodes')
    × (get_elem? anodes' 0 ≡ some an')
    × (an'.active ≡ true)
    × ((res : Desc) → supports res an'.ncache ≡ supports res [] || supports res (gemm ∷ []))
post_init-supports_example =
    post_init-supports frames 0 (codes "nex") (gemm ∷ []) three_nodes (node_of 0 []) refl
      (gemm-IsCanonical, tt)

is_all_ads_complete-Reached_example :
    is_all_ads_complete (find_create_adss (codes "p") [] [] true ads_registry).0 ≡ false
is_all_ads_complete-Reached_example =
    is_all_ads_complete-Reached (find_create_adss (codes "p") [] [] true ads_registry).0
      (found_or_made (codes "p") [] [] true constructed)
