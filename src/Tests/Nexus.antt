-- ===== src/Tests/Nexus.antt =====
-- accelerator_agent/src/res_mgr_frontend.cc at a concrete nexus with two virtualization agents.
use multi_agent_accelerator.Bridge.Ads.{find_adss, find_create_adss, get_accel_id, get_nex_id}
use multi_agent_accelerator.Bridge.Anode.{Anode, post_init, send_to}
use multi_agent_accelerator.Bridge.Protocol.{AccelCtrl, AccelHeader, get_accel_header}
use multi_agent_accelerator.Bridge.Service.Dispatch.{Outside, action_ctrl, add_nexresp_hdr}
use multi_agent_accelerator.Bridge.Service.Claims.{received}
use multi_agent_accelerator.Bridge.Service.Handlers.{accel_send}
use multi_agent_accelerator.Bridge.Service.State.{Service}
use multi_agent_accelerator.Ncache.{
  can_completely_support, can_execute, compare_execute, functional_exists, supports,
}
use multi_agent_accelerator.Nexus.Frontend.{
  Frontend, res_hwreg, res_hwupdate, res_nxrecvdata, res_nxsnddata, with_hw_list, with_request,
}
use multi_agent_accelerator.Nexus.Manifest.{
  AreCanonical, IsLeast, get_nex_cache_data-supports, recommend_va-IsLeast,
}
use multi_agent_accelerator.Nexus.Path.{accel_send-res_nxsnddata, answer}
use multi_agent_accelerator.Nexus.Registration.{res_hwreg-new, res_hwupdate-supports, written_lines}
use multi_agent_accelerator.Nexus.Trackers.{
  HwTracker, can_support_claim, get_nex_cache_data, has_id, recommend_va, va_candidates,
}
use multi_agent_accelerator.Prelude.{
  All, Any, List, Text, [], any_of, arith, codes, find_if, get_elem?, if◌then◌else◌, list_eq, map,
  nat_eq, none, refl, set, some, true, ℕ, ◌++◌, ◌==◌, ◌>>=◌, ◌||◌, ◌∷◌, ◌≡◌, ◌⊎◌,
}
use multi_agent_accelerator.Resource.{
  Desc, cached_resource_desc, fill_wildcards, insert_at, insert_inputs, insert_key, insert_piece,
  insert_pieces, reverse_map_find, stringify,
}
use multi_agent_accelerator.Split.{split_str}
use multi_agent_accelerator.Tests.Bridge.{acc_id, claiming, header_of, holder, lib_id, process}
use multi_agent_accelerator.Tests.Frames.{Frame, frames, text, ulong_frame, ushort_frame}
use multi_agent_accelerator.Tests.Nodes.{gemm_claim, gemm_claim-parsed, node_of, three_nodes}
use multi_agent_accelerator.Tests.Resources.{any_gemm, any_gemm-IsCanonical, gemm, gemm-IsCanonical}
use multi_agent_accelerator.Tests.Sorting.{insertion_sort, insertion_sort-Sorts}
use multi_agent_accelerator.Wire.{add_string_top}
use multi_agent_accelerator.Wire.Frames.{
  get_section, pop_elements, pop_frames, pop_typ, read_section, read_sections,
}

abbrev agent_of : Text → ℕ → HwTracker
agent_of id congestion = record {
  id = id;
  addr = codes "tcp";
  caches = gemm ∷ [];
  congestion = congestion;
}

abbrev agents : List HwTracker
agents = agent_of (codes "va1") 4 ∷ agent_of (codes "va2") 1 ∷ []

abbrev bridge_address : Text
bridge_address = codes "bridge"

abbrev nexus : Frontend frames
nexus = record {
  current_req_addr = codes "va2";
  current_key = codes "key";
  hw_list = agents;
  pending_msgs = [];
  claim_registry = (bridge_address ++ acc_id, gemm_claim) ∷ [];
  bridge_registry = [];
  multi_reply_buffer = [];
  launched = [];
}

agents-AreCanonical : AreCanonical agents
agents-AreCanonical = ((gemm-IsCanonical, tt), ((gemm-IsCanonical, tt), tt))

ran : Unit {0}
unfolding recommend_va va_candidates can_support_claim can_completely_support supports
    functional_exists can_execute compare_execute cached_resource_desc insert_inputs insert_pieces
    insert_piece insert_key insert_at reverse_map_find fill_wildcards split_str stringify
    get_section read_section pop_typ pop_elements find_adss find_create_adss get_nex_id get_accel_id
    read_sections pop_frames
ran = tt

least_congested : recommend_va insertion_sort gemm_claim agents ≡ some (codes "va2")
unfolding ran
least_congested = refl

get_nex_cache_data-supports_example :
    (anodes' : List (Anode frames)) × (an' : Anode frames) × (post_init frames 0 []
        (get_nex_cache_data agents)
        three_nodes
      ≡ some anodes')
    × (get_elem? anodes' 0 ≡ some an')
    × ((res : Desc)
        → supports res an'.ncache ≡ supports res [] || any_of (λ t. supports res t.caches) agents)
get_nex_cache_data-supports_example =
    get_nex_cache_data-supports frames 0 agents three_nodes (node_of 0 []) refl agents-AreCanonical

recommend_va-IsLeast_example :
    ((recommend_va insertion_sort gemm_claim agents ≡ none)
      × All (λ t. ¬ (supports any_gemm t.caches ≡ true)) agents)
    ⊎ ((address : Text) × (recommend_va insertion_sort gemm_claim agents ≡ some address)
        × Any (IsLeast gemm_claim any_gemm gemm_claim-parsed address agents) agents)
recommend_va-IsLeast_example =
    recommend_va-IsLeast gemm_claim any_gemm gemm_claim-parsed insertion_sort insertion_sort-Sorts
      agents

res_hwreg-new_example :
    res_hwreg frames 0
      (ushort_frame 0
        ∷ ulong_frame 1
        ∷ text (codes "tcp")
        ∷ ushort_frame 0
        ∷ ulong_frame 1
        ∷ written_lines frames (gemm ∷ []))
      []
      (with_hw_list frames [] nexus)
    ≡ some (
      0,
      [],
      with_hw_list frames
          (record { id = codes "va2"; addr = codes "tcp"; caches = gemm ∷ []; congestion = 0 } ∷ [])
          nexus,
    )
res_hwreg-new_example =
    res_hwreg-new frames 0 0 1 0 (ushort_frame 0) (ulong_frame 1) (ushort_frame 0) (codes "tcp")
      (gemm ∷ []) [] (with_hw_list frames [] nexus) refl refl refl (omega arith) refl (refl, tt)
      (gemm-IsCanonical, tt)

res_hwupdate-supports_example :
    (s' : Frontend frames) × (t' : HwTracker) × (res_hwupdate frames
        (ushort_frame 0 ∷ ulong_frame 1 ∷ written_lines frames (any_gemm ∷ []))
        []
        nexus
      ≡ some (0, text (codes "NX-UPDATE: OK") ∷ [], s'))
    × ((id : Text)
        → find_if (has_id id) s'.hw_list
          ≡ (if id == codes "va2" then some t' else find_if (has_id id) nexus.hw_list))
    × ((res : Desc)
        → supports res t'.caches ≡ supports res (gemm ∷ []) || supports res (any_gemm ∷ []))
res_hwupdate-supports_example =
    res_hwupdate-supports frames 0 (ushort_frame 0) (any_gemm ∷ []) (agent_of (codes "va2") 1) []
      nexus refl (omega arith) refl (any_gemm-IsCanonical, tt)

abbrev outside : Outside
outside = record {
  key = codes "k";
  status_key = λ n. codes "s";
  hostname = codes "host";
  sort = insertion_sort;
}

accel_send-res_nxsnddata_example :
    (b' : Service frames) × (n' : Frontend frames) × (accel_send frames
        (codes "k")
        (header_of AccelCtrl.send lib_id)
        (ushort_frame 0 ∷ ulong_frame 1 ∷ text lib_id ∷ text (codes "data") ∷ [])
        claiming
      ≡ some ([], b'))
    × (b'.node_manager
        ≡ set claiming.node_manager 2 (
            send_to frames
              (text (codes "__NEX_SNDDATA__")
                ∷ text (codes "k")
                ∷ add_string_top frames acc_id (text (codes "data") ∷ []))
              (node_of 2 (gemm ∷ []))))
    × (res_nxsnddata frames insertion_sort
          (codes "k2")
          (add_string_top frames (get_accel_id lib_id holder) (text (codes "data") ∷ []))
          (with_request frames bridge_address (codes "k") nexus)
        ≡ some (
          1,
          map text (codes "va2" ∷ codes "__REG_SEND__" ∷ codes "k2" ∷ [])
              ++ add_string_top frames gemm_claim (text (codes "data") ∷ []),
          n',
        ))
    × ((returned : List Frame)
        → (res_nxrecvdata frames ulong_frame returned
              (with_request frames (codes "va2") (codes "k2") n')
            ≡ some (
              1,
              text bridge_address ∷ answer frames ulong_frame outside (codes "k") returned,
              with_request frames (codes "va2") (codes "k2") n',
            ))
          × ((hdr' : AccelHeader) × (req : List Frame) × (b'' : Service frames) × ((add_nexresp_hdr
                    frames
                    (codes "2")
                    (answer frames ulong_frame outside (codes "k") returned)
                  >>= get_accel_header frames)
                ≡ some (hdr', req))
              × (action_ctrl frames hdr'.method outside hdr' req b'
                  ≡ some (received frames process lib_id returned ∷ [], b''))))
unfolding ran
accel_send-res_nxsnddata_example =
    accel_send-res_nxsnddata frames ulong_frame outside insertion_sort (codes "k") (codes "k2")
      process lib_id bridge_address gemm_claim (codes "va2") (codes "2") holder
      (node_of 2 (gemm ∷ [])) 0 1 (ushort_frame 0) (ulong_frame 1) (text (codes "data") ∷ [])
      (header_of AccelCtrl.send lib_id) claiming nexus refl refl refl refl refl refl refl
      least_congested refl refl
