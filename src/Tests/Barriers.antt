-- ===== src/Tests/Barriers.antt =====
-- bridge_agent/src/accel_service.cc: the barriers and the header at a concrete service.
use multi_agent_accelerator.Bridge.Ads.{
  finalized, find_adss, find_create_adss, is_all_ads_finalized,
}
use multi_agent_accelerator.Bridge.Anode.{init_anode, post_init}
use multi_agent_accelerator.Bridge.Config.{
  claim_of, get_function_header, get_function_header-claim_of,
}
use multi_agent_accelerator.Bridge.Protocol.{
  AccelCtrl, get_nexus_id, reverse_lookup, stoul, stoul_digits,
}
use multi_agent_accelerator.Bridge.Service.Barrier.{
  Answered, accel_finalize-ends, accel_ninit-releases, response_of, waiting,
}
use multi_agent_accelerator.Bridge.Service.Handlers.{accel_finalize, accel_ninit}
use multi_agent_accelerator.Bridge.Service.State.{Service, with_pending}
use multi_agent_accelerator.Ncache.{add_resources}
use multi_agent_accelerator.Pending.Bridge.{final, final_pending_msg, init_pending_msg}
use multi_agent_accelerator.Prelude.{
  All, List, Text, [], codes, false, list_eq, modify, nat_eq, refl, some, true, ◌++◌, ◌∷◌, ◌≡◌, ◌⊎◌,
}
use multi_agent_accelerator.Resource.{cached_resource_desc}
use multi_agent_accelerator.Tests.Bridge.{
  config, gemm_entry, gemm_entry-Finds, header_of, lib_id, one_string, process, service,
}
use multi_agent_accelerator.Tests.Frames.{Frame, frames, ulong_frame, ushort_frame}
use multi_agent_accelerator.Tests.Nodes.{three_nodes}
use multi_agent_accelerator.Tests.Resources.{any_gemm, any_gemm-IsCanonical}
use multi_agent_accelerator.Wire.Frames.{
  get_section, pop_elements, pop_frames, pop_typ, read_section, read_sections, skip_section,
}

ran : Unit {0}
unfolding get_section read_section pop_typ pop_elements get_nexus_id stoul stoul_digits find_adss
    find_create_adss post_init init_anode add_resources skip_section read_sections pop_frames
    reverse_lookup
ran = tt

-- A process that waits to start.
abbrev starting : Service frames
starting =
    with_pending frames
      ((codes "w", init_pending_msg (record { key = lib_id; requesting_id = process })) ∷ [])
      service

accel_ninit-releases_example :
    (out : List (List Frame)) × (s' : Service frames) × (accel_ninit frames
        (codes "host")
        (header_of AccelCtrl.ninit (codes "k"))
        (ushort_frame 0 ∷ ulong_frame 0 ∷ [])
        starting
      ≡ some (out, s'))
    × (s'.node_manager ≡ three_nodes)
    × ((¬ All (λ an. an.active ≡ true) three_nodes
          × (out ≡ [])
          × (s'.pending_msgs ≡ starting.pending_msgs)
          × (s'.init_bridge_calls ≡ 0))
        ⊎ (All (λ an. an.active ≡ true) three_nodes
            × (out
                ≡ response_of frames
                    (init_pending_msg (record { key = lib_id; requesting_id = process }))
                  ∷ [])
            × (s'.init_bridge_calls ≡ 1)))
unfolding ran
accel_ninit-releases_example =
    accel_ninit-releases frames (codes "host") 2 [] three_nodes
      (header_of AccelCtrl.ninit (codes "k")) (ushort_frame 0 ∷ ulong_frame 0 ∷ []) starting refl
      refl refl

abbrev rank_section : List Frame
rank_section = ushort_frame 3 ∷ ulong_frame 1 ∷ ulong_frame 0 ∷ []

accel_finalize-ends_example :
    (out : List (List Frame)) × (s' : Service frames) × (accel_finalize frames
        (codes "k")
        (λ n. codes "s")
        (header_of AccelCtrl.finalize lib_id)
        rank_section
        service
      ≡ some (out, s'))
    × (s'.data_steering ≡ modify process finalized service.data_steering)
    × (((is_all_ads_finalized s'.data_steering ≡ false)
          × (out ≡ [])
          × (waiting frames final s'.pending_msgs
              ≡ waiting frames final service.pending_msgs
                ++ final_pending_msg (record { key = lib_id; requesting_id = process }) ∷ []))
        ⊎ ((is_all_ads_finalized s'.data_steering ≡ true)
            × All (Answered frames out) (waiting frames final service.pending_msgs)
            × Answered frames out
                (final_pending_msg (record { key = lib_id; requesting_id = process }))))
unfolding ran
accel_finalize-ends_example =
    accel_finalize-ends frames (codes "k") process (λ n. codes "s") 0
      (record { active = true; final = false; claims = [] }) (header_of AccelCtrl.finalize lib_id)
      rank_section service refl refl refl

abbrev host_and_job : List Frame
host_and_job = one_string (codes "host") ++ one_string (codes "job")

get_function_header-claim_of_example :
    (claim_text : Text) × (get_function_header (codes "gemm") config ≡ some claim_text)
    × (cached_resource_desc (claim_text ∷ []) ≡ some (claim_of any_gemm))
get_function_header-claim_of_example =
    get_function_header-claim_of any_gemm any_gemm-IsCanonical.writable (codes "gemm") config
      gemm_entry refl gemm_entry-Finds
