-- ===== src/Nexus/Data.antt =====
-- accelerator_agent/src/res_mgr_frontend.cc: the data path through a nexus. A claim names a
-- resource under the bridge's address and key; data under the claim goes to an agent that has the
-- resource, and what the agent returns goes back to where the data came from.
use multi_agent_accelerator.Bridge.Protocol.{
  AccelCtrl, accel_rolodex, placeholder, start_accel_request,
}
use multi_agent_accelerator.Bridge.Service.Handlers.{string_at}
use multi_agent_accelerator.Nexus.Frontend.{
  Frontend, NexusMsg, nexus_alternative_eq, nexus_variant, nsend, res_claim, res_nxrecvdata,
  res_nxsnddata, with_claim_registry, with_pending_msgs,
}
use multi_agent_accelerator.Nexus.Trackers.{recommend_va}
use multi_agent_accelerator.Pending.{add_pending_message, get_pending_message, has_key}
use multi_agent_accelerator.Pending.Removal.{get_pending_message-add_pending_message}
use multi_agent_accelerator.Prelude.{
  List, Text, [], arith, codes, emplace, find, find-emplace_self, find_if, list_eq, map, nat_eq,
  none, refl, some, true, ℕ, ◌++◌, ◌∙◌, ◌∷◌, ◌≡◌,
}
use multi_agent_accelerator.Wire.{Multipart, add_bool, add_raw_data_top, add_string_top, finalize}
use multi_agent_accelerator.Wire.Frames.{
  get_section, pop_elements, pop_frames, pop_typ, read_section, read_sections,
}

module _ {Frame : Type 0} (m : Multipart Frame) where
  pub string_at-add_string_top :
      (v : Text) (payload : List Frame) → string_at m 0 (add_string_top m v payload) ≡ some v
  unfolding get_section read_sections read_section pop_typ pop_elements add_string_top pop_frames
  string_at-add_string_top v payload =
      rw
        (
          m.ushort_of-of_ushort 0 (omega arith),
          pop_typ,
          m.ulong_of-of_ulong 1 (omega arith),
          m.string_of-of_string v,
        )
        refl

  -- A claim under a fresh address and key is answered at once, and registered.
  pub res_claim-registers :
      (resource_str : Text) (req : List Frame) (s : Frontend m)
      → string_at m 0 req ≡ some resource_str
      → find (s.current_req_addr ++ s.current_key) s.claim_registry ≡ none
      → (s' : Frontend m) × (res_claim m req s
          ≡ some (
            0,
            finalize m
                (add_bool m true (start_accel_request m AccelCtrl.claim_response s.current_key)),
            s',
          ))
        × (find (s.current_req_addr ++ s.current_key) s'.claim_registry ≡ some resource_str)
  unfolding res_claim
  res_claim-registers resource_str req s e fresh =
      let key = s.current_req_addr ++ s.current_key in
      (
        with_claim_registry m (emplace key resource_str s.claim_registry) s,
        rw e refl,
        find-emplace_self key resource_str s.claim_registry ∙ rw fresh refl,
      )

  -- Data under a registered claim goes to the agent that the claim's resource is recommended, headed
  -- by the resource; its key then waits for the address and the key that the data came with.
  pub res_nxsnddata-forwards :
      (sort : List (Text × ℕ) → List (Text × ℕ)) (key acc_id resource_str pico_address : Text)
      (payload : List Frame) (s : Frontend m)
      → find (s.current_req_addr ++ acc_id) s.claim_registry ≡ some resource_str
      → recommend_va sort resource_str s.hw_list ≡ some pico_address
      → find_if (has_key nexus_variant key) s.pending_msgs ≡ none
      → (s' : Frontend m) × (nspm : NexusMsg) × (res_nxsnddata m sort key
            (add_string_top m acc_id payload)
            s
          ≡ some (
            1,
            map m.of_string (pico_address ∷ codes "__REG_SEND__" ∷ key ∷ [])
                ++ add_string_top m resource_str payload,
            s',
          ))
        × (get_pending_message nexus_variant nsend key s'.pending_msgs ≡ some nspm)
        × (nspm.base.key ≡ s.current_key)
        × (nspm.base.requesting_id ≡ s.current_req_addr)
  unfolding res_nxsnddata add_string_top add_raw_data_top pop_typ
  res_nxsnddata-forwards sort key acc_id resource_str pico_address payload s ec er fresh =
      let nspm : NexusMsg = record {
        alternative = nsend;
        base = record { key = s.current_key; requesting_id = s.current_req_addr };
      } in
      (
        with_pending_msgs m (add_pending_message nexus_variant key nspm s.pending_msgs) s,
        nspm,
        rw
            (
              string_at-add_string_top acc_id payload,
              ec,
              er,
              m.ushort_of-of_ushort 0 (omega arith),
              m.ulong_of-of_ulong 1 (omega arith),
            )
            refl,
        get_pending_message-add_pending_message nexus_variant nsend key nspm s.pending_msgs refl
            fresh,
        refl,
        refl,
      )

  -- What comes back under a key goes to the address and the key of the request that waits under it.
  pub res_nxrecvdata-returns :
      (of_int : ℕ → Frame) (nspm : NexusMsg) (payload : List Frame) (s : Frontend m)
      → get_pending_message nexus_variant nsend s.current_key s.pending_msgs ≡ some nspm
      → res_nxrecvdata m of_int payload s
        ≡ some (
          1,
          map m.of_string (
                nspm.base.requesting_id
                ∷ accel_rolodex AccelCtrl.recv
                ∷ placeholder
                ∷ nspm.base.key
                ∷ [])
              ++ m.of_ushort 7 ∷ m.of_ulong 1 ∷ of_int 0 ∷ payload,
          s,
        )
  unfolding res_nxrecvdata add_raw_data_top
  res_nxrecvdata-returns of_int nspm payload s e = rw e refl
