-- ===== src/Nexus/Path.antt =====
-- The data path through bridge_agent/src/accel_service.cc and
-- accelerator_agent/src/res_mgr_frontend.cc, from a process to a virtualization agent and back.
use multi_agent_accelerator.Bridge.Ads.{AdsState, find_adss, get_accel_id, get_nex_id}
use multi_agent_accelerator.Bridge.Anode.{Anode, send_to}
use multi_agent_accelerator.Bridge.Protocol.{
  AccelCtrl, AccelHeader, accel_rolodex, get_accel_header, placeholder, reverse_lookup,
}
use multi_agent_accelerator.Bridge.Service.Claims.{accel_recv-routes, accel_send-forwards, received}
use multi_agent_accelerator.Bridge.Service.Dispatch.{
  Outside, action_ctrl, add_nexresp_hdr, get_accel_header-written,
}
use multi_agent_accelerator.Bridge.Service.Handlers.{accel_send}
use multi_agent_accelerator.Bridge.Service.State.{Service}
use multi_agent_accelerator.Nexus.Data.{res_nxrecvdata-returns, res_nxsnddata-forwards}
use multi_agent_accelerator.Nexus.Frontend.{
  Frontend, nexus_alternative_eq, nexus_variant, res_nxrecvdata, res_nxsnddata, with_request,
}
use multi_agent_accelerator.Nexus.Trackers.{recommend_va}
use multi_agent_accelerator.Pending.{get_ids, has_key}
use multi_agent_accelerator.Pending.Bridge.{alternative_eq, bridge_variant}
use multi_agent_accelerator.Prelude.{
  List, Text, [], codes, false, find, find_if, get_elem?, list_eq, map, nat_eq, none, refl, set,
  some, ℕ, ◌++◌, ◌==◌, ◌>>=◌, ◌∙◌, ◌∷◌, ◌≡◌,
}
use multi_agent_accelerator.Wire.{Multipart, add_string_top}

module _ {Frame : Type 0} (m : Multipart Frame) (of_int : ℕ → Frame) (o : Outside) where
  -- What reaches the bridge when an agent's data has gone through the nexus.
  abbrev pub answer : Text → List Frame → List Frame
  answer key returned =
      map m.of_string (accel_rolodex AccelCtrl.recv ∷ placeholder ∷ key ∷ [])
      ++ m.of_ushort 7 ∷ m.of_ulong 1 ∷ of_int 0 ∷ returned

  -- The way back: the bridge reads the answer of its node as one to the key, and passes what the
  -- agent returned to the process that waits under it, and to it only.
  pub answer-routed :
      (key lib_key rid node_idx : Text) (returned : List Frame) (b : Service m)
      → get_ids bridge_variant key b.pending_msgs ≡ (lib_key, rid)
      → (node_idx == placeholder) ≡ false
      → (hdr : AccelHeader) × (req : List Frame) × (b' : Service m) × ((add_nexresp_hdr m node_idx
              (answer key returned)
            >>= get_accel_header m)
          ≡ some (hdr, req))
        × (action_ctrl m hdr.method o hdr req b ≡ some (received m rid lib_key returned ∷ [], b'))
  unfolding action_ctrl reverse_lookup
  answer-routed key lib_key rid node_idx returned b waits ne =
      let hdr : AccelHeader = record {
        requesting_id = some placeholder;
        method = AccelCtrl.recv;
        requesting_nex = some node_idx;
        tag = key;
      } in
      let (b', sent, others) =
        accel_recv-routes m lib_key rid (m.of_ushort 7) (m.of_ulong 1) (of_int 0) returned hdr b
          waits in
      (
        hdr,
        m.of_ushort 7 ∷ m.of_ulong 1 ∷ of_int 0 ∷ returned,
        b',
        (get_accel_header-written m [] placeholder node_idx key AccelCtrl.recv
            (m.of_ushort 7 ∷ m.of_ulong 1 ∷ of_int 0 ∷ returned) refl ne).1,
        sent,
      )

  -- Data that a process sends under an answered claim goes to the node of the nexus that answered
  -- it, and to no other node. That nexus, if it has the claim and an agent for it, sends what reaches
  -- it behind the method and the key to that agent, under a key of its own; whatever the agent
  -- returns under this key comes back to the bridge under the first one, and from there to the
  -- process, under the process's own key. The keys that the bridge and the nexus draw are fresh.
  pub accel_send-res_nxsnddata :
      (sort : List (Text × ℕ) → List (Text × ℕ))
      (key key' rid lib_id bridge_address resource_str pico_address node_idx : Text) (a : AdsState)
      (an : Anode m) (mtype len : ℕ) (f0 f1 : Frame) (payload : List Frame) (hdr : AccelHeader)
      (b : Service m) (n : Frontend m)
      → hdr.requesting_id ≡ some rid
      → find_adss rid b.data_steering ≡ some a
      → get_elem? b.node_manager (get_nex_id lib_id a) ≡ some an
      → m.ushort_of f0 ≡ some mtype
      → m.ulong_of f1 ≡ some len
      → find_if (has_key bridge_variant key) b.pending_msgs ≡ none
      → find (bridge_address ++ get_accel_id lib_id a) n.claim_registry ≡ some resource_str
      → recommend_va sort resource_str n.hw_list ≡ some pico_address
      → find_if (has_key nexus_variant key') n.pending_msgs ≡ none
      → (node_idx == placeholder) ≡ false
      → (b' : Service m) × (n' : Frontend m) × (accel_send m key hdr
            (f0 ∷ f1 ∷ m.of_string lib_id ∷ payload)
            b
          ≡ some ([], b'))
        × (b'.node_manager
            ≡ set b.node_manager (get_nex_id lib_id a) (
                send_to m
                  (m.of_string (codes "__NEX_SNDDATA__")
                    ∷ m.of_string key
                    ∷ add_string_top m (get_accel_id lib_id a) payload)
                  an))
        × (res_nxsnddata m sort key'
              (add_string_top m (get_accel_id lib_id a) payload)
              (with_request m bridge_address key n)
            ≡ some (
              1,
              map m.of_string (pico_address ∷ codes "__REG_SEND__" ∷ key' ∷ [])
                  ++ add_string_top m resource_str payload,
              n',
            ))
        × ((returned : List Frame)
            → (res_nxrecvdata m of_int returned (with_request m pico_address key' n')
                ≡ some (
                  1,
                  m.of_string bridge_address ∷ answer key returned,
                  with_request m pico_address key' n',
                ))
              × ((hdr' : AccelHeader) × (req : List Frame) × (b'' : Service m) × ((add_nexresp_hdr m
                        node_idx
                        (answer key returned)
                      >>= get_accel_header m)
                    ≡ some (hdr', req))
                  × (action_ctrl m hdr'.method o hdr' req b'
                      ≡ some (received m rid hdr.tag returned ∷ [], b''))))
  accel_send-res_nxsnddata sort key key' rid lib_id bridge_address resource_str pico_address
        node_idx a an mtype len f0 f1 payload hdr b n er ea en e0 e1 fresh ec ev fresh' ne =
      let (b', sent, nodes, waits) =
        accel_send-forwards m key rid lib_id a an mtype len f0 f1 payload hdr b er ea en e0 e1
          fresh in
      let (n', nspm, forwarded, kept, k1, k2) =
        res_nxsnddata-forwards m sort key' (get_accel_id lib_id a) resource_str pico_address payload
          (with_request m bridge_address key n) ec ev fresh' in
      (
        b',
        n',
        sent,
        nodes,
        forwarded,
        λ returned. (
          res_nxrecvdata-returns m of_int nspm returned (with_request m pico_address key' n') kept
              ∙ rw (k1, k2) refl,
          answer-routed key hdr.tag rid node_idx returned b' waits ne,
        ),
      )
