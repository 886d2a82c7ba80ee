-- ===== src/Bridge/Service/Claims.antt =====
-- bridge_agent/src/accel_service.cc: the life of a claim. A process claims a function, a nexus
-- answers, and from then on the data that the process sends under its claim goes to that nexus.
use multi_agent_accelerator.Bridge.Ads.{
  AdsState, find_adss, find_create_adss, get_accel_id, get_nex_id, is_claim_active, update_claim,
}
use multi_agent_accelerator.Bridge.Ads.Lookup.{
  HasClaim, claims_of, find_adss_lem, find_create_adss-HasClaim, modify-update_claim,
}
use multi_agent_accelerator.Bridge.Anode.{
  Anode, front_of, make_claim, recommend_node, send_claim, send_data, send_to,
}
use multi_agent_accelerator.Bridge.Anode.Recommend.{candidates-table, table}
use multi_agent_accelerator.Bridge.Config.{Finds, claim_of, get_function_header-claim_of}
use multi_agent_accelerator.Bridge.Protocol.{
  AccelHeader, get_nexus_id, placeholder, reroute_waitable_message, start_response,
}
use multi_agent_accelerator.Bridge.Service.Handlers.{
  accel_claim, accel_claim_resp, accel_recv, accel_send, bool_at, string_at,
}
use multi_agent_accelerator.Bridge.Service.State.{Service, with_ads, with_nodes, with_pending}
use multi_agent_accelerator.Pending.{add_pending_message, get_ids, has_key, remove_message}
use multi_agent_accelerator.Pending.Bridge.{
  alternative_eq, bridge_variant, claim_pending_msg, send_pending_msg,
}
use multi_agent_accelerator.Pending.Removal.{get_ids-add_pending_message, get_ids-remove_message}
use multi_agent_accelerator.Prelude.{
  ==_refl, All, Bool, List, Text, [], codes, find, find_if, get_elem?, list_eq, map, modify, nat_eq,
  none, refl, set, some, true, ℕ, ◌++◌, ◌∙◌, ◌∷◌, ◌≡◌, ◌≢◌,
}
use multi_agent_accelerator.Resource.{Desc, Header, cached_resource_desc, written}
use multi_agent_accelerator.Resource.RoundTrip.{IsWritable}
use multi_agent_accelerator.Wire.Sections.{bools, message}
use multi_agent_accelerator.Wire.{Multipart, add_bool, add_bools, add_raw_data_top, add_string_top}
use multi_agent_accelerator.Wire.Frames.{pop_frames, pop_typ}

module _ {Frame : Type 0} (m : Multipart Frame) where
  -- A request that waits under a key of its own, for a claim that its process has.
  pub record IsRegistered (acc_id lib_id rid : Text) (s : Service m) : Type 0 where
    pub waits : get_ids bridge_variant acc_id s.pending_msgs ≡ (lib_id, rid)
    pub claimed : HasClaim rid lib_id acc_id s.data_steering

  make_claim-returns :
      (sort : List (ℕ × ℕ) → List (ℕ × ℕ)) (acc_id claim_request : Text) (res : Desc)
      (anodes : List (Anode m)) (parsed : cached_resource_desc (claim_request ∷ []) ≡ some res)
      → make_claim m sort acc_id claim_request anodes
        ≡ some (
            send_claim m acc_id claim_request anodes
              (front_of (sort (table m claim_request res parsed 0 anodes))))
  unfolding make_claim recommend_node
  make_claim-returns sort acc_id claim_request res anodes parsed =
      rw (candidates-table m claim_request res parsed 0 anodes) refl

  abbrev registered : Text → AccelHeader → Text → List (Anode m) → Service m → Service m
  registered acc_id hdr rid nodes s =
      let cpm = claim_pending_msg (record { key = hdr.tag; requesting_id = rid }) [] in
      with_nodes m nodes (
        with_ads m (find_create_adss rid hdr.tag acc_id true s.data_steering).0
          (with_pending m (add_pending_message bridge_variant acc_id cpm s.pending_msgs) s))

  -- A claim on a function that the configuration has, what is found under its headers such that it
  -- can be written, is registered, if its key is fresh and its process has no claim of the same name yet.
  pub accel_claim-IsRegistered :
      (sort : List (ℕ × ℕ) → List (ℕ × ℕ)) (acc_id rid falias : Text) (d : Desc)
      (dm : List (Header × Text)) (hdr : AccelHeader) (req : List Frame) (s : Service m)
      → hdr.requesting_id ≡ some rid
      → string_at m 0 req ≡ some falias
      → find falias s.config_file ≡ some dm
      → Finds dm d
      → All (IsWritable d) written
      → find_if (has_key bridge_variant acc_id) s.pending_msgs ≡ none
      → find hdr.tag (claims_of (find rid s.data_steering)) ≡ none
      → (s' : Service m) × (accel_claim m sort acc_id hdr req s ≡ some ([], s'))
        × IsRegistered acc_id hdr.tag rid s'
  unfolding accel_claim
  accel_claim-IsRegistered sort acc_id rid falias d dm hdr req s er ea ef found w fresh unclaimed =
      let (fe_header, eh, ep) = get_function_header-claim_of d w falias s.config_file dm ef found in
      let em = make_claim-returns sort acc_id fe_header (claim_of d) s.node_manager ep in
      let r =
        send_claim m acc_id fe_header s.node_manager
          (front_of (sort (table m fe_header (claim_of d) ep 0 s.node_manager))) in
      (
        registered acc_id hdr rid r.1 s,
        rw (ea, eh, er, em) refl,
        record {
          waits =
              get_ids-add_pending_message bridge_variant acc_id acc_id _ s.pending_msgs fresh
              ∙ rw (==_refl acc_id) refl;
          claimed = find_create_adss-HasClaim rid hdr.tag acc_id s.data_steering unclaimed;
        },
      )

  -- The answer of a nexus to a registered claim goes to the process that waits for it, under its
  -- own key, and from then on the process's state names that nexus for the claim.
  pub accel_claim_resp-answers :
      (acc_id lib_id rid : Text) (nid : ℕ) (activate : Bool) (hdr : AccelHeader) (req : List Frame)
      (s : Service m)
      → IsRegistered acc_id lib_id rid s
      → hdr.tag ≡ acc_id
      → get_nexus_id hdr ≡ some nid
      → bool_at m 0 req ≡ some activate
      → (s' : Service m) × (a : AdsState) × (accel_claim_resp m hdr req s
          ≡ some (
            message m
                  (rid ∷ codes "__ACCEL_RESPONSE__" ∷ placeholder ∷ lib_id ∷ [])
                  (bools (activate ∷ []) ∷ [])
                ∷ [],
            s',
          ))
        × (find_adss rid s'.data_steering ≡ some a)
        × (get_accel_id lib_id a ≡ acc_id)
        × (get_nex_id lib_id a ≡ nid)
        × (is_claim_active lib_id a ≡ activate)
  unfolding accel_claim_resp start_response add_bool add_bools
  accel_claim_resp-answers acc_id lib_id rid nid activate hdr req s h et en ea =
      let reg = modify rid (update_claim lib_id activate nid) s.data_steering in
      let (a, found, i1, i2, i3) =
        modify-update_claim rid lib_id acc_id activate nid s.data_steering h.claimed in
      (
        with_pending m (remove_message bridge_variant hdr.tag s.pending_msgs) (with_ads m reg s),
        a,
        rw (en, ea, et, h.waits, find_adss_lem rid s.data_steering, h.claimed.state_found) refl,
        find_adss_lem rid reg ∙ found,
        i1,
        i2,
        i3,
      )

  -- Data that a process sends under a claim goes to the nexus that answered the claim, and to no
  -- other: headed by the method, a fresh key and the accelerator's id. The key then waits for the
  -- process and its own key.
  pub accel_send-forwards :
      (key rid lib_id : Text) (a : AdsState) (an : Anode m) (mtype len : ℕ) (f0 f1 : Frame)
      (payload : List Frame) (hdr : AccelHeader) (s : Service m)
      → hdr.requesting_id ≡ some rid
      → find_adss rid s.data_steering ≡ some a
      → get_elem? s.node_manager (get_nex_id lib_id a) ≡ some an
      → m.ushort_of f0 ≡ some mtype
      → m.ulong_of f1 ≡ some len
      → find_if (has_key bridge_variant key) s.pending_msgs ≡ none
      → (s' : Service m) × (accel_send m key hdr (f0 ∷ f1 ∷ m.of_string lib_id ∷ payload) s
          ≡ some ([], s'))
        × (s'.node_manager
            ≡ set s.node_manager (get_nex_id lib_id a) (
                send_to m
                  (m.of_string (codes "__NEX_SNDDATA__")
                    ∷ m.of_string key
                    ∷ add_string_top m (get_accel_id lib_id a) payload)
                  an))
        × (get_ids bridge_variant key s'.pending_msgs ≡ (hdr.tag, rid))
  unfolding accel_send pop_typ send_data add_raw_data_top
  accel_send-forwards key rid lib_id a an mtype len f0 f1 payload hdr s er ea en e0 e1 fresh =
      let pmsg = send_pending_msg (record { key = hdr.tag; requesting_id = rid }) in
      (
        with_nodes m
            (set s.node_manager (get_nex_id lib_id a) (
              send_to m
                (m.of_string (codes "__NEX_SNDDATA__")
                  ∷ m.of_string key
                  ∷ add_string_top m (get_accel_id lib_id a) payload)
                an))
            (with_pending m (add_pending_message bridge_variant key pmsg s.pending_msgs) s),
        rw (er, ea, e0, e1, m.string_of-of_string lib_id, en) refl,
        refl,
        get_ids-add_pending_message bridge_variant key key pmsg s.pending_msgs fresh
            ∙ rw (==_refl key) refl,
      )

  -- What a process receives for data that it has sent: a response to the key, with the data.
  abbrev pub received : Text → Text → List Frame → List Frame
  received rid key payload =
      map m.of_string (rid ∷ codes "__ACCEL_RESPONSE__" ∷ codes "__ACCEL_RECV_DATA__" ∷ key ∷ [])
      ++ payload

  -- What a nexus returns under a key goes, without the three frames of its tag, to the process that
  -- waits under the key, headed by that process's own key. The other requests keep waiting.
  pub accel_recv-routes :
      (lib_id rid : Text) (f0 f1 f2 : Frame) (payload : List Frame) (hdr : AccelHeader)
      (s : Service m)
      → get_ids bridge_variant hdr.tag s.pending_msgs ≡ (lib_id, rid)
      → (s' : Service m) × (accel_recv m hdr (f0 ∷ f1 ∷ f2 ∷ payload) s
          ≡ some (received rid lib_id payload ∷ [], s'))
        × ((j : Text)
            → j ≢ hdr.tag
            → j ≢ []
            → get_ids bridge_variant j s'.pending_msgs ≡ get_ids bridge_variant j s.pending_msgs)
  unfolding accel_recv pop_frames reroute_waitable_message add_raw_data_top
  accel_recv-routes lib_id rid f0 f1 f2 payload hdr s h = (
    with_pending m (remove_message bridge_variant hdr.tag s.pending_msgs) s,
    rw h refl,
    λ j ne filled. get_ids-remove_message bridge_variant hdr.tag j s.pending_msgs ne filled,
  )
