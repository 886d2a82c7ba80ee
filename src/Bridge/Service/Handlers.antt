-- ===== src/Bridge/Service/Handlers.antt =====
-- bridge_agent/src/accel_service.cc: one function per `_accel_*_` handler.
use multi_agent_accelerator.Bridge.Ads.{
  finalized, find_adss, find_create_adss, get_accel_id, get_nex_id, is_all_ads_finalized,
  update_claim,
}
use multi_agent_accelerator.Bridge.Anode.{is_fully_inited, make_claim, post_init, send_data}
use multi_agent_accelerator.Bridge.Config.{get_function_header}
use multi_agent_accelerator.Bridge.Protocol.{
  AccelHeader, accel_rolodex, get_nexus_id, pop_text, reroute_waitable_message, start_response,
}
use multi_agent_accelerator.Bridge.Service.State.{
  Result, Service, call_init_bridge, report_status, with_ads, with_checklist, with_nodes,
  with_pending, with_status, with_stop,
}
use multi_agent_accelerator.Bridge.Status.{
  StatusAgent, completed, initialized, initializing, started,
}
use multi_agent_accelerator.Pending.{
  add_pending_message, get_all_msgs_by_type, get_ids, remove_message,
}
use multi_agent_accelerator.Pending.Bridge.{
  Alternative, PendingMsg, alternative_eq, bridge_variant, claim_pending_msg, final_pending_msg,
  ids_of, init_pending_msg, send_pending_msg,
}
use multi_agent_accelerator.Prelude.{
  Bool, List, Option, Text, [], all_of, codes, false, if◌then◌else◌, length, list_eq, modify,
  nat_eq, none, some, true, ℕ, ◌++◌, ◌>>=◌, ◌∷◌,
}
use multi_agent_accelerator.Wire.{
  Multipart, add_bool, add_raw_data_top, add_string_top, finalize, zmsg_builder,
}
use multi_agent_accelerator.Wire.Frames.{get_bools, get_strings, get_ulongs, pop_frames, pop_typ}

abbrev pub front {ℓ} : {A : Type ℓ} → List A → Option A
front [] = none
front (x ∷ xs) = some x

module _ {Frame : Type 0} (m : Multipart Frame) where
  -- `zmsgv.get_section<T>( index ).front()` of a viewer without a header
  abbrev pub string_at : ℕ → List Frame → Option Text
  string_at index msg = do vs ← get_strings m 0 index msg; front vs

  abbrev pub ulong_at : ℕ → List Frame → Option ℕ
  ulong_at index msg = do vs ← get_ulongs m 0 index msg; front vs

  abbrev pub bool_at : ℕ → List Frame → Option Bool
  bool_at index msg = do vs ← get_bools m 0 index msg; front vs

  unfoldable pub accel_ping : AccelHeader → Service m → Result m
  accel_ping hdr s = do
    rid ← hdr.requesting_id
    some (
      finalize m (
            zmsg_builder m
              (rid ∷ codes "__MPI_RESPONSE__" ∷ accel_rolodex hdr.method ∷ hdr.tag ∷ []))
          ∷ [],
      s,
    )

  unfoldable pub accel_binit : Text → List Frame → Service m → Result m
  accel_binit status_key req s = do
    rbridge_hostname ← string_at 0 req
    rbridge_job_id ← string_at 1 req
    let s' = with_checklist m (modify rbridge_hostname (λ b. true) s.bridge_checklist) s
    let bridges_rdy = all_of (λ bridge. bridge.1) s'.bridge_checklist
    some (report_status m (if bridges_rdy then initialized else initializing) status_key s')

  unfoldable pub accel_sinit : Text → AccelHeader → Service m → Result m
  accel_sinit status_key hdr s =
      let agent : StatusAgent = record {
        addr = hdr.requesting_id;
        state = s.stat_agent.state;
        state_updated = s.stat_agent.state_updated;
      } in
      some (report_status m started status_key (with_status m agent s))

  -- The responses to the requests that wait.
  abbrev pub responses : List PendingMsg → List (List Frame)
  responses [] = []
  responses (msg ∷ msgs) =
      let (key, rid) = ids_of msg in finalize m (start_response m rid key) ∷ responses msgs

  unfoldable pub accel_ninit : Text → AccelHeader → List Frame → Service m → Result m
  accel_ninit hostname hdr req s = do
    nid ← get_nexus_id hdr
    clines ← get_strings m 0 0 req
    nodes ← post_init m nid [] clines s.node_manager
    let s1 = with_nodes m nodes s
    some (
        if is_fully_inited m nodes
        then (let (init_msgs, pending) =
              get_all_msgs_by_type bridge_variant Alternative.init true s1.pending_msgs in
            let s2 =
              with_pending m pending
                (with_checklist m (modify hostname (λ b. true) s1.bridge_checklist) s1) in
            (responses init_msgs, call_init_bridge m s2))
        else ([], s1))

  unfoldable pub accel_rinit : Text → AccelHeader → Service m → Result m
  accel_rinit key hdr s = do
    rid ← hdr.requesting_id
    let s1 = with_ads m (find_create_adss rid [] [] true s.data_steering).0 s
    some (
        if is_fully_inited m s1.node_manager
        then (finalize m (start_response m rid hdr.tag) ∷ [], s1)
        else let ipmsg = init_pending_msg (record { key = hdr.tag; requesting_id = rid }) in
          ([], with_pending m (add_pending_message bridge_variant key ipmsg s1.pending_msgs) s1))

  -- The index of the nexus, a section of one element, is taken off the message.
  unfoldable pub accel_recv : AccelHeader → List Frame → Service m → Result m
  accel_recv hdr req s = do
    let (lib_key, rid) = get_ids bridge_variant hdr.tag s.pending_msgs
    req' ← pop_frames m 3 req
    some (
      reroute_waitable_message m rid lib_key req' ∷ [],
      with_pending m (remove_message bridge_variant hdr.tag s.pending_msgs) s,
    )

  unfoldable pub accel_send : Text → AccelHeader → List Frame → Service m → Result m
  accel_send key hdr req s = do
    rid ← hdr.requesting_id
    adss ← find_adss rid s.data_steering
    (mtype, req1) ← pop_typ m m.ushort_of req
    (len, req2) ← pop_typ m m.ulong_of req1
    (claim_id, req3) ← pop_text m req2
    let acc_id = get_accel_id claim_id adss
    let nid = get_nex_id claim_id adss
    let pmsg = send_pending_msg (record { key = hdr.tag; requesting_id = rid })
    let s1 = with_pending m (add_pending_message bridge_variant key pmsg s.pending_msgs) s
    let msg = add_raw_data_top m (key ∷ codes "__NEX_SNDDATA__" ∷ []) (add_string_top m acc_id req3)
    nodes ← send_data m nid msg s1.node_manager
    some ([], with_nodes m nodes s1)

  -- The loop over the processes that wait to finalize: each is answered, and the status reported.
  unfoldable pub finalize_pending :
      (ℕ → Text) → List PendingMsg → Service m → List (List Frame) × Service m
  finalize_pending status_key [] s = ([], s)
  finalize_pending status_key (msg ∷ msgs) s =
      let (l_key, l_rid) = ids_of msg in
      let (stat_msgs, s1) = report_status m completed (status_key (length msgs)) s in
      let (out, s2) = finalize_pending status_key msgs s1 in
      (finalize m (start_response m l_rid l_key) ∷ stat_msgs ++ out, s2)

  unfoldable pub accel_finalize :
      Text → (ℕ → Text) → AccelHeader → List Frame → Service m → Result m
  accel_finalize key status_key hdr req s = do
    rid ← hdr.requesting_id
    rank ← ulong_at 0 req
    adss ← find_adss rid s.data_steering
    let s1 = with_ads m (modify rid finalized s.data_steering) s
    some (
        if is_all_ads_finalized s1.data_steering
        then (let (final_msgs, pending) =
              get_all_msgs_by_type bridge_variant Alternative.final false s1.pending_msgs in
            let (out, s2) = finalize_pending status_key final_msgs s1 in
            (out ++ finalize m (start_response m rid hdr.tag) ∷ [], s2))
        else let fpmsg = final_pending_msg (record { key = hdr.tag; requesting_id = rid }) in
          ([], with_pending m (add_pending_message bridge_variant key fpmsg s1.pending_msgs) s1))

  unfoldable pub accel_shutdown : Service m → Result m
  accel_shutdown s = some ([], with_stop m true s)

  -- `none` for an alias that the configuration does not have. Whether a node took the claim is
  -- not looked at.
  unfoldable pub accel_claim :
      (List (ℕ × ℕ) → List (ℕ × ℕ)) → Text → AccelHeader → List Frame → Service m → Result m
  accel_claim sort acc_id hdr req s = do
    falias ← string_at 0 req
    fe_header ← get_function_header falias s.config_file
    rid ← hdr.requesting_id
    let cpm = claim_pending_msg (record { key = hdr.tag; requesting_id = rid }) []
    let s1 = with_pending m (add_pending_message bridge_variant acc_id cpm s.pending_msgs) s
    let s2 = with_ads m (find_create_adss rid hdr.tag acc_id true s1.data_steering).0 s1
    (status, nodes) ← make_claim m sort acc_id fe_header s2.node_manager
    some ([], with_nodes m nodes s2)

  unfoldable pub accel_claim_resp : AccelHeader → List Frame → Service m → Result m
  accel_claim_resp hdr req s = do
    nid ← get_nexus_id hdr
    activate ← bool_at 0 req
    let (lib_key, rid) = get_ids bridge_variant hdr.tag s.pending_msgs
    adss ← find_adss rid s.data_steering
    let s1 = with_ads m (modify rid (update_claim lib_key activate nid) s.data_steering) s
    some (
      finalize m (add_bool m activate (start_response m rid lib_key)) ∷ [],
      with_pending m (remove_message bridge_variant hdr.tag s1.pending_msgs) s1,
    )
