-- ===== src/Bridge/Service/Barrier.antt =====
-- bridge_agent/src/accel_service.cc: the two barriers of an application. No process goes on after
-- its start until every nexus has sent its manifest, and none ends until all have finalized.
use multi_agent_accelerator.Bridge.Ads.{
  AdsState, finalized, find_adss, find_create_adss, is_all_ads_finalized,
}
use multi_agent_accelerator.Bridge.Anode.{Anode, is_fully_inited, post_init}
use multi_agent_accelerator.Bridge.Protocol.{
  AccelHeader, generate_status_msg, get_nexus_id, placeholder, start_response,
}
use multi_agent_accelerator.Bridge.Service.Handlers.{
  accel_binit, accel_finalize, accel_ninit, accel_rinit, finalize_pending, responses, string_at,
  ulong_at,
}
use multi_agent_accelerator.Bridge.Service.State.{
  Service, call_init_bridge, report_status, with_ads, with_checklist, with_nodes, with_pending,
}
use multi_agent_accelerator.Bridge.Status.{
  AppState, StatusAgent, completed, initialized, initializing, rank, update_status,
}
use multi_agent_accelerator.Pending.{
  add_pending_message, get_all_msgs_by_type, messages, of_alternative,
}
use multi_agent_accelerator.Pending.Bridge.{
  Alternative, PendingMsg, alternative_eq, alternative_of, bridge_variant, final_pending_msg,
  ids_of, init_pending_msg, same_iff,
}
use multi_agent_accelerator.Prelude.{
  All, All-map, Any, Any-append_left, Any-append_right, Bool, Bool-cases, List, Option-cases, Text,
  [], all_of, all_of_iff, ap, arith, false, codes, if◌then◌else◌, inl, inr, leb, length, list_eq,
  map, modify, nat_eq, refl, some, suc, sym, true, ℕ, ◌++◌, ◌↔◌, ◌||◌, ◌∙◌, ◌∷◌, ◌≡◌, ◌⊎◌,
}
use multi_agent_accelerator.Wire.{Multipart, finalize}
use multi_agent_accelerator.Wire.Frames.{get_strings}
use multi_agent_accelerator.Wire.Sections.{message}

module _ {Frame : Type 0} (m : Multipart Frame) where
  abbrev pub waiting : Alternative → List (Text × PendingMsg) → List PendingMsg
  waiting alt reg = messages bridge_variant (of_alternative bridge_variant alt reg)

  waiting-append :
      (alt : Alternative) (reg : List (Text × PendingMsg)) (key : Text) (msg : PendingMsg)
      → alternative_of msg ≡ alt
      → waiting alt (reg ++ (key, msg) ∷ []) ≡ waiting alt reg ++ msg ∷ []
  waiting-append alt [] key msg h = ground (arith, same_iff (alternative_of msg) alt)
  waiting-append alt (en ∷ reg) key msg h = ground (arith, waiting-append alt reg key msg)

  -- A process that starts before all nexuses have sent their manifests is not answered and waits;
  -- after that it is answered at once.
  pub accel_rinit-waits :
      (key rid : Text) (hdr : AccelHeader) (s : Service m)
      → hdr.requesting_id ≡ some rid
      → (s' : Service m) × (accel_rinit m key hdr s
          ≡ some (
            if is_fully_inited m s.node_manager
                then finalize m (start_response m rid hdr.tag) ∷ []
                else [],
            s',
          ))
        × (waiting Alternative.init s'.pending_msgs ≡ (
            if is_fully_inited m s.node_manager
            then waiting Alternative.init s.pending_msgs
            else waiting Alternative.init s.pending_msgs
              ++ init_pending_msg (record { key = hdr.tag; requesting_id = rid }) ∷ []))
  unfolding accel_rinit add_pending_message
  accel_rinit-waits key rid hdr s h =
      let ipmsg = init_pending_msg (record { key = hdr.tag; requesting_id = rid }) in
      let s1 = with_ads m (find_create_adss rid [] [] true s.data_steering).0 s in
      elim (Bool-cases (is_fully_inited m s.node_manager)) [
        | inl e ↦ (s1, rw (h, e) refl, rw e refl)
        | inr e ↦ (
          with_pending m (add_pending_message bridge_variant key ipmsg s.pending_msgs) s1,
          rw (h, e) refl,
          rw e (waiting-append Alternative.init s.pending_msgs key ipmsg refl),
        )
      ]

  -- The response to a request that waits: its requester, the method, and its key.
  abbrev pub response_of : PendingMsg → List Frame
  response_of msg =
      message m ((ids_of msg).1 ∷ codes "__ACCEL_RESPONSE__" ∷ placeholder ∷ (ids_of msg).0 ∷ []) []

  is_fully_inited_iff :
      (nodes : List (Anode m))
      → (is_fully_inited m nodes ≡ true) ↔ All (λ an. an.active ≡ true) nodes
  unfolding is_fully_inited
  is_fully_inited_iff nodes =
      all_of_iff (λ (an : Anode m). an.active) (λ an. (λ h. h, λ h. h)) nodes

  responses-response_of : (msgs : List PendingMsg) → responses m msgs ≡ map response_of msgs
  unfolding start_response
  responses-response_of [] = refl
  responses-response_of (msg ∷ msgs) = rw (responses-response_of msgs) refl

  -- While a nexus has not sent its manifest yet, another one's is taken in and nobody is answered.
  -- When the last has come, exactly the processes that wait to start are answered, each under its
  -- own key and in the order of the registry, and the bridge is initialized once more.
  pub accel_ninit-releases :
      (hostname : Text) (nid : ℕ) (clines : List Text) (nodes : List (Anode m)) (hdr : AccelHeader)
      (req : List Frame) (s : Service m)
      → get_nexus_id hdr ≡ some nid
      → get_strings m 0 0 req ≡ some clines
      → post_init m nid [] clines s.node_manager ≡ some nodes
      → (out : List (List Frame)) × (s' : Service m) × (accel_ninit m hostname hdr req s
          ≡ some (out, s'))
        × (s'.node_manager ≡ nodes)
        × ((¬ All (λ an. an.active ≡ true) nodes
              × (out ≡ [])
              × (s'.pending_msgs ≡ s.pending_msgs)
              × (s'.init_bridge_calls ≡ s.init_bridge_calls))
            ⊎ (All (λ an. an.active ≡ true) nodes
                × (out ≡ map response_of (waiting Alternative.init s.pending_msgs))
                × (s'.init_bridge_calls ≡ suc s.init_bridge_calls)))
  unfolding accel_ninit get_all_msgs_by_type
  accel_ninit-releases hostname nid clines nodes hdr req s en ec ep =
      let (init_msgs, pending) =
        get_all_msgs_by_type bridge_variant Alternative.init true s.pending_msgs in
      let s1 = with_nodes m nodes s in
      elim (Bool-cases (is_fully_inited m nodes)) [
        | inl e ↦ (
          responses m (waiting Alternative.init s.pending_msgs),
          call_init_bridge m (
              with_pending m pending
                (with_checklist m (modify hostname (λ b. true) s.bridge_checklist) s1)),
          rw (en, ec, ep, e) refl,
          refl,
          inr ((is_fully_inited_iff nodes).0 e, responses-response_of _, refl),
        )
        | inr e ↦ (
          [],
          s1,
          rw (en, ec, ep, e) refl,
          refl,
          inl (
            (λ h. let holds = (is_fully_inited_iff nodes).1 h in let bad : ⊥ = cc in elim bad [ ]),
            refl,
            refl,
            refl,
          ),
        )
      ]

  -- The response is among the messages.
  abbrev pub Answered : List (List Frame) → PendingMsg → Type 0
  Answered out msg = Any (λ o. response_of msg ≡ o) out

  finalize_pending-Answered :
      (status_key : ℕ → Text) (msgs : List PendingMsg) (s : Service m)
      → All (Answered (finalize_pending m status_key msgs s).0) msgs
  unfolding finalize_pending start_response
  finalize_pending-Answered status_key [] s = tt
  finalize_pending-Answered status_key (msg ∷ msgs) s =
      let (stat_msgs, s1) = report_status m completed (status_key (length msgs)) s in
      let out = (finalize_pending m status_key msgs s1).0 in
      (
        inl refl,
        All-map {P = Answered out}
            (λ later h. inr (Any-append_right (λ o. response_of later ≡ o) stat_msgs out h)) msgs
            (finalize_pending-Answered status_key msgs s1),
      )

  finalize_pending-data_steering :
      (status_key : ℕ → Text) (msgs : List PendingMsg) (s : Service m)
      → (finalize_pending m status_key msgs s).1.data_steering ≡ s.data_steering
  unfolding finalize_pending report_status
  finalize_pending-data_steering status_key [] s = refl
  finalize_pending-data_steering status_key (msg ∷ msgs) s =
      finalize_pending-data_steering status_key msgs
        (report_status m completed (status_key (length msgs)) s).1

  -- A process that finalizes is marked final. While others are not final yet, nothing is answered
  -- and its request waits behind the earlier ones; when it is the last, each process that waits is
  -- answered, and so is the process itself.
  pub accel_finalize-ends :
      (key rid : Text) (status_key : ℕ → Text) (rank : ℕ) (a : AdsState) (hdr : AccelHeader)
      (req : List Frame) (s : Service m)
      → hdr.requesting_id ≡ some rid
      → ulong_at m 0 req ≡ some rank
      → find_adss rid s.data_steering ≡ some a
      → (out : List (List Frame)) × (s' : Service m) × (accel_finalize m key status_key hdr req s
          ≡ some (out, s'))
        × (s'.data_steering ≡ modify rid finalized s.data_steering)
        × (((is_all_ads_finalized s'.data_steering ≡ false)
              × (out ≡ [])
              × (waiting Alternative.final s'.pending_msgs
                  ≡ waiting Alternative.final s.pending_msgs
                    ++ final_pending_msg (record { key = hdr.tag; requesting_id = rid }) ∷ []))
            ⊎ ((is_all_ads_finalized s'.data_steering ≡ true)
                × All (Answered out) (waiting Alternative.final s.pending_msgs)
                × Answered out (final_pending_msg (record { key = hdr.tag; requesting_id = rid }))))
  unfolding accel_finalize get_all_msgs_by_type add_pending_message start_response
  accel_finalize-ends key rid status_key rank a hdr req s er ea ef =
      let fpmsg = final_pending_msg (record { key = hdr.tag; requesting_id = rid }) in
      let s1 = with_ads m (modify rid finalized s.data_steering) s in
      let msgs = waiting Alternative.final s.pending_msgs in
      let own = response_of fpmsg ∷ [] in
      elim (Bool-cases (is_all_ads_finalized s1.data_steering)) [
        | inl e ↦ (
          (finalize_pending m status_key msgs s1).0 ++ own,
          (finalize_pending m status_key msgs s1).1,
          rw (er, ea, ef, e) refl,
          finalize_pending-data_steering status_key msgs s1,
          inr (
            ap is_all_ads_finalized (finalize_pending-data_steering status_key msgs s1) ∙ e,
            All-map
                (λ msg h.
                  Any-append_left (λ o. response_of msg ≡ o)
                    (finalize_pending m status_key msgs s1).0 own h)
                msgs (finalize_pending-Answered status_key msgs s1),
            Any-append_right (λ o. response_of fpmsg ≡ o) (finalize_pending m status_key msgs s1).0
                own (inl refl),
          ),
        )
        | inr e ↦ (
          [],
          with_pending m (add_pending_message bridge_variant key fpmsg s.pending_msgs) s1,
          rw (er, ea, ef, e) refl,
          refl,
          inl (e, refl, waiting-append Alternative.final s.pending_msgs key fpmsg refl),
        )
      ]

  report_status-state :
      (st : AppState) (key : Text) (s : Service m)
      → (report_status m st key s).1.stat_agent.state ≡ (update_status st s.stat_agent).state
  unfolding report_status generate_status_msg
  report_status-state st key s = elim (Option-cases (update_status st s.stat_agent).addr) [
    | inl e ↦ rw e refl
    | inr q ↦ rw q.1 refl
  ]

  report_status-checklist :
      (st : AppState) (key : Text) (s : Service m)
      → (report_status m st key s).1.bridge_checklist ≡ s.bridge_checklist
  unfolding report_status
  report_status-checklist st key s = refl

  update_status-initialized :
      (ready : Bool) (agent : StatusAgent)
      → leb 3 (rank (update_status (if ready then initialized else initializing) agent).state)
        ≡ leb 3 (rank agent.state) || ready
  unfolding update_status
  update_status-initialized true agent = ground arith
  update_status-initialized false agent = ground arith

  -- After a bridge has reported, the application counts as initialized if it did before, or if
  -- every bridge on the checklist has now reported.
  pub accel_binit-initialized :
      (status_key rbridge_hostname rbridge_job_id : Text) (req : List Frame) (s : Service m)
      → string_at m 0 req ≡ some rbridge_hostname
      → string_at m 1 req ≡ some rbridge_job_id
      → (out : List (List Frame)) × (s' : Service m) × (accel_binit m status_key req s
          ≡ some (out, s'))
        × (s'.bridge_checklist ≡ modify rbridge_hostname (λ b. true) s.bridge_checklist)
        × (leb 3 (rank s'.stat_agent.state)
            ≡ leb 3 (rank s.stat_agent.state) || all_of (λ bridge. bridge.1) s'.bridge_checklist)
  unfolding accel_binit
  accel_binit-initialized status_key rbridge_hostname rbridge_job_id req s eh ej =
      let checklist = modify rbridge_hostname (λ b. true) s.bridge_checklist in
      let ready = all_of (λ (bridge : Text × Bool). bridge.1) checklist in
      let st = if ready then initialized else initializing in
      let s1 = with_checklist m checklist s in
      (
        (report_status m st status_key s1).0,
        (report_status m st status_key s1).1,
        rw (eh, ej) refl,
        report_status-checklist st status_key s1,
        ap (λ x. leb 3 (rank x)) (report_status-state st status_key s1)
            ∙ update_status-initialized ready s.stat_agent
            ∙ ap
                (λ c.
                  leb 3 (rank s.stat_agent.state) || all_of (λ (bridge : Text × Bool). bridge.1) c)
                (sym (report_status-checklist st status_key s1)),
      )
