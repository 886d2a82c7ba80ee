-- ===== src/Nexus/Frontend.antt =====
-- accelerator_agent/src/res_mgr_frontend.cc: the handlers of the nexus, and of nexus_hub.cc what is
-- sent for a reply. `none` stands for an exception or for undefined behaviour.
use multi_agent_accelerator.Bridge.Protocol.{
  AccelCtrl, accel_rolodex, placeholder, pop_text, start_accel_request,
}
use multi_agent_accelerator.Bridge.Service.Handlers.{bool_at, string_at}
use multi_agent_accelerator.Ncache.{add_resource}
use multi_agent_accelerator.Nexus.Trackers.{
  HwTracker, find_create_tracker, get_nex_cache_data, has_id, recommend_va, set_caches,
}
use multi_agent_accelerator.Pending.{Variant, add_pending_message, get_pending_message}
use multi_agent_accelerator.Pending.Bridge.{Base, empty_base}
use multi_agent_accelerator.Prelude.{
  Bool, EqualityComparable, List, Option, Text, [], arith, assign, codes, emplace, erase, false,
  find, find_if, if◌then◌else◌, list_eq, nat_eq, none, refl, some, suc, true, zero, ℕ, ◌++◌, ◌==◌,
  ◌>>=◌, ◌↔◌, ◌∷◌, ◌≡◌,
}
use multi_agent_accelerator.Resource.{Desc}
use multi_agent_accelerator.Wire.{
  Multipart, add_bool, add_raw_data_top, add_string_top, add_strings, finalize, int,
}
use multi_agent_accelerator.Wire.Frames.{pop_typ}

pub data NexusAlternative : Type 0 where
  nsend nrecv : NexusAlternative

-- `nsend_pending_msg` and `nrecv_pending_msg`, both a `_base_pending_msg` and no more
pub record NexusMsg : Type 0 where
  pub alternative : NexusAlternative
  pub base : Base

abbrev pub same_nexus : NexusAlternative → NexusAlternative → Bool
same_nexus nsend nsend = true
same_nexus nrecv nrecv = true
same_nexus _ _ = false

pub same_nexus_iff : (a b : NexusAlternative) → (same_nexus a b ≡ true) ↔ (a ≡ b)
same_nexus_iff a b = ground arith

instance abbrev pub nexus_alternative_eq : EqualityComparable NexusAlternative
nexus_alternative_eq = record { equal_to = same_nexus; equal_to_iff = same_nexus_iff }

-- `NPM`
abbrev pub nexus_variant : Variant NexusAlternative NexusMsg
nexus_variant = record {
  alternative = λ msg. msg.alternative;
  ids = λ msg. (msg.base.key, msg.base.requesting_id);
  moved_from = λ msg. record { alternative = msg.alternative; base = empty_base };
  moved_from_ids = λ msg. refl;
}

module _ {Frame : Type 0} (m : Multipart Frame) where
  -- `resmgr_frontend`: what the handlers below read and write. `_launch_bridge` runs a command: the
  -- parameters that it was given are kept.
  pub record Frontend : Type 0 where
    pub current_req_addr : Text
    pub current_key : Text
    pub hw_list : List HwTracker
    pub pending_msgs : List (Text × NexusMsg)
    pub claim_registry : List (Text × Text)
    pub bridge_registry : List (Text × Text)
    pub multi_reply_buffer : List (ℕ × List Frame)
    pub launched : List Text

  abbrev pub with_hw_list : List HwTracker → Frontend → Frontend
  with_hw_list v s = record {
    current_req_addr = s.current_req_addr;
    current_key = s.current_key;
    hw_list = v;
    pending_msgs = s.pending_msgs;
    claim_registry = s.claim_registry;
    bridge_registry = s.bridge_registry;
    multi_reply_buffer = s.multi_reply_buffer;
    launched = s.launched;
  }

  abbrev pub with_pending_msgs : List (Text × NexusMsg) → Frontend → Frontend
  with_pending_msgs v s = record {
    current_req_addr = s.current_req_addr;
    current_key = s.current_key;
    hw_list = s.hw_list;
    pending_msgs = v;
    claim_registry = s.claim_registry;
    bridge_registry = s.bridge_registry;
    multi_reply_buffer = s.multi_reply_buffer;
    launched = s.launched;
  }

  abbrev pub with_claim_registry : List (Text × Text) → Frontend → Frontend
  with_claim_registry v s = record {
    current_req_addr = s.current_req_addr;
    current_key = s.current_key;
    hw_list = s.hw_list;
    pending_msgs = s.pending_msgs;
    claim_registry = v;
    bridge_registry = s.bridge_registry;
    multi_reply_buffer = s.multi_reply_buffer;
    launched = s.launched;
  }

  abbrev pub with_bridges :
      List (Text × Text) → List Text → List (ℕ × List Frame) → Frontend → Frontend
  with_bridges bridges launched replies s = record {
    current_req_addr = s.current_req_addr;
    current_key = s.current_key;
    hw_list = s.hw_list;
    pending_msgs = s.pending_msgs;
    claim_registry = s.claim_registry;
    bridge_registry = bridges;
    multi_reply_buffer = replies;
    launched = launched;
  }

  -- The part of `action_ctrl` that notes where a request comes from.
  abbrev pub with_request : Text → Text → Frontend → Frontend
  with_request req_addr key s = record {
    current_req_addr = req_addr;
    current_key = key;
    hw_list = s.hw_list;
    pending_msgs = s.pending_msgs;
    claim_registry = s.claim_registry;
    bridge_registry = s.bridge_registry;
    multi_reply_buffer = s.multi_reply_buffer;
    launched = s.launched;
  }

  -- A handler's return value, its reply, and the state.
  abbrev pub Reply : Type 0
  Reply = Option (ℕ × List Frame × Frontend)

  -- The loop that takes lines off a message and adds each to a tracker's caches.
  unfoldable pub add_lines : ℕ → List Frame → List Desc → Option (List Desc)
  add_lines zero req caches = some caches
  add_lines (suc n) req caches = do
    (kcache, req') ← pop_text m req
    caches' ← add_resource kcache caches
    add_lines n req' caches'

  -- An end iterator is written through only if there is a line to add.
  unfoldable pub update_tracker : Text → ℕ → List Frame → List HwTracker → Option (List HwTracker)
  update_tracker id len req hw_list = elim (find_if (has_id id) hw_list) [
    | none ↦ elim len [ zero ↦ some hw_list | suc n ↦ none ]
    | some t ↦ do caches ← add_lines len req t.caches; some (set_caches id caches hw_list)
  ]

  unfoldable pub res_hwreg : ℕ → List Frame → List Frame → Frontend → Reply
  res_hwreg congestion req rep s = do
    (type1, req1) ← pop_typ m m.ushort_of req
    (len1, req2) ← pop_typ m m.ulong_of req1
    (addr, req3) ← pop_text m req2
    (type2, req4) ← pop_typ m m.ushort_of req3
    (len, req5) ← pop_typ m m.ulong_of req4
    hw_list ←
        update_tracker s.current_req_addr len req5
          (find_create_tracker s.current_req_addr addr congestion s.hw_list)
    some (0, rep, with_hw_list hw_list s)

  unfoldable pub res_hwupdate : List Frame → List Frame → Frontend → Reply
  res_hwupdate req rep s = do
    (type, req1) ← pop_typ m m.ushort_of req
    (len, req2) ← pop_typ m m.ulong_of req1
    hw_list ← update_tracker s.current_req_addr len req2 s.hw_list
    some (0, rep ++ m.of_string (codes "NX-UPDATE: OK") ∷ [], with_hw_list hw_list s)

  unfoldable pub respond_with_manifest : AccelCtrl → Text → Frontend → List Frame
  respond_with_manifest method key s =
      finalize m (add_strings m (get_nex_cache_data s.hw_list) (start_accel_request m method key))

  -- The source bridge of a job gets a copy of the manifest, if it is local and known.
  abbrev pub answer_source :
      Text → Bool → List Frame → Frontend → Option Text → ℕ × List Frame × Frontend
  answer_source job_id is_local manifest s none = (0, manifest, s)
  answer_source job_id is_local manifest s (some src_bridge) =
      if is_local
      then (
        2,
        [],
        with_bridges (erase job_id s.bridge_registry) s.launched
            (s.multi_reply_buffer ++ (3, manifest) ∷ (4, m.of_string src_bridge ∷ manifest) ∷ []) s,
      )
      else (0, manifest, s)

  abbrev pub answer_jinit :
      Text → Bool → Bool → Text → Text → List Frame → Frontend → ℕ × List Frame × Frontend
  answer_jinit job_id is_local true bridge_parms key rep s = (
    0,
    [],
    with_bridges (assign job_id s.current_req_addr s.bridge_registry)
        (s.launched ++ bridge_parms ∷ []) s.multi_reply_buffer s,
  )
  answer_jinit job_id is_local false bridge_parms key rep s =
      answer_source job_id is_local (respond_with_manifest AccelCtrl.ninit key s) s
        (find job_id s.bridge_registry)

  -- Where the bridge is to be spawned, its starter waits for it; where it is there, it gets the
  -- manifest, and its starter, if it is local, gets a copy.
  unfoldable pub res_jinit : Text → List Frame → List Frame → Frontend → Reply
  res_jinit key req rep s = do
    job_id ← string_at m 0 req
    is_local ← bool_at m 1 req
    spawn_bridge ← bool_at m 2 req
    bridge_parms ← if spawn_bridge then string_at m 3 req else some []
    some (answer_jinit job_id is_local spawn_bridge bridge_parms key rep s)

  unfoldable pub res_claim : List Frame → Frontend → Reply
  res_claim req s = do
    resource_str ← string_at m 0 req
    some (
      0,
      finalize m (add_bool m true (start_accel_request m AccelCtrl.claim_response s.current_key)),
      with_claim_registry
          (emplace (s.current_req_addr ++ s.current_key) resource_str s.claim_registry) s,
    )

  -- `at` throws for a claim that is not registered.
  unfoldable pub res_nxsnddata :
      (List (Text × ℕ) → List (Text × ℕ)) → Text → List Frame → Frontend → Reply
  res_nxsnddata sort key req s = do
    acc_id ← string_at m 0 req
    resource_str ← find (s.current_req_addr ++ acc_id) s.claim_registry
    pico_address ← recommend_va sort resource_str s.hw_list
    (type, req1) ← pop_typ m m.ushort_of req
    (len, req2) ← pop_typ m m.ulong_of req1
    (skipped, req3) ← pop_text m req2
    let nspm : NexusMsg = record {
      alternative = nsend;
      base = record { key = s.current_key; requesting_id = s.current_req_addr };
    }
    some (
      1,
      add_raw_data_top m (key ∷ codes "__REG_SEND__" ∷ pico_address ∷ [])
          (add_string_top m resource_str req3),
      with_pending_msgs (add_pending_message nexus_variant key nspm s.pending_msgs) s,
    )

  -- `pushtyp<int>` makes the frame of the tag.
  unfoldable pub res_nxrecvdata : (ℕ → Frame) → List Frame → Frontend → Reply
  res_nxrecvdata of_int req s = do
    nspm ← get_pending_message nexus_variant nsend s.current_key s.pending_msgs
    some (
      1,
      add_raw_data_top m
          (nspm.base.key
            ∷ placeholder
            ∷ accel_rolodex AccelCtrl.recv
            ∷ nspm.base.requesting_id
            ∷ [])
          (m.of_ushort (multi_agent_accelerator.Wire.tag int) ∷ m.of_ulong 1 ∷ of_int 0 ∷ req),
      s,
    )

  -- nexus_hub.cc: the messages that go out for a handler's return value and reply.
  abbrev pub buffered : Text → List (ℕ × List Frame) → List (List Frame)
  buffered proc_addr [] = []
  buffered proc_addr (item ∷ items) =
      (if item.0 == 3 then m.of_string proc_addr ∷ item.1 else item.1) ∷ buffered proc_addr items

  unfoldable pub send_replies : Text → ℕ → List Frame → Frontend → List (List Frame) × Frontend
  send_replies proc_addr status [] s =
      if status == 2
      then (buffered proc_addr s.multi_reply_buffer, with_bridges s.bridge_registry s.launched [] s)
      else ([], s)
  send_replies proc_addr status (f ∷ reply) s =
      ((if status == 0 then m.of_string proc_addr ∷ f ∷ reply else f ∷ reply) ∷ [], s)
