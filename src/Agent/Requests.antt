-- ===== src/Agent/Requests.antt =====
-- virtualization_agent/common: where messages come in and go out, `collage` (collage.cc), and the
-- device service (device_services.cc), which hands a request to the device manager.
use multi_agent_accelerator.Agent.{
  Arg, BaseData, HeaderInfo, Holders, Packet, PicoCtrl, RecvPayload, TargetSock, alloc_resource,
  device_response, generate, ident_resource, identify_payload, misc_string, opt_generate,
  pico_lookup, recv_payload, reg_resource, send, send_payload, sys_shutdown, system_request,
  tst_none,
}
use multi_agent_accelerator.Agent.Services.{
  Collage, get_base_data, get_header_from_tid, push, remove_packet, set_data, set_dev_data,
  set_header, with_packet,
}
use multi_agent_accelerator.Bridge.Protocol.{pop_text, start_nexus_request}
use multi_agent_accelerator.Bridge.Service.Handlers.{bool_at, string_at, ulong_at}
use multi_agent_accelerator.Kernels.{KernelDb}
use multi_agent_accelerator.Kernels.Clines.{KernelDescs}
use multi_agent_accelerator.Prelude.{
  Bool, List, Option, Text, [], codes, find, get_elem?, length, nat_eq, none, some, suc, true, zero,
  ℕ, ◌%◌, ◌++◌, ◌>>=◌, ◌∷◌,
}
use multi_agent_accelerator.Resource.Logic.{set_rsign}
use multi_agent_accelerator.Wire.{
  Multipart, add_memblk, add_string, add_strings, add_ulong, finalize, zmsg_builder,
}
use multi_agent_accelerator.Wire.Frames.{get_memblk, get_strings}

-- `std::get` of another alternative throws.
abbrev pub get_send : BaseData → Option (Text × List Arg)
get_send (send_payload resource args) = some (resource, args)
get_send _ = none

abbrev pub get_recv : BaseData → Option RecvPayload
get_recv (recv_payload outputs) = some outputs
get_recv _ = none

abbrev pub get_misc_string : BaseData → Option (List Text)
get_misc_string (misc_string lines) = some lines
get_misc_string _ = none

abbrev pub get_identify : BaseData → Option (Bool × List Text)
get_identify (identify_payload append dirs) = some (append, dirs)
get_identify _ = none

module _ (memory : Bool) where
  -- `device_services::_send_req`: the request is submitted under the number of its response.
  unfoldable pub device_send_req : ℕ → Collage → Option Collage
  device_send_req tid s = do
    (gen, new) ← opt_generate device_response memory (some tid) s.pktgen
    base ← get_base_data tid gen.holders
    payload ← get_send base
    some (record s { pktgen = gen; submitted = s.submitted ++ (new, payload.0, payload.1) ∷ [] })

  -- `device_services::_register_resource_req`, for the manifest of the device manager
  unfoldable pub device_register_req : List Text → ℕ → Collage → Option Collage
  device_register_req manifest tid s = do
    (gen, new) ← opt_generate device_response memory (some tid) s.pktgen
    some (record s {
      pktgen = with_packet new (set_data (misc_string (s.external_address ∷ manifest))) gen;
      resp_device = push s.capacity new s.resp_device;
    })

  -- `device_services::_identify_resource_req`. What the files of the directories have in them, and
  -- the table of kernels with it, are given.
  unfoldable pub device_identify_req :
      List (ℕ × List ℕ) → KernelDb KernelDescs Text → ℕ → Collage → Option Collage
  device_identify_req dkp kernel_db tid s = do
    base ← get_base_data tid s.pktgen.holders
    payload ← get_identify base
    (gen, new) ← opt_generate device_response memory (some tid) s.pktgen
    some (record s {
      pktgen = with_packet new (set_dev_data dkp) gen;
      resp_device = push s.capacity new s.resp_device;
      kernel_db = kernel_db;
    })

  module _ (manifest : List Text) (dkp : List (ℕ × List ℕ))
      (kernel_db : KernelDb KernelDescs Text) where
    unfoldable pub device_action : PicoCtrl → ℕ → Collage → Option Collage
    device_action reg_resource tid s = device_register_req manifest tid s
    device_action ident_resource tid s = device_identify_req dkp kernel_db tid s
    device_action alloc_resource tid s = some s
    device_action send tid s = device_send_req tid s
    device_action _ tid s = none

    -- `basic_services::operator()` of the device service, on the front of its queue
    unfoldable pub device_step : Collage → Option Collage
    device_step s = elim s.req_device [
      | [] ↦ some s
      | tid ∷ rest ↦ do
        let s1 = record s { req_device = rest }
        hdr ← get_header_from_tid tid s.pktgen.holders
        s2 ← elim hdr.method [
          | sys_shutdown ↦ some (record s1 { device_shutdown = true })
          | method ↦ device_action method tid s1
        ]
        remove_packet tid s2
    ]

-- `device_services::_process_rpc`, for a result of the device manager
unfoldable pub process_rpc : ℕ → RecvPayload → Collage → Option Collage
process_rpc tid result s = do
  entry ← find tid s.pktgen.holders
  elim entry.kind [
    | device_response ↦ some (record s {
      pktgen = with_packet tid (set_data (recv_payload result)) s.pktgen;
      resp_device = push s.capacity tid s.resp_device;
    })
    | _ ↦ none
  ]

-- `recv_payload::pop_output`: the index is counted down, and `at` throws past the end.
unfoldable pub pop_output : RecvPayload → Option (Arg × RecvPayload)
pop_output payload = elim payload.arg_index [
  | zero ↦ none
  | suc i ↦ do a ← get_elem? payload.outputs i; some (a, record payload { arg_index = i })
]

abbrev pub take {ℓ} : {A : Type ℓ} → ℕ → List A → List A
take zero xs = []
take (suc n) [] = []
take (suc n) (x ∷ xs) = x ∷ take n xs

module _ {Frame : Type 0} (m : Multipart Frame) where
  -- The loop of `_col_send_req` over the memory blocks of a request. The number of a block is handed
  -- over in 32 bits.
  unfoldable pub read_args : ℕ → ℕ → List Frame → Option (List Arg)
  read_args zero i req = some []
  read_args (suc n) i req = do
    b ← get_memblk m 0 (i % 4294967296) req
    rest ← read_args n (suc i) req
    some (
        record {
          sign = b.b_sign;
          type = b.b_type;
          type_size = b.type_size;
          vector_size = b.vector_size;
          bytes = b.content;
        }
        ∷ rest)

  -- The number of arguments is kept in 16 bits, and only as many are handed over. A resource that
  -- cannot be read makes `set_resource` throw, or is undefined.
  unfoldable pub read_send : List Frame → Option (Text × List Arg)
  read_send req = do
    resource ← string_at m 0 req
    nargs ← ulong_at m 1 req
    args ← read_args nargs 2 req
    sign ← set_rsign resource
    some (resource, take (length args % 65536) args)

  module _ (memory : Bool) (crh : HeaderInfo) where
    abbrev pub submit : (Packet → Packet) → Collage → Collage
    submit f s =
        let new = generate system_request memory s.pktgen in
        record s {
          pktgen = with_packet new.1 f new.0;
          req_system = push s.capacity new.1 s.req_system;
        }

    -- `_col_send_req`
    unfoldable pub col_send_req : List Frame → Collage → Option Collage
    col_send_req req s = do
      payload ← read_send req
      some (submit (λ p. set_data (send_payload payload.0 payload.1) (set_header crh p)) s)

    -- `_col_reg_resource_req`
    unfoldable pub col_reg_resource_req : Collage → Option Collage
    col_reg_resource_req s = some (submit (set_header crh) s)

    -- `_col_idn_resource_req`
    unfoldable pub col_idn_resource_req : List Frame → Collage → Option Collage
    col_idn_resource_req req s = do
      append ← bool_at m 0 req
      repo_dirs ← get_strings m 0 1 req
      some (submit (λ p. set_data (identify_payload append repo_dirs) (set_header crh p)) s)

    unfoldable pub req_action : List Frame → Collage → Option Collage
    req_action req s = elim crh.method [
      | reg_resource ↦ col_reg_resource_req s
      | ident_resource ↦ col_idn_resource_req req s
      | send ↦ col_send_req req s
      | _ ↦ none
    ]

  -- `submit_request`: an empty message is ignored.
  unfoldable pub submit_request : Bool → TargetSock → List Frame → Collage → Option Collage
  submit_request memory ts [] s = some s
  submit_request memory ts (f ∷ req) s = do
    method ← pico_lookup (m.string_of f)
    (key, req') ← pop_text m req
    req_action memory (record { method = method; source = ts; key = key }) req' s

  -- The loop of `_col_send_resp` over the outputs.
  unfoldable pub write_outputs : ℕ → RecvPayload → List Frame → Option (List Frame)
  write_outputs zero payload msg = some msg
  write_outputs (suc n) payload msg = do
    (a, payload') ← pop_output payload
    write_outputs n payload' (add_memblk m a.sign a.type a.type_size a.bytes a.vector_size msg)

  unfoldable pub col_send_resp : Text → RecvPayload → Option (List Frame)
  col_send_resp key payload = do
    let nargs = length payload.outputs % 65536
    let start = start_nexus_request m (codes "__NEX_RECVDATA__") key
    msg ← write_outputs nargs payload (add_ulong m nargs start)
    some (finalize m msg)

  -- There is no `raw_data[0]` without data.
  unfoldable pub col_reg_resource_resp : Text → List Text → Option (List Frame)
  col_reg_resource_resp key [] = none
  col_reg_resource_resp key (ext_addr ∷ lines) = some (
      finalize m (
        add_strings m lines
          (add_string m ext_addr (start_nexus_request m (codes "__HW_REGISTER__") key))))

  -- The job and the rank of the header are never set.
  unfoldable pub col_idn_resource_resp : List Text → List Frame
  col_idn_resource_resp lines =
      finalize m (add_strings m lines (zmsg_builder m ([] ∷ [] ∷ codes "__HW_UPDATE__" ∷ [])))

  unfoldable pub resp_action : HeaderInfo → ℕ → Holders → Option (List Frame)
  resp_action hdr tid holders = do
    base ← get_base_data tid holders
    elim hdr.method [
      | reg_resource ↦ (do lines ← get_misc_string base; col_reg_resource_resp hdr.key lines)
      | ident_resource ↦ (do lines ← get_misc_string base; some (col_idn_resource_resp lines))
      | send ↦ (do payload ← get_recv base; col_send_resp hdr.key payload)
      | _ ↦ none
    ]

  -- `process_q_resp`: the message that goes out, and the socket that it goes to.
  unfoldable pub process_q_resp : Collage → Option (List Frame × TargetSock × Collage)
  process_q_resp s = elim s.resp_system [
    | [] ↦ some ([], tst_none, s)
    | tid ∷ rest ↦ do
      hdr ← get_header_from_tid tid s.pktgen.holders
      resp ← resp_action hdr tid s.pktgen.holders
      s' ← remove_packet tid (record s { resp_system = rest })
      some (resp, hdr.source, s')
  ]
