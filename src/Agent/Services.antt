-- ===== src/Agent/Services.antt =====
-- virtualization_agent/common: the three services that a request passes, `collage` (collage.cc),
-- `system_services` and `device_services`, with what they share (basic_services.cc). They hand each
-- other the numbers of packets through bounded queues that drop what does not fit. `none` stands
-- for an exception or for undefined behaviour.
use multi_agent_accelerator.Agent.{
  Arg, BaseData, HeaderInfo, Holders, Packet, PicoCtrl, PktGen, Walk, alloc_resource,
  device_request, done, ident_resource, misc_string, opt_generate, reg_resource, send, sys_shutdown,
  system_response, try_remove, undefined, unfinished,
}
use multi_agent_accelerator.Kernels.{KernelDb}
use multi_agent_accelerator.Kernels.Clines.{KernelDescs, get_kernel_cline}
use multi_agent_accelerator.Prelude.{
  Bool, List, Option, Text, [], find, if◌then◌else◌, length, ltb, modify, nat_eq, none, some, true,
  ℕ, ◌++◌, ◌>>=◌, ◌∷◌,
}

-- `collage` with the threads and the store that it owns. What the device manager is given is kept.
pub record Collage : Type 0 where
  pub pktgen : PktGen
  pub capacity : ℕ
  pub req_system : List ℕ
  pub req_device : List ℕ
  pub resp_system : List ℕ
  pub resp_device : List ℕ
  pub system_shutdown : Bool
  pub device_shutdown : Bool
  pub kernel_db : KernelDb KernelDescs Text
  pub external_address : Text
  pub submitted : List (ℕ × Text × List Arg)

-- `boost::lockfree::queue::push`: where there is no room it fails, and nobody looks.
abbrev pub push : ℕ → ℕ → List ℕ → List ℕ
push capacity tid q = if ltb (length q) capacity then q ++ tid ∷ [] else q

unfoldable pub with_packet : ℕ → (Packet → Packet) → PktGen → PktGen
with_packet tid f gen = record gen { holders = modify tid f gen.holders }

-- `forward_data`
abbrev pub forward_data : Packet → Packet
forward_data p = record p { deferred = true }

abbrev pub set_data : BaseData → Packet → Packet
set_data d p = record p { base_data = some d }

abbrev pub set_header : HeaderInfo → Packet → Packet
set_header h p = record p { header = some h }

abbrev pub set_dev_data : List (ℕ × List ℕ) → Packet → Packet
set_dev_data d p = record p { dev_data = d }

-- `_get_base_data`: a packet that defers has the data of its predecessor. `value` of an empty
-- optional throws.
unfoldable pub get_base_data : ℕ → Holders → Option BaseData
get_base_data tid holders = do
  entry ← find tid holders
  let kept = (do pred ← entry.predecessor; pred_entry ← find pred holders; pred_entry.base_data)
  if entry.deferred then kept else entry.base_data

-- `get_method_from_tid` and `get_source_from_tid` read a header that has been set.
unfoldable pub get_header_from_tid : ℕ → Holders → Option HeaderInfo
get_header_from_tid tid holders = do entry ← find tid holders; entry.header

abbrev pub finished : Walk Holders → Option Holders
finished (done m) = some m
finished undefined = none
finished unfinished = none

-- The end of a handler: the packet is removed, if nothing was made from it.
unfoldable pub remove_packet : ℕ → Collage → Option Collage
remove_packet tid s = do
  m ← finished (try_remove tid s.pktgen.holders)
  some (record s { pktgen = record s.pktgen { holders = m } })

module _ (memory : Bool) where
  -- `basic_services::forward_dev_req`
  unfoldable pub forward_dev_req : ℕ → Collage → Option Collage
  forward_dev_req tid s = do
    (gen, new) ← opt_generate device_request memory (some tid) s.pktgen
    some (record s {
      pktgen = with_packet new forward_data gen;
      req_device = push s.capacity new s.req_device;
    })

  -- `basic_services::forward_sys_resp`
  unfoldable pub forward_sys_resp : ℕ → Collage → Option Collage
  forward_sys_resp tid s = do
    (gen, new) ← opt_generate system_response memory (some tid) s.pktgen
    some (record s {
      pktgen = with_packet new forward_data gen;
      resp_system = push s.capacity new s.resp_system;
    })

  -- `system_services::_register_resource_req`
  unfoldable pub register_resource_req : ℕ → Collage → Option Collage
  register_resource_req tid s = do
    (gen, new) ← opt_generate device_request memory (some tid) s.pktgen
    some (record s { pktgen = gen; req_device = push s.capacity new s.req_device })

  -- The loops of `system_services::_identify_resource_resp`.
  unfoldable pub kernel_clines : ℕ → List ℕ → KernelDb KernelDescs Text → Option (List Text)
  kernel_clines fid [] db = some []
  kernel_clines fid (func_id ∷ func_ids) db = do
    r ← get_kernel_cline fid func_id [] db
    rest ← kernel_clines fid func_ids db
    some (r.1 ∷ rest)

  unfoldable pub payload_clines : List (ℕ × List ℕ) → KernelDb KernelDescs Text → Option (List Text)
  payload_clines [] db = some []
  payload_clines (entry ∷ payload) db = do
    lines ← kernel_clines entry.0 entry.1 db
    rest ← payload_clines payload db
    some (lines ++ rest)

  unfoldable pub identify_resource_resp : ℕ → Collage → Option Collage
  identify_resource_resp tid s = do
    (gen, new) ← opt_generate system_response memory (some tid) s.pktgen
    dev_resp ← find tid gen.holders
    out_payload ← payload_clines dev_resp.dev_data s.kernel_db
    some (record s {
      pktgen = with_packet new (set_data (misc_string out_payload)) gen;
      resp_system = push s.capacity new s.resp_system;
    })

  -- `command_set.at( method )` of the system service; `at` throws for the other methods.
  unfoldable pub system_req_action : PicoCtrl → ℕ → Collage → Option Collage
  system_req_action reg_resource tid s = register_resource_req tid s
  system_req_action ident_resource tid s = forward_dev_req tid s
  system_req_action alloc_resource tid s = some s
  system_req_action send tid s = forward_dev_req tid s
  system_req_action _ tid s = none

  unfoldable pub system_resp_action : PicoCtrl → ℕ → Collage → Option Collage
  system_resp_action reg_resource tid s = forward_sys_resp tid s
  system_resp_action ident_resource tid s = identify_resource_resp tid s
  system_resp_action alloc_resource tid s = some s
  system_resp_action send tid s = forward_sys_resp tid s
  system_resp_action _ tid s = none

  -- `basic_services::operator()` of the system service, on the front of the collage's queue
  unfoldable pub system_req_step : Collage → Option Collage
  system_req_step s = elim s.req_system [
    | [] ↦ some s
    | tid ∷ rest ↦ do
      let s1 = record s { req_system = rest }
      hdr ← get_header_from_tid tid s.pktgen.holders
      s2 ← elim hdr.method [
        | sys_shutdown ↦ some (record s1 { system_shutdown = true })
        | method ↦ system_req_action method tid s1
      ]
      remove_packet tid s2
  ]

  -- The same on the front of the device service's queue.
  unfoldable pub system_resp_step : Collage → Option Collage
  system_resp_step s = elim s.resp_device [
    | [] ↦ some s
    | tid ∷ rest ↦ do
      let s1 = record s { resp_device = rest }
      hdr ← get_header_from_tid tid s.pktgen.holders
      s2 ← elim hdr.method [
        | sys_shutdown ↦ some (record s1 { system_shutdown = true })
        | method ↦ system_resp_action method tid s1
      ]
      remove_packet tid s2
  ]
