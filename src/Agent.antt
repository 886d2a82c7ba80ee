-- ===== src/Agent.antt =====
-- virtualization_agent/common: the packets of a virtualization agent (base_utils.h, the classes
-- device_request_t to system_response_t, payload_details.h) and the generator that numbers and
-- keeps them (generator_template.cc). A packet's number is the key that it is kept under.
use multi_agent_accelerator.Prelude.{
  Bool, List, Option, Text, [], codes, emplace, erase, find, find_if, if◌then◌else◌, length,
  list_eq, modify, nat_eq, none, some, suc, zero, ℕ, ◌%◌, ◌+◌, ◌-◌, ◌==◌, ◌>>=◌, ◌∷◌,
}
pub mod Removal
pub mod Consistency
pub mod Services
pub mod Requests
pub mod Behind
pub mod Stages
pub mod Path

-- `pico_utils::pico_ctrl`
pub data PicoCtrl : Type 0 where
  ping rollcall reg_resource ident_resource alloc_resource sys_shutdown send recv : PicoCtrl

abbrev pub pico_rolodex : PicoCtrl → Text
pico_rolodex ping = codes "PING"
pico_rolodex rollcall = codes "__REG_ROLLCALL__"
pico_rolodex reg_resource = codes "__REG_RESOURCE__"
pico_rolodex ident_resource = codes "__IDENTIFY_RESOURCE__"
pico_rolodex alloc_resource = codes "__ALLOC_RESOURCE__"
pico_rolodex sys_shutdown = codes "__SYS_SHUTDOWN__"
pico_rolodex send = codes "__REG_SEND__"
pico_rolodex recv = codes "__REG_RECV__"

-- `std::map` iterates in the order of the enumerators.
abbrev pub pico_ctrls : List PicoCtrl
pico_ctrls =
    ping ∷ rollcall ∷ reg_resource ∷ ident_resource ∷ alloc_resource ∷ sys_shutdown ∷ send ∷ recv
    ∷ []

-- `pico_utils::reverse_lookup` reads through the end iterator for a text that is no method: `none`.
unfoldable pub pico_lookup : Text → Option PicoCtrl
pico_lookup val = find_if (λ c. val == pico_rolodex c) pico_ctrls

pub data TargetSock : Type 0 where
  tst_none tst_rtr tst_dealer : TargetSock

-- `header_info`, the fields that are set
pub record HeaderInfo : Type 0 where
  pub method : PicoCtrl
  pub source : TargetSock
  pub key : Text

-- An `arg_header_t` with the bytes that its argument points to.
pub record Arg : Type 0 where
  pub sign : ℕ
  pub type : ℕ
  pub type_size : ℕ
  pub vector_size : ℕ
  pub bytes : Text

-- `recv_payload`: the outputs, and the index that `pop_arg` counts down
pub record RecvPayload : Type 0 where
  pub outputs : List Arg
  pub arg_index : ℕ

-- `base_req_resp::var_bdata_t`, less `register_payload`, which nothing makes
pub data BaseData : Type 0 where
  misc_string : List Text → BaseData
  send_payload : Text → List Arg → BaseData
  recv_payload : RecvPayload → BaseData
  identify_payload : Bool → List Text → BaseData

pub data PacketKind : Type 0 where
  device_request device_response system_request system_response : PacketKind

-- `base_req_resp`, with the `_dev_payload` of a device's response: for each file of kernels its
-- functions. A constructor leaves `_defer_to_predecesor` as the memory had it.
pub record Packet : Type 0 where
  pub kind : PacketKind
  pub deferred : Bool
  pub successor_count : ℕ
  pub predecessor : Option ℕ
  pub header : Option HeaderInfo
  pub base_data : Option BaseData
  pub dev_data : List (ℕ × List ℕ)

abbrev pub Holders : Type 0
Holders = List (ℕ × Packet)

-- `persistent_generator`
pub record PktGen : Type 0 where
  pub running_id : ℕ
  pub holders : List (ℕ × Packet)

abbrev pub new_packet : PacketKind → Bool → Packet
new_packet kind memory = record {
  kind = kind;
  deferred = memory;
  successor_count = 0;
  predecessor = none;
  header = none;
  base_data = none;
  dev_data = [];
}

-- `set_header` and the half of `link` that concerns the new packet
abbrev pub linked : Option HeaderInfo → ℕ → Packet → Packet
linked header source p = record p { predecessor = some source; header = header }

-- The counters are of 64 bits.
abbrev pub incr_refcount : Packet → Packet
incr_refcount p = record p { successor_count = (p.successor_count + 1) % 18446744073709551616 }

abbrev pub with_count : ℕ → Packet → Packet
with_count n p = record p { successor_count = n }

-- `generate`: the number, and the generator with the packet under it
unfoldable pub generate : PacketKind → Bool → PktGen → PktGen × ℕ
generate kind memory gen = (
  record {
    running_id = (gen.running_id + 1) % 18446744073709551616;
    holders = emplace gen.running_id (new_packet kind memory) gen.holders;
  },
  gen.running_id,
)

-- `opt_generate` from a number: `at` throws for a packet that is not kept.
unfoldable pub opt_generate : PacketKind → Bool → Option ℕ → PktGen → Option (PktGen × ℕ)
unfolding generate
opt_generate kind memory none gen = some (generate kind memory gen)
opt_generate kind memory (some source) gen = do
  let new = generate kind memory gen
  entry ← find source new.0.holders
  some (
    record {
      running_id = new.0.running_id;
      holders =
          modify source incr_refcount (modify new.1 (linked entry.header source) new.0.holders);
    },
    new.1,
  )

-- The result of a loop that is given fuel.
pub data Walk (A : Type 0) : Type 0 where
  done : A → Walk A
  undefined : Walk A
  unfinished : Walk A

-- `recur_decr_rem` at a packet that is kept: the predecessor to go on with, and what is kept.
unfoldable pub recur_decr_rem : ℕ → Packet → Holders → Option ℕ × Holders
recur_decr_rem ptid entry holders =
    let count = entry.successor_count - 1 in
    if count == 0
    then (entry.predecessor, erase ptid holders)
    else (none, modify ptid (with_count count) holders)

-- The loop of `try_remove`. Where a packet is not found, an empty optional is read to report it.
pub remove_chain : ℕ → Option ℕ → Holders → Walk Holders
remove_chain n none holders = done holders
remove_chain zero (some pred) holders = unfinished
remove_chain (suc n) (some pred) holders = elim (find pred holders) [
  | none ↦ undefined
  | some entry ↦ let r = recur_decr_rem pred entry holders in remove_chain n r.0 r.1
]

abbrev pub erase_in : ℕ → Walk Holders → Walk Holders
erase_in tid (done holders) = done (erase tid holders)
erase_in tid undefined = undefined
erase_in tid unfinished = unfinished

-- A packet that is not kept is a null pointer to `try_remove`. Every turn of the loop that is not
-- the last takes a packet away, so one turn more than there are packets is enough.
unfoldable pub try_remove : ℕ → Holders → Walk Holders
unfolding remove_chain recur_decr_rem
try_remove tid holders = elim (find tid holders) [
  | none ↦ undefined
  | some entry ↦
      if entry.successor_count == 0
      then erase_in tid (remove_chain (suc (length holders)) entry.predecessor holders)
      else done holders
]
