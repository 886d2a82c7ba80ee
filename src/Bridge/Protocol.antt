-- ===== src/Bridge/Protocol.antt =====
-- bridge_agent/api: the bridge's methods, its header, the status that it reports, and the first
-- frames of the messages between the agents (also runtime_agent/api and accelerator_agent/api).
use multi_agent_accelerator.Bridge.Status.{StatusAgent, to_string}
use multi_agent_accelerator.Prelude.{
  List, Option, Text, [], codes, false, find_if, if◌then◌else◌, leb, list_eq, ltb, nat_eq, none,
  not, some, ℕ, ◌&&◌, ◌*◌, ◌+◌, ◌-◌, ◌==◌, ◌>>=◌, ◌∷◌,
}
use multi_agent_accelerator.Wire.{Multipart, add_raw_data_top, zmsg_builder}

pub data AccelCtrl : Type 0 where
  ping sinit ninit rinit binit send recv claim shutdown test finalize nexus_rd updt_manifest
        claim_response :
      AccelCtrl

-- `accel_rolodex`
abbrev pub accel_rolodex : AccelCtrl → Text
accel_rolodex ping = codes "PING"
accel_rolodex ninit = codes "__ACCEL_NINIT"
accel_rolodex sinit = codes "__ACCEL_INIT_SA__"
accel_rolodex rinit = codes "__ACCEL_RINIT__"
accel_rolodex binit = codes "__ACCEL_BINIT__"
accel_rolodex updt_manifest = codes "__UPDATE_MANIFEST__"
accel_rolodex claim = codes "__ACCEL_CLAIM__"
accel_rolodex claim_response = codes "__ACCEL_CLAIM_RESP__"
accel_rolodex test = codes "__ACCEL_TEST__"
accel_rolodex nexus_rd = codes "__ACCEL_REDIRECT__"
accel_rolodex send = codes "__ACCEL_SEND__"
accel_rolodex recv = codes "__ACCEL_RECV__"
accel_rolodex shutdown = codes "__ACCEL_SHUTDOWN__"
accel_rolodex finalize = codes "__ACCEL_FINALIZE__"

-- `std::map` iterates in the order of the enumerators.
abbrev pub accel_ctrls : List AccelCtrl
accel_ctrls =
    ping ∷ sinit ∷ ninit ∷ rinit ∷ binit ∷ send ∷ recv ∷ claim ∷ shutdown ∷ test ∷ finalize
    ∷ nexus_rd ∷ updt_manifest ∷ claim_response ∷ []

-- `accel_utils::reverse_lookup`
unfoldable pub reverse_lookup : Text → Option AccelCtrl
reverse_lookup val = find_if (λ c. val == accel_rolodex c) accel_ctrls

abbrev pub placeholder : Text
placeholder = codes "PLACEHOLDER"

-- `accel_header`
pub record AccelHeader : Type 0 where
  pub requesting_id : Option Text
  pub method : AccelCtrl
  pub requesting_nex : Option Text
  pub tag : Text

abbrev pub digit : ℕ → Option ℕ
digit c = if leb 48 c && leb c 57 then some (c - 48) else none

unfoldable pub stoul_digits : ℕ → Text → ℕ
stoul_digits n [] = n
stoul_digits n (c ∷ s) = elim (digit c) [ none ↦ n | some d ↦ stoul_digits (n * 10 + d) s ]

-- `std::stoul` on a text that starts with a digit: it throws if there is none, and if the number
-- does not fit 64 bits.
unfoldable pub stoul : Text → Option ℕ
stoul [] = none
stoul (c ∷ s) = elim (digit c) [
  | none ↦ none
  | some d ↦ let n = stoul_digits d s in if ltb n 18446744073709551616 then some n else none
]

-- The test is on the requesting id; `value()` of an empty `requesting_nex` throws: `none`, as an
-- empty result does where it is used.
unfoldable pub get_nexus_id : AccelHeader → Option ℕ
get_nexus_id hdr = do rid ← hdr.requesting_id; nex ← hdr.requesting_nex; stoul nex

module _ {Frame : Type 0} (m : Multipart Frame) where
  -- The status message, if the state has changed since the last one and an address is known.
  unfoldable pub generate_status_msg : Text → StatusAgent → Option (List Frame) × StatusAgent
  generate_status_msg key agent = elim agent.addr [
    | none ↦ (none, agent)
    | some a ↦ (
      if agent.state_updated
          then some (
              multi_agent_accelerator.Wire.finalize m
                (zmsg_builder m (a ∷ to_string agent.state ∷ key ∷ [])))
          else none,
      record { addr = some a; state = agent.state; state_updated = false },
    )
  ]

  -- `client_utils::start_routed_message( ctrl::resp, {}, address, key )`
  unfoldable pub start_response : Text → Text → List Frame
  start_response address key =
      zmsg_builder m (address ∷ codes "__ACCEL_RESPONSE__" ∷ placeholder ∷ key ∷ [])

  -- `client_utils::reroute_waitable_message` for the method `recv`
  unfoldable pub reroute_waitable_message : Text → Text → List Frame → List Frame
  reroute_waitable_message client_addr key zmsg =
      add_raw_data_top m
        (key ∷ codes "__ACCEL_RECV_DATA__" ∷ codes "__ACCEL_RESPONSE__" ∷ client_addr ∷ []) zmsg

  -- `nexus_utils::start_request_message`, given the name of the method in `nexus_rolodex`
  unfoldable pub start_nexus_request : Text → Text → List Frame
  start_nexus_request method key = zmsg_builder m (method ∷ key ∷ [])

  -- `accel_utils::start_request_message`
  unfoldable pub start_accel_request : AccelCtrl → Text → List Frame
  start_accel_request method key = zmsg_builder m (accel_rolodex method ∷ placeholder ∷ key ∷ [])

  abbrev pub pop_text : List Frame → Option (Text × List Frame)
  pop_text [] = none
  pop_text (f ∷ msg) = some (m.string_of f, msg)

  -- The branches of `accel_service::get_header`, on the first two frames and what they are the names
  -- of. Where neither names a method, the code goes on with a header that is not initialized: `none`.
  unfoldable pub accel_header_of :
      Text
      → Text
      → Option AccelCtrl
      → Option AccelCtrl
      → List Frame
      → Option (AccelHeader × List Frame)
  accel_header_of pos1 pos2 (some c) lookup_pos2 msg = do
    (key, rest) ← pop_text msg
    some (
      record {
        requesting_id = some placeholder;
        method = c;
        requesting_nex = if not (pos2 == placeholder) then some pos2 else none;
        tag = key;
      },
      rest,
    )
  accel_header_of pos1 pos2 none (some c) msg = do
    (skipped, msg') ← pop_text msg
    (key, rest) ← pop_text msg'
    some (record { requesting_id = some pos1; method = c; requesting_nex = none; tag = key }, rest)
  accel_header_of pos1 pos2 none none msg = none

  -- `accel_service::get_header`
  unfoldable pub get_accel_header : List Frame → Option (AccelHeader × List Frame)
  get_accel_header msg = do
    (pos1, msg1) ← pop_text msg
    (pos2, msg2) ← pop_text msg1
    accel_header_of pos1 pos2 (reverse_lookup pos1) (reverse_lookup pos2) msg2
