-- ===== src/Bridge/Service/Dispatch.antt =====
-- bridge_agent/src/accel_service.cc: `_add_nexresp_hdr`, the table of methods, and one message from
-- its header to the handler.
use multi_agent_accelerator.Bridge.Protocol.{
  AccelCtrl, AccelHeader, accel_header_of, accel_rolodex, get_accel_header, placeholder, pop_text,
  reverse_lookup,
}
use multi_agent_accelerator.Bridge.Service.Handlers.{
  accel_binit, accel_claim, accel_claim_resp, accel_finalize, accel_ninit, accel_ping, accel_recv,
  accel_rinit, accel_send, accel_shutdown, accel_sinit,
}
use multi_agent_accelerator.Bridge.Service.State.{Result, Service}
use multi_agent_accelerator.Prelude.{
  List, Option, Text, [], false, list_eq, map, nat_eq, none, refl, some, ℕ, ◌++◌, ◌==◌, ◌>>=◌, ◌∷◌,
  ◌≡◌,
}
use multi_agent_accelerator.Wire.{Multipart}

-- What the handlers take from outside: the random texts, the name of the host, and the sort.
pub record Outside : Type 0 where
  pub key : Text
  pub status_key : ℕ → Text
  pub hostname : Text
  pub sort : List (ℕ × ℕ) → List (ℕ × ℕ)

module _ {Frame : Type 0} (m : Multipart Frame) where
  -- The second frame of a nexus's answer is replaced by the index of its node.
  unfoldable pub add_nexresp_hdr : Text → List Frame → Option (List Frame)
  add_nexresp_hdr node_idx msg = do
    (method, msg1) ← pop_text m msg
    (nex_id, msg2) ← pop_text m msg1
    some (m.of_string method ∷ m.of_string node_idx ∷ msg2)

  -- `action_ctrl`, on the methods that `command_set` is filled with
  unfoldable pub action_ctrl : AccelCtrl → Outside → AccelHeader → List Frame → Service m → Result m
  action_ctrl AccelCtrl.ping o hdr req s = accel_ping m hdr s
  action_ctrl AccelCtrl.ninit o hdr req s = accel_ninit m o.hostname hdr req s
  action_ctrl AccelCtrl.sinit o hdr req s = accel_sinit m (o.status_key 0) hdr s
  action_ctrl AccelCtrl.rinit o hdr req s = accel_rinit m o.key hdr s
  action_ctrl AccelCtrl.binit o hdr req s = accel_binit m (o.status_key 0) req s
  action_ctrl AccelCtrl.updt_manifest o hdr req s = some ([], s)
  action_ctrl AccelCtrl.claim o hdr req s = accel_claim m o.sort o.key hdr req s
  action_ctrl AccelCtrl.claim_response o hdr req s = accel_claim_resp m hdr req s
  action_ctrl AccelCtrl.test o hdr req s = some ([], s)
  action_ctrl AccelCtrl.send o hdr req s = accel_send m o.key hdr req s
  action_ctrl AccelCtrl.recv o hdr req s = accel_recv m hdr req s
  action_ctrl AccelCtrl.nexus_rd o hdr req s = some ([], s)
  action_ctrl AccelCtrl.finalize o hdr req s = accel_finalize m o.key o.status_key hdr req s
  action_ctrl AccelCtrl.shutdown o hdr req s = accel_shutdown m s

  -- The body of `process_single`: the header is read, and its method's handler called.
  unfoldable pub process_message : Outside → List Frame → Service m → Result m
  process_message o msg s = do
    (hdr, req) ← get_accel_header m msg
    action_ctrl hdr.method o hdr req s

pub reverse_lookup-accel_rolodex : (c : AccelCtrl) → reverse_lookup (accel_rolodex c) ≡ some c
unfolding reverse_lookup
reverse_lookup-accel_rolodex AccelCtrl.ping = refl
reverse_lookup-accel_rolodex AccelCtrl.sinit = refl
reverse_lookup-accel_rolodex AccelCtrl.ninit = refl
reverse_lookup-accel_rolodex AccelCtrl.rinit = refl
reverse_lookup-accel_rolodex AccelCtrl.binit = refl
reverse_lookup-accel_rolodex AccelCtrl.send = refl
reverse_lookup-accel_rolodex AccelCtrl.recv = refl
reverse_lookup-accel_rolodex AccelCtrl.claim = refl
reverse_lookup-accel_rolodex AccelCtrl.shutdown = refl
reverse_lookup-accel_rolodex AccelCtrl.test = refl
reverse_lookup-accel_rolodex AccelCtrl.finalize = refl
reverse_lookup-accel_rolodex AccelCtrl.nexus_rd = refl
reverse_lookup-accel_rolodex AccelCtrl.updt_manifest = refl
reverse_lookup-accel_rolodex AccelCtrl.claim_response = refl

module _ {Frame : Type 0} (m : Multipart Frame) where
  -- The header of a process's request, and that of a nexus's answer behind which the index of the
  -- node has been put: the sender, the method and the tag come back as they were written.
  pub get_accel_header-written :
      (rid nex_id node_idx key : Text) (method : AccelCtrl) (payload : List Frame)
      → reverse_lookup rid ≡ none
      → (node_idx == placeholder) ≡ false
      → (get_accel_header m
            (map m.of_string (rid ∷ accel_rolodex method ∷ placeholder ∷ key ∷ []) ++ payload)
          ≡ some (
            record { requesting_id = some rid; method = method; requesting_nex = none; tag = key },
            payload,
          ))
        × ((add_nexresp_hdr m node_idx
                (map m.of_string (accel_rolodex method ∷ nex_id ∷ key ∷ []) ++ payload)
              >>= get_accel_header m)
            ≡ some (
              record {
                requesting_id = some placeholder;
                method = method;
                requesting_nex = some node_idx;
                tag = key;
              },
              payload,
            ))
  unfolding get_accel_header accel_header_of add_nexresp_hdr
  get_accel_header-written rid nex_id node_idx key method payload h ne = (
    rw
        (
          get_accel_header,
          m.string_of-of_string rid,
          m.string_of-of_string (accel_rolodex method),
          h,
          reverse_lookup-accel_rolodex method,
          accel_header_of,
          m.string_of-of_string key,
          m.string_of-of_string rid,
        )
        refl,
    rw
        (
          add_nexresp_hdr,
          m.string_of-of_string (accel_rolodex method),
          get_accel_header,
          m.string_of-of_string (accel_rolodex method),
          reverse_lookup-accel_rolodex method,
          accel_header_of,
          m.string_of-of_string node_idx,
          m.string_of-of_string key,
          ne,
        )
        refl,
  )
