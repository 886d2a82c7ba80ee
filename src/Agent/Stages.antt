-- ===== src/Agent/Stages.antt =====
-- virtualization_agent/common: what each service makes of a request to send data, one by one.
use multi_agent_accelerator.Agent.{
  Arg, BaseData, HeaderInfo, Holders, Packet, PicoCtrl, PktGen, RecvPayload, TargetSock,
  device_request, device_response, generate, new_packet, pico_lookup, recv_payload, send_payload,
  system_request, system_response,
}
use multi_agent_accelerator.Agent.Behind.{
  emplace-behind, find-behind, opt_generate-behind, try_remove-used, with_packet-behind,
}
use multi_agent_accelerator.Agent.Requests.{
  col_send_req, device_action, device_send_req, device_step, process_rpc, read_send, req_action,
  submit_request,
}
use multi_agent_accelerator.Agent.Services.{
  Collage, forward_data, forward_dev_req, forward_sys_resp, get_base_data, get_header_from_tid,
  push, remove_packet, set_data, set_header, system_req_action, system_req_step, system_resp_action,
  system_resp_step,
}
use multi_agent_accelerator.Kernels.{KernelDb}
use multi_agent_accelerator.Kernels.Clines.{KernelDescs}
use multi_agent_accelerator.Prelude.{
  ==_refl, Bool, IsBelow, List, Option, Text, [], arith, codes, false, find, nat_eq, none, refl,
  some, true, ℕ, ◌%◌, ◌++◌, ◌+◌, ◌<◌, ◌∷◌, ◌≡◌, ◌≤◌,
}
use multi_agent_accelerator.Wire.{Multipart}

-- A service without a request under way.
abbrev pub idle :
    PktGen → ℕ → KernelDb KernelDescs Text → Text → List (ℕ × Text × List Arg) → Collage
idle gen capacity kernel_db addr submitted = record {
  pktgen = gen;
  capacity = capacity;
  req_system = [];
  req_device = [];
  resp_system = [];
  resp_device = [];
  system_shutdown = false;
  device_shutdown = false;
  kernel_db = kernel_db;
  external_address = addr;
  submitted = submitted;
}

push-room : (capacity tid : ℕ) → 0 < capacity → push capacity tid [] ≡ tid ∷ []
push-room capacity tid h = ground arith

-- A request to send data: the number that its first packet gets, the packets that are kept, what
-- the request says, and what the memory of each packet that is made for it has in its flag.
pub record Setting : Type 0 where
  pub n : ℕ
  pub hs : Holders
  pub earlier : IsBelow n hs
  pub ts : TargetSock
  pub key : Text
  pub resource : Text
  pub args : List Arg
  pub m0 : Bool
  pub m1 : Bool
  pub m2 : Bool
  pub m3 : Bool
  pub capacity : ℕ
  pub room : 0 < capacity
  pub kernel_db : KernelDb KernelDescs Text
  pub addr : Text

module _ (x : Setting) where
  open x use {
    n, hs, earlier, ts, key, resource, args, m0, m1, m2, m3, capacity, room, kernel_db, addr,
  }

  abbrev pub crh : HeaderInfo
  crh = record { method = PicoCtrl.send; source = ts; key = key }

  abbrev pub request : ℕ → Packet
  request count = record {
    kind = system_request;
    deferred = m0;
    successor_count = count;
    predecessor = none;
    header = some crh;
    base_data = some (send_payload resource args);
    dev_data = [];
  }

  abbrev pub dev_request : Bool → ℕ → ℕ → Packet
  dev_request deferred a count = record {
    kind = device_request;
    deferred = deferred;
    successor_count = count;
    predecessor = some a;
    header = some crh;
    base_data = none;
    dev_data = [];
  }

  abbrev pub response : Bool → ℕ → ℕ → Option BaseData → Packet
  response deferred b count base_data = record {
    kind = device_response;
    deferred = deferred;
    successor_count = count;
    predecessor = some b;
    header = some crh;
    base_data = base_data;
    dev_data = [];
  }

  abbrev pub sys_response : Bool → ℕ → Packet
  sys_response deferred c = record {
    kind = system_response;
    deferred = deferred;
    successor_count = 0;
    predecessor = some c;
    header = some crh;
    base_data = none;
    dev_data = [];
  }

  abbrev pub service : ℕ → Holders → List (ℕ × Text × List Arg) → Collage
  service next t submitted =
      idle (record { running_id = next; holders = hs ++ t }) capacity kernel_db addr submitted

  module _ (submitted : List (ℕ × Text × List Arg)) where
    module _ {Frame : Type 0} (m : Multipart Frame) where
      pub submits :
          (req : List Frame)
          → read_send m req ≡ some (resource, args)
          → submit_request m m0 ts
              (m.of_string (codes "__REG_SEND__") ∷ m.of_string key ∷ req)
              (service n [] submitted)
            ≡ some
                (record (service ((n + 1) % 18446744073709551616) ((n, request 0) ∷ []) submitted) {
                  req_system = n ∷ [];
                })
      unfolding submit_request pico_lookup req_action col_send_req generate
      submits req read =
          rw
            (
              m.string_of-of_string (codes "__REG_SEND__"),
              m.string_of-of_string key,
              read,
              emplace-behind n n (new_packet system_request m0) hs [] earlier (omega arith),
              with_packet-behind n hs earlier n ((n + 1) % 18446744073709551616)
                  (λ p. set_data (send_payload resource args) (set_header crh p))
                  ((n, new_packet system_request m0) ∷ []) ((n, request 0) ∷ []) (omega arith)
                  (ground arith),
              push-room capacity n room,
            )
            refl

    pub system_forwards :
        (a b : ℕ)
        → n ≤ a
        → a < b
        → system_req_step m1
            (record (service b ((a, request 0) ∷ []) submitted) { req_system = a ∷ [] })
          ≡ some
              (record (service
                ((b + 1) % 18446744073709551616)
                ((a, request 1) ∷ (b, dev_request true a 0) ∷ [])
                submitted) { req_device = b ∷ [] })
    unfolding system_req_step get_header_from_tid system_req_action forward_dev_req remove_packet
    system_forwards a b h k =
        rw
          (
            find-behind n a hs ((a, request 0) ∷ []) earlier h,
            ==_refl a,
            opt_generate-behind n hs earlier device_request m1 a b (request 0) ((a, request 0) ∷ [])
                ((a, request 1) ∷ (b, dev_request m1 a 0) ∷ []) h (omega (arith, h, k))
                (ground (arith, k)) (ground (arith, k)),
            with_packet-behind n hs earlier b ((b + 1) % 18446744073709551616) forward_data
                ((a, request 1) ∷ (b, dev_request m1 a 0) ∷ [])
                ((a, request 1) ∷ (b, dev_request true a 0) ∷ []) (omega (arith, h, k))
                (ground (arith, k)),
            push-room capacity b room,
            try_remove-used n hs earlier a (request 1)
                ((a, request 1) ∷ (b, dev_request true a 0) ∷ []) h (ground arith) refl,
          )
          refl

    module _ (manifest : List Text) (dkp : List (ℕ × List ℕ)) (scanned : KernelDb KernelDescs Text)
        (a b c : ℕ) (h : n ≤ a) (k : a < b) (l : b < c) where
      abbrev pub at_device : Packet → Packet → Holders
      at_device q r = (a, request 1) ∷ (b, q) ∷ (c, r) ∷ []

      pub device_submits :
          device_step m2 manifest dkp scanned
            (record (service c ((a, request 1) ∷ (b, dev_request true a 0) ∷ []) submitted) {
              req_device = b ∷ [];
            })
          ≡ some (
              service
                ((c + 1) % 18446744073709551616)
                (at_device (dev_request true a 1) (response m2 b 0 none))
                (submitted ++ (c, resource, args) ∷ []))
      unfolding device_step get_header_from_tid device_action device_send_req get_base_data
          remove_packet
      device_submits =
          rw
            (
              find-behind n b hs ((a, request 1) ∷ (b, dev_request true a 0) ∷ []) earlier
                  (omega (arith, h, k)),
              found_b,
              opt_generate-behind n hs earlier device_response m2 b c (dev_request true a 0)
                  ((a, request 1) ∷ (b, dev_request true a 0) ∷ [])
                  (at_device (dev_request true a 1) (response m2 b 0 none)) (omega (arith, h, k))
                  (omega (arith, h, k, l)) (ground (arith, k, l)) (ground (arith, k, l)),
              find-behind n b hs (at_device (dev_request true a 1) (response m2 b 0 none)) earlier
                  (omega (arith, h, k)),
              found_b',
              find-behind n a hs (at_device (dev_request true a 1) (response m2 b 0 none)) earlier
                  h,
              ==_refl a,
              try_remove-used n hs earlier b (dev_request true a 1)
                  (at_device (dev_request true a 1) (response m2 b 0 none)) (omega (arith, h, k))
                  found_b' refl,
            )
            refl
        where
          found_b :
              find b ((a, request 1) ∷ (b, dev_request true a 0) ∷ []) ≡ some (dev_request true a 0)
          found_b = ground (arith, k)

          found_b' :
              find b (at_device (dev_request true a 1) (response m2 b 0 none))
              ≡ some (dev_request true a 1)
          found_b' = ground (arith, k)

      module _ (result : RecvPayload) where
        abbrev pub answered : Option BaseData
        answered = some (recv_payload result)

        pub device_returns :
            process_rpc c result (
              service
                ((c + 1) % 18446744073709551616)
                (at_device (dev_request true a 1) (response m2 b 0 none))
                submitted)
            ≡ some
                (record (service
                  ((c + 1) % 18446744073709551616)
                  (at_device (dev_request true a 1) (response m2 b 0 answered))
                  submitted) { resp_device = c ∷ [] })
        unfolding process_rpc
        device_returns =
            rw
              (
                find-behind n c hs (at_device (dev_request true a 1) (response m2 b 0 none)) earlier
                    (omega (arith, h, k, l)),
                found_c,
                with_packet-behind n hs earlier c ((c + 1) % 18446744073709551616)
                    (set_data (recv_payload result))
                    (at_device (dev_request true a 1) (response m2 b 0 none))
                    (at_device (dev_request true a 1) (response m2 b 0 answered))
                    (omega (arith, h, k, l)) (ground (arith, k, l)),
                push-room capacity c room,
              )
              refl
          where
            found_c :
                find c (at_device (dev_request true a 1) (response m2 b 0 none))
                ≡ some (response m2 b 0 none)
            found_c = ground (arith, k, l)

        module _ (d : ℕ) (o : c < d) where
          abbrev pub at_collage : Packet → Packet → Holders
          at_collage r t = (a, request 1) ∷ (b, dev_request true a 1) ∷ (c, r) ∷ (d, t) ∷ []

          pub system_returns :
              system_resp_step m3
                (record (service d
                  (at_device (dev_request true a 1) (response m2 b 0 answered))
                  submitted) { resp_device = c ∷ [] })
              ≡ some
                  (record (service
                    ((d + 1) % 18446744073709551616)
                    (at_collage (response m2 b 1 answered) (sys_response true c))
                    submitted) { resp_system = d ∷ [] })
          unfolding system_resp_step get_header_from_tid system_resp_action forward_sys_resp
              remove_packet
          system_returns =
              rw
                (
                  find-behind n c hs (at_device (dev_request true a 1) (response m2 b 0 answered))
                      earlier (omega (arith, h, k, l)),
                  found_c,
                  opt_generate-behind n hs earlier system_response m3 c d (response m2 b 0 answered)
                      (at_device (dev_request true a 1) (response m2 b 0 answered))
                      (at_collage (response m2 b 1 answered) (sys_response m3 c))
                      (omega (arith, h, k, l)) (omega (arith, h, k, l, o)) (ground (arith, k, l, o))
                      (ground (arith, k, l, o)),
                  with_packet-behind n hs earlier d ((d + 1) % 18446744073709551616) forward_data
                      (at_collage (response m2 b 1 answered) (sys_response m3 c))
                      (at_collage (response m2 b 1 answered) (sys_response true c))
                      (omega (arith, h, k, l, o)) (ground (arith, k, l, o)),
                  push-room capacity d room,
                  try_remove-used n hs earlier c (response m2 b 1 answered)
                      (at_collage (response m2 b 1 answered) (sys_response true c))
                      (omega (arith, h, k, l)) (ground (arith, k, l)) refl,
                )
                refl
            where
              found_c :
                  find c (at_device (dev_request true a 1) (response m2 b 0 answered))
                  ≡ some (response m2 b 0 answered)
              found_c = ground (arith, k, l)
