-- ===== src/Agent/Path.antt =====
-- virtualization_agent/common: a request's way through the services to the device manager, and the
-- way of the result back.
use multi_agent_accelerator.Agent.{
  Arg, BaseData, Holders, RecvPayload, TargetSock, done, recv_payload, try_remove,
}
use multi_agent_accelerator.Agent.Behind.{erase-behind, find-behind, remove_chain-behind}
use multi_agent_accelerator.Agent.Requests.{
  col_send_resp, device_step, pop_output, process_q_resp, process_rpc, read_send, resp_action,
  submit_request, write_outputs,
}
use multi_agent_accelerator.Agent.Services.{
  Collage, get_base_data, get_header_from_tid, remove_packet, system_req_step, system_resp_step,
}
use multi_agent_accelerator.Agent.Stages.{
  Setting, at_device, dev_request, device_returns, device_submits, idle, request, response, service,
  submits, sys_response, system_forwards, system_returns,
}
use multi_agent_accelerator.Bridge.Protocol.{start_nexus_request}
use multi_agent_accelerator.Kernels.{KernelDb}
use multi_agent_accelerator.Kernels.Clines.{KernelDescs}
use multi_agent_accelerator.Prelude.{
  Bool, IsBelow, List, Option, Text, [], ap, append-nil, append_assoc, arith, codes, erase, find,
  get_elem?-middle, length, length-append, length-reversed, nat_eq, none, refl, reversed,
  reversed-reversed, some, subst, suc, sym, true, ℕ, ◌%◌, ◌++◌, ◌+◌, ◌<◌, ◌>>=◌, ◌∙◌, ◌∷◌, ◌≡◌, ◌≤◌,
}
use multi_agent_accelerator.Wire.{Multipart, add_memblk, add_ulong, finalize}

module _ {Frame : Type 0} (m : Multipart Frame) where
  -- The blocks of a message, one behind the other.
  abbrev pub blocks : List Arg → List Frame → List Frame
  blocks [] msg = msg
  blocks (a ∷ args) msg =
      blocks args (add_memblk m a.sign a.type a.type_size a.bytes a.vector_size msg)

  write_outputs-back :
      (ys rest : List Arg) (msg : List Frame)
      → write_outputs m
          (length ys)
          (record { outputs = reversed ys ++ rest; arg_index = length ys })
          msg
        ≡ some (blocks ys msg)
  unfolding write_outputs pop_output
  write_outputs-back [] rest msg = refl
  write_outputs-back (y ∷ ys) rest msg =
      rw
        (
          append_assoc (reversed ys) (y ∷ []) rest,
          get_elem?-middle (reversed ys) y rest (length ys) (length-reversed ys),
        )
        (write_outputs-back ys (y ∷ rest)
          (add_memblk m y.sign y.type y.type_size y.bytes y.vector_size msg))

  -- The outputs are taken from the back.
  write_outputs-reversed :
      (outputs : List Arg) (msg : List Frame)
      → write_outputs m
          (length outputs)
          (record { outputs = outputs; arg_index = length outputs })
          msg
        ≡ some (blocks (reversed outputs) msg)
  write_outputs-reversed outputs msg =
      subst
        (λ os.
          write_outputs m (length os) (record { outputs = os; arg_index = length os }) msg
          ≡ some (blocks (reversed outputs) msg))
        (reversed-reversed outputs)
        (subst
          (λ n.
            write_outputs m n (record { outputs = reversed (reversed outputs); arg_index = n }) msg
            ≡ some (blocks (reversed outputs) msg))
          (sym (length-reversed (reversed outputs)))
          (subst
            (λ os.
              write_outputs m (length (reversed outputs))
                (record { outputs = os; arg_index = length (reversed outputs) }) msg
              ≡ some (blocks (reversed outputs) msg))
            (append-nil (reversed (reversed outputs)))
            (write_outputs-back (reversed outputs) [] msg)))

  -- The message that a result leaves in.
  abbrev pub recv_message : Text → List Arg → List Frame
  recv_message key outputs = finalize m (
      blocks (reversed outputs)
        (add_ulong m (length outputs) (start_nexus_request m (codes "__NEX_RECVDATA__") key)))

  module _ (outputs : List Arg) (few : length outputs < 65536) where
    abbrev pub result : RecvPayload
    result = record { outputs = outputs; arg_index = length outputs }

    writes : (key : Text) → col_send_resp m key result ≡ some (recv_message key outputs)
    unfolding col_send_resp
    writes key =
        let same : length outputs % 65536 ≡ length outputs = omega (arith, few) in
        rw
          (
            same,
            write_outputs-reversed outputs (
                add_ulong m (length outputs)
                  (start_nexus_request m (codes "__NEX_RECVDATA__") key)),
          )
          refl

    module _ (x : Setting) (a b c d : ℕ) (h : x.n ≤ a) (k : a < b) (l : b < c) (o : c < d) where
      abbrev answer : Option BaseData
      answer = some (recv_payload result)

      -- The last packet takes the others with it.
      removes :
          try_remove d (
            x.hs
            ++ (a, request x 1)
              ∷ (b, dev_request x true a 1)
              ∷ (c, response x x.m2 b 1 answer)
              ∷ (d, sys_response x true c)
              ∷ [])
          ≡ done x.hs
      unfolding try_remove
      removes =
          let t4 : Holders =
            (a, request x 1)
            ∷ (b, dev_request x true a 1)
            ∷ (c, response x x.m2 b 1 answer)
            ∷ (d, sys_response x true c)
            ∷ [] in
          let t3 : Holders =
            (a, request x 1) ∷ (b, dev_request x true a 1) ∷ (d, sys_response x true c) ∷ [] in
          let t2 : Holders = (a, request x 1) ∷ (d, sys_response x true c) ∷ [] in
          let t1 : Holders = (d, sys_response x true c) ∷ [] in
          let fuel : length (x.hs ++ t4) ≡ suc (suc (suc (suc (length x.hs)))) =
            omega (arith, length-append x.hs t4) in
          rw
            (
              find-behind x.n d x.hs t4 x.earlier (omega (arith, h, k, l, o)) ∙ found_d,
              try_remove,
              fuel,
              remove_chain-behind x.n x.hs x.earlier (suc (suc (suc (suc (length x.hs))))) c
                  (response x x.m2 b 1 answer) t4 t3 (omega (arith, h, k, l)) found_c refl
                  (ground (arith, k, l, o)),
              remove_chain-behind x.n x.hs x.earlier (suc (suc (suc (length x.hs)))) b
                  (dev_request x true a 1) t3 t2 (omega (arith, h, k)) (ground (arith, k)) refl
                  (ground (arith, k, l, o)),
              remove_chain-behind x.n x.hs x.earlier (suc (suc (length x.hs))) a (request x 1) t2 t1
                  h (ground arith) refl (ground (arith, k, l, o)),
            )
            (ap done (
              erase-behind x.n d x.hs t1 x.earlier (omega (arith, h, k, l, o))
              ∙ ap (λ t. x.hs ++ t) gone
              ∙ append-nil x.hs))
        where
          found_d :
              find d (
                (a, request x 1)
                ∷ (b, dev_request x true a 1)
                ∷ (c, response x x.m2 b 1 answer)
                ∷ (d, sys_response x true c)
                ∷ [])
              ≡ some (sys_response x true c)
          found_d = ground (arith, k, l, o)

          found_c :
              find c (
                (a, request x 1)
                ∷ (b, dev_request x true a 1)
                ∷ (c, response x x.m2 b 1 answer)
                ∷ (d, sys_response x true c)
                ∷ [])
              ≡ some (response x x.m2 b 1 answer)
          found_c = ground (arith, k, l, o)

          gone : erase d ((d, sys_response x true c) ∷ []) ≡ []
          gone = ground arith

      collage_returns :
          (next : ℕ) (submitted : List (ℕ × Text × List Arg))
          → process_q_resp m
              (record (service x next
                ((a, request x 1)
                  ∷ (b, dev_request x true a 1)
                  ∷ (c, response x x.m2 b 1 answer)
                  ∷ (d, sys_response x true c)
                  ∷ [])
                submitted) { resp_system = d ∷ [] })
            ≡ some (
              recv_message x.key outputs,
              x.ts,
              idle
                  (record { running_id = next; holders = x.hs })
                  x.capacity
                  x.kernel_db
                  x.addr
                  submitted,
            )
      unfolding process_q_resp get_header_from_tid resp_action get_base_data remove_packet
      collage_returns next submitted =
          let t4 : Holders =
            (a, request x 1)
            ∷ (b, dev_request x true a 1)
            ∷ (c, response x x.m2 b 1 answer)
            ∷ (d, sys_response x true c)
            ∷ [] in
          let found_d : find d t4 ≡ some (sys_response x true c) = ground (arith, k, l, o) in
          let found_c : find c t4 ≡ some (response x x.m2 b 1 answer) = ground (arith, k, l, o) in
          rw
            (
              find-behind x.n d x.hs t4 x.earlier (omega (arith, h, k, l, o)) ∙ found_d,
              find-behind x.n c x.hs t4 x.earlier (omega (arith, h, k, l)) ∙ found_c,
              writes x.key,
              removes,
            )
            refl

    -- The way there and back, from the stages.
    send-returns_at :
        (x : Setting) (submitted : List (ℕ × Text × List Arg)) (req : List Frame)
        (manifest : List Text) (dkp : List (ℕ × List ℕ)) (scanned : KernelDb KernelDescs Text)
        → x.n + 4 < 18446744073709551616
        → read_send m req ≡ some (x.resource, x.args)
        → (s : Collage) × (tid : ℕ) × ((do
          s1 ←
              submit_request m x.m0 x.ts
                (m.of_string (codes "__REG_SEND__") ∷ m.of_string x.key ∷ req)
                (idle
                  (record { running_id = x.n; holders = x.hs })
                  x.capacity
                  x.kernel_db
                  x.addr
                  submitted)
          s2 ← system_req_step x.m1 s1
          device_step x.m2 manifest dkp scanned s2)
            ≡ some s)
          × (s.submitted ≡ submitted ++ (tid, x.resource, x.args) ∷ [])
          × ((do s3 ← process_rpc tid result s; s4 ← system_resp_step x.m3 s3; process_q_resp m s4)
              ≡ some (
                recv_message x.key outputs,
                x.ts,
                idle
                    (record { running_id = x.n + 4; holders = x.hs })
                    x.capacity
                    x.kernel_db
                    x.addr
                    s.submitted,
              ))
    send-returns_at x submitted req manifest dkp scanned fits read =
        let n = x.n in
        let e1 : (n + 1) % 18446744073709551616 ≡ suc n = omega (arith, fits) in
        let e2 : (suc n + 1) % 18446744073709551616 ≡ suc (suc n) = omega (arith, fits) in
        let e3 : (suc (suc n) + 1) % 18446744073709551616 ≡ suc (suc (suc n)) =
          omega (arith, fits) in
        let e4 : (suc (suc (suc n)) + 1) % 18446744073709551616 ≡ n + 4 = omega (arith, fits) in
        let h : n ≤ n = omega arith in
        let k : n < suc n = omega arith in
        let l : suc n < suc (suc n) = omega arith in
        let o : suc (suc n) < suc (suc (suc n)) = omega arith in
        (
          service x ((suc (suc n) + 1) % 18446744073709551616)
              (at_device x submitted manifest dkp scanned n (suc n) (suc (suc n)) h k l
                (dev_request x true n 1) (response x x.m2 (suc n) 0 none))
              (submitted ++ (suc (suc n), x.resource, x.args) ∷ []),
          suc (suc n),
          rw
              (
                subst
                    (λ t.
                      submit_request m x.m0 x.ts
                        (m.of_string (codes "__REG_SEND__") ∷ m.of_string x.key ∷ req)
                        (idle (record { running_id = n; holders = t }) x.capacity x.kernel_db x.addr
                          submitted)
                      ≡ some
                          (record (service x ((n + 1) % 18446744073709551616)
                            ((n, request x 0) ∷ []) submitted) { req_system = n ∷ [] }))
                    (append-nil x.hs) (submits x submitted m req read),
                e1,
                system_forwards x submitted n (suc n) h k,
                e2,
                device_submits x submitted manifest dkp scanned n (suc n) (suc (suc n)) h k l,
              )
              refl,
          refl,
          rw
              (
                device_returns x (submitted ++ (suc (suc n), x.resource, x.args) ∷ []) manifest dkp
                    scanned n (suc n) (suc (suc n)) h k l result,
                e3,
                system_returns x (submitted ++ (suc (suc n), x.resource, x.args) ∷ []) manifest dkp
                    scanned n (suc n) (suc (suc n)) h k l result (suc (suc (suc n))) o,
                e4,
                collage_returns x n (suc n) (suc (suc n)) (suc (suc (suc n))) h k l o (n + 4)
                    (submitted ++ (suc (suc n), x.resource, x.args) ∷ []),
              )
              refl,
        )

    -- Data that a message asks to be sent, for a resource that can be read, reaches the device
    -- manager under a number, if all queues are empty and have room; of the arguments, as many as
    -- their number modulo 2 to the 16. What the manager returns for the number, fewer than 2 to the 16
    -- outputs, leaves in one message, the last output first, with the key and to the socket of the
    -- first message; no packet of the request is left then, and the others are as they were. The
    -- packets' flags may start as they like. The numbers of packets do not wrap.
    pub send-returns :
        (n : ℕ) (hs : Holders) (ts : TargetSock) (key resource : Text) (args : List Arg)
        (m0 m1 m2 m3 : Bool) (capacity : ℕ) (kernel_db : KernelDb KernelDescs Text) (addr : Text)
        (submitted : List (ℕ × Text × List Arg)) (req : List Frame) (manifest : List Text)
        (dkp : List (ℕ × List ℕ)) (scanned : KernelDb KernelDescs Text)
        → IsBelow n hs
        → 0 < capacity
        → n + 4 < 18446744073709551616
        → read_send m req ≡ some (resource, args)
        → (s : Collage) × (tid : ℕ) × ((do
          s1 ←
              submit_request m m0 ts
                (m.of_string (codes "__REG_SEND__") ∷ m.of_string key ∷ req)
                (idle (record { running_id = n; holders = hs }) capacity kernel_db addr submitted)
          s2 ← system_req_step m1 s1
          device_step m2 manifest dkp scanned s2)
            ≡ some s)
          × (s.submitted ≡ submitted ++ (tid, resource, args) ∷ [])
          × ((do s3 ← process_rpc tid result s; s4 ← system_resp_step m3 s3; process_q_resp m s4)
              ≡ some (
                recv_message key outputs,
                ts,
                idle
                    (record { running_id = n + 4; holders = hs })
                    capacity
                    kernel_db
                    addr
                    s.submitted,
              ))
    send-returns n hs ts key resource args m0 m1 m2 m3 capacity kernel_db addr submitted req
          manifest dkp scanned earlier room fits read =
        send-returns_at
          (record {
            n = n;
            hs = hs;
            earlier = earlier;
            ts = ts;
            key = key;
            resource = resource;
            args = args;
            m0 = m0;
            m1 = m1;
            m2 = m2;
            m3 = m3;
            capacity = capacity;
            room = room;
            kernel_db = kernel_db;
            addr = addr;
          })
          submitted req manifest dkp scanned fits read
