-- ===== src/Tests/Agent.antt =====
-- virtualization_agent/common at an agent that keeps two packets, one made from the other.
use multi_agent_accelerator.Agent.{
  Arg, Holders, Packet, PacketKind, PktGen, device_request, device_response, done, opt_generate,
  system_request, try_remove, tst_dealer, unfinished,
}
use multi_agent_accelerator.Agent.Consistency.{IsConsistent}
use multi_agent_accelerator.Agent.Consistency.Generate.{opt_generate-IsConsistent}
use multi_agent_accelerator.Agent.Consistency.Remove.{try_remove-IsConsistent}
use multi_agent_accelerator.Agent.Path.{recv_message, send-returns}
use multi_agent_accelerator.Agent.Removal.{try_remove-ends}
use multi_agent_accelerator.Agent.Requests.{
  device_step, process_q_resp, process_rpc, read_args, read_send, submit_request,
}
use multi_agent_accelerator.Agent.Services.{Collage, system_req_step, system_resp_step}
use multi_agent_accelerator.Agent.Stages.{idle}
use multi_agent_accelerator.Kernels.{KernelDb}
use multi_agent_accelerator.Kernels.Clines.{KernelDescs}
use multi_agent_accelerator.Prelude.{
  List, Option, Text, [], arith, codes, false, find, nat_eq, none, refl, some, true, ℕ, ◌>>=◌, ◌∷◌,
  ◌≡◌, ◌≢◌,
}
use multi_agent_accelerator.Resource.Logic.{set_rsign}
use multi_agent_accelerator.Split.{split_str}
use multi_agent_accelerator.Tests.Frames.{Frame, frames, text}
use multi_agent_accelerator.Wire.{add_memblk, add_string, add_ulong}
use multi_agent_accelerator.Wire.Frames.{
  get_memblk, get_section, pop_elements, pop_frames, read_block, read_blocks, read_section,
  read_sections, skip_any, skip_section,
}

abbrev kept : PacketKind → ℕ → Option ℕ → Packet
kept kind count source = record {
  kind = kind;
  deferred = false;
  successor_count = count;
  predecessor = source;
  header = none;
  base_data = none;
  dev_data = [];
}

abbrev two_packets : PktGen
two_packets = record {
  running_id = 3;
  holders = (1, kept system_request 1 none) ∷ (2, kept device_request 0 (some 1)) ∷ [];
}

two_packets-IsConsistent : IsConsistent two_packets
two_packets-IsConsistent = record {
  below = (omega arith, (omega arith, tt));
  is_map = (refl, (refl, tt));
  ordered = (tt, (omega arith, tt));
  counted = λ k. ground arith;
}

try_remove-IsConsistent_example :
    (m : Holders) × (try_remove 2 two_packets.holders ≡ done m)
    × IsConsistent (record { running_id = 3; holders = m })
    × (find 2 m ≡ none)
try_remove-IsConsistent_example =
    try_remove-IsConsistent 2 (kept device_request 0 (some 1)) two_packets two_packets-IsConsistent
      refl

-- The second packet takes the first with it.
both_removed : try_remove 2 two_packets.holders ≡ done []
unfolding try_remove
both_removed = refl

first_stays : try_remove 1 two_packets.holders ≡ done two_packets.holders
unfolding try_remove
first_stays = refl

opt_generate-IsConsistent_example :
    (gen' : PktGen) × (tid : ℕ) × (p : Packet) × (opt_generate device_response true
        (some 2)
        two_packets
      ≡ some (gen', tid))
    × IsConsistent gen'
    × (find tid two_packets.holders ≡ none)
    × (find tid gen'.holders ≡ some p)
    × (p.predecessor ≡ some 2)
opt_generate-IsConsistent_example =
    opt_generate-IsConsistent device_response true (some 2) two_packets two_packets-IsConsistent
      (kept device_request 0 (some 1), refl) (omega arith) (omega arith)

try_remove-ends_example : try_remove 2 two_packets.holders ≢ unfinished
try_remove-ends_example = try_remove-ends 2 two_packets.holders

abbrev matrix : Arg
matrix = record { sign = 1; type = 0; type_size = 4; vector_size = 2; bytes = codes "ABCDEFGH" }

abbrev vector : Arg
vector = record { sign = 1; type = 0; type_size = 4; vector_size = 1; bytes = codes "abcd" }

abbrev no_kernels : KernelDb KernelDescs Text
no_kernels = record { kernel_files = []; kf_cnt = 0 }

abbrev send_request : List Frame
send_request =
    add_memblk frames 1 0 4 (codes "ABCDEFGH") 2
      (add_ulong frames 1 (add_string frames (codes "sw_fid=gemm") []))

send_request-read : read_send frames send_request ≡ some (codes "sw_fid=gemm", matrix ∷ [])
unfolding read_send get_section pop_frames read_sections read_section add_memblk add_ulong
    add_string pop_elements skip_section read_args get_memblk read_blocks skip_any read_block
    set_rsign split_str
send_request-read = refl

send-returns_example :
    (s : Collage) × (tid : ℕ) × ((do
      s1 ←
          submit_request frames true tst_dealer
            (text (codes "__REG_SEND__") ∷ text (codes "k1") ∷ send_request)
            (idle two_packets 100 no_kernels (codes "host:1") [])
      s2 ← system_req_step false s1
      device_step true [] [] no_kernels s2)
      ≡ some s)
    × (s.submitted ≡ (tid, codes "sw_fid=gemm", matrix ∷ []) ∷ [])
    × ((do
      s3 ← process_rpc tid (record { outputs = matrix ∷ vector ∷ []; arg_index = 2 }) s
      s4 ← system_resp_step false s3
      process_q_resp frames s4)
        ≡ some (
          recv_message frames (codes "k1") (matrix ∷ vector ∷ []),
          tst_dealer,
          idle
              (record { running_id = 7; holders = two_packets.holders })
              100
              no_kernels
              (codes "host:1")
              s.submitted,
        ))
send-returns_example =
    send-returns frames (matrix ∷ vector ∷ []) (omega arith) 3 two_packets.holders tst_dealer
      (codes "k1") (codes "sw_fid=gemm") (matrix ∷ []) true false true false 100 no_kernels
      (codes "host:1") [] send_request [] [] no_kernels (omega arith, (omega arith, tt))
      (omega arith) (omega arith) send_request-read
