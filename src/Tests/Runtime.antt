-- ===== src/Tests/Runtime.antt =====
-- Packets on a machine whose integers have their low byte first.
use multi_agent_accelerator.Prelude.{
  Text, [], arith, if◌then◌else◌, length, nat_eq, none, refl, some, ℕ, ◌%◌, ◌*◌, ◌+◌, ◌/◌, ◌<◌,
  ◌==◌, ◌∷◌, ◌≡◌, ◌≤◌,
}
use multi_agent_accelerator.Runtime.{
  Mpi, PktBuilder, PktViewer, get_single_data, pkt_viewer, response,
}
use multi_agent_accelerator.Runtime.Bounds.{packet_of}
use multi_agent_accelerator.Runtime.Fits.{packet_of-fits}
use multi_agent_accelerator.Runtime.Ranks.{groupid_reply}
use multi_agent_accelerator.Runtime.RoundTrip.{groupid_reply-read}

abbrev value : Text → ℕ
value [] = 0
value (b ∷ bytes) = b + 256 * value bytes

abbrev little_endian : Mpi
little_endian = record {
  int_bytes = λ n. n % 256 ∷ n / 256 % 256 ∷ n / 256 / 256 % 256 ∷ n / 256 / 256 / 256 ∷ [];
  int_of = λ bytes. value bytes;
  type_size = λ type. if type == 7 then 4 else 8;
  mpi_int = 7;
  four_bytes = λ n. (n % 256, n / 256 % 256, n / 256 / 256 % 256, n / 256 / 256 / 256, refl);
  int_of-int_bytes = λ n h. omega arith;
  type_size-mpi_int = refl;
}

groupid_reply-read_example :
    (bytes : Text) × (v : PktViewer) × (groupid_reply little_endian 77 12 ≡ some bytes)
    × (length bytes ≡ 32)
    × (pkt_viewer little_endian 3 100 bytes ≡ some v)
    × (v.prochdr.sys_tag ≡ 77)
    × (get_single_data little_endian 0 v ≡ some 12)
groupid_reply-read_example =
    groupid_reply-read little_endian 77 12 3 100 (omega arith) (omega arith) (omega arith)

packet_of-fits_example :
    (4 ≤ 4
      → (b : PktBuilder) × (packet_of little_endian response 4 77
            (7 ∷ [])
            (1 ∷ [])
            ((1 ∷ 2 ∷ 3 ∷ 4 ∷ []) ∷ [])
          ≡ some b))
    × (4 < 4
        → packet_of little_endian response 4 77 (7 ∷ []) (1 ∷ []) ((1 ∷ 2 ∷ 3 ∷ 4 ∷ []) ∷ [])
          ≡ none)
packet_of-fits_example =
    packet_of-fits little_endian response 4 77 (7 ∷ []) (1 ∷ []) ((1 ∷ 2 ∷ 3 ∷ 4 ∷ []) ∷ []) refl
      (omega arith, tt) (omega arith)
