-- ===== src/Runtime/Fits.antt =====
-- runtime_agent/src/mpi_proc_utils.cc: a whole packet, and the size that `form_header` computes.
use multi_agent_accelerator.Prelude.{
  ==_iff, Bool-cases, List, Text, [], ap, arith, inl, inr, leb, length, length-append, nat_eq, none,
  refl, some, true, ℕ, ◌*◌, ◌++◌, ◌+◌, ◌<◌, ◌==◌, ◌∙◌, ◌≡◌, ◌≤◌,
}
use multi_agent_accelerator.Runtime.{
  Mpi, PktBuilder, ProcMid, form_header, front_of_length, ints_bytes, mid_value, pack, pkt_builder,
  push_back_hdr, section_bytes,
}
use multi_agent_accelerator.Runtime.Bounds.{
  HaveData, as_int-fits, data_bytes, front_of_length-all, length-int_bytes, length-ints_bytes,
  pack-fits, pack-none, packet_of, push_all-fits, section_bytes-data_bytes,
}

module _ (mpi : Mpi) where
  form_header-same :
      (types sizes : List ℕ)
      → length types ≡ length sizes
      → data_bytes mpi types sizes + 4 * length types < 2147483648
      → form_header mpi types sizes
        ≡ some (data_bytes mpi types sizes + 4 * length types, types, sizes)
  unfolding form_header
  form_header-same types sizes h few =
      let total : section_bytes mpi types sizes 0
          ≡ some (data_bytes mpi types sizes + 4 * length types) =
        section_bytes-data_bytes mpi types sizes 0 h (omega (arith, few)) ∙ ap some (omega arith) in
      let e : (length types == length sizes) ≡ true = (==_iff _ _).1 h in rw (e, total) refl

  pkt_builder-packs :
      (method : ProcMid) (total_size stag argc : ℕ)
      → total_size + 20 < 2147483648
      → (packed : Text) × (length packed ≡ 20)
        × (pkt_builder mpi method total_size stag argc 1 1
            ≡ some (record {
              argc = argc;
              cur_push_index = 0;
              total_size = total_size + 20;
              types = [];
              sizes = [];
              packed = packed;
            }))
  unfolding pkt_builder
  pkt_builder-packs method total_size stag argc few =
      let p1 = mpi.int_bytes stag in
      let p2 = mpi.int_bytes 1 in
      let p4 = mpi.int_bytes (mid_value method) in
      let p5 = mpi.int_bytes argc in
      let len1 = length-int_bytes mpi stag in
      let len2 = length-int_bytes mpi 1 in
      let len4 = length-int_bytes mpi (mid_value method) in
      let len5 = length-int_bytes mpi argc in
      let b0 : PktBuilder = record {
        argc = argc;
        cur_push_index = 0;
        total_size = total_size + 20;
        types = [];
        sizes = [];
        packed = [];
      } in
      let b1 : PktBuilder = record b0 { packed = p1 } in
      let b2 : PktBuilder = record b0 { packed = p1 ++ p2 } in
      let b3 : PktBuilder = record b0 { packed = (p1 ++ p2) ++ p2 } in
      let b4 : PktBuilder = record b0 { packed = ((p1 ++ p2) ++ p2) ++ p4 } in
      let b5 : PktBuilder = record b0 { packed = (((p1 ++ p2) ++ p2) ++ p4) ++ p5 } in
      let len12 = length-append p1 p2 in
      let len123 = length-append (p1 ++ p2) p2 in
      let len1234 = length-append ((p1 ++ p2) ++ p2) p4 in
      let len12345 = length-append (((p1 ++ p2) ++ p2) ++ p4) p5 in
      let f1 : pack p1 b0 ≡ some b1 = pack-fits p1 b0 (omega (arith, len1)) in
      let f2 : pack p2 b1 ≡ some b2 = pack-fits p2 b1 (omega (arith, len1, len2)) in
      let f3 : pack p2 b2 ≡ some b3 = pack-fits p2 b2 (omega (arith, len1, len2, len12)) in
      let f4 : pack p4 b3 ≡ some b4 =
        pack-fits p4 b3 (omega (arith, len1, len2, len4, len12, len123)) in
      let f5 : pack p5 b4 ≡ some b5 =
        pack-fits p5 b4 (omega (arith, len1, len2, len4, len5, len12, len123, len1234)) in
      (
        b5.packed,
        omega (arith, len1, len2, len4, len5, len12, len123, len1234, len12345),
        rw (as_int-fits (total_size + 20) few, f1, f2, f3, f4, f5) refl,
      )

  -- A packet of sections that have their data, in a buffer of the size that is computed from its
  -- header and some bytes more, is packed exactly if there are four bytes more for each section. The
  -- size of the whole packet is an int, of 32 bits with a sign.
  pub packet_of-fits :
      (method : ProcMid) (extra stag : ℕ) (types sizes : List ℕ) (contents : List Text)
      → length types ≡ length sizes
      → HaveData mpi types sizes contents
      → data_bytes mpi types sizes + 4 * length types + extra + 20 < 2147483648
      → (4 * length types ≤ extra
          → (b : PktBuilder) × (packet_of mpi method extra stag types sizes contents ≡ some b))
        × (extra < 4 * length types → packet_of mpi method extra stag types sizes contents ≡ none)
  unfolding push_back_hdr
  packet_of-fits method extra stag types sizes contents same have few =
      let hdr = form_header-same types sizes same (omega (arith, few)) in
      let total = data_bytes mpi types sizes + 4 * length types + extra in
      let whole = as_int-fits total (omega (arith, few)) in
      let (packed, len, built) = pkt_builder-packs method total stag (length types) few in
      let ts = ints_bytes mpi types in
      let ss = ints_bytes mpi sizes in
      let len_t = length-ints_bytes mpi types in
      let len_s = length-ints_bytes mpi sizes in
      let b0 : PktBuilder = record {
        argc = length types;
        cur_push_index = 0;
        total_size = total + 20;
        types = [];
        sizes = [];
        packed = packed;
      } in
      let b1 : PktBuilder = record b0 { packed = packed ++ ts } in
      let b2 : PktBuilder = record b0 {
        packed = (packed ++ ts) ++ ss;
        types = types;
        sizes = sizes;
      } in
      let len_pt = length-append packed ts in
      let len_pts = length-append (packed ++ ts) ss in
      let all_types = front_of_length-all types in
      let all_sizes : front_of_length (length types) sizes ≡ some sizes =
        rw same (front_of_length-all sizes) in
      let f1 : pack ts b0 ≡ some b1 = pack-fits ts b0 (omega (arith, len, len_t)) in
      elim (Bool-cases (leb (length (packed ++ ts) + length ss) (total + 20))) [
        | inl e ↦
            let room : length (packed ++ ts) + length ss ≤ total + 20 = ground (arith, e) in
            let f2 = pack-fits ss b1 room in
            let hdr_packed : push_back_hdr mpi types sizes b0 ≡ some b2 =
              rw (all_types, f1, all_sizes, f2) refl in
            let datas =
              push_all-fits mpi types sizes contents b2 ([], [], refl, refl, refl, refl) have
                (omega (arith, room, len_pts)) in
            (
              λ h.
                  let (b', runs, _) =
                    datas.0 (omega (arith, h, len, len_t, len_s, len_pt, len_pts, same)) in
                  (b', rw (hdr, whole, built, hdr_packed) runs),
              λ h.
                  rw (hdr, whole, built, hdr_packed)
                    (datas.1 (omega (arith, h, len, len_t, len_s, len_pt, len_pts, same))),
            )
        | inr e ↦
            let over : total + 20 < length (packed ++ ts) + length ss = ground (arith, e) in
            let f2 = pack-none ss b1 over in
            let fails : push_back_hdr mpi types sizes b0 ≡ none =
              rw (all_types, f1, all_sizes, f2) refl in
            (
              λ h.
                  (let bad : ⊥ = omega (arith, h, over, len, len_t, len_s, len_pt, same) in
                    elim bad [ ]),
              λ h. rw (hdr, whole, built, fails) refl,
            )
      ]
