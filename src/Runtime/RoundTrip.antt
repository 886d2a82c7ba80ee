-- ===== src/Runtime/RoundTrip.antt =====
-- runtime_agent/src/mpi_proc_impl.cc: the packets of a request for a rank and of its reply, written
-- and read.
use multi_agent_accelerator.Prelude.{
  Text, [], ap, arith, length, none, refl, some, sym, ℕ, ◌<◌, ◌∙◌, ◌∷◌, ◌≡◌,
}
use multi_agent_accelerator.Runtime.{
  Mpi, PktViewer, form_header, get_data, get_single_data, pkt_builder, pkt_viewer, push_back_data,
  push_back_hdr,
}
use multi_agent_accelerator.Runtime.Ranks.{groupid_reply, groupid_request}

module _ (mpi : Mpi) where
  -- The reply to a request for a rank fits its size exactly, and whoever reads it finds the tag of
  -- the request and the rank. Both, and the number of MPI_INT, fit 32 bits.
  pub groupid_reply-read :
      (sys_tag claim src_rank tag : ℕ)
      → sys_tag < 4294967296
      → claim < 4294967296
      → mpi.mpi_int < 4294967296
      → (bytes : Text) × (v : PktViewer) × (groupid_reply mpi sys_tag claim ≡ some bytes)
        × (length bytes ≡ 32)
        × (pkt_viewer mpi src_rank tag bytes ≡ some v)
        × (v.prochdr.sys_tag ≡ sys_tag)
        × (get_single_data mpi 0 v ≡ some claim)
  unfolding groupid_reply form_header pkt_builder push_back_hdr push_back_data pkt_viewer
      get_single_data get_data
  groupid_reply-read sys_tag claim src_rank tag fits_tag fits_claim fits_int =
      let (a1, b1, c1, d1, e_tag) = mpi.four_bytes sys_tag in
      let (a2, b2, c2, d2, e_one) = mpi.four_bytes 1 in
      let (a3, b3, c3, d3, e_zero) = mpi.four_bytes 0 in
      let (a4, b4, c4, d4, e_int) = mpi.four_bytes mpi.mpi_int in
      let (a5, b5, c5, d5, e_claim) = mpi.four_bytes claim in
      let r_tag : mpi.int_of (a1 ∷ b1 ∷ c1 ∷ d1 ∷ []) ≡ sys_tag =
        ap mpi.int_of (sym e_tag) ∙ mpi.int_of-int_bytes sys_tag fits_tag in
      let r_one : mpi.int_of (a2 ∷ b2 ∷ c2 ∷ d2 ∷ []) ≡ 1 =
        ap mpi.int_of (sym e_one) ∙ mpi.int_of-int_bytes 1 (omega arith) in
      let r_int : mpi.int_of (a4 ∷ b4 ∷ c4 ∷ d4 ∷ []) ≡ mpi.mpi_int =
        ap mpi.int_of (sym e_int) ∙ mpi.int_of-int_bytes mpi.mpi_int fits_int in
      let r_claim : mpi.int_of (a5 ∷ b5 ∷ c5 ∷ d5 ∷ []) ≡ claim =
        ap mpi.int_of (sym e_claim) ∙ mpi.int_of-int_bytes claim fits_claim in
      let bytes : Text =
        a1 ∷ b1 ∷ c1 ∷ d1 ∷ a2 ∷ b2 ∷ c2 ∷ d2 ∷ a2 ∷ b2 ∷ c2 ∷ d2 ∷ a3 ∷ b3 ∷ c3 ∷ d3 ∷ a2 ∷ b2 ∷ c2
        ∷ d2 ∷ a4 ∷ b4 ∷ c4 ∷ d4 ∷ a2 ∷ b2 ∷ c2 ∷ d2 ∷ a5 ∷ b5 ∷ c5 ∷ d5 ∷ [] in
      (
        bytes,
        record {
          prochdr = record {
            sys_tag = sys_tag;
            msg_tag = tag;
            msg_src_rank = src_rank;
            seq_tag = 1;
            total_seqs = 1;
            method = mpi.int_of (a3 ∷ b3 ∷ c3 ∷ d3 ∷ []);
            num_sections = 1;
            types = mpi.mpi_int ∷ [];
            sizes = 1 ∷ [];
          };
          payload = a5 ∷ b5 ∷ c5 ∷ d5 ∷ [];
        },
        rw
            (
              mpi.type_size-mpi_int, e_tag, e_one, e_zero, e_one, e_int, mpi.type_size-mpi_int,
              e_claim,
            )
            refl,
        refl,
        rw (r_one, r_int, r_one, r_tag) refl,
        refl,
        rw (mpi.type_size-mpi_int, r_claim) refl,
      )

  -- The request for a rank says that it has a section, and has none: whoever reads it runs past its
  -- end, whatever its number is.
  pub groupid_request-unread :
      (id src_rank tag : ℕ)
      → (bytes : Text) × (groupid_request mpi id ≡ some bytes)
        × (pkt_viewer mpi src_rank tag bytes ≡ none)
  unfolding groupid_request pkt_builder pkt_viewer
  groupid_request-unread id src_rank tag =
      let (a1, b1, c1, d1, e_id) = mpi.four_bytes id in
      let (a2, b2, c2, d2, e_one) = mpi.four_bytes 1 in
      let (a3, b3, c3, d3, e_mid) = mpi.four_bytes 2 in
      let r_one : mpi.int_of (a2 ∷ b2 ∷ c2 ∷ d2 ∷ []) ≡ 1 =
        ap mpi.int_of (sym e_one) ∙ mpi.int_of-int_bytes 1 (omega arith) in
      (
        a1 ∷ b1 ∷ c1 ∷ d1 ∷ a2 ∷ b2 ∷ c2 ∷ d2 ∷ a2 ∷ b2 ∷ c2 ∷ d2 ∷ a3 ∷ b3 ∷ c3 ∷ d3 ∷ a2 ∷ b2 ∷ c2
            ∷ d2 ∷ [],
        rw (e_id, e_one, e_mid) refl,
        rw r_one refl,
      )
