-- ===== src/Runtime.antt =====
-- runtime_agent/src/mpi_proc_utils.cc: the packets that the processes of an application send each
-- other over MPI. `MPI_Pack` and `MPI_Unpack` past the size of a buffer are errors, which end the
-- program: `none`. A position in a buffer is the number of bytes before it.
use multi_agent_accelerator.Prelude.{
  List, Option, Text, [], get_elem?, if◌then◌else◌, leb, length, ltb, nat_eq, none, some, suc, zero,
  ℕ, ◌*◌, ◌++◌, ◌+◌, ◌<◌, ◌==◌, ◌>>=◌, ◌∷◌, ◌≡◌,
}
pub mod Ranks
pub mod RoundTrip
pub mod Bounds
pub mod Fits

-- What the code takes from MPI and from the machine: the four bytes of an `int`, and the size of a
-- datatype, of which `MPI_INT` is one.
pub record Mpi : Type 0 where
  pub int_bytes : ℕ → Text
  pub int_of : Text → ℕ
  pub type_size : ℕ → ℕ
  pub mpi_int : ℕ
  pub four_bytes :
      (n : ℕ) → (a : ℕ) × (b : ℕ) × (c : ℕ) × (d : ℕ) × (int_bytes n ≡ a ∷ b ∷ c ∷ d ∷ [])
  pub int_of-int_bytes : (n : ℕ) → n < 4294967296 → int_of (int_bytes n) ≡ n
  pub type_size-mpi_int : type_size mpi_int ≡ 4

-- `mpi_proc_mid`
pub data ProcMid : Type 0 where
  response passthrough get_groupid : ProcMid

abbrev pub mid_value : ProcMid → ℕ
mid_value response = 0
mid_value passthrough = 1
mid_value get_groupid = 2

-- `proc_header`
pub record ProcHeader : Type 0 where
  pub sys_tag : ℕ
  pub msg_tag : ℕ
  pub msg_src_rank : ℕ
  pub seq_tag : ℕ
  pub total_seqs : ℕ
  pub method : ℕ
  pub num_sections : ℕ
  pub types : List ℕ
  pub sizes : List ℕ

-- `mpi_proc_pkt_builder`, with what has been packed
pub record PktBuilder : Type 0 where
  pub argc : ℕ
  pub cur_push_index : ℕ
  pub total_size : ℕ
  pub types : List ℕ
  pub sizes : List ℕ
  pub packed : Text

-- `mpi_proc_pkt_viewer`, with the bytes from `_data_start_pos` on
pub record PktViewer : Type 0 where
  pub prochdr : ProcHeader
  pub payload : Text

abbrev pub pack : Text → PktBuilder → Option PktBuilder
pack bytes b =
    if leb (length b.packed + length bytes) b.total_size
    then some (record b { packed = b.packed ++ bytes })
    else none

-- The first elements of a vector; past its end its memory is read.
abbrev pub front_of_length {ℓ} : {A : Type ℓ} → ℕ → List A → Option (List A)
front_of_length zero xs = some []
front_of_length (suc n) [] = none
front_of_length (suc n) (x ∷ xs) = do rest ← front_of_length n xs; some (x ∷ rest)

abbrev pub drop_from {ℓ} : {A : Type ℓ} → ℕ → List A → List A
drop_from zero xs = xs
drop_from (suc n) [] = []
drop_from (suc n) (x ∷ xs) = drop_from n xs

abbrev pub sum_of : List ℕ → ℕ
sum_of [] = 0
sum_of (n ∷ ns) = n + sum_of ns

-- The sizes are `int`s, of 32 bits. A sum that is none would be a negative size, which the model
-- does not go on with: `none`.
abbrev pub as_int : ℕ → Option ℕ
as_int n = if ltb n 2147483648 then some n else none

module _ (mpi : Mpi) where
  abbrev pub ints_bytes : List ℕ → Text
  ints_bytes [] = []
  ints_bytes (n ∷ ns) = mpi.int_bytes n ++ ints_bytes ns

  -- The loop of `form_header`: the data of a section, and one `int`. A product that is no `int` is
  -- undefined.
  abbrev pub section_bytes : List ℕ → List ℕ → ℕ → Option ℕ
  section_bytes [] sizes bytes = some bytes
  section_bytes (t ∷ types) [] bytes = some bytes
  section_bytes (t ∷ types) (n ∷ sizes) bytes = do
    len ← as_int (mpi.type_size t * n)
    bytes' ← as_int (bytes + (len + 4))
    section_bytes types sizes bytes'

  unfoldable pub form_header : List ℕ → List ℕ → Option (ℕ × List ℕ × List ℕ)
  form_header types sizes =
      let bytes = section_bytes types sizes 0 in
      if length types == length sizes
      then (do n ← bytes; some (n, types, sizes))
      else some (0, [], [])

  -- The constructor: five `int`s, for which the total size is raised.
  unfoldable pub pkt_builder : ProcMid → ℕ → ℕ → ℕ → ℕ → ℕ → Option PktBuilder
  pkt_builder method total_size stag argc seq_tag tot_seq = do
    total ← as_int (total_size + 20)
    let b0 : PktBuilder = record {
      argc = argc;
      cur_push_index = 0;
      total_size = total;
      types = [];
      sizes = [];
      packed = [];
    }
    b1 ← pack (mpi.int_bytes stag) b0
    b2 ← pack (mpi.int_bytes seq_tag) b1
    b3 ← pack (mpi.int_bytes tot_seq) b2
    b4 ← pack (mpi.int_bytes (mid_value method)) b3
    pack (mpi.int_bytes argc) b4

  unfoldable pub push_back_hdr : List ℕ → List ℕ → PktBuilder → Option PktBuilder
  push_back_hdr types sizes b = do
    ts ← front_of_length b.argc types
    b1 ← pack (ints_bytes ts) b
    ss ← front_of_length b.argc sizes
    b2 ← pack (ints_bytes ss) b1
    some (record b2 { types = types; sizes = sizes })

  -- `at` throws past the sections; the data is read for the section's size.
  unfoldable pub push_back_data : Text → PktBuilder → Option PktBuilder
  push_back_data content b = do
    size ← get_elem? b.sizes b.cur_push_index
    type ← get_elem? b.types b.cur_push_index
    bytes ← front_of_length (mpi.type_size type * size) content
    b1 ← pack bytes b
    some (record b1 { cur_push_index = b1.cur_push_index + 1 })

  -- `MPI_Unpack` of one `int`, and of several.
  abbrev pub unpack_int : Text → Option (ℕ × Text)
  unpack_int (a ∷ b ∷ c ∷ d ∷ rest) = some (mpi.int_of (a ∷ b ∷ c ∷ d ∷ []), rest)
  unpack_int _ = none

  abbrev pub unpack_ints : ℕ → Text → Option (List ℕ × Text)
  unpack_ints zero bytes = some ([], bytes)
  unpack_ints (suc n) bytes = do
    (v, rest) ← unpack_int bytes
    (vs, rest') ← unpack_ints n rest
    some (v ∷ vs, rest')

  -- The constructor, for a packet of the system, and `set_src_and_tag`.
  unfoldable pub pkt_viewer : ℕ → ℕ → Text → Option PktViewer
  pkt_viewer src_rank tag bytes = do
    (sys_tag, r1) ← unpack_int bytes
    (seq_tag, r2) ← unpack_int r1
    (total_seqs, r3) ← unpack_int r2
    (method, r4) ← unpack_int r3
    (nsections, r5) ← unpack_int r4
    (types, r6) ← unpack_ints nsections r5
    (sizes, r7) ← unpack_ints nsections r6
    some (record {
      prochdr = record {
        sys_tag = sys_tag;
        msg_tag = tag;
        msg_src_rank = src_rank;
        seq_tag = seq_tag;
        total_seqs = total_seqs;
        method = method;
        num_sections = nsections;
        types = types;
        sizes = sizes;
      };
      payload = r7;
    })

  -- `get_data`: the sizes before the section are added up as they are.
  unfoldable pub get_data : ℕ → PktViewer → Option Text
  get_data arg_index v = do
    before ← front_of_length arg_index v.prochdr.sizes
    size ← get_elem? v.prochdr.sizes arg_index
    type ← get_elem? v.prochdr.types arg_index
    front_of_length (mpi.type_size type * size) (drop_from (sum_of before) v.payload)

  unfoldable pub get_single_data : ℕ → PktViewer → Option ℕ
  unfolding get_data
  get_single_data arg_index v = do bytes ← get_data arg_index v; r ← unpack_int bytes; some r.0
