-- ===== src/Wire/Frames.antt =====
-- utils/src/zmsg_viewer.cc: the reads of a message. Each works on a copy, from its front.
-- Popping from an empty message is undefined, and a frame of the wrong size throws: `none`.
use multi_agent_accelerator.Prelude.{
  Bool, List, Option, Text, [], if◌then◌else◌, nat_eq, none, some, suc, zero, ℕ, ◌==◌, ◌>>=◌, ◌∷◌,
}
use multi_agent_accelerator.Wire.{Multipart, SectionType, bool, string, tag, ulong, zmsg}

module _ {Frame : Type 0} (m : Multipart Frame) where
  unfoldable pub pop_frames : ℕ → List Frame → Option (List Frame)
  pop_frames zero msg = some msg
  pop_frames (suc n) [] = none
  pop_frames (suc n) (f ∷ msg) = pop_frames n msg

  unfoldable pub pop_typ {ℓ} :
      {T : Type ℓ} → (Frame → Option T) → List Frame → Option (T × List Frame)
  pop_typ decode [] = none
  pop_typ decode (f ∷ msg) = do v ← decode f; some (v, msg)

  -- `insert_list`, called once for each element
  unfoldable pub pop_elements {ℓ} :
      {T : Type ℓ} → (Frame → Option T) → ℕ → List Frame → Option (List T)
  unfolding pop_typ
  pop_elements decode zero msg = some []
  pop_elements decode (suc n) msg = do
    (v, msg') ← pop_typ decode msg
    vs ← pop_elements decode n msg'
    some (v ∷ vs)

  -- `read_section( true )`; elements of another type are left in the message
  unfoldable pub read_section {ℓ} :
      {T : Type ℓ} → SectionType → (Frame → Option T) → List Frame → Option (List T)
  unfolding pop_typ
  read_section t decode msg = do
    (mtype, msg') ← pop_typ m.ushort_of msg
    (len, msg'') ← pop_typ m.ulong_of msg'
    if mtype == tag t then pop_elements decode len msg'' else some []

  -- `read_section( false )`
  unfoldable pub skip_section : List Frame → Option (List Frame)
  unfolding pop_typ
  skip_section msg = do
    (mtype, msg') ← pop_typ m.ushort_of msg
    (len, msg'') ← pop_typ m.ulong_of msg'
    pop_frames len msg''

  unfoldable pub read_sections {ℓ} :
      {T : Type ℓ} → SectionType → (Frame → Option T) → ℕ → List Frame → Option (List T)
  read_sections t decode zero msg = read_section t decode msg
  read_sections t decode (suc n) msg = do msg' ← skip_section msg; read_sections t decode n msg'

  -- `get_section<T>( index )`, for a header of the given length. The callers' numbers of sections are
  -- small constants, so that the 32 bits of the index do not show.
  unfoldable pub get_section {ℓ} :
      {T : Type ℓ} → SectionType → (Frame → Option T) → ℕ → ℕ → List Frame → Option (List T)
  get_section t decode header_length index msg = do
    msg' ← pop_frames header_length msg
    read_sections t decode index msg'

  abbrev pub get_strings : ℕ → ℕ → List Frame → Option (List Text)
  get_strings = get_section string (λ f. some (m.string_of f))

  abbrev pub get_ulongs : ℕ → ℕ → List Frame → Option (List ℕ)
  get_ulongs = get_section ulong m.ulong_of

  abbrev pub get_bools : ℕ → ℕ → List Frame → Option (List Bool)
  get_bools = get_section bool m.bool_of

  -- `get_header`, where every field of it is a string
  unfoldable pub get_header : ℕ → List Frame → Option (List Text)
  get_header n msg = pop_elements (λ f. some (m.string_of f)) n msg

  pub record Block : Type 0 where
    pub b_sign : ℕ
    pub b_type : ℕ
    pub type_size : ℕ
    pub vector_size : ℕ
    pub content : Text

  -- In `get_memblk` a block has four more frames behind its size.
  unfoldable pub skip_any : List Frame → Option (List Frame)
  unfolding pop_typ
  skip_any msg = do
    (mtype, msg') ← pop_typ m.ushort_of msg
    (len, msg'') ← pop_typ m.ulong_of msg'
    pop_frames (if mtype == tag zmsg then 4 else len) msg''

  unfoldable pub read_block : List Frame → Option Block
  unfolding pop_typ
  read_block msg = do
    (mtype, msg₁) ← pop_typ m.ushort_of msg
    (len, msg₂) ← pop_typ m.ulong_of msg₁
    (sign, msg₃) ← pop_typ m.ulong_of msg₂
    (type, msg₄) ← pop_typ m.ulong_of msg₃
    (size, msg₅) ← pop_typ m.ulong_of msg₄
    (mem, msg₆) ← pop_typ (λ f. some (m.string_of f)) msg₅
    some (record {
      b_sign = sign;
      b_type = type;
      type_size = size;
      vector_size = len;
      content = mem;
    })

  unfoldable pub read_blocks : ℕ → List Frame → Option Block
  read_blocks zero msg = read_block msg
  read_blocks (suc n) msg = do msg' ← skip_any msg; read_blocks n msg'

  unfoldable pub get_memblk : ℕ → ℕ → List Frame → Option Block
  get_memblk header_length index msg = do
    msg' ← pop_frames header_length msg
    read_blocks index msg'
