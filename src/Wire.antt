-- ===== src/Wire.antt =====
-- utils/src/zmsg_builder.cc and utils/src/zmsg_viewer.cc: the messages of the platform as frames.
-- A `zmq::multipart_t` is a list of frames that is added to at its back or front and popped from
-- its front. Frames are the library's: how a value becomes one, and what it is read back as.
use multi_agent_accelerator.Prelude.{
  Bool, List, Option, Text, [], codes, length, map, none, some, ℕ, ◌++◌, ◌<◌, ◌∷◌, ◌≡◌,
}
pub mod Frames
pub mod Sections
pub mod RoundTrip

-- `addtyp` and `poptyp`, `addstr` and `popstr`. A frame of another size makes `poptyp` throw.
pub record Multipart (Frame : Type 0) : Type 0 where
  pub of_string : Text → Frame
  pub of_ushort : ℕ → Frame
  pub of_ulong : ℕ → Frame
  pub of_bool : Bool → Frame
  pub string_of : Frame → Text
  pub ushort_of : Frame → Option ℕ
  pub ulong_of : Frame → Option ℕ
  pub bool_of : Frame → Option Bool
  pub string_of-of_string : (s : Text) → string_of (of_string s) ≡ s
  pub ushort_of-of_ushort : (n : ℕ) → n < 65536 → ushort_of (of_ushort n) ≡ some n
  pub ulong_of-of_ulong : (n : ℕ) → n < 18446744073709551616 → ulong_of (of_ulong n) ≡ some n
  pub bool_of-of_bool : (b : Bool) → bool_of (of_bool b) ≡ some b

-- `zmsg_section_type`
pub data SectionType : Type 0 where
  string long short ulong float double bool int memblk zmsg none_type : SectionType

abbrev pub tag : SectionType → ℕ
tag string = 0
tag long = 1
tag short = 2
tag ulong = 3
tag float = 4
tag double = 5
tag bool = 6
tag int = 7
tag memblk = 8
tag zmsg = 9
tag none_type = 10

module _ {Frame : Type 0} (m : Multipart Frame) where
  -- `addtyp<ushort>( type )`, `addtyp<ulong>( size )`, and the elements
  unfoldable pub add_section : SectionType → ℕ → List Frame → List Frame → List Frame
  add_section t size elements msg = msg ++ m.of_ushort (tag t) ∷ m.of_ulong size ∷ elements

  -- `add_sections` at the three element types that the program sends
  unfoldable pub add_strings : List Text → List Frame → List Frame
  unfolding add_section
  add_strings vs msg = add_section string (length vs) (map m.of_string vs) msg

  unfoldable pub add_ulongs : List ℕ → List Frame → List Frame
  unfolding add_section
  add_ulongs vs msg = add_section ulong (length vs) (map m.of_ulong vs) msg

  unfoldable pub add_bools : List Bool → List Frame → List Frame
  unfolding add_section
  add_bools vs msg = add_section bool (length vs) (map m.of_bool vs) msg

  -- `add_arbitrary_data`
  unfoldable pub add_string : Text → List Frame → List Frame
  unfolding add_section
  add_string v msg = add_section string 1 (m.of_string v ∷ []) msg

  unfoldable pub add_ulong : ℕ → List Frame → List Frame
  unfolding add_section
  add_ulong v msg = add_section ulong 1 (m.of_ulong v ∷ []) msg

  unfoldable pub add_bool : Bool → List Frame → List Frame
  unfolding add_section
  add_bool v msg = add_section bool 1 (m.of_bool v ∷ []) msg

  -- `add_arbitrary_data_top` pushes the value, the size and the type, in this order.
  unfoldable pub add_string_top : Text → List Frame → List Frame
  add_string_top v msg = m.of_ushort (tag string) ∷ m.of_ulong 1 ∷ m.of_string v ∷ msg

  -- `add_raw_data_top` pushes one argument after the other.
  unfoldable pub add_raw_data_top : List Text → List Frame → List Frame
  add_raw_data_top [] msg = msg
  add_raw_data_top (a ∷ rest) msg = add_raw_data_top rest (m.of_string a ∷ msg)

  -- The constructor from the header's fields.
  unfoldable pub zmsg_builder : List Text → List Frame
  zmsg_builder header = map m.of_string header

  -- The block itself, a raw frame, is handed over as a text.
  unfoldable pub add_memblk : ℕ → ℕ → ℕ → Text → ℕ → List Frame → List Frame
  unfolding add_section
  add_memblk b_signed b_int_float type_size mem sz msg =
      add_section zmsg sz
        (m.of_ulong b_signed ∷ m.of_ulong b_int_float ∷ m.of_ulong type_size ∷ m.of_string mem ∷ [])
        msg

  unfoldable pub add_memref : ℕ → ℕ → ℕ → ℕ → Text → ℕ → List Frame → List Frame
  unfolding add_section
  add_memref buffer_type b_signed b_int_float type_size buffer_id sz msg =
      add_section zmsg buffer_type
        (m.of_ulong sz
          ∷ m.of_ulong b_signed
          ∷ m.of_ulong b_int_float
          ∷ m.of_ulong type_size
          ∷ m.of_string buffer_id
          ∷ [])
        msg

  -- `finalize`
  unfoldable pub finalize : List Frame → List Frame
  unfolding add_section
  finalize msg = add_section string 1 (m.of_string (codes "END_COMMAND") ∷ []) msg
