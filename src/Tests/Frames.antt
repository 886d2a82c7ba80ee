-- ===== src/Tests/Frames.antt =====
-- A `zmq::multipart_t` whose frames hold their values.
use multi_agent_accelerator.Prelude.{Bool, Option, Text, [], none, refl, some, ℕ}
use multi_agent_accelerator.Wire.{Multipart}

pub data Frame : Type 0 where
  text : Text → Frame
  ushort_frame : ℕ → Frame
  ulong_frame : ℕ → Frame
  bool_frame : Bool → Frame

abbrev text_in : Frame → Text
text_in (text s) = s
text_in _ = []

abbrev ushort_in : Frame → Option ℕ
ushort_in (ushort_frame n) = some n
ushort_in _ = none

abbrev ulong_in : Frame → Option ℕ
ulong_in (ulong_frame n) = some n
ulong_in _ = none

abbrev pub bool_in : Frame → Option Bool
bool_in (bool_frame b) = some b
bool_in _ = none

abbrev pub frames : Multipart Frame
frames = record {
  of_string = text;
  of_ushort = ushort_frame;
  of_ulong = ulong_frame;
  of_bool = bool_frame;
  string_of = text_in;
  ushort_of = ushort_in;
  ulong_of = ulong_in;
  bool_of = bool_in;
  string_of-of_string = λ s. refl;
  ushort_of-of_ushort = λ n h. refl;
  ulong_of-of_ulong = λ n h. refl;
  bool_of-of_bool = λ b. refl;
}
