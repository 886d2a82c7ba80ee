-- ===== src/Wire/Sections.antt =====
-- utils/src/zmsg_builder.cc against utils/src/zmsg_viewer.cc: a section that was added is the one
-- that is read.
use multi_agent_accelerator.Prelude.{
  ==_iff, ==_refl, All, Bool, List, Option, Text, [], append-nil, append_assoc, arith, codes,
  length, length-map, map, nat_eq, refl, some, subst, sym, ℕ, ◌++◌, ◌<◌, ◌∙◌, ◌∷◌, ◌≡◌, ◌≢◌,
}
use multi_agent_accelerator.Wire.{
  Multipart, SectionType, add_bools, add_strings, add_ulongs, bool, finalize, string, tag, ulong,
  zmsg_builder,
}
use multi_agent_accelerator.Wire.Frames.{
  get_section, pop_elements, pop_frames, read_section, read_sections, skip_section,
}

pub data Section : Type 0 where
  strings : List Text → Section
  ulongs : List ℕ → Section
  bools : List Bool → Section

abbrev pub type_of : Section → SectionType
type_of (strings vs) = string
type_of (ulongs vs) = ulong
type_of (bools vs) = bool

abbrev pub size_of : Section → ℕ
size_of (strings vs) = length vs
size_of (ulongs vs) = length vs
size_of (bools vs) = length vs

-- Counts and numbers fit 64 bits.
abbrev pub FitsUlong : ℕ → Type 0
FitsUlong n = n < 18446744073709551616

pub tag_small : (t : SectionType) → tag t < 65536
tag_small string = omega arith
tag_small _ = omega arith

module _ {Frame : Type 0} (m : Multipart Frame) where
  abbrev pub elements_of : Section → List Frame
  elements_of (strings vs) = map m.of_string vs
  elements_of (ulongs vs) = map m.of_ulong vs
  elements_of (bools vs) = map m.of_bool vs

  abbrev pub put_section : Section → List Frame → List Frame
  put_section (strings vs) msg = add_strings m vs msg
  put_section (ulongs vs) msg = add_ulongs m vs msg
  put_section (bools vs) msg = add_bools m vs msg

  -- A message: its header, the sections one after the other, and the completion tag.
  abbrev pub put_sections : List Section → List Frame → List Frame
  put_sections [] msg = msg
  put_sections (s ∷ ss) msg = put_sections ss (put_section s msg)

  abbrev pub message : List Text → List Section → List Frame
  message header ss = finalize m (put_sections ss (zmsg_builder m header))

  pub section_frames : Section → List Frame
  section_frames s = m.of_ushort (tag (type_of s)) ∷ m.of_ulong (size_of s) ∷ elements_of s

  pub sections_frames : List Section → List Frame
  unfolding section_frames
  sections_frames [] = []
  sections_frames (s ∷ ss) = section_frames s ++ sections_frames ss

  put_section-append :
      (s : Section) (msg : List Frame) → put_section s msg ≡ msg ++ section_frames s
  unfolding add_strings add_ulongs add_bools section_frames
  put_section-append (strings vs) msg = refl
  put_section-append (ulongs vs) msg = refl
  put_section-append (bools vs) msg = refl

  pub put_sections-append :
      (ss : List Section) (msg : List Frame) → put_sections ss msg ≡ msg ++ sections_frames ss
  unfolding sections_frames
  put_sections-append [] msg = sym (append-nil msg)
  put_sections-append (s ∷ ss) msg =
      put_sections-append ss (put_section s msg)
      ∙ rw (put_section-append s msg) (append_assoc msg (section_frames s) (sections_frames ss))

  pub pop_frames-append : (xs rest : List Frame) → pop_frames m (length xs) (xs ++ rest) ≡ some rest
  unfolding pop_frames
  pop_frames-append [] rest = refl
  pop_frames-append (x ∷ xs) rest = pop_frames-append xs rest

  length-elements_of : (s : Section) → length (elements_of s) ≡ size_of s
  length-elements_of (strings vs) = length-map vs m.of_string
  length-elements_of (ulongs vs) = length-map vs m.of_ulong
  length-elements_of (bools vs) = length-map vs m.of_bool

  skip_section-frames :
      (s : Section) (rest : List Frame)
      → FitsUlong (size_of s)
      → skip_section m (section_frames s ++ rest) ≡ some rest
  unfolding skip_section section_frames
  skip_section-frames s rest h =
      rw (m.ushort_of-of_ushort (tag (type_of s)) (tag_small (type_of s))) (
        rw (m.ulong_of-of_ulong (size_of s) h) (
          subst (λ n. pop_frames m n (elements_of s ++ rest) ≡ some rest) (length-elements_of s)
            (pop_frames-append (elements_of s) rest)))

  read_sections-skip {ℓ} :
      {T : Type ℓ} (t : SectionType) (decode : Frame → Option T) (ss : List Section)
      (rest : List Frame)
      → All (λ s. FitsUlong (size_of s)) ss
      → read_sections m t decode (length ss) (sections_frames ss ++ rest)
        ≡ read_section m t decode rest
  unfolding read_sections sections_frames
  read_sections-skip t decode [] rest h = refl
  read_sections-skip t decode (s ∷ ss) rest h =
      rw (append_assoc (section_frames s) (sections_frames ss) rest) (
        rw (skip_section-frames s (sections_frames ss ++ rest) h.0)
          (read_sections-skip t decode ss rest h.1))

  pub pop_elements-map {ℓ} :
      {T : Type ℓ} (encode : T → Frame) (decode : Frame → Option T) (vs : List T)
      (rest : List Frame)
      → All (λ v. decode (encode v) ≡ some v) vs
      → pop_elements m decode (length vs) (map encode vs ++ rest) ≡ some vs
  unfolding pop_elements
  pop_elements-map encode decode [] rest h = refl
  pop_elements-map encode decode (v ∷ vs) rest h =
      rw h.0 (rw (pop_elements-map encode decode vs rest h.1))

  sections_frames-append :
      (xs ys : List Section) → sections_frames (xs ++ ys) ≡ sections_frames xs ++ sections_frames ys
  unfolding sections_frames
  sections_frames-append [] ys = refl
  sections_frames-append (x ∷ xs) ys =
      rw (sections_frames-append xs ys)
        (sym (append_assoc (section_frames x) (sections_frames xs) (sections_frames ys)))

  abbrev pub completion : List Frame
  completion = section_frames (strings (codes "END_COMMAND" ∷ []))

  pub message-frames :
      (header : List Text) (ss : List Section)
      → message header ss ≡ map m.of_string header ++ (sections_frames ss ++ completion)
  unfolding finalize zmsg_builder section_frames
  message-frames header ss =
      rw (put_sections-append ss (map m.of_string header))
        (append_assoc (map m.of_string header) (sections_frames ss) _)

  get_section-header {ℓ} :
      {T : Type ℓ} (t : SectionType) (decode : Frame → Option T) (header : List Text) (n : ℕ)
      (rest : List Frame)
      → get_section m t decode (length header) n (map m.of_string header ++ rest)
        ≡ read_sections m t decode n rest
  unfolding get_section
  get_section-header t decode header n rest =
      rw (← length-map header m.of_string) (rw (pop_frames-append (map m.of_string header) rest))

  abbrev pub tail_of : List Section → List Frame
  tail_of after = sections_frames after ++ completion

  -- Reading at the place of a section reaches that section.
  pub get_section-message {ℓ} :
      {T : Type ℓ} (t : SectionType) (decode : Frame → Option T) (header : List Text)
      (before : List Section) (s : Section) (after : List Section)
      → All (λ x. FitsUlong (size_of x)) before
      → get_section m t decode
          (length header)
          (length before)
          (message header (before ++ s ∷ after))
        ≡ read_section m t decode (section_frames s ++ tail_of after)
  unfolding sections_frames
  get_section-message t decode header before s after h =
      rw (message-frames header (before ++ s ∷ after)) (
        rw
          (get_section-header t decode header (length before)
            (sections_frames (before ++ s ∷ after) ++ completion))
          (rw (sections_frames-append before (s ∷ after)) (
            rw
              (append_assoc (sections_frames before) (section_frames s ++ sections_frames after)
                completion)
              (rw (append_assoc (section_frames s) (sections_frames after) completion)
                (read_sections-skip t decode before (section_frames s ++ tail_of after) h)))))

  pub read_section-frames {ℓ} :
      {T : Type ℓ} (decode : Frame → Option T) (s : Section) (rest : List Frame) {vs : List T}
      → FitsUlong (size_of s)
      → pop_elements m decode (size_of s) (elements_of s ++ rest) ≡ some vs
      → read_section m (type_of s) decode (section_frames s ++ rest) ≡ some vs
  unfolding read_section section_frames
  read_section-frames decode s rest h e =
      rw (m.ushort_of-of_ushort (tag (type_of s)) (tag_small (type_of s)))
        (rw (m.ulong_of-of_ulong (size_of s) h) (rw (==_refl (tag (type_of s))) e))

  pub read_section-mismatch {ℓ} :
      {T : Type ℓ} (t : SectionType) (decode : Frame → Option T) (s : Section) (rest : List Frame)
      → FitsUlong (size_of s)
      → tag t ≢ tag (type_of s)
      → read_section m t decode (section_frames s ++ rest) ≡ some []
  unfolding read_section section_frames
  read_section-mismatch t decode s rest h ne =
      rw (m.ushort_of-of_ushort (tag (type_of s)) (tag_small (type_of s)))
        (rw (m.ulong_of-of_ulong (size_of s) h) (ground (arith, ==_iff (tag (type_of s)) (tag t))))
