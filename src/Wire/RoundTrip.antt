-- ===== src/Wire/RoundTrip.antt =====
-- utils/src/zmsg_builder.cc against utils/src/zmsg_viewer.cc: what a viewer reads of a message that
-- a builder made.
-- The element count fits the `ulong` that carries it, and so do the numbers.
use multi_agent_accelerator.Prelude.{
  All, Bool, List, Option, Text, [], ap, length, none, some, ℕ, ◌++◌, ◌>>=◌, ◌∙◌, ◌∷◌, ◌≡◌, ◌≢◌,
  refl,
}
use multi_agent_accelerator.Wire.{Multipart, SectionType, bool, string, tag, ulong}
use multi_agent_accelerator.Wire.Frames.{
  get_bools, get_header, get_section, get_strings, get_ulongs,
}
use multi_agent_accelerator.Wire.Sections.{
  FitsUlong, Section, bools, get_section-message, message, message-frames, pop_elements-map,
  read_section-frames, read_section-mismatch, size_of, strings, tail_of, type_of, ulongs,
}

abbrev pub IsSendable : Section → Type 0
IsSendable (strings vs) = FitsUlong (length vs)
IsSendable (ulongs vs) = FitsUlong (length vs) × All FitsUlong vs
IsSendable (bools vs) = FitsUlong (length vs)

pub IsSendable-size : (s : Section) → IsSendable s → FitsUlong (size_of s)
IsSendable-size (strings vs) h = h
IsSendable-size (ulongs vs) h = h.0
IsSendable-size (bools vs) h = h

All-size : (ss : List Section) → All IsSendable ss → All (λ s. FitsUlong (size_of s)) ss
All-size [] h = tt
All-size (s ∷ ss) h = (IsSendable-size s h.0, All-size ss h.1)

module _ {Frame : Type 0} (m : Multipart Frame) where
  -- `get_section<T>` at the element type that belongs to a section type; the program asks for no
  -- other type.
  unfoldable pub read_as : SectionType → ℕ → ℕ → List Frame → Option Section
  read_as string n i msg = do vs ← get_strings m n i msg; some (strings vs)
  read_as ulong n i msg = do vs ← get_ulongs m n i msg; some (ulongs vs)
  read_as bool n i msg = do vs ← get_bools m n i msg; some (bools vs)
  read_as _ n i msg = none

  strings-decode : (vs : List Text) → All (λ v. some (m.string_of (m.of_string v)) ≡ some v) vs
  strings-decode [] = tt
  strings-decode (v ∷ vs) = (ap some (m.string_of-of_string v), strings-decode vs)

  ulongs-decode :
      (vs : List ℕ) → All FitsUlong vs → All (λ v. m.ulong_of (m.of_ulong v) ≡ some v) vs
  ulongs-decode [] h = tt
  ulongs-decode (v ∷ vs) h = (m.ulong_of-of_ulong v h.0, ulongs-decode vs h.1)

  bools-decode : (vs : List Bool) → All (λ v. m.bool_of (m.of_bool v) ≡ some v) vs
  bools-decode [] = tt
  bools-decode (v ∷ vs) = (m.bool_of-of_bool v, bools-decode vs)

  pub get_strings-message :
      (header : List Text) (before : List Section) (vs : List Text) (after : List Section)
      → All IsSendable before
      → IsSendable (strings vs)
      → get_strings m
          (length header)
          (length before)
          (message m header (before ++ strings vs ∷ after))
        ≡ some vs
  get_strings-message header before vs after h k =
      get_section-message m string _ header before (strings vs) after (All-size before h)
      ∙ read_section-frames m _ (strings vs) (tail_of m after) k
          (pop_elements-map m m.of_string _ vs (tail_of m after) (strings-decode vs))

  pub get_bools-message :
      (header : List Text) (before : List Section) (vs : List Bool) (after : List Section)
      → All IsSendable before
      → IsSendable (bools vs)
      → get_bools m (length header) (length before) (message m header (before ++ bools vs ∷ after))
        ≡ some vs
  get_bools-message header before vs after h k =
      get_section-message m bool _ header before (bools vs) after (All-size before h)
      ∙ read_section-frames m _ (bools vs) (tail_of m after) k
          (pop_elements-map m m.of_bool _ vs (tail_of m after) (bools-decode vs))

  -- A section that a builder added is what a viewer reads at its place: behind the header and any
  -- sections before it, and before any others and the completion tag.
  pub read_as-message :
      (header : List Text) (before : List Section) (s : Section) (after : List Section)
      → All IsSendable before
      → IsSendable s
      → read_as (type_of s) (length header) (length before) (message m header (before ++ s ∷ after))
        ≡ some s
  unfolding read_as
  read_as-message header before (strings vs) after h k =
      rw (get_strings-message header before vs after h k) refl
  read_as-message header before (ulongs vs) after h k =
      rw (get_section-message m ulong _ header before (ulongs vs) after (All-size before h)) (
        rw (
          read_section-frames m _ (ulongs vs) (tail_of m after) k.0
            (pop_elements-map m m.of_ulong _ vs (tail_of m after) (ulongs-decode vs k.1))))
  read_as-message header before (bools vs) after h k =
      rw (get_bools-message header before vs after h k) refl

  -- Asking for another element type than the section's yields no elements, whatever it holds.
  pub get_section-mismatch {ℓ} :
      {T : Type ℓ} (t : SectionType) (decode : Frame → Option T) (header : List Text)
      (before : List Section) (s : Section) (after : List Section)
      → All IsSendable before
      → IsSendable s
      → tag t ≢ tag (type_of s)
      → get_section m t decode
          (length header)
          (length before)
          (message m header (before ++ s ∷ after))
        ≡ some []
  get_section-mismatch t decode header before s after h k ne =
      get_section-message m t decode header before s after (All-size before h)
      ∙ read_section-mismatch m t decode s (tail_of m after) (IsSendable-size s k) ne

  -- The header of a message is what its builder was given.
  pub get_header-message :
      (header : List Text) (ss : List Section)
      → get_header m (length header) (message m header ss) ≡ some header
  unfolding get_header
  get_header-message header ss =
      rw (message-frames m header ss)
        (pop_elements-map m m.of_string _ header _ (strings-decode header))
