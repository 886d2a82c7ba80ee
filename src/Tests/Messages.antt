-- ===== src/Tests/Messages.antt =====
-- utils/src/zmsg_builder.cc and utils/src/zmsg_viewer.cc over frames that hold their values.
use multi_agent_accelerator.Prelude.{List, Text, [], arith, codes, some, ◌∷◌, ◌≡◌}
use multi_agent_accelerator.Tests.Frames.{frames}
use multi_agent_accelerator.Wire.{ulong}
use multi_agent_accelerator.Wire.RoundTrip.{read_as, read_as-message}
use multi_agent_accelerator.Wire.Sections.{Section, message, strings, ulongs}

abbrev header : List Text
header = codes "__ACCEL_CLAIM__" ∷ codes "PLACEHOLDER" ∷ codes "key" ∷ []

abbrev first : Section
first = strings (codes "gemm" ∷ [])

abbrev second : Section
second = ulongs (4 ∷ 7 ∷ [])

read_as-message_example :
    read_as frames ulong 3 1 (message frames header (first ∷ second ∷ [])) ≡ some second
read_as-message_example =
    read_as-message frames header (first ∷ []) second [] (omega arith, tt) (omega arith)
