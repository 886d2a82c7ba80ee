-- ===== src/Tests/Resources.antt =====
-- utils/src/ncache_registry.cc and utils/src/resource_logic.cc at concrete resources.
use multi_agent_accelerator.Ncache.{
  add_desc, add_resource, add_resources, can_completely_support, can_execute, dump_manifest,
  exact_exists, functional_exists, supports,
}
use multi_agent_accelerator.Ncache.Manifest.{dump_manifest_copies}
use multi_agent_accelerator.Ncache.Support.{Serves, supports_iff}
use multi_agent_accelerator.Prelude.{
  All, Any, List, Text, [], codes, false, list_eq, nat_eq, none, refl, some, true, ◌↔◌, ◌∷◌, ◌≡◌,
  ◌⊎◌,
}
use multi_agent_accelerator.Resource.{
  Desc, cached_resource_desc, fill_wildcards, hw_pid, hw_ss_pid, hw_ss_vid, hw_vid, insert_at,
  insert_inputs, insert_key, insert_piece, insert_pieces, reverse_map_find, stringify, sw_clid,
  sw_fid, written,
}
use multi_agent_accelerator.Resource.Logic.{
  assign_piece, assign_pieces, compare_entries, equals, set_rsign, signed,
}
use multi_agent_accelerator.Resource.Logic.Matching.{Compatible, Names, equals_iff}
use multi_agent_accelerator.Resource.RoundTrip.{
  All-IsWritable-of_test, IsCanonical, IsWritable, cached_resource_desc-stringify,
}
use multi_agent_accelerator.Split.{split_str}

abbrev star : Text
star = codes "*"

-- The line of a device that executes one function.
abbrev pub gemm : Desc
gemm hw_vid = codes "8086"
gemm hw_pid = codes "2f80"
gemm hw_ss_vid = codes "8086"
gemm hw_ss_pid = codes "2f81"
gemm sw_fid = codes "1"
gemm _ = star

-- A claim on that function, on any device.
abbrev pub any_gemm : Desc
any_gemm sw_fid = codes "1"
any_gemm _ = star

abbrev words_of : List Text
words_of = codes "a" ∷ [] ∷ codes "bc" ∷ []

ran : Unit {0}
unfolding split_str cached_resource_desc insert_inputs insert_pieces insert_piece insert_key
    insert_at reverse_map_find fill_wildcards can_completely_support supports functional_exists
    can_execute add_resource add_desc exact_exists equals compare_entries set_rsign assign_pieces
    assign_piece
ran = tt

claim_supported : can_completely_support (codes "sw_fid=1") (gemm ∷ []) ≡ some true
unfolding ran
claim_supported = refl

claim_unsupported : can_completely_support (codes "sw_fid=2:sw_clid=*") (gemm ∷ []) ≡ some false
unfolding ran
claim_unsupported = refl

no_equals_sign : can_completely_support (codes "sw_fid=2::") (gemm ∷ []) ≡ none
unfolding ran
no_equals_sign = refl

split_empty_word : split_str b':' (codes "a::bc:") ≡ words_of
unfolding ran
split_empty_word = refl

gemm-IsWritable : All (IsWritable gemm) written
gemm-IsWritable = All-IsWritable-of_test gemm written refl

pub gemm-IsCanonical : IsCanonical gemm
gemm-IsCanonical = record {
  writable = gemm-IsWritable;
  no_alias = refl;
  no_platform = refl;
  no_replica = refl;
}

pub any_gemm-IsCanonical : IsCanonical any_gemm
any_gemm-IsCanonical = record {
  writable = All-IsWritable-of_test any_gemm written refl;
  no_alias = refl;
  no_platform = refl;
  no_replica = refl;
}

cached_resource_desc-stringify_example : cached_resource_desc (stringify gemm ∷ []) ≡ some gemm
cached_resource_desc-stringify_example = cached_resource_desc-stringify gemm gemm-IsCanonical

dump_manifest_copies_example : add_resources (dump_manifest (gemm ∷ [])) [] ≡ some (gemm ∷ [])
dump_manifest_copies_example = dump_manifest_copies (gemm ∷ []) (refl, tt) (gemm-IsCanonical, tt)

supports_iff_example :
    (supports any_gemm (gemm ∷ []) ≡ true) ↔ Any (Serves star (codes "1")) (gemm ∷ [])
supports_iff_example = supports_iff any_gemm (gemm ∷ [])

equals_iff_example : (equals any_gemm gemm ≡ true) ↔ (
    All (Compatible any_gemm gemm) signed
    × ((Names any_gemm sw_fid × Names gemm sw_fid) ⊎ (Names any_gemm sw_clid × Names gemm sw_clid)))
equals_iff_example = equals_iff any_gemm gemm
