-- ===== src/Resource/Logic.antt =====
-- utils/src/resource_logic.cc: claims with wildcards, and when two of them name one resource.
-- The map of a resource that was built from the empty text has no keys; it is not modelled here.
use multi_agent_accelerator.Prelude.{
  Bool, List, Option, Text, [], false, find_if, if◌then◌else◌, list_eq, nat_eq, none, not, some,
  true, ◌&&◌, ◌==◌, ◌>>=◌, ◌||◌, ◌∷◌,
}
use multi_agent_accelerator.Resource.{
  Desc, Header, g_func_map, hw_pid, hw_ss_pid, hw_ss_vid, hw_vid, put, sw_clid, sw_fid, sw_pid,
  sw_verid, sw_vid, wildcard,
}
use multi_agent_accelerator.Split.{split_str}
pub mod Matching

-- The keys of `resource_desc`.
abbrev pub signed : List Header
signed =
    hw_vid ∷ hw_pid ∷ hw_ss_vid ∷ hw_ss_pid ∷ sw_vid ∷ sw_pid ∷ sw_clid ∷ sw_fid ∷ sw_verid ∷ []

-- `resource_desc.at( keyval[0] ) = keyval[1]`: `none` for a key that is not there (an exception),
-- and for a piece with fewer than two words (undefined)
unfoldable pub assign_piece : List Text → Desc → Option Desc
assign_piece [] d = none
assign_piece (k ∷ []) d = none
assign_piece (k ∷ v ∷ rest) d = elim (find_if (λ h. g_func_map h == k) signed) [
  | none ↦ none
  | some h ↦ some (put h v d)
]

unfoldable pub assign_pieces : List Text → Desc → Option Desc
unfolding assign_piece
assign_pieces [] d = some d
assign_pieces (piece ∷ rest) d = do
  d' ← assign_piece (split_str b'=' piece) d
  assign_pieces rest d'

unfoldable pub set_rsign : Text → Option Desc
unfolding assign_pieces
set_rsign res = assign_pieces (split_str b':' res) (λ h. wildcard)

-- The loop of `operator==`, over the entries of the right side.
unfoldable pub compare_entries : Desc → Desc → List Header → Bool → Bool
compare_entries a b [] result = result
compare_entries a b (h ∷ hs) result =
    compare_entries a b hs
      (if not (a h == wildcard) && not (b h == wildcard) then result && a h == b h else result)

-- `operator==`
unfoldable pub equals : Desc → Desc → Bool
equals a b =
    let result = compare_entries a b signed true in
    if a sw_fid == wildcard || b sw_fid == wildcard
    then (if a sw_clid == wildcard || b sw_clid == wildcard then false else result)
    else result

-- `operator<`
unfoldable pub less : Desc → Desc → Bool
unfolding equals
less a b = not (equals a b)
