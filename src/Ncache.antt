-- ===== src/Ncache.antt =====
-- The class `ncache_registry` of utils/include/ncache_registry.h and utils/src/ncache_registry.cc,
-- with the predicates of `cached_resource_desc` that it searches by. The accessors of a descriptor's
-- fields have no return statement, and are read as if they returned the field.
use multi_agent_accelerator.Prelude.{
  Bool, List, Option, Text, [], any_of, false, find_if, if◌then◌else◌, list_eq, map, nat_eq, none,
  not, occurs, some, true, ℕ, ◌&&◌, ◌++◌, ◌==◌, ◌>>=◌, ◌||◌, ◌∷◌,
}
use multi_agent_accelerator.Resource.{
  Desc, Header, cached_resource_desc, desc_eq, hw_pid, hw_ss_pid, hw_ss_vid, hw_vid, stringify,
  sw_clid, sw_fid, sw_pid, sw_verid, sw_vid, wildcard,
}
pub mod Support
pub mod Manifest

-- `_caches`
abbrev pub Registry : Type 0
Registry = List Desc

-- `compare<comp>`
abbrev pub compare : Header → Text → Desc → Bool
compare h val input = val == input h

abbrev pub compare_functional : Text → Option Text → Desc → Bool
compare_functional clid fid input =
    clid == input sw_clid
    || elim fid [ none ↦ false | some f ↦ f == input sw_fid ]
    || elim fid [ none ↦ false | some f ↦ f == wildcard ]

abbrev pub check_hw_fully_desc : Desc → Bool
check_hw_fully_desc d =
    not (d hw_vid == wildcard)
    && not (d hw_pid == wildcard)
    && not (d hw_ss_vid == wildcard)
    && not (d hw_ss_pid == wildcard)

abbrev pub check_sw_wildcard : Desc → Bool
check_sw_wildcard d =
    d sw_vid == wildcard
    && d sw_pid == wildcard
    && d sw_fid == wildcard
    && d sw_clid == wildcard
    && d sw_verid == wildcard

unfoldable pub compare_execute : Text → Text → Desc → Bool
compare_execute clid fid input =
    if clid == wildcard && fid == wildcard
    then false
    else if clid == wildcard && not (fid == wildcard)
    then input sw_fid == fid && check_hw_fully_desc input
    else if not (clid == wildcard) && fid == wildcard
    then input sw_clid == clid && check_hw_fully_desc input
    else if not (clid == wildcard) && not (fid == wildcard)
    then input sw_clid == clid && input sw_fid == fid && check_hw_fully_desc input
    else false

-- `ret &= ( val == field )` where `val` is given and is no wildcard
abbrev pub matches_optional : Option Text → Text → Bool
matches_optional none field = true
matches_optional (some val) field = if not (val == wildcard) then val == field else true

-- The test on the product id compares the vendor id a second time.
unfoldable pub compare_supportable : Text → Text → Option Text → Option Text → Desc → Bool
compare_supportable vid pid ss_vid ss_pid input =
    (if not (vid == wildcard) then vid == input hw_vid else true)
    && (if not (pid == wildcard) then vid == input hw_vid else true)
    && check_sw_wildcard input
    && matches_optional ss_vid (input hw_ss_vid)
    && matches_optional ss_pid (input hw_ss_pid)

-- 1 if the function id is known, 2 if only the class is, 0 if neither.
unfoldable pub functional_exists : Text → Option Text → Registry → ℕ
functional_exists clid fid caches =
    let clid_match = any_of (compare sw_clid clid) caches in
    let fid_match : Bool = elim fid [ none ↦ false | some f ↦ any_of (compare sw_fid f) caches ] in
    if fid_match then 1 else if clid_match then 2 else 0

unfoldable pub functional_exists_desc : Desc → Registry → Bool
functional_exists_desc res caches =
    any_of (compare_functional (res sw_clid) (some (res sw_fid))) caches

unfoldable pub can_execute : Desc → Registry → Bool
unfolding compare_execute
can_execute res caches = any_of (compare_execute (res sw_clid) (res sw_fid)) caches

unfoldable pub exact_exists : Desc → Registry → Bool
exact_exists res caches = occurs res caches

-- `can_completely_support`, on the descriptor of its text
unfoldable pub supports : Desc → Registry → Bool
unfolding functional_exists can_execute
supports res caches =
    let functional : Bool = not (functional_exists (res sw_clid) (some (res sw_fid)) caches == 0) in
    functional && can_execute res caches

unfoldable pub can_completely_support : Text → Registry → Option Bool
unfolding supports
can_completely_support res_str caches = do
  res ← cached_resource_desc (res_str ∷ [])
  some (supports res caches)

unfoldable pub can_support : Text → Text → Option Text → Option Text → Registry → ℕ
unfolding compare_supportable
can_support vid pid ss_vid ss_pid caches =
    if any_of (compare_supportable vid pid ss_vid ss_pid) caches then 1 else 0

unfoldable pub find_functional : Text → Option Text → Registry → Option Desc
find_functional clid fid caches =
    find_if
      (λ input. clid == input sw_clid || elim fid [ none ↦ false | some f ↦ f == input sw_fid ])
      caches

-- A line that is there already is ignored.
unfoldable pub add_desc : Desc → Registry → Registry
unfolding exact_exists
add_desc res caches = if exact_exists res caches then caches else caches ++ res ∷ []

unfoldable pub add_resource : Text → Registry → Option Registry
unfolding add_desc
add_resource res_str caches = do
  res ← cached_resource_desc (res_str ∷ [])
  some (add_desc res caches)

unfoldable pub add_resources : List Text → Registry → Option Registry
unfolding add_resource
add_resources [] caches = some caches
add_resources (res ∷ rest) caches = do caches' ← add_resource res caches; add_resources rest caches'

unfoldable pub dump_manifest : Registry → List Text
dump_manifest caches = map stringify caches
