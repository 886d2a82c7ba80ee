-- ===== src/Jobs/Config.antt =====
-- utils/src/config_components.cc: the configuration file, a list of entries of three kinds.
use multi_agent_accelerator.Jobs.Entries.{
  Entry, FunctionEntry, HostEntry, PlatformEntry, PlatformHeader, function_entry,
  get_first_header_attr, get_last_header_attr, host_entry, host_index, name, platform_entry,
  platform_index, port,
}
use multi_agent_accelerator.Prelude.{
  Bool, List, Option, Text, [], any_of, codes, false, find, if◌then◌else◌, list_eq, ltb, nat_eq,
  none, some, true, ◌&&◌, ◌++◌, ◌==◌, ◌>>=◌, ◌||◌, ◌∷◌,
}

-- `config_entry`
pub data ConfigEntry : Type 0 where
  host : HostEntry → ConfigEntry
  function : FunctionEntry → ConfigEntry
  platform : PlatformEntry → ConfigEntry

-- `configfile`
abbrev pub ConfigFile : Type 0
ConfigFile = List ConfigEntry

-- `operator==` on two entries
abbrev pub same_entry : ConfigEntry → ConfigEntry → Bool
same_entry lhs rhs = false

abbrev pub entry_exists : ConfigEntry → ConfigFile → Bool
entry_exists ce entries = any_of (same_entry ce) entries

unfoldable pub add_entry : ConfigEntry → ConfigFile → ConfigFile
add_entry entry config = if entry_exists entry config then config else config ++ entry ∷ []

module _ {A : Type 0} (make : Text → Option A) (wrap : A → ConfigEntry) where
  -- `add_to_config` at one of the three sections
  unfoldable pub add_section_entries : List Text → ConfigFile → Option ConfigFile
  unfolding add_entry
  add_section_entries [] config = some config
  add_section_entries (json ∷ section) config = do
    entry ← make json
    add_section_entries section (add_entry (wrap entry) config)

module _ (get_array : Text → Text → List Text) (get_object : Text → Text → List (Text × Text)) where
  -- `set_config_sections`, and `set_configfile` of a job
  unfoldable pub set_config_sections :
      List Text → List Text → List Text → ConfigFile → Option ConfigFile
  unfolding add_section_entries
  set_config_sections hosts functions platforms config = do
    c1 ← add_section_entries (host_entry get_array get_object) host hosts config
    c2 ← add_section_entries (function_entry get_array get_object) function functions c1
    add_section_entries (platform_entry get_array get_object) platform platforms c2

-- The test for a kind that `get_section` and `_get_typed_list` make of each entry.
abbrev pub as_host : ConfigEntry → Option HostEntry
as_host (host e) = some e
as_host _ = none

abbrev pub as_function : ConfigEntry → Option FunctionEntry
as_function (function e) = some e
as_function _ = none

abbrev pub as_platform : ConfigEntry → Option PlatformEntry
as_platform (platform e) = some e
as_platform _ = none

-- The order of texts that keys `std::map`.
pub text_ltb : Text → Text → Bool
text_ltb [] [] = false
text_ltb [] (d ∷ t) = true
text_ltb (c ∷ s) [] = false
text_ltb (c ∷ s) (d ∷ t) = ltb c d || (c == d && text_ltb s t)

module _ {K : Type 0} (as_kind : ConfigEntry → Option (Entry K)) where
  -- `get_section`
  unfoldable pub get_section_json : ConfigFile → List Text
  get_section_json [] = []
  get_section_json (ce ∷ entries) = elim (as_kind ce) [
    | none ↦ get_section_json entries
    | some e ↦ e.as_is ∷ get_section_json entries
  ]

  -- `emplace` into a map in the order of its keys: a name that is there is left as it is.
  pub emplace_named : Text → Entry K → List (Text × Entry K) → List (Text × Entry K)
  unfolding text_ltb
  emplace_named key e [] = (key, e) ∷ []
  emplace_named key e (en ∷ m) =
      if en.0 == key
      then en ∷ m
      else (if text_ltb key en.0 then (key, e) ∷ en ∷ m else en ∷ emplace_named key e m)

  pub typed_list_from : ConfigFile → List (Text × Entry K) → List (Text × Entry K)
  unfolding emplace_named
  typed_list_from [] m = m
  typed_list_from (ce ∷ entries) m = elim (as_kind ce) [
    | none ↦ typed_list_from entries m
    | some e ↦ typed_list_from entries (emplace_named e.map_key e m)
  ]

  -- `_get_typed_list`
  unfoldable pub get_typed_list : ConfigFile → List (Text × Entry K)
  unfolding typed_list_from
  get_typed_list config = typed_list_from config []

-- `get_function_entry` and `get_function_template`: `at` throws for an alias that is not there.
unfoldable pub get_function_template : Text → ConfigFile → Option FunctionEntry
unfolding get_typed_list
get_function_template alias config = find alias (get_typed_list as_function config)

unfoldable pub get_platform_attr : Text → PlatformHeader → ConfigFile → Option Text
unfolding get_typed_list
get_platform_attr id key config = do
  plat ← find id (get_typed_list as_platform config)
  get_first_header_attr platform_index key plat

pub host_addrs_in : List (Text × HostEntry) → Option (List Text)
host_addrs_in [] = some []
host_addrs_in (en ∷ htmp) = do
  addr ← get_last_header_attr host_index name en.1
  rest ← host_addrs_in htmp
  some (addr ∷ rest)

unfoldable pub get_all_host_addrs : ConfigFile → Option (List Text)
unfolding host_addrs_in get_typed_list
get_all_host_addrs config = host_addrs_in (get_typed_list as_host config)

pub conn_strs_in : Text → List (Text × HostEntry) → Option (List Text)
conn_strs_in prefix [] = some []
conn_strs_in prefix (en ∷ htmp) = do
  addr ← get_last_header_attr host_index name en.1
  p ← get_last_header_attr host_index port en.1
  rest ← conn_strs_in prefix htmp
  some ((prefix ++ addr ++ codes ":" ++ p) ∷ rest)

-- `get_all_conn_str`; at the empty prefix `get_all_host_addrs_with_port`
unfoldable pub get_all_conn_str : Text → ConfigFile → Option (List Text)
unfolding conn_strs_in get_typed_list
get_all_conn_str prefix config = conn_strs_in prefix (get_typed_list as_host config)
