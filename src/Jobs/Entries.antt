-- ===== src/Jobs/Entries.antt =====
-- utils/src/config_components.cc: the entries of a configuration file, `base_entry` with its three
-- kinds. A header description is a multimap. What the JSON library reads is given: `get_array` and
-- `get_object` of `json_viewer`, of a key and a text.
use multi_agent_accelerator.Bridge.Protocol.{stoul}
use multi_agent_accelerator.Prelude.{
  Bool, List, Option, Text, [], any_of, assign, codes, equal_range, find_if, for_each_key,
  get_elem?, if◌then◌else◌, keep_if, leb, length, list_eq, multi_insert, nat_eq, none, or_else,
  some, true, ℕ, ◌&&◌, ◌++◌, ◌==◌, ◌>>=◌, ◌||◌, ◌∷◌,
}
use multi_agent_accelerator.Resource.{
  Header, func_alias, g_func_map, headers, index, replica, wildcard,
}
use multi_agent_accelerator.Split.{split_str}

-- `valid_host_header`
pub data HostHeader : Type 0 where
  name ip_addr port mode slots max_slots : HostHeader

abbrev pub host_index : HostHeader → ℕ
host_index name = 0
host_index ip_addr = 1
host_index port = 2
host_index mode = 3
host_index slots = 4
host_index max_slots = 5

abbrev pub g_host_map : HostHeader → Text
g_host_map name = codes "host_name"
g_host_map ip_addr = codes "ip_addr"
g_host_map port = codes "port"
g_host_map mode = codes "mode"
g_host_map slots = codes "slots"
g_host_map max_slots = codes "max_slots"

abbrev pub host_headers : List HostHeader
host_headers = name ∷ ip_addr ∷ port ∷ mode ∷ slots ∷ max_slots ∷ []

-- `valid_platform_header`
pub data PlatformHeader : Type 0 where
  platform_cfg rec_strat var3 : PlatformHeader

abbrev pub platform_index : PlatformHeader → ℕ
platform_index platform_cfg = 0
platform_index rec_strat = 1
platform_index var3 = 2

abbrev pub g_plat_map : PlatformHeader → Text
g_plat_map platform_cfg = codes "platform_id"
g_plat_map rec_strat = codes "recommendation_strategy"
g_plat_map var3 = codes "var3"

abbrev pub platform_headers : List PlatformHeader
platform_headers = platform_cfg ∷ rec_strat ∷ var3 ∷ []

-- `node_mode`
pub data NodeMode : Type 0 where
  ads_only accel_only ads_accel no_mode : NodeMode

abbrev pub g_node_mode_map : NodeMode → Text
g_node_mode_map ads_only = codes "ads_only"
g_node_mode_map accel_only = codes "accel_only"
g_node_mode_map ads_accel = codes "ads_accel"
g_node_mode_map no_mode = codes "none"

-- `base_entry` with the `_header_desc` of a kind
pub record Entry (K : Type 0) : Type 0 where
  pub as_is : Text
  pub map_key : Text
  pub attrs : List (Text × Text)
  pub header_desc : List (K × Text)

abbrev pub HostEntry : Type 0
HostEntry = Entry HostHeader

abbrev pub FunctionEntry : Type 0
FunctionEntry = Entry Header

abbrev pub PlatformEntry : Type 0
PlatformEntry = Entry PlatformHeader

abbrev pub front {ℓ} : {A : Type ℓ} → List A → Option A
front [] = none
front (x ∷ xs) = some x

abbrev pub back {ℓ} : {A : Type ℓ} → List A → Option A
back [] = none
back (x ∷ []) = some x
back (x ∷ y ∷ xs) = back (y ∷ xs)

module _ {K : Type 0} (order_of : K → ℕ) where
  -- `get_header_attr`
  abbrev pub get_header_attr : K → Entry K → List Text
  get_header_attr key e = equal_range order_of key e.header_desc

  -- The front and the back of an empty list are undefined.
  abbrev pub get_first_header_attr : K → Entry K → Option Text
  get_first_header_attr key e = front (get_header_attr key e)

  abbrev pub get_last_header_attr : K → Entry K → Option Text
  get_last_header_attr key e = back (get_header_attr key e)

  abbrev pub insert_header_attr : K → Text → Entry K → Entry K
  insert_header_attr key val e = record e {
    header_desc = multi_insert order_of key val e.header_desc;
  }

  -- The loop of `save_array`: an empty value is a wildcard.
  pub save_array : K → List Text → List (K × Text) → List (K × Text)
  save_array key [] desc = desc
  save_array key (val ∷ vals) desc =
      save_array key vals (multi_insert order_of key (if val == [] then wildcard else val) desc)

module _ (get_array : Text → Text → List Text) (get_object : Text → Text → List (Text × Text)) where
  -- The constructor of `base_entry`
  abbrev pub attrs_of : Text → List (Text × Text)
  attrs_of json = if json == [] then [] else get_object (codes "attr") json

  module _ {K : Type 0} (order_of : K → ℕ) (name_of : K → Text) where
    pub save_arrays : Text → List K → List (K × Text) → List (K × Text)
    save_arrays json [] desc = desc
    save_arrays json (key ∷ keys) desc =
        save_arrays json keys (save_array order_of key (get_array (name_of key) json) desc)

    unfoldable pub named_entry : Text → List (K × Text) → Option Text → Option (Entry K)
    named_entry json desc none = none
    named_entry json desc (some key_text) =
        some
          (record { as_is = json; map_key = key_text; attrs = attrs_of json; header_desc = desc })

    -- The constructor from a text, for the keys in their order. The entry's name is the first value
    -- of one of them; without one the end iterator is read.
    unfoldable pub entry_of : List K → K → Text → Option (Entry K)
    unfolding save_arrays save_array
    entry_of keys key json =
        let desc = save_arrays json keys [] in
        named_entry json desc (front (equal_range order_of key desc))

  abbrev pub host_entry : Text → Option HostEntry
  host_entry json = entry_of host_index g_host_map host_headers name json

  abbrev pub function_entry : Text → Option FunctionEntry
  function_entry json = entry_of index g_func_map headers func_alias json

  abbrev pub platform_entry : Text → Option PlatformEntry
  platform_entry json = entry_of platform_index g_plat_map platform_headers platform_cfg json

abbrev pub insert_all : List (Header × Text) → List (Header × Text) → List (Header × Text)
insert_all [] desc = desc
insert_all (en ∷ m) desc = insert_all m (multi_insert index en.0 en.1 desc)

-- The constructor from a map, at the empty text that its callers give: it has no attributes.
abbrev pub function_entry_of : List (Header × Text) → FunctionEntry
function_entry_of m =
    let desc = insert_all m [] in
    record {
      as_is = [];
      map_key = or_else (front (equal_range index func_alias desc)) wildcard;
      attrs = [];
      header_desc = desc;
    }

-- `get_func_alias` reads through the end iterator where there is no alias.
abbrev pub get_func_alias : FunctionEntry → Option Text
get_func_alias fe = front (equal_range index func_alias fe.header_desc)

abbrev pub get_constraints_for : Header → FunctionEntry → List Text
get_constraints_for key fe = equal_range index key fe.header_desc

abbrev pub compatible : Text → Text → Bool
compatible s ss = s == wildcard || (ss == wildcard || s == ss)

-- One turn of the loop of `contains_kv`.
abbrev pub contains_key : FunctionEntry → FunctionEntry → Header → Bool
contains_key this fe key =
    any_of (λ s. any_of (λ ss. compatible s ss) (equal_range index key this.header_desc))
      (equal_range index key fe.header_desc)

unfoldable pub contains_kv : FunctionEntry → FunctionEntry → Option Bool
contains_kv this fe =
    for_each_key index (λ en matches. matches && contains_key this fe en.0) fe.header_desc
      (length fe.header_desc) fe.header_desc true

-- The entry before the end of the range: without a replica count it is of another key, or before
-- the first one.
unfoldable pub get_num_replicas : FunctionEntry → Option ℕ
get_num_replicas fe = do
  en ← back (keep_if (λ (en : Header × Text). leb (index en.0) (index replica)) fe.header_desc)
  stoul en.1

-- `get_node_mode`: a text that is no mode makes `reverse_map_find` fall off its end.
unfoldable pub get_node_mode : HostEntry → Option NodeMode
get_node_mode host = do
  mode_str ← get_last_header_attr host_index mode host
  find_if (λ md. g_node_mode_map md == mode_str) (ads_only ∷ accel_only ∷ ads_accel ∷ no_mode ∷ [])

unfoldable pub get_ext_connstr : HostEntry → Option Text
get_ext_connstr host = do
  addr ← get_last_header_attr host_index name host
  p ← get_last_header_attr host_index port host
  some (codes "tcp://" ++ addr ++ codes ":" ++ p)

-- The lambda `str_to_vfh` of `import`; `none` is `NO_PARMS`.
abbrev pub str_to_vfh : Text → Option Header
str_to_vfh key = find_if (λ h. key == g_func_map h) headers

-- The first loop of `import`. It splits at a comma what has been split at commas: a piece that
-- names a header has no second word, and an empty one no first.
pub import_headers : List Text → FunctionEntry → Option FunctionEntry
import_headers [] fe = some fe
import_headers (inp ∷ func_parm_list) fe = do
  let skeyval = split_str b',' inp
  word ← get_elem? skeyval 0
  fe' ← elim (str_to_vfh word) [
    | none ↦ some fe
    | some key ↦ (do val ← get_elem? skeyval 1; some (insert_header_attr index key val fe))
  ]
  import_headers func_parm_list fe'

pub import_attributes : List Text → FunctionEntry → Option FunctionEntry
import_attributes [] fe = some fe
import_attributes (inp ∷ meta_parm_list) fe = do
  let keyval = split_str b',' inp
  key ← get_elem? keyval 0
  val ← get_elem? keyval 1
  import_attributes meta_parm_list (record fe { attrs = assign key val fe.attrs })

-- The alias is looked for and not used.
pub find_alias : List Text → Option Text
find_alias [] = none
find_alias (keyval ∷ func_parm_list) = do
  let kv = split_str b'=' keyval
  key ← get_elem? kv 0
  let rest = find_alias func_parm_list
  if key == g_func_map func_alias then get_elem? kv 1 else rest

unfoldable pub import : Text → Text → FunctionEntry → Option FunctionEntry
unfolding find_alias import_headers import_attributes
import func_desc meta_data fe = do
  let func_parm_list = split_str b',' func_desc
  alias ← find_alias func_parm_list
  fe' ← import_headers func_parm_list fe
  import_attributes (split_str b',' meta_data) fe'
