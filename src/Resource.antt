-- ===== src/Resource.antt =====
-- utils/include/config_components.h (`valid_function_header`, `g_func_map`) and the class
-- `cached_resource_desc` of utils/include/ncache_registry.h and utils/src/ncache_registry.cc.
use multi_agent_accelerator.Prelude.{
  ==_iff, ==_refl, Bool, EqualityComparable, List, Option, Text, [], all_of, ap, arith, codes,
  false, find_if, fun_ext, get_elem?, if◌then◌else◌, list_eq, map, nat_eq, none, refl, some, subst,
  suc, sym, true, ℕ, ◌&&◌, ◌++◌, ◌+◌, ◌==◌, ◌>>=◌, ◌↔◌, ◌∙◌, ◌∷◌, ◌≡◌, ◌≢◌,
}
use multi_agent_accelerator.Split.{join, split_str}
pub mod RoundTrip
pub mod Logic

-- `NO_PARMS` keys no entry of `g_func_map` and is left out.
pub data Header : Type 0 where
  hw_vid hw_pid hw_ss_vid hw_ss_pid : Header
  sw_vid sw_pid sw_clid sw_fid sw_verid func_alias : Header
  plat_cfg replica : Header

-- The value of the enumerator.
abbrev pub index : Header → ℕ
index hw_vid = 0
index hw_pid = 1
index hw_ss_vid = 2
index hw_ss_pid = 3
index sw_vid = 4
index sw_pid = 5
index sw_clid = 6
index sw_fid = 7
index sw_verid = 8
index func_alias = 9
index plat_cfg = 10
index replica = 11

-- `std::map` iterates in the order of its keys.
abbrev pub headers : List Header
headers =
    hw_vid ∷ hw_pid ∷ hw_ss_vid ∷ hw_ss_pid ∷ sw_vid ∷ sw_pid ∷ sw_clid ∷ sw_fid ∷ sw_verid
    ∷ func_alias ∷ plat_cfg ∷ replica ∷ []

pub headers-index : (h : Header) → get_elem? headers (index h) ≡ some h
headers-index hw_vid = refl
headers-index hw_pid = refl
headers-index hw_ss_vid = refl
headers-index hw_ss_pid = refl
headers-index sw_vid = refl
headers-index sw_pid = refl
headers-index sw_clid = refl
headers-index sw_fid = refl
headers-index sw_verid = refl
headers-index func_alias = refl
headers-index plat_cfg = refl
headers-index replica = refl

abbrev pub header_beq : Header → Header → Bool
header_beq a b = index a == index b

pub header_beq_iff : (a b : Header) → (header_beq a b ≡ true) ↔ (a ≡ b)
header_beq_iff a b = (
  λ h. ground (arith, headers-index a, headers-index b, ap (get_elem? headers) ((==_iff _ _).0 h)),
  λ e. (==_iff (index a) (index b)).1 (ap index e),
)

instance abbrev pub header_eq : EqualityComparable Header
header_eq = record { equal_to = header_beq; equal_to_iff = header_beq_iff }

abbrev pub g_func_map : Header → Text
g_func_map hw_vid = codes "hw_vid"
g_func_map hw_pid = codes "hw_pid"
g_func_map hw_ss_vid = codes "hw_ss_vid"
g_func_map hw_ss_pid = codes "hw_ss_pid"
g_func_map sw_vid = codes "sw_vid"
g_func_map sw_pid = codes "sw_pid"
g_func_map sw_clid = codes "sw_clid"
g_func_map sw_fid = codes "sw_fid"
g_func_map sw_verid = codes "sw_verid"
g_func_map func_alias = codes "func_alias"
g_func_map plat_cfg = codes "platform_id"
g_func_map replica = codes "func_repl"

abbrev pub wildcard : Text
wildcard = codes "*"

-- `_func_desc`, which starts as a copy of `g_func_map` and keeps its keys
abbrev pub Desc : Type 0
Desc = Header → Text

abbrev pub put : Header → Text → Desc → Desc
put h v d h' = if h == h' then v else d h'

-- `reverse_map_find`: with no match control falls off the end, which is undefined: `none`.
unfoldable pub reverse_map_find : Text → Option Header
reverse_map_find key = find_if (λ h. g_func_map h == key) headers

-- `_insert(int, std::string)`; past the last entry it writes through the end iterator: `none`
unfoldable pub insert_at : ℕ → Text → Desc → Option Desc
insert_at i v d = elim (get_elem? headers i) [ none ↦ none | some h ↦ some (put h v d) ]

unfoldable pub insert_key : Text → Text → Desc → Option Desc
unfolding reverse_map_find
insert_key key v d = elim (reverse_map_find key) [ none ↦ none | some h ↦ some (put h v d) ]

-- A piece that has no words has no `keyval[0]`: `none`.
unfoldable pub insert_piece : ℕ → List Text → Desc → Option Desc
unfolding insert_at insert_key
insert_piece j [] d = none
insert_piece j (v ∷ []) d = insert_at j v d
insert_piece j (k ∷ v ∷ rest) d = insert_key k v d

unfoldable pub insert_pieces : ℕ → List Text → Desc → Option Desc
unfolding insert_piece
insert_pieces j [] d = some d
insert_pieces j (piece ∷ rest) d = do
  d' ← insert_piece j (split_str b'=' piece) d
  insert_pieces (suc j) rest d'

unfoldable pub insert_inputs : List Text → Desc → Option Desc
unfolding insert_pieces
insert_inputs [] d = some d
insert_inputs (input ∷ rest) d = do
  d' ← insert_pieces 0 (split_str b':' input) d
  insert_inputs rest d'

unfoldable pub fill_wildcards : Desc → Desc
fill_wildcards d h = if g_func_map h == d h then wildcard else d h

-- The constructor.
unfoldable pub cached_resource_desc : List Text → Option Desc
unfolding insert_inputs fill_wildcards
cached_resource_desc inputs = do d ← insert_inputs inputs g_func_map; some (fill_wildcards d)

abbrev pub field_text : Desc → Header → Text
field_text d h = g_func_map h ++ b'=' ∷ d h

-- The order in which `stringify` writes the fields.
abbrev pub written : List Header
written =
    hw_vid ∷ hw_pid ∷ hw_ss_vid ∷ hw_ss_pid ∷ sw_vid ∷ sw_pid ∷ sw_fid ∷ sw_clid ∷ sw_verid ∷ []

unfoldable pub stringify : Desc → Text
stringify d = join b':' (map (field_text d) written)

-- `operator==` compares the maps.
abbrev pub desc_beq : Desc → Desc → Bool
desc_beq a b = all_of (λ h. a h == b h) headers

desc_beq-at : (a b : Desc) → desc_beq a b ≡ true → (h : Header) → a h ≡ b h
desc_beq-at a b e hw_vid = ground (arith, ==_iff (a hw_vid) (b hw_vid))
desc_beq-at a b e hw_pid = ground (arith, ==_iff (a hw_pid) (b hw_pid))
desc_beq-at a b e hw_ss_vid = ground (arith, ==_iff (a hw_ss_vid) (b hw_ss_vid))
desc_beq-at a b e hw_ss_pid = ground (arith, ==_iff (a hw_ss_pid) (b hw_ss_pid))
desc_beq-at a b e sw_vid = ground (arith, ==_iff (a sw_vid) (b sw_vid))
desc_beq-at a b e sw_pid = ground (arith, ==_iff (a sw_pid) (b sw_pid))
desc_beq-at a b e sw_clid = ground (arith, ==_iff (a sw_clid) (b sw_clid))
desc_beq-at a b e sw_fid = ground (arith, ==_iff (a sw_fid) (b sw_fid))
desc_beq-at a b e sw_verid = ground (arith, ==_iff (a sw_verid) (b sw_verid))
desc_beq-at a b e func_alias = ground (arith, ==_iff (a func_alias) (b func_alias))
desc_beq-at a b e plat_cfg = ground (arith, ==_iff (a plat_cfg) (b plat_cfg))
desc_beq-at a b e replica = ground (arith, ==_iff (a replica) (b replica))

desc_beq_refl : (a : Desc) → desc_beq a a ≡ true
desc_beq_refl a = simp ==_refl

pub desc_beq_iff : (a b : Desc) → (desc_beq a b ≡ true) ↔ (a ≡ b)
desc_beq_iff a b =
    (λ e. fun_ext (desc_beq-at a b e), λ e. subst (λ c. desc_beq a c ≡ true) e (desc_beq_refl a))

instance abbrev pub desc_eq : EqualityComparable Desc
desc_eq = record { equal_to = desc_beq; equal_to_iff = desc_beq_iff }
