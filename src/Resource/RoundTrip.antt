-- ===== src/Resource/RoundTrip.antt =====
-- utils/src/ncache_registry.cc: the constructor of `cached_resource_desc` reads back what
-- `stringify` writes. A nexus sends its resources to the bridges as such texts.
-- A value that `stringify` can write: not empty, without the two delimiters, and not the name of
-- its own field.
use multi_agent_accelerator.Prelude.{
  ==_iff, All, Bool, List, [], all_of, all_of-append, ap, arith, fun_ext, list_eq, map, nat_eq, not,
  refl, some, suc, sym, true, ℕ, ◌&&◌, ◌==◌, ◌∙◌, ◌∷◌, ◌≡◌, ◌≢◌,
}
use multi_agent_accelerator.Resource.{
  Desc, Header, cached_resource_desc, field_text, fill_wildcards, func_alias, g_func_map, hw_pid,
  hw_ss_pid, hw_ss_vid, hw_vid, insert_key, insert_piece, insert_pieces, plat_cfg, put, replica,
  reverse_map_find, stringify, sw_clid, sw_fid, sw_pid, sw_verid, sw_vid, wildcard, written,
}
use multi_agent_accelerator.Split.{
  AreWords, is_free_of, join, split_str, split_str-delimited, split_str-free, split_str-join,
}

pub record IsWritable (d : Desc) (h : Header) : Type 0 where
  pub no_colon : is_free_of b':' (d h) ≡ true
  pub no_equals : is_free_of b'=' (d h) ≡ true
  pub nonempty : d h ≢ []
  pub not_name : g_func_map h ≢ d h

-- The same as a test.
abbrev pub writable_test : Desc → Header → Bool
writable_test d h =
    is_free_of b':' (d h) && is_free_of b'=' (d h) && not (d h == []) && not (g_func_map h == d h)

IsWritable-of_test : (d : Desc) (h : Header) → writable_test d h ≡ true → IsWritable d h
IsWritable-of_test d h t = record {
  no_colon = ground arith;
  no_equals = ground arith;
  nonempty = ground (arith, ==_iff (d h) []);
  not_name = ground (arith, ==_iff (g_func_map h) (d h));
}

pub All-IsWritable-of_test :
    (d : Desc) (hs : List Header) → all_of (writable_test d) hs ≡ true → All (IsWritable d) hs
All-IsWritable-of_test d [] t = tt
All-IsWritable-of_test d (h ∷ hs) t =
    (IsWritable-of_test d h (ground arith), All-IsWritable-of_test d hs (ground arith))

-- What a descriptor needs to survive the trip: `stringify` leaves three fields out.
pub record IsCanonical (d : Desc) : Type 0 where
  pub writable : All (IsWritable d) written
  pub no_alias : d func_alias ≡ wildcard
  pub no_platform : d plat_cfg ≡ wildcard
  pub no_replica : d replica ≡ wildcard

names-free : (h : Header) → is_free_of b':' (g_func_map h) ≡ true
names-free hw_vid = refl
names-free _ = refl

names-free_equals : (h : Header) → is_free_of b'=' (g_func_map h) ≡ true
names-free_equals hw_vid = refl
names-free_equals _ = refl

reverse_map_find-g_func_map : (h : Header) → reverse_map_find (g_func_map h) ≡ some h
unfolding reverse_map_find
reverse_map_find-g_func_map hw_vid = refl
reverse_map_find-g_func_map _ = refl

field_text-free : (d : Desc) (h : Header) → IsWritable d h → is_free_of b':' (field_text d h) ≡ true
field_text-free d h w =
    ground
      (arith, all_of-append (λ (c : ℕ). not (c == b':')) (g_func_map h) (b'=' ∷ d h), names-free h)

field_text-nonempty : (d : Desc) (h : Header) → field_text d h ≢ []
field_text-nonempty d hw_vid e = cc
field_text-nonempty d _ e = cc

field_text-split :
    (d : Desc) (h : Header)
    → IsWritable d h
    → split_str b'=' (field_text d h) ≡ g_func_map h ∷ d h ∷ []
field_text-split d h w =
    split_str-delimited b'=' (g_func_map h) (d h) (names-free_equals h)
    ∙ ap (λ r. g_func_map h ∷ r) (split_str-free b'=' (d h) w.no_equals w.nonempty)

insert_piece-field :
    (j : ℕ) (d e : Desc) (h : Header)
    → IsWritable d h
    → insert_piece j (split_str b'=' (field_text d h)) e ≡ some (put h (d h) e)
unfolding insert_piece insert_key
insert_piece-field j d e h w =
    rw (field_text-split d h w) (rw (reverse_map_find-g_func_map h, insert_key))

abbrev pub put_all : Desc → List Header → Desc → Desc
put_all d [] e = e
put_all d (h ∷ hs) e = put_all d hs (put h (d h) e)

insert_pieces-fields :
    (j : ℕ) (d e : Desc) (hs : List Header)
    → All (IsWritable d) hs
    → insert_pieces j (map (field_text d) hs) e ≡ some (put_all d hs e)
unfolding insert_pieces
insert_pieces-fields j d e [] w = refl
insert_pieces-fields j d e (h ∷ hs) w =
    rw (insert_piece-field j d e h w.0) (insert_pieces-fields (suc j) d (put h (d h) e) hs w.1)

AreWords-fields :
    (d : Desc) (hs : List Header) → All (IsWritable d) hs → AreWords b':' (map (field_text d) hs)
AreWords-fields d [] w = tt
AreWords-fields d (h ∷ []) w = (field_text-free d h w.0, field_text-nonempty d h)
AreWords-fields d (h ∷ g ∷ hs) w = (field_text-free d h w.0, AreWords-fields d (g ∷ hs) w.1)

pub fill_wildcards-put_all :
    (d : Desc)
    → IsCanonical d
    → (h : Header) → fill_wildcards (put_all d written g_func_map) h ≡ d h
unfolding fill_wildcards
fill_wildcards-put_all d c hw_vid =
    ground (arith, ==_iff (g_func_map hw_vid) (d hw_vid), (c.writable.0).not_name)
fill_wildcards-put_all d c hw_pid =
    ground (arith, ==_iff (g_func_map hw_pid) (d hw_pid), (c.writable.1.0).not_name)
fill_wildcards-put_all d c hw_ss_vid =
    ground (arith, ==_iff (g_func_map hw_ss_vid) (d hw_ss_vid), (c.writable.1.1.0).not_name)
fill_wildcards-put_all d c hw_ss_pid =
    ground (arith, ==_iff (g_func_map hw_ss_pid) (d hw_ss_pid), (c.writable.1.1.1.0).not_name)
fill_wildcards-put_all d c sw_vid =
    ground (arith, ==_iff (g_func_map sw_vid) (d sw_vid), (c.writable.1.1.1.1.0).not_name)
fill_wildcards-put_all d c sw_pid =
    ground (arith, ==_iff (g_func_map sw_pid) (d sw_pid), (c.writable.1.1.1.1.1.0).not_name)
fill_wildcards-put_all d c sw_clid =
    ground (arith, ==_iff (g_func_map sw_clid) (d sw_clid), (c.writable.1.1.1.1.1.1.1.0).not_name)
fill_wildcards-put_all d c sw_fid =
    ground (arith, ==_iff (g_func_map sw_fid) (d sw_fid), (c.writable.1.1.1.1.1.1.0).not_name)
fill_wildcards-put_all d c sw_verid =
    ground
      (arith, ==_iff (g_func_map sw_verid) (d sw_verid), (c.writable.1.1.1.1.1.1.1.1.0).not_name)
fill_wildcards-put_all d c func_alias = sym c.no_alias
fill_wildcards-put_all d c plat_cfg = sym c.no_platform
fill_wildcards-put_all d c replica = sym c.no_replica

-- The fields of a text are put in its order, and then the wildcards are filled in.
pub cached_resource_desc-fields :
    (d : Desc) (hs : List Header)
    → All (IsWritable d) hs
    → cached_resource_desc (join b':' (map (field_text d) hs) ∷ [])
      ≡ some (fill_wildcards (put_all d hs g_func_map))
unfolding cached_resource_desc
cached_resource_desc-fields d hs w =
    rw (split_str-join b':' (map (field_text d) hs) (AreWords-fields d hs w))
      (rw (insert_pieces-fields 0 d g_func_map hs w) refl)

-- A canonical descriptor comes back whole from the text that `stringify` makes of it.
pub cached_resource_desc-stringify :
    (d : Desc) → IsCanonical d → cached_resource_desc (stringify d ∷ []) ≡ some d
unfolding stringify
cached_resource_desc-stringify d c =
    cached_resource_desc-fields d written c.writable
    ∙ ap some (fun_ext (fill_wildcards-put_all d c))
