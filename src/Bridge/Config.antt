-- ===== src/Bridge/Config.antt =====
-- utils/src/config_components.cc: the function entries of the configuration file. An entry is kept
-- as its `std::multimap` of the values under its headers, in the order of the headers.
use multi_agent_accelerator.Prelude.{
  All, List, Option, Text, [], ap, find, fun_ext, if◌then◌else◌, list_eq, ltb, map, nat_eq, none,
  refl, some, subst, true, ◌>>=◌, ◌∙◌, ◌∷◌, ◌≡◌, ◌≢◌,
}
use multi_agent_accelerator.Resource.{
  Desc, Header, cached_resource_desc, field_text, fill_wildcards, func_alias, g_func_map, hw_pid,
  hw_ss_pid, hw_ss_vid, hw_vid, index, plat_cfg, replica, sw_clid, sw_fid, sw_pid, sw_verid, sw_vid,
  wildcard, written,
}
use multi_agent_accelerator.Resource.RoundTrip.{
  IsCanonical, IsWritable, cached_resource_desc-fields, fill_wildcards-put_all, put_all,
}
use multi_agent_accelerator.Split.{is_free_of, join}

abbrev pub Configfile : Type 0
Configfile = List (Text × List (Header × Text))

-- `equal_range( h ).first->second`: where nothing is under the header, the iterator is at the next
-- header, or at the end, where there is no value.
abbrev pub first_at : Header → List (Header × Text) → Option Text
first_at h [] = none
first_at h (en ∷ dm) = if ltb (index en.0) (index h) then first_at h dm else some en.1

abbrev pub fields_at : List (Header × Text) → List Header → Option (List Text)
fields_at dm [] = some []
fields_at dm (h ∷ hs) = do
  v ← first_at h dm
  rest ← fields_at dm hs
  some (field_text (λ k. v) h ∷ rest)

-- The order in which `get_function_header` writes the fields.
abbrev pub header_order : List Header
header_order =
    hw_vid ∷ hw_pid ∷ hw_ss_vid ∷ hw_ss_pid ∷ sw_vid ∷ sw_pid ∷ sw_clid ∷ sw_fid ∷ sw_verid ∷ []

-- `get_function_entry`: `at` throws for an alias that is not there.
unfoldable pub get_function_entry : Text → Configfile → Option (List (Header × Text))
get_function_entry alias config = find alias config

unfoldable pub get_function_header : Text → Configfile → Option Text
get_function_header falias config = do
  dm ← get_function_entry falias config
  fields ← fields_at dm header_order
  some (join b':' fields)

-- The claim on a function, on the device and of the software that its entry names.
abbrev pub claim_of : Desc → Desc
claim_of d func_alias = wildcard
claim_of d plat_cfg = wildcard
claim_of d replica = wildcard
claim_of d h = d h

-- What the code finds in an entry under each header that it writes.
abbrev pub Finds : List (Header × Text) → Desc → Type 0
Finds dm d = All (λ h. first_at h dm ≡ some (d h)) header_order

fields_at-found :
    (dm : List (Header × Text)) (d : Desc) (hs : List Header)
    → All (λ h. first_at h dm ≡ some (d h)) hs
    → fields_at dm hs ≡ some (map (field_text d) hs)
fields_at-found dm d [] q = refl
fields_at-found dm d (h ∷ hs) q = rw (q.0, fields_at-found dm d hs q.1) refl

same_field : (d e : Desc) (h : Header) → d h ≡ e h → IsWritable d h → IsWritable e h
same_field d e h q w = record {
  no_colon = subst (λ v. is_free_of b':' v ≡ true) q w.no_colon;
  no_equals = subst (λ v. is_free_of b'=' v ≡ true) q w.no_equals;
  nonempty = subst (λ v. v ≢ []) q w.nonempty;
  not_name = subst (λ v. g_func_map h ≢ v) q w.not_name;
}

module _ (d : Desc) (w : All (IsWritable d) written) where
  claim_of-IsWritable : All (IsWritable (claim_of d)) written
  claim_of-IsWritable = (
    same_field d (claim_of d) hw_vid refl w.0,
    (
      same_field d (claim_of d) hw_pid refl w.1.0,
      (
        same_field d (claim_of d) hw_ss_vid refl w.1.1.0,
        (
          same_field d (claim_of d) hw_ss_pid refl w.1.1.1.0,
          (
            same_field d (claim_of d) sw_vid refl w.1.1.1.1.0,
            (
              same_field d (claim_of d) sw_pid refl w.1.1.1.1.1.0,
              (
                same_field d (claim_of d) sw_fid refl w.1.1.1.1.1.1.0,
                (
                  same_field d (claim_of d) sw_clid refl w.1.1.1.1.1.1.1.0,
                  (same_field d (claim_of d) sw_verid refl w.1.1.1.1.1.1.1.1.0, tt),
                ),
              ),
            ),
          ),
        ),
      ),
    ),
  )

  claim_of-IsCanonical : IsCanonical (claim_of d)
  claim_of-IsCanonical = record {
    writable = claim_of-IsWritable;
    no_alias = refl;
    no_platform = refl;
    no_replica = refl;
  }

  -- The two orders put the same fields.
  put_all-header_order :
      (h : Header)
      → put_all (claim_of d) header_order g_func_map h ≡ put_all (claim_of d) written g_func_map h
  put_all-header_order hw_vid = refl
  put_all-header_order hw_pid = refl
  put_all-header_order hw_ss_vid = refl
  put_all-header_order hw_ss_pid = refl
  put_all-header_order sw_vid = refl
  put_all-header_order sw_pid = refl
  put_all-header_order sw_clid = refl
  put_all-header_order sw_fid = refl
  put_all-header_order sw_verid = refl
  put_all-header_order func_alias = refl
  put_all-header_order plat_cfg = refl
  put_all-header_order replica = refl

  in_header_order : All (IsWritable (claim_of d)) header_order
  in_header_order =
      let c = claim_of-IsWritable in
      (
        c.0,
        (
          c.1.0,
          (
            c.1.1.0,
            (
              c.1.1.1.0,
              (
                c.1.1.1.1.0,
                (c.1.1.1.1.1.0, (c.1.1.1.1.1.1.1.0, (c.1.1.1.1.1.1.0, (c.1.1.1.1.1.1.1.1.0, tt)))),
              ),
            ),
          ),
        ),
      )

  -- The text that the bridge makes of a function's entry is understood as the claim on it: on what
  -- the code finds under each header, which is the next header's value where an entry lacks one.
  -- There is such a value for each header, and it can be written.
  pub get_function_header-claim_of :
      (falias : Text) (config : Configfile) (dm : List (Header × Text))
      → find falias config ≡ some dm
      → Finds dm d
      → (claim_text : Text) × (get_function_header falias config ≡ some claim_text)
        × (cached_resource_desc (claim_text ∷ []) ≡ some (claim_of d))
  unfolding get_function_header get_function_entry
  get_function_header-claim_of falias config dm h finds = (
    join b':' (map (field_text d) header_order),
    rw (h, fields_at-found dm d header_order finds) refl,
    cached_resource_desc-fields (claim_of d) header_order in_header_order
        ∙ ap (λ e. some (fill_wildcards e)) (fun_ext put_all-header_order)
        ∙ ap some (fun_ext (fill_wildcards-put_all (claim_of d) claim_of-IsCanonical)),
  )
