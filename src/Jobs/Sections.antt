-- ===== src/Jobs/Sections.antt =====
-- utils/src/config_components.cc: the sections of a configuration file and the texts that it is made
-- from.
use multi_agent_accelerator.Jobs.Config.{
  ConfigEntry, ConfigFile, add_entry, add_section_entries, as_function, as_host, as_platform,
  entry_exists, function, get_section_json, host, platform, set_config_sections,
}
use multi_agent_accelerator.Jobs.Entries.{
  Entry, FunctionEntry, HostEntry, PlatformEntry, entry_of, function_entry, host_entry, named_entry,
  platform_entry,
}
use multi_agent_accelerator.Prelude.{
  All, List, Option, Option-cases, Text, [], ap, append-nil, append_assoc, ap₂, false, inl, inr,
  map, none, refl, some, sym, ℕ, ◌++◌, ◌∙◌, ◌∷◌, ◌≡◌,
}

module _ {K : Type 0} (as_kind : ConfigEntry → Option (Entry K)) where
  get_section-append :
      (front back : ConfigFile)
      → get_section_json as_kind (front ++ back)
        ≡ get_section_json as_kind front ++ get_section_json as_kind back
  unfolding get_section_json
  get_section-append [] back = refl
  get_section-append (ce ∷ front) back = elim (Option-cases (as_kind ce)) [
    | inl e ↦ rw (get_section_json, e) (get_section-append front back)
    | inr (k, e) ↦ rw (get_section_json, e) (ap (λ t. k.as_is ∷ t) (get_section-append front back))
  ]

  get_section-own :
      (wrap : Entry K → ConfigEntry)
      → ((e : Entry K) → as_kind (wrap e) ≡ some e)
      → (es : List (Entry K))
      → get_section_json as_kind (map wrap es) ≡ map (λ (e : Entry K). e.as_is) es
  unfolding get_section_json
  get_section-own wrap own [] = refl
  get_section-own wrap own (e ∷ es) =
      rw (get_section_json, own e) (ap (λ t. e.as_is ∷ t) (get_section-own wrap own es))

  get_section-other :
      {A : Type 0} (wrap : A → ConfigEntry)
      → ((e : A) → as_kind (wrap e) ≡ none)
      → (es : List A) → get_section_json as_kind (map wrap es) ≡ []
  unfolding get_section_json
  get_section-other wrap other [] = refl
  get_section-other wrap other (e ∷ es) =
      rw (get_section_json, other e) (get_section-other wrap other es)

module _ {K : Type 0} (make : Text → Option (Entry K)) (wrap : Entry K → ConfigEntry)
    (keeps : (json : Text) (e : Entry K) → make json ≡ some e → e.as_is ≡ json) where
  add_section_entries-behind :
      (section : List Text) (config : ConfigFile)
      → All (λ json. (e : Entry K) × (make json ≡ some e)) section
      → (es : List (Entry K)) × (add_section_entries make wrap section config
          ≡ some (config ++ map wrap es))
        × (map (λ (e : Entry K). e.as_is) es ≡ section)
  unfolding add_section_entries add_entry
  add_section_entries-behind [] config h = ([], ap some (sym (append-nil config)), refl)
  add_section_entries-behind (json ∷ section) config h =
      let (e, made) = h.0 in
      let (es, runs, texts) = add_section_entries-behind section (config ++ wrap e ∷ []) h.1 in
      (
        e ∷ es,
        rw (add_section_entries, made, add_entry, never (wrap e) config, runs)
            (ap some (append_assoc config (wrap e ∷ []) (map wrap es))),
        ap₂ (λ t ts. t ∷ ts) (keeps json e made) texts,
      )
    where
      never : (ce : ConfigEntry) (config : ConfigFile) → entry_exists ce config ≡ false
      never ce [] = refl
      never ce (c ∷ config) = never ce config

module _ (get_array : Text → Text → List Text) (get_object : Text → Text → List (Text × Text)) where
  module _ {K : Type 0} (order_of : K → ℕ) (name_of : K → Text) where
    named_entry-as_is :
        (json : Text) (desc : List (K × Text)) (key_text : Option Text) (e : Entry K)
        → named_entry get_array get_object order_of name_of json desc key_text ≡ some e
        → e.as_is ≡ json
    unfolding named_entry
    named_entry-as_is json desc none e h = cc
    named_entry-as_is json desc (some key_text) e h =
        ap (λ (o : Option (Entry K)). elim o [ none ↦ json | some x ↦ x.as_is ]) (sym h)

    entry_of-as_is :
        (keys : List K) (key : K) (json : Text) (e : Entry K)
        → entry_of get_array get_object order_of name_of keys key json ≡ some e
        → e.as_is ≡ json
    unfolding entry_of
    entry_of-as_is keys key json e h = named_entry-as_is json _ _ e h

  -- A configuration that is made from three lists of texts, each with the name that its kind needs,
  -- gives the same three lists back as its sections, in their order. A text that comes more than once
  -- stays as often as it comes, in spite of the comment in `add_entry` that repeats are removed.
  pub get_section-set_config_sections :
      (hosts functions platforms : List Text)
      → All (λ json. (e : HostEntry) × (host_entry get_array get_object json ≡ some e)) hosts
      → All
          (λ json. (e : FunctionEntry) × (function_entry get_array get_object json ≡ some e))
          functions
      → All
          (λ json. (e : PlatformEntry) × (platform_entry get_array get_object json ≡ some e))
          platforms
      → (config : ConfigFile) × (set_config_sections get_array get_object hosts functions platforms
            []
          ≡ some config)
        × (get_section_json as_host config ≡ hosts)
        × (get_section_json as_function config ≡ functions)
        × (get_section_json as_platform config ≡ platforms)
  unfolding set_config_sections
  get_section-set_config_sections hosts functions platforms h f p =
      let (hs, runs_h, texts_h) =
        add_section_entries-behind (host_entry get_array get_object) host (entry_of-as_is _ _ _ _)
          hosts [] h in
      let (fs, runs_f, texts_f) =
        add_section_entries-behind (function_entry get_array get_object) function
          (entry_of-as_is _ _ _ _) functions (map host hs) f in
      let (ps, runs_p, texts_p) =
        add_section_entries-behind (platform_entry get_array get_object) platform
          (entry_of-as_is _ _ _ _) platforms (map host hs ++ map function fs) p in
      (
        (map host hs ++ map function fs) ++ map platform ps,
        rw (runs_h, runs_f, runs_p) refl,
        rw
            (
              get_section-append as_host (map host hs ++ map function fs) (map platform ps),
              get_section-append as_host (map host hs) (map function fs),
              get_section-own as_host host (λ e. refl) hs,
              get_section-other as_host function (λ e. refl) fs,
              get_section-other as_host platform (λ e. refl) ps,
            )
            (append-nil _ ∙ append-nil _ ∙ texts_h),
        rw
            (
              get_section-append as_function (map host hs ++ map function fs) (map platform ps),
              get_section-append as_function (map host hs) (map function fs),
              get_section-other as_function host (λ e. refl) hs,
              get_section-own as_function function (λ e. refl) fs,
              get_section-other as_function platform (λ e. refl) ps,
            )
            (append-nil _ ∙ texts_f),
        rw
            (
              get_section-append as_platform (map host hs ++ map function fs) (map platform ps),
              get_section-append as_platform (map host hs) (map function fs),
              get_section-other as_platform host (λ e. refl) hs,
              get_section-other as_platform function (λ e. refl) fs,
              get_section-own as_platform platform (λ e. refl) ps,
            )
            texts_p,
      )
