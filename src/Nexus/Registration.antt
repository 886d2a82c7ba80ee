-- ===== src/Nexus/Registration.antt =====
-- accelerator_agent/src/res_mgr_frontend.cc: how virtualization agents register their resources.
use multi_agent_accelerator.Ncache.{add_desc, dump_manifest, supports}
use multi_agent_accelerator.Ncache.Manifest.{
  add_descs, add_descs-append, add_resource-stringify, supports-add_descs,
}
use multi_agent_accelerator.Nexus.Frontend.{
  Frontend, add_lines, res_hwreg, res_hwupdate, update_tracker, with_hw_list,
}
use multi_agent_accelerator.Nexus.Trackers.{
  HwTracker, find_create_tracker, has_id, set_caches, with_caches,
}
use multi_agent_accelerator.Prelude.{
  ==_iff, ==_refl, All, AreDistinct, Bool-cases, List, Text, [], any_of, beq_apart, codes, false,
  find_if, find_if-any_of, find_if-append_last, find_if-update_if, find_if-update_if_other,
  if◌then◌else◌, inl, inr, length, list_eq, map, nat_eq, refl, some, update_if-append_last, ℕ, ◌++◌,
  ◌<◌, ◌==◌, ◌||◌, ◌∷◌, ◌≡◌,
}
use multi_agent_accelerator.Resource.{Desc, desc_eq, stringify}
use multi_agent_accelerator.Resource.RoundTrip.{IsCanonical}
use multi_agent_accelerator.Wire.{Multipart}
use multi_agent_accelerator.Wire.Frames.{pop_typ}

module _ {Frame : Type 0} (m : Multipart Frame) where
  -- The lines of a message, as an agent writes them.
  abbrev pub written_lines : List Desc → List Frame
  written_lines ds = map m.of_string (dump_manifest ds)

  add_lines-written_lines :
      (ds caches : List Desc)
      → All IsCanonical ds
      → add_lines m (length ds) (written_lines ds) caches ≡ some (add_descs ds caches)
  unfolding add_lines dump_manifest
  add_lines-written_lines [] caches h = refl
  add_lines-written_lines (d ∷ ds) caches h =
      rw (m.string_of-of_string (stringify d), add_resource-stringify d caches h.0)
        (add_lines-written_lines ds (add_desc d caches) h.1)

  update_tracker-found :
      (id : Text) (ds : List Desc) (hw_list : List HwTracker) (t : HwTracker)
      → find_if (has_id id) hw_list ≡ some t
      → All IsCanonical ds
      → update_tracker m id (length ds) (written_lines ds) hw_list
        ≡ some (set_caches id (add_descs ds t.caches) hw_list)
  unfolding update_tracker
  update_tracker-found id ds hw_list t h c =
      rw (h, update_tracker, add_lines-written_lines ds t.caches c) refl

  find_if-set_caches :
      (id other : Text) (caches : List Desc) (hw_list : List HwTracker) (t : HwTracker)
      → find_if (has_id id) hw_list ≡ some t
      → find_if (has_id other) (set_caches id caches hw_list)
        ≡ (if other == id then some (with_caches caches t) else find_if (has_id other) hw_list)
  find_if-set_caches id other caches hw_list t found = elim (Bool-cases (other == id)) [
    | inl same ↦
        rw (same, (==_iff other id).0 same)
          (find_if-update_if (has_id id) (with_caches caches) hw_list t (λ u. refl) found)
    | inr differs ↦ rw differs (
        find_if-update_if_other (has_id id) (has_id other) (with_caches caches) hw_list (λ u. refl)
          (λ u h. beq_apart u.id id other h differs))
  ]

  -- An agent that is not known yet and registers distinct, canonical resources is put behind the
  -- others, with exactly these resources; the others stay as they were.
  pub res_hwreg-new :
      (congestion type len type' : ℕ) (f0 f1 f3 : Frame) (addr : Text) (ds : List Desc)
      (rep : List Frame) (s : Frontend m)
      → m.ushort_of f0 ≡ some type
      → m.ulong_of f1 ≡ some len
      → m.ushort_of f3 ≡ some type'
      → length ds < 18446744073709551616
      → any_of (has_id s.current_req_addr) s.hw_list ≡ false
      → AreDistinct ds
      → All IsCanonical ds
      → res_hwreg m congestion
          (f0 ∷ f1 ∷ m.of_string addr ∷ f3 ∷ m.of_ulong (length ds) ∷ written_lines ds)
          rep
          s
        ≡ some (
          0,
          rep,
          with_hw_list m
              (s.hw_list
                ++ record {
                  id = s.current_req_addr;
                  addr = addr;
                  caches = ds;
                  congestion = congestion;
                }
                  ∷ [])
              s,
        )
  unfolding res_hwreg pop_typ find_create_tracker
  res_hwreg-new congestion type len type' f0 f1 f3 addr ds rep s e0 e1 e3 fits new distinct c =
      let id = s.current_req_addr in
      let t : HwTracker = record { id = id; addr = addr; caches = []; congestion = congestion } in
      let absent = find_if-any_of (has_id id) s.hw_list new in
      let found = find_if-append_last (has_id id) s.hw_list t absent (==_refl id) in
      let placed =
        update_if-append_last (has_id id) (with_caches (add_descs ds [])) s.hw_list t absent
          (==_refl id) in
      rw
        (
          e0,
          e1,
          e3,
          m.string_of-of_string addr,
          m.ulong_of-of_ulong (length ds) fits,
          new,
          update_tracker-found id ds (s.hw_list ++ t ∷ []) t found c,
          placed,
          add_descs-append ds [] distinct,
        )
        refl

  -- A known agent that sends canonical resources supports what it supported before and what these
  -- support; the other agents are found as before.
  pub res_hwupdate-supports :
      (type : ℕ) (f0 : Frame) (ds : List Desc) (t : HwTracker) (rep : List Frame) (s : Frontend m)
      → m.ushort_of f0 ≡ some type
      → length ds < 18446744073709551616
      → find_if (has_id s.current_req_addr) s.hw_list ≡ some t
      → All IsCanonical ds
      → (s' : Frontend m) × (t' : HwTracker) × (res_hwupdate m
            (f0 ∷ m.of_ulong (length ds) ∷ written_lines ds)
            rep
            s
          ≡ some (0, rep ++ m.of_string (codes "NX-UPDATE: OK") ∷ [], s'))
        × ((id : Text)
            → find_if (has_id id) s'.hw_list
              ≡ (if id == s.current_req_addr then some t' else find_if (has_id id) s.hw_list))
        × ((res : Desc) → supports res t'.caches ≡ supports res t.caches || supports res ds)
  unfolding res_hwupdate pop_typ
  res_hwupdate-supports type f0 ds t rep s e0 fits found c =
      let id = s.current_req_addr in
      (
        with_hw_list m (set_caches id (add_descs ds t.caches) s.hw_list) s,
        with_caches (add_descs ds t.caches) t,
        rw
            (
              e0,
              m.ulong_of-of_ulong (length ds) fits,
              update_tracker-found id ds s.hw_list t found c,
            )
            refl,
        λ other. find_if-set_caches id other (add_descs ds t.caches) s.hw_list t found,
        λ res. supports-add_descs res ds t.caches,
      )
