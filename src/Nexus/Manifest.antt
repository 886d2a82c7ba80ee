-- ===== src/Nexus/Manifest.antt =====
-- accelerator_agent/src/res_mgr_frontend.cc against bridge_agent/src/anode_manager.cc: a bridge that
-- has a nexus's manifest knows which claims the nexus can pass on to a virtualization agent.
use multi_agent_accelerator.Bridge.Anode.{Anode, post_init}
use multi_agent_accelerator.Bridge.Anode.Claim.{post_init-supports}
use multi_agent_accelerator.Bridge.Anode.Recommend.{
  Sorts, row, row-All, row-Any, sorted-empty, sorted-front,
}
use multi_agent_accelerator.Ncache.{can_completely_support, can_execute, dump_manifest, supports}
use multi_agent_accelerator.Ncache.Manifest.{supports-append}
use multi_agent_accelerator.Ncache.Support.{supports-can_execute}
use multi_agent_accelerator.Nexus.Trackers.{
  HwTracker, address_of, can_support_claim, get_nex_cache_data, recommend_va, va_candidates,
}
use multi_agent_accelerator.Prelude.{
  All, All-append, Any, Any-map, List, Text, [], any_of, ap, get_elem?, inl, inr, none, refl, some,
  subst, sym, true, ℕ, ◌++◌, ◌||◌, ◌∙◌, ◌∷◌, ◌≡◌, ◌≤◌, ◌⊎◌,
}
use multi_agent_accelerator.Resource.{Desc, cached_resource_desc, stringify}
use multi_agent_accelerator.Resource.RoundTrip.{IsCanonical}
use multi_agent_accelerator.Wire.{Multipart}

abbrev lines_of : List HwTracker → List Desc
lines_of [] = []
lines_of (t ∷ hw_list) = t.caches ++ lines_of hw_list

dump_manifest-append :
    (xs ys : List Desc) → dump_manifest (xs ++ ys) ≡ dump_manifest xs ++ dump_manifest ys
unfolding dump_manifest
dump_manifest-append [] ys = refl
dump_manifest-append (x ∷ xs) ys = ap (λ r. stringify x ∷ r) (dump_manifest-append xs ys)

get_nex_cache_data-lines_of :
    (hw_list : List HwTracker) → get_nex_cache_data hw_list ≡ dump_manifest (lines_of hw_list)
unfolding get_nex_cache_data dump_manifest
get_nex_cache_data-lines_of [] = refl
get_nex_cache_data-lines_of (t ∷ hw_list) =
    ap (λ r. dump_manifest t.caches ++ r) (get_nex_cache_data-lines_of hw_list)
    ∙ sym (dump_manifest-append t.caches (lines_of hw_list))

abbrev pub AreCanonical : List HwTracker → Type 0
AreCanonical hw_list = All (λ t. All IsCanonical t.caches) hw_list

All-lines_of :
    (hw_list : List HwTracker) → AreCanonical hw_list → All IsCanonical (lines_of hw_list)
All-lines_of [] h = tt
All-lines_of (t ∷ hw_list) h =
    All-append IsCanonical t.caches (lines_of hw_list) h.0 (All-lines_of hw_list h.1)

supports-lines_of :
    (res : Desc) (hw_list : List HwTracker)
    → supports res (lines_of hw_list) ≡ any_of (λ t. supports res t.caches) hw_list
unfolding can_execute
supports-lines_of res [] = supports-can_execute res []
supports-lines_of res (t ∷ hw_list) =
    supports-append res t.caches (lines_of hw_list)
    ∙ ap (λ b. supports res t.caches || b) (supports-lines_of res hw_list)

module _ {Frame : Type 0} (m : Multipart Frame) where
  -- A bridge's node that a nexus's manifest reaches supports a claim exactly if it did before, or
  -- if one of the nexus's virtualization agents does. The agents' lines are canonical.
  pub get_nex_cache_data-supports :
      (node_idx : ℕ) (hw_list : List HwTracker) (anodes : List (Anode m)) (an : Anode m)
      → get_elem? anodes node_idx ≡ some an
      → AreCanonical hw_list
      → (anodes' : List (Anode m)) × (an' : Anode m) × (post_init m node_idx []
            (get_nex_cache_data hw_list)
            anodes
          ≡ some anodes')
        × (get_elem? anodes' node_idx ≡ some an')
        × ((res : Desc)
            → supports res an'.ncache
              ≡ supports res an.ncache || any_of (λ t. supports res t.caches) hw_list)
  get_nex_cache_data-supports node_idx hw_list anodes an h c =
      let (anodes', an', e1, e2, active, e3) =
        post_init-supports m node_idx [] (lines_of hw_list) anodes an h (All-lines_of hw_list c) in
      (
        anodes',
        an',
        ap (λ ls. post_init m node_idx [] ls anodes) (get_nex_cache_data-lines_of hw_list) ∙ e1,
        e2,
        λ res. e3 res ∙ ap (λ b. supports res an.ncache || b) (supports-lines_of res hw_list),
      )

module _ (claim_text : Text) (res : Desc)
    (parsed : cached_resource_desc (claim_text ∷ []) ≡ some res) where
  abbrev va_table : List HwTracker → List (Text × ℕ)
  va_table [] = []
  va_table (t ∷ hw_list) = row (supports res t.caches) (t.id, t.congestion) (va_table hw_list)

  va_candidates-va_table :
      (hw_list : List HwTracker) → va_candidates claim_text hw_list ≡ some (va_table hw_list)
  unfolding va_candidates can_completely_support can_support_claim
  va_candidates-va_table [] = refl
  va_candidates-va_table (t ∷ hw_list) = rw (parsed, va_candidates-va_table hw_list) refl

  table-Any :
      (hw_list : List HwTracker) (c : Text × ℕ)
      → Any (λ y. c ≡ y) (va_table hw_list)
      → Any (λ t. (c ≡ (t.id, t.congestion)) × (supports res t.caches ≡ true)) hw_list
  table-Any [] c k = elim k [ ]
  table-Any (t ∷ hw_list) c k =
      elim (row-Any (supports res t.caches) (t.id, t.congestion) (va_table hw_list) c k) [
        | inl q ↦ inl (q.1, q.0)
        | inr k' ↦ inr (table-Any hw_list c k')
      ]

  va_table-All :
      (P : ℕ → Type 0) (hw_list : List HwTracker)
      → All (λ d. P d.1) (va_table hw_list)
      → All (λ t. supports res t.caches ≡ true → P t.congestion) hw_list
  va_table-All P [] h = tt
  va_table-All P (t ∷ hw_list) h =
      let h' = row-All P (supports res t.caches) (t.id, t.congestion) (va_table hw_list) h in
      (h'.0, va_table-All P hw_list h'.1)

  -- The agent at an address: it supports the claim, and no supporting agent is less congested.
  abbrev pub IsLeast : Text → List HwTracker → HwTracker → Type 0
  IsLeast address hw_list t =
      (t.id ≡ address)
      × (supports res t.caches ≡ true)
      × All (λ u. supports res u.caches ≡ true → t.congestion ≤ u.congestion) hw_list

  module _ (sort : List (Text × ℕ) → List (Text × ℕ)) (sorts : Sorts sort) where
    choose :
        (hw_list : List HwTracker) (sorted : List (Text × ℕ))
        → sort (va_table hw_list) ≡ sorted
        → ((address_of sorted ≡ none) × All (λ t. ¬ (supports res t.caches ≡ true)) hw_list)
          ⊎ ((address : Text) × (address_of sorted ≡ some address)
              × Any (IsLeast address hw_list) hw_list)
    choose hw_list [] e = inl (
      refl,
      va_table-All (λ n. ⊥) hw_list (sorted-empty sort sorts (va_table hw_list) (λ d. ⊥) e),
    )
    choose hw_list (c ∷ rest) e =
        let (mem, least) = sorted-front sort sorts (va_table hw_list) c rest e in
        inr (
          c.0,
          refl,
          Any-map
              (λ t q. (
                ap (λ p. p.0) (sym q.0),
                q.1,
                va_table-All (λ n. t.congestion ≤ n) hw_list
                    (subst (λ n. All (λ (d : Text × ℕ). n ≤ d.1) (va_table hw_list))
                      (ap (λ p. p.1) q.0) least),
              ))
              hw_list (table-Any hw_list c mem),
        )

    -- For a claim that is understood, the nexus finds no agent exactly where none supports it, and
    -- otherwise the address of a supporting agent that is the least congested of these.
    pub recommend_va-IsLeast :
        (hw_list : List HwTracker)
        → ((recommend_va sort claim_text hw_list ≡ none)
            × All (λ t. ¬ (supports res t.caches ≡ true)) hw_list)
          ⊎ ((address : Text) × (recommend_va sort claim_text hw_list ≡ some address)
              × Any (IsLeast address hw_list) hw_list)
    unfolding recommend_va
    recommend_va-IsLeast hw_list =
        rw (va_candidates-va_table hw_list) (choose hw_list (sort (va_table hw_list)) refl)
