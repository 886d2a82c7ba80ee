-- ===== src/Bridge/Ads/Invariant.antt =====
-- bridge_agent/src/ads_registry.cc: the entry "EMPTY" of the registry, which the constructor
-- deactivates.
use multi_agent_accelerator.Bridge.Ads.{
  AdsState, add_claim, ads_registry, ads_state, deactivate, empty_key, finalized, find_create_adss,
  is_all_ads_complete, update_claim,
}
use multi_agent_accelerator.Bridge.Ads.Lookup.{
  find_create_adss-absent, find_create_adss-lookup, find_create_adss-present,
}
use multi_agent_accelerator.Prelude.{
  ==_iff, Bool, Bool-cases, List, Option-cases, Text, [], all_of, ap, arith, emplace, false, find,
  find-emplace_other, find-emplace_self, find-modify_other, find-modify_self, inl, inr, list_eq,
  modify, nat_eq, ne_of_beq, or_else, refl, some, subst, sym, true, ℕ, ◌==◌, ◌∙◌, ◌∷◌, ◌≡◌,
}

pub record HasInactive (reg : List (Text × AdsState)) : Type 0 where
  pub entry : AdsState
  pub entry_found : find empty_key reg ≡ some entry
  pub inactive : entry.active ≡ false

pub ads_registry-HasInactive : HasInactive ads_registry
unfolding ads_registry ads_state add_claim deactivate finalized
ads_registry-HasInactive = record {
  entry = finalized (deactivate (ads_state [] []));
  entry_found = refl;
  inactive = refl;
}

all_of-found :
    (p : AdsState → Bool) (k : Text) (reg : List (Text × AdsState)) (s : AdsState)
    → find k reg ≡ some s
    → p s ≡ false
    → all_of (λ (en : Text × AdsState). p en.1) reg ≡ false
all_of-found p k [] s h e = cc
all_of-found p k (en ∷ reg) s h e = ground (arith, all_of-found p k reg s)

pub is_all_ads_complete-HasInactive :
    (reg : List (Text × AdsState)) → HasInactive reg → is_all_ads_complete reg ≡ false
unfolding is_all_ads_complete
is_all_ads_complete-HasInactive reg h =
    all_of-found (λ s. s.active) empty_key reg h.entry h.entry_found h.inactive

HasInactive-emplace :
    (k : Text) (v : AdsState) (reg : List (Text × AdsState))
    → HasInactive reg
    → HasInactive (emplace k v reg)
HasInactive-emplace k v reg h = elim (Bool-cases (empty_key == k)) [
  | inl e ↦ record {
    entry = h.entry;
    entry_found =
        subst (λ j. find j (emplace k v reg) ≡ some h.entry) (sym ((==_iff empty_key k).0 e))
          (find-emplace_self k v reg
            ∙ ap (λ o. some (or_else o v))
                (ap (λ j. find j reg) (sym ((==_iff empty_key k).0 e)) ∙ h.entry_found));
    inactive = h.inactive;
  }
  | inr e ↦ record {
    entry = h.entry;
    entry_found = find-emplace_other k empty_key v reg (ne_of_beq empty_key k e) ∙ h.entry_found;
    inactive = h.inactive;
  }
]

HasInactive-modify :
    (k : Text) (f : AdsState → AdsState) (reg : List (Text × AdsState))
    → ((s : AdsState) → (f s).active ≡ s.active)
    → HasInactive reg
    → HasInactive (modify k f reg)
HasInactive-modify k f reg keeps h = elim (Bool-cases (empty_key == k)) [
  | inl e ↦ record {
    entry = f h.entry;
    entry_found =
        subst (λ j. find empty_key (modify j f reg) ≡ some (f h.entry)) ((==_iff empty_key k).0 e)
          (find-modify_self empty_key f reg h.entry h.entry_found);
    inactive = keeps h.entry ∙ h.inactive;
  }
  | inr e ↦ record {
    entry = h.entry;
    entry_found = find-modify_other k empty_key f reg (ne_of_beq empty_key k e) ∙ h.entry_found;
    inactive = h.inactive;
  }
]

find_create_adss-HasInactive :
    (rid lib_id acc_id : Text) (create : Bool) (reg : List (Text × AdsState))
    → HasInactive reg
    → HasInactive (find_create_adss rid lib_id acc_id create reg).0
unfolding add_claim
find_create_adss-HasInactive rid lib_id acc_id false reg h =
    subst HasInactive (sym (find_create_adss-lookup rid lib_id acc_id reg)) h
find_create_adss-HasInactive rid lib_id acc_id true reg h = elim (Option-cases (find rid reg)) [
  | inl e ↦
      subst HasInactive (sym (find_create_adss-absent rid lib_id acc_id reg e))
        (HasInactive-emplace rid (ads_state lib_id acc_id) reg h)
  | inr (s, e) ↦
      subst HasInactive (sym (find_create_adss-present rid lib_id acc_id reg s e))
        (HasInactive-modify rid (add_claim lib_id acc_id) reg (λ a. refl) h)
]

-- The registries that the service's writes lead to: an entry is looked up or made, a claim is
-- answered, a process finalizes.
pub data Reached : List (Text × AdsState) → Type 0 where
  constructed : Reached ads_registry
  found_or_made :
      {reg : List (Text × AdsState)} (rid lib_id acc_id : Text) (create : Bool)
      → Reached reg
      → Reached (find_create_adss rid lib_id acc_id create reg).0
  answered :
      {reg : List (Text × AdsState)} (rid lib_id : Text) (activate : Bool) (nid : ℕ)
      → Reached reg
      → Reached (modify rid (update_claim lib_id activate nid) reg)
  process_finalized :
      {reg : List (Text × AdsState)} (rid : Text) → Reached reg → Reached (modify rid finalized reg)

Reached-HasInactive : (reg : List (Text × AdsState)) → Reached reg → HasInactive reg
unfolding update_claim finalized
Reached-HasInactive _ constructed = ads_registry-HasInactive
Reached-HasInactive _ (found_or_made {reg} rid lib_id acc_id create r) =
    find_create_adss-HasInactive rid lib_id acc_id create reg (Reached-HasInactive reg r)
Reached-HasInactive _ (answered {reg} rid lib_id activate nid r) =
    HasInactive-modify rid (update_claim lib_id activate nid) reg (λ s. refl)
      (Reached-HasInactive reg r)
Reached-HasInactive _ (process_finalized {reg} rid r) =
    HasInactive-modify rid finalized reg (λ s. refl) (Reached-HasInactive reg r)

-- However the service has written to its registry, `is_all_ads_complete` answers that some process
-- is not complete.
pub is_all_ads_complete-Reached :
    (reg : List (Text × AdsState)) → Reached reg → is_all_ads_complete reg ≡ false
is_all_ads_complete-Reached reg r = is_all_ads_complete-HasInactive reg (Reached-HasInactive reg r)
