-- ===== src/Bridge/Ads/Lookup.antt =====
-- bridge_agent/src/ads_registry.cc: what is found after an entry is found or made.
use multi_agent_accelerator.Bridge.Ads.{
  AdsState, ClaimHeader, add_claim, ads_state, find_adss, find_create_adss, get_accel_id,
  get_nex_id, is_claim_active, update_claim,
}
use multi_agent_accelerator.Prelude.{
  Bool, List, Option, Option-cases, Text, [], ap, arith, emplace, false, find, find-emplace_self,
  find-modify_self, inl, inr, list_eq, modify, nat_eq, none, refl, some, sym, true, ℕ, ◌∙◌, ◌≡◌,
}

pub find_adss_lem : (rid : Text) (reg : List (Text × AdsState)) → find_adss rid reg ≡ find rid reg
unfolding find_adss find_create_adss
find_adss_lem rid reg = ground (arith, Option-cases (find rid reg))

-- The claim that an entry has after `find_create_adss` with a claim that the process does not have.
pub record HasClaim (rid lib_id acc_id : Text) (reg : List (Text × AdsState)) : Type 0 where
  pub state : AdsState
  pub header : ClaimHeader
  pub state_found : find rid reg ≡ some state
  pub header_found : find lib_id state.claims ≡ some header
  pub same_id : header.acc_id ≡ acc_id

abbrev pub claims_of : Option AdsState → List (Text × ClaimHeader)
claims_of none = []
claims_of (some s) = s.claims

find-emplace_fresh :
    {V : Type 0} (k : Text) (v : V) (m : List (Text × V))
    → find k m ≡ none
    → find k (emplace k v m) ≡ some v
find-emplace_fresh k v m h = find-emplace_self k v m ∙ rw h refl

module _ (rid lib_id acc_id : Text) (reg : List (Text × AdsState)) where
  pub find_create_adss-absent :
      find rid reg ≡ none
      → (find_create_adss rid lib_id acc_id true reg).0 ≡ emplace rid (ads_state lib_id acc_id) reg
  unfolding find_create_adss
  find_create_adss-absent e = rw e refl

  pub find_create_adss-present :
      (s : AdsState)
      → find rid reg ≡ some s
      → (find_create_adss rid lib_id acc_id true reg).0 ≡ modify rid (add_claim lib_id acc_id) reg
  unfolding find_create_adss
  find_create_adss-present s e = rw e refl

  pub find_create_adss-lookup : (find_create_adss rid lib_id acc_id false reg).0 ≡ reg
  unfolding find_create_adss
  find_create_adss-lookup = elim (Option-cases (find rid reg)) [
    | inl e ↦ rw e refl
    | inr q ↦ rw q.1 refl
  ]

  abbrev unclaimed : ClaimHeader
  unclaimed = record { is_active = false; acc_id = acc_id; node_id = 0 }

  pub find_create_adss-HasClaim :
      find lib_id (claims_of (find rid reg)) ≡ none
      → HasClaim rid lib_id acc_id (find_create_adss rid lib_id acc_id true reg).0
  unfolding ads_state add_claim
  find_create_adss-HasClaim h = elim (Option-cases (find rid reg)) [
    | inl e ↦ record {
      state = ads_state lib_id acc_id;
      header = unclaimed;
      state_found =
          ap (find rid) (find_create_adss-absent e)
          ∙ find-emplace_fresh rid (ads_state lib_id acc_id) reg e;
      header_found = find-emplace_fresh lib_id unclaimed [] refl;
      same_id = refl;
    }
    | inr (s, e) ↦ record {
      state = add_claim lib_id acc_id s;
      header = unclaimed;
      state_found =
          ap (find rid) (find_create_adss-present s e)
          ∙ find-modify_self rid (add_claim lib_id acc_id) reg s e;
      header_found =
          find-emplace_fresh lib_id unclaimed s.claims
            (sym (ap (λ o. find lib_id (claims_of o)) e) ∙ h);
      same_id = refl;
    }
  ]

-- A claim that the answer of a nexus updates.
pub modify-update_claim :
    (rid lib_id acc_id : Text) (activate : Bool) (nid : ℕ) (reg : List (Text × AdsState))
    → HasClaim rid lib_id acc_id reg
    → (s : AdsState) × (find rid (modify rid (update_claim lib_id activate nid) reg) ≡ some s)
      × (get_accel_id lib_id s ≡ acc_id)
      × (get_nex_id lib_id s ≡ nid)
      × (is_claim_active lib_id s ≡ activate)
unfolding update_claim get_accel_id get_nex_id is_claim_active
modify-update_claim rid lib_id acc_id activate nid reg h =
    let updated =
      find-modify_self lib_id
        (λ c. record { is_active = activate; acc_id = c.acc_id; node_id = nid }) h.state.claims
        h.header h.header_found in
    (
      update_claim lib_id activate nid h.state,
      find-modify_self rid (update_claim lib_id activate nid) reg h.state h.state_found,
      rw (updated, get_accel_id) h.same_id,
      rw (updated, get_nex_id) refl,
      rw (updated, is_claim_active) refl,
    )
