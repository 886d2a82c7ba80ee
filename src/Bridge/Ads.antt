-- ===== src/Bridge/Ads.antt =====
-- bridge_agent/src/ads_state.cc and ads_registry.cc: the application processes that a bridge
-- serves, and the claims of each.
use multi_agent_accelerator.Prelude.{
  Bool, List, Option, Text, [], all_of, codes, emplace, false, find, if◌then◌else◌, list_eq, modify,
  nat_eq, none, not, some, true, ℕ, ◌&&◌, ◌∷◌,
}
pub mod Lookup
pub mod Invariant

-- `ads_state::claim_header`
pub record ClaimHeader : Type 0 where
  pub is_active : Bool
  pub acc_id : Text
  pub node_id : ℕ

-- `ads_state`, less its mutex
pub record AdsState : Type 0 where
  pub active : Bool
  pub final : Bool
  pub claims : List (Text × ClaimHeader)

-- A claim id that is there already keeps its entry.
unfoldable pub add_claim : Text → Text → AdsState → AdsState
add_claim lib_id acc_id s = record {
  active = s.active;
  final = s.final;
  claims = emplace lib_id (record { is_active = false; acc_id = acc_id; node_id = 0 }) s.claims;
}

-- The constructor with one claim.
unfoldable pub ads_state : Text → Text → AdsState
ads_state lib_id acc_id =
    add_claim lib_id acc_id (record { active = true; final = false; claims = [] })

unfoldable pub get_accel_id : Text → AdsState → Text
get_accel_id lib_id s = elim (find lib_id s.claims) [ none ↦ [] | some c ↦ c.acc_id ]

unfoldable pub get_nex_id : Text → AdsState → ℕ
get_nex_id lib_id s = elim (find lib_id s.claims) [ none ↦ 0 | some c ↦ c.node_id ]

unfoldable pub is_claim_active : Text → AdsState → Bool
is_claim_active lib_id s = elim (find lib_id s.claims) [ none ↦ false | some c ↦ c.is_active ]

-- A write to the claim header, if there is one.
abbrev pub edit_claim : Text → (ClaimHeader → ClaimHeader) → AdsState → AdsState
edit_claim lib_id f s = record {
  active = s.active;
  final = s.final;
  claims = modify lib_id f s.claims;
}

unfoldable pub update_claim : Text → Bool → ℕ → AdsState → AdsState
update_claim lib_id act nid s =
    edit_claim lib_id (λ c. record { is_active = act; acc_id = c.acc_id; node_id = nid }) s

unfoldable pub activate_claim : Text → AdsState → AdsState
activate_claim lib_id s =
    edit_claim lib_id (λ c. record { is_active = true; acc_id = c.acc_id; node_id = c.node_id }) s

unfoldable pub deactivate_claim : Text → AdsState → AdsState
deactivate_claim lib_id s =
    edit_claim lib_id (λ c. record { is_active = false; acc_id = c.acc_id; node_id = c.node_id }) s

unfoldable pub finalized : AdsState → AdsState
finalized s = record { active = s.active; final = true; claims = s.claims }

unfoldable pub deactivate : AdsState → AdsState
deactivate s = record { active = false; final = s.final; claims = s.claims }

abbrev pub Registry : Type 0
Registry = List (Text × AdsState)

abbrev pub empty_key : Text
empty_key = codes "EMPTY"

-- The constructor: an empty entry, not active and final.
unfoldable pub ads_registry : Registry
ads_registry = (empty_key, finalized (deactivate (ads_state [] []))) ∷ []

unfoldable pub is_all_ads_complete : Registry → Bool
is_all_ads_complete reg = all_of (λ en. en.1.active) reg

unfoldable pub is_all_ads_finalized : Registry → Bool
is_all_ads_finalized reg = all_of (λ en. en.1.final) reg

-- The registry, the key of the entry that the reference is to, and whether it was there.
unfoldable pub find_create_adss : Text → Text → Text → Bool → Registry → Registry × Text × Bool
find_create_adss rid lib_id acc_id create reg =
    let found : Bool = elim (find rid reg) [ none ↦ false | some s ↦ true ] in
    if create && not found
    then (emplace rid (ads_state lib_id acc_id) reg, rid, false)
    else if not create && not found
    then (reg, empty_key, false)
    else if create && found
    then (modify rid (add_claim lib_id acc_id) reg, rid, true)
    else (reg, rid, true)

-- The state of the process, if it is there.
unfoldable pub find_adss : Text → Registry → Option AdsState
find_adss rid reg =
    let (reg', key, exists_) = find_create_adss rid [] [] false reg in
    if exists_ then find key reg' else none
