-- ===== src/Nexus/Trackers.antt =====
-- accelerator_agent/src/hw_tracker.cc, and the operations of res_mgr_frontend.cc on its list: one
-- tracker per virtualization agent, with the resources that the agent has registered.
use multi_agent_accelerator.Ncache.{can_completely_support, dump_manifest}
use multi_agent_accelerator.Prelude.{
  Bool, List, Option, Text, [], any_of, if◌then◌else◌, list_eq, nat_eq, none, some, update_if, ℕ,
  ◌++◌, ◌==◌, ◌>>=◌, ◌∷◌,
}
use multi_agent_accelerator.Resource.{Desc}

-- `hw_tracker`, less its socket. The constructor leaves `_congestion` as it finds it.
pub record HwTracker : Type 0 where
  pub id : Text
  pub addr : Text
  pub caches : List Desc
  pub congestion : ℕ

abbrev pub with_caches : List Desc → HwTracker → HwTracker
with_caches v t = record { id = t.id; addr = t.addr; caches = v; congestion = t.congestion }

-- `operator==` with an id
abbrev pub has_id : Text → HwTracker → Bool
has_id hw_tr_id t = t.id == hw_tr_id

unfoldable pub can_support_claim : Text → HwTracker → Option Bool
can_support_claim claim_text t = can_completely_support claim_text t.caches

-- The list after `hw_list.push_back`, where the id was not in it.
unfoldable pub find_create_tracker : Text → Text → ℕ → List HwTracker → List HwTracker
find_create_tracker id addr congestion hw_list =
    if any_of (has_id id) hw_list
    then hw_list
    else hw_list ++ record { id = id; addr = addr; caches = []; congestion = congestion } ∷ []

-- A write to the caches of the tracker that `std::find` gives.
abbrev pub set_caches : Text → List Desc → List HwTracker → List HwTracker
set_caches id v hw_list = update_if (has_id id) (with_caches v) hw_list

unfoldable pub get_nex_cache_data : List HwTracker → List Text
get_nex_cache_data [] = []
get_nex_cache_data (t ∷ hw_list) = dump_manifest t.caches ++ get_nex_cache_data hw_list

-- The loop of `_recommend_va`.
unfoldable pub va_candidates : Text → List HwTracker → Option (List (Text × ℕ))
va_candidates claim_text [] = some []
va_candidates claim_text (t ∷ hw_list) = do
  supported ← can_support_claim claim_text t
  cand_list ← va_candidates claim_text hw_list
  some (if supported then (t.id, t.congestion) ∷ cand_list else cand_list)

abbrev pub address_of : List (Text × ℕ) → Option Text
address_of [] = none
address_of (c ∷ rest) = some c.0

-- Without a candidate the function ends without a return value: `none`.
unfoldable pub recommend_va :
    (List (Text × ℕ) → List (Text × ℕ)) → Text → List HwTracker → Option Text
recommend_va sort claim_text hw_list = do
  cand_list ← va_candidates claim_text hw_list
  address_of (sort cand_list)
