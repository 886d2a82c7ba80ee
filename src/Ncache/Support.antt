-- ===== src/Ncache/Support.antt =====
-- utils/src/ncache_registry.cc and utils/include/ncache_registry.h: which claims a registry answers.
-- A line serves a claim if it names a device in full and agrees with each id that the claim
-- gives; a claim that gives neither a class nor a function is served by nothing.
use multi_agent_accelerator.Ncache.{
  can_execute, can_support, check_hw_fully_desc, compare, compare_execute, compare_supportable,
  supports,
}
use multi_agent_accelerator.Prelude.{
  ==_iff, Any, List, Option, Text, any_of, any_of-or, any_of_iff, any_of_mono, ap, arith, fun_ext,
  if◌then◌else◌, list_eq, nat_eq, true, ◌||◌, ◌↔◌, ◌≡◌, ◌≢◌, ◌⊎◌,
}
use multi_agent_accelerator.Resource.{
  Desc, hw_pid, hw_ss_pid, hw_ss_vid, hw_vid, sw_clid, sw_fid, wildcard,
}

-- The claim gives a class or a function, the line has those of the two that the claim gives, and it
-- names a device in full. The claim's other ids play no part.
pub record Serves (clid fid : Text) (line : Desc) : Type 0 where
  pub named : (clid ≢ wildcard) ⊎ (fid ≢ wildcard)
  pub class_agrees : (clid ≡ wildcard) ⊎ (line sw_clid ≡ clid)
  pub function_agrees : (fid ≡ wildcard) ⊎ (line sw_fid ≡ fid)
  pub vendor : line hw_vid ≢ wildcard
  pub product : line hw_pid ≢ wildcard
  pub subsystem_vendor : line hw_ss_vid ≢ wildcard
  pub subsystem_product : line hw_ss_pid ≢ wildcard

module _ (clid fid : Text) (line : Desc) where
  check_hw_fully_desc_iff : (check_hw_fully_desc line ≡ true) ↔ (
      (line hw_vid ≢ wildcard)
      × (line hw_pid ≢ wildcard)
      × (line hw_ss_vid ≢ wildcard)
      × (line hw_ss_pid ≢ wildcard))
  check_hw_fully_desc_iff = ground (
    arith,
    ==_iff (line hw_vid) wildcard,
    ==_iff (line hw_pid) wildcard,
    ==_iff (line hw_ss_vid) wildcard,
    ==_iff (line hw_ss_pid) wildcard,
  )

  compare_execute_iff : (compare_execute clid fid line ≡ true) ↔ Serves clid fid line
  unfolding compare_execute
  compare_execute_iff = ground (
    arith,
    check_hw_fully_desc_iff,
    ==_iff clid wildcard,
    ==_iff fid wildcard,
    ==_iff (line sw_clid) clid,
    ==_iff (line sw_fid) fid,
  )

  compare_execute-functional :
      compare_execute clid fid line ≡ true
      → (compare sw_fid fid line || compare sw_clid clid line) ≡ true
  unfolding compare_execute
  compare_execute-functional h = ground (
    arith,
    ==_iff (line sw_clid) clid,
    ==_iff (line sw_fid) fid,
    ==_iff clid (line sw_clid),
    ==_iff fid (line sw_fid),
  )

-- A line that can execute a claim is also found by the functional lookup, so the first of the two
-- tests in `can_completely_support` never decides.
pub supports-can_execute :
    (res : Desc) (caches : List Desc) → supports res caches ≡ can_execute res caches
unfolding supports
supports-can_execute res caches = ground (
  arith,
  any_of_mono (compare_execute (res sw_clid) (res sw_fid))
      (λ (line : Desc). compare sw_fid (res sw_fid) line || compare sw_clid (res sw_clid) line)
      (compare_execute-functional (res sw_clid) (res sw_fid)) caches,
  any_of-or (compare sw_fid (res sw_fid)) (compare sw_clid (res sw_clid)) caches,
)

-- A registry supports a claim exactly when the claim gives a class id or a function id, and one line
-- has those of the two that it gives and names all four ids of a device. The vendor, the product and
-- the other ids of the claim are not looked at.
pub supports_iff :
    (res : Desc) (caches : List Desc)
    → (supports res caches ≡ true) ↔ Any (Serves (res sw_clid) (res sw_fid)) caches
unfolding can_execute
supports_iff res caches = rw (supports-can_execute res caches) (
    any_of_iff (compare_execute (res sw_clid) (res sw_fid))
      (compare_execute_iff (res sw_clid) (res sw_fid)) caches)

module _ (vid pid pid' : Text) (ss_vid ss_pid : Option Text) (h : pid ≢ wildcard)
    (h' : pid' ≢ wildcard) where
  compare_supportable-product :
      (line : Desc)
      → compare_supportable vid pid ss_vid ss_pid line
        ≡ compare_supportable vid pid' ss_vid ss_pid line
  unfolding compare_supportable
  compare_supportable-product line = ground (arith, ==_iff pid wildcard, ==_iff pid' wildcard)

  -- Which product is asked for plays no part, as long as it is no wildcard.
  pub can_support-product :
      (caches : List Desc)
      → can_support vid pid ss_vid ss_pid caches ≡ can_support vid pid' ss_vid ss_pid caches
  unfolding can_support
  can_support-product caches =
      ap (λ q. if any_of q caches then 1 else 0) (fun_ext compare_supportable-product)
