-- ===== src/Resource/Logic/Matching.antt =====
-- utils/src/resource_logic.cc: what `operator==` decides, and why `operator<` orders nothing.
-- One side leaves the field open, or both say the same.
use multi_agent_accelerator.Prelude.{
  ==_iff, All, Bool, List, [], all_of, all_of_iff, and_or_iff, ap, arith, fun_ext, list_eq, nat_eq,
  not, true, ◌&&◌, ◌==◌, ◌||◌, ◌↔◌, ◌∙◌, ◌∷◌, ◌≡◌, ◌≢◌, ◌⊎◌,
}
use multi_agent_accelerator.Resource.{Desc, Header, sw_clid, sw_fid, wildcard}
use multi_agent_accelerator.Resource.Logic.{compare_entries, equals, less, signed}

abbrev pub Compatible : Desc → Desc → Header → Type 0
Compatible a b h = (a h ≡ wildcard) ⊎ (b h ≡ wildcard) ⊎ (a h ≡ b h)

-- Both sides name a function, or both name a class.
abbrev pub Names : Desc → Header → Type 0
Names a h = a h ≢ wildcard

compatible : Desc → Desc → Header → Bool
compatible a b h = a h == wildcard || b h == wildcard || a h == b h

compare_entries-all_of :
    (a b : Desc) (hs : List Header) (result : Bool)
    → compare_entries a b hs result ≡ (result && all_of (compatible a b) hs)
unfolding compare_entries compatible
compare_entries-all_of a b [] result = ground arith
compare_entries-all_of a b (h ∷ hs) result = compare_entries-all_of a b hs _ ∙ ground arith

compatible_iff : (a b : Desc) (h : Header) → (compatible a b h ≡ true) ↔ Compatible a b h
unfolding compatible
compatible_iff a b h =
    ground (arith, ==_iff (a h) wildcard, ==_iff (b h) wildcard, ==_iff (a h) (b h))

both_name : Desc → Desc → Header → Bool
both_name a b h = not (a h == wildcard) && not (b h == wildcard)

both_name_iff : (a b : Desc) (h : Header) → (both_name a b h ≡ true) ↔ (Names a h × Names b h)
unfolding both_name
both_name_iff a b h = ground (arith, ==_iff (a h) wildcard, ==_iff (b h) wildcard)

equals-all_of :
    (a b : Desc)
    → equals a b
      ≡ (all_of (compatible a b) signed && (both_name a b sw_fid || both_name a b sw_clid))
unfolding equals both_name
equals-all_of a b = ground (arith, compare_entries-all_of a b signed true)

-- Two resources are equal exactly when every field is compatible and both name a function, or
-- both name a class.
pub equals_iff :
    (a b : Desc)
    → (equals a b ≡ true) ↔ (
        All (Compatible a b) signed
        × ((Names a sw_fid × Names b sw_fid) ⊎ (Names a sw_clid × Names b sw_clid)))
equals_iff a b = rw (equals-all_of a b) (
    and_or_iff _ _ _ (all_of_iff (compatible a b) (compatible_iff a b) signed)
      (both_name_iff a b sw_fid) (both_name_iff a b sw_clid))

compatible_symm : (a b : Desc) (h : Header) → compatible a b h ≡ compatible b a h
unfolding compatible
compatible_symm a b h = ground (arith, ==_iff (a h) (b h), ==_iff (b h) (a h))

equals_symm : (a b : Desc) → equals a b ≡ equals b a
unfolding both_name
equals_symm a b =
    rw (equals-all_of a b, equals-all_of b a)
      (ground (arith, ap (λ p. all_of p signed) (fun_ext (compatible_symm a b))))

-- `a < b` and `b < a` are the same test, so `operator<` is no order on resources.
pub less_symm : (a b : Desc) → less a b ≡ less b a
unfolding less
less_symm a b = ap not (equals_symm a b)
