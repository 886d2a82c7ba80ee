-- ===== src/Jobs/Constraints.antt =====
-- utils/src/config_components.cc: when an entry meets the constraints of a function (`contains_kv`).
use multi_agent_accelerator.Jobs.Entries.{FunctionEntry, compatible, contains_key, contains_kv}
use multi_agent_accelerator.Prelude.{
  ==_iff, All, Any, Bool, Bool-cases, IsSorted, List, Text, [], all_of, all_of_iff, any_of, ap,
  arith, equal_range, for_each_key-all_of, inl, inr, list_eq, nat_eq, ne_of_beq, refl, some, true,
  ◌==◌, ◌||◌, ◌↔◌, ◌∷◌, ◌≡◌, ◌⊎◌,
}
use multi_agent_accelerator.Resource.{Header, header_beq_iff, index, wildcard}

abbrev pub AreCompatible : Text → Text → Type 0
AreCompatible s ss = (s ≡ wildcard) ⊎ ((ss ≡ wildcard) ⊎ (s ≡ ss))

pub compatible_iff : (s ss : Text) → (compatible s ss ≡ true) ↔ AreCompatible s ss
compatible_iff s ss = ground (arith, ==_iff s wildcard, ==_iff ss wildcard, ==_iff s ss)

-- A value under a header suits one of the constraints under the same header.
abbrev pub Meets : List (Header × Text) → Header × Text → Type 0
Meets desc g = Any (λ en. (en.0 ≡ g.0) × AreCompatible g.1 en.1) desc

any_of-equal_range_iff :
    (p : Text → Bool) (P : Text → Type 0)
    → ((v : Text) → (p v ≡ true) ↔ P v)
    → (key : Header) (m : List (Header × Text))
    → (any_of p (equal_range index key m) ≡ true) ↔ Any (λ en. (en.0 ≡ key) × P en.1) m
any_of-equal_range_iff p P h key [] = (λ e. cc, λ e. elim e [ ])
any_of-equal_range_iff p P h key (en ∷ m) =
    let rest = any_of-equal_range_iff p P h key m in
    elim (Bool-cases (index en.0 == index key)) [
      | inl e ↦
          let same = (header_beq_iff en.0 key).0 e in
          rw e (
            λ t. elim (Bool-cases (p en.1)) [
              | inl q ↦ inl (same, (h en.1).0 q)
              | inr q ↦ inr (rest.0 (rw q at t))
            ],
            λ a. elim a [
              | inl q ↦ rw ((h en.1).1 q.1) refl
              | inr q ↦ or_true (p en.1) _ (rest.1 q)
            ],
          )
      | inr e ↦ rw e (
        λ t. inr (rest.0 t),
        λ a. elim a [ inl q ↦ elim (ne_of_beq _ _ e (ap index q.0)) [ ] | inr q ↦ rest.1 q ],
      )
    ]
  where
    or_true : (a b : Bool) → b ≡ true → (a || b) ≡ true
    or_true a b e = ground arith

contains_key_iff :
    (this fe : FunctionEntry) (key : Header)
    → (contains_key this fe key ≡ true)
      ↔ Any (λ g. (g.0 ≡ key) × Meets this.header_desc (key, g.1)) fe.header_desc
contains_key_iff this fe key =
    any_of-equal_range_iff _ (λ s. Meets this.header_desc (key, s))
      (λ s.
        any_of-equal_range_iff (compatible s) (AreCompatible s) (compatible_iff s) key
          this.header_desc)
      key fe.header_desc

-- The loop over the keys of an entry ends, and the entry meets the constraints exactly if for each
-- of its values there is one under the same header that suits a constraint under that header. The
-- values are in the order of their headers, as a multimap has them.
pub contains_kv_iff :
    (this fe : FunctionEntry)
    → IsSorted index fe.header_desc
    → (b : Bool) × (contains_kv this fe ≡ some b)
      × ((b ≡ true)
          ↔ All
              (λ f. Any (λ g. (g.0 ≡ f.0) × Meets this.header_desc (f.0, g.1)) fe.header_desc)
              fe.header_desc)
unfolding contains_kv
contains_kv_iff this fe sorted = (
  all_of (λ f. contains_key this fe f.0) fe.header_desc,
  for_each_key-all_of index (contains_key this fe)
      (λ j k e. ap (contains_key this fe) ((header_beq_iff j k).0 ((==_iff _ _).1 e)))
      fe.header_desc sorted,
  all_of_iff (λ f. contains_key this fe f.0) (λ f. contains_key_iff this fe f.0) fe.header_desc,
)
