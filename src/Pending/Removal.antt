-- ===== src/Pending/Removal.antt =====
-- utils/include/pending_msg_reg.h: what the removals leave alone, and what an added entry answers.
use multi_agent_accelerator.Pending.{
  Variant, add_pending_message, find_element, get_ids, get_pending_message, has_key, ids_or_empty,
  moved_entry, read_pending_message, remove_message,
}
use multi_agent_accelerator.Prelude.{
  ==_iff, ==_refl, Bool-cases, EqualityComparable, List, Text, [], ap, arith, false, find_if,
  find_if-append_last, find_if-remove_if, find_if_mono, if◌then◌else◌, list_eq, nat_eq, none, refl,
  some, true, ◌==◌, ◌∷◌, ◌≡◌, ◌≢◌,
}

pub Text-apart : (k j : Text) (en_key : Text) → j ≢ k → (k == en_key) ≡ true → (j == en_key) ≡ false
Text-apart k j en_key h e = ground (arith, ==_iff k en_key, ==_iff j en_key)

module _ {K M : Type 0} ⦃e : EqualityComparable K⦄ (v : Variant K M) where
  not_empty : (j : Text) → j ≢ [] → (j == []) ≡ false
  not_empty j h = ground (arith, ==_iff j [])

  pub find_if-remove_message :
      (k j : Text) (reg : List (Text × M))
      → j ≢ k
      → j ≢ []
      → find_if (has_key v j) (remove_message v k reg) ≡ find_if (has_key v j) reg
  unfolding remove_message
  find_if-remove_message k j reg ne set =
      find_if-remove_if (has_key v j) (has_key v k) (moved_entry v)
        (λ en h. Text-apart k j en.0 ne h) (λ en. not_empty j set) reg

  -- Removing one request leaves the ids of every other one as they were, though the entries
  -- behind it move. The key of the other is not empty.
  pub get_ids-remove_message :
      (k j : Text) (reg : List (Text × M))
      → j ≢ k
      → j ≢ []
      → get_ids v j (remove_message v k reg) ≡ get_ids v j reg
  unfolding get_ids
  get_ids-remove_message k j reg ne set =
      ap (ids_or_empty v) (find_if-remove_message k j reg ne set)

  -- A new request under a fresh key is found by it, and the ids of the others stay.
  pub get_ids-add_pending_message :
      (k j : Text) (m : M) (reg : List (Text × M))
      → find_if (has_key v k) reg ≡ none
      → get_ids v j (add_pending_message v k m reg) ≡ (if k == j then v.ids m else get_ids v j reg)
  unfolding get_ids add_pending_message
  get_ids-add_pending_message k j m [] fresh = ground (arith, ==_iff k j, ==_iff j k)
  get_ids-add_pending_message k j m (en ∷ reg) fresh =
      ground
        (arith, ==_iff k j, ==_iff j en.0, ==_iff k en.0, get_ids-add_pending_message k j m reg)

  -- A new request is found by its key and its alternative.
  pub get_pending_message-add_pending_message :
      (alt : K) (k : Text) (m : M) (reg : List (Text × M))
      → v.alternative m ≡ alt
      → find_if (has_key v k) reg ≡ none
      → get_pending_message v alt k (add_pending_message v k m reg) ≡ some m
  unfolding get_pending_message read_pending_message add_pending_message
  get_pending_message-add_pending_message alt k m reg same_alt fresh =
      let lookup = find_element v alt (λ m'. true) (some k) in
      let absent =
        find_if_mono (has_key v k) lookup
          (λ en h. ground (arith, Bool-cases (v.alternative en.1 == alt))) reg fresh in
      let matches : lookup (k, m) ≡ true =
        ground (arith, ==_iff (v.alternative m) alt, ==_refl k) in
      rw (read_pending_message, find_if-append_last lookup reg (k, m) absent matches) refl
