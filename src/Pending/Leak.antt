-- ===== src/Pending/Leak.antt =====
-- utils/include/pending_msg_reg.h: `boost::remove_if` with no `erase` behind it.
use multi_agent_accelerator.Prelude.{
  ◌≡◌, List, [], ◌∷◌, ◌++◌, none, Text, EqualityComparable, ==_refl, list_eq, nat_eq, ap, ◌∙◌,
  find_if, find_if-append_last, length, length-remove_if, remove_if-last,
}
use multi_agent_accelerator.Pending.{
  Variant, has_key, moved_entry, ids_or_empty, get_ids, remove_message,
}

module _ {K M : Type 0} ⦃e : EqualityComparable K⦄ (v : Variant K M) where
  -- The registry never shrinks.
  pub length-remove_message :
      (k : Text) (reg : List (Text × M)) → length (remove_message v k reg) ≡ length reg
  unfolding remove_message
  length-remove_message k reg = length-remove_if (has_key v k) (moved_entry v) reg

  remove_message-last :
      (k : Text) (m : M) (reg : List (Text × M))
      → find_if (has_key v k) reg ≡ none
      → remove_message v k (reg ++ (k, m) ∷ []) ≡ reg ++ (k, m) ∷ []
  unfolding remove_message
  remove_message-last k m reg fresh =
      remove_if-last (has_key v k) (moved_entry v) reg (k, m) fresh (==_refl k)

  -- A request that is the newest of the registry, its key used by no other, is still answered
  -- by its ids after its removal.
  pub get_ids-remove_message_last :
      (k : Text) (m : M) (reg : List (Text × M))
      → find_if (has_key v k) reg ≡ none
      → get_ids v k (remove_message v k (reg ++ (k, m) ∷ [])) ≡ v.ids m
  unfolding get_ids
  get_ids-remove_message_last k m reg fresh =
      ap (λ r. ids_or_empty v (find_if (has_key v k) r)) (remove_message-last k m reg fresh)
      ∙ ap (ids_or_empty v) (find_if-append_last (has_key v k) reg (k, m) fresh (==_refl k))
