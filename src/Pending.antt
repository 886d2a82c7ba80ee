-- ===== src/Pending.antt =====
-- utils/include/pending_msg_reg.h: the registry of requests that wait for an answer, shared by the
-- bridge, the accelerator and the virtualization agents. The `std::variant` of message types is a
-- parameter: its alternatives, the alternative that a message holds, and its ids.
use multi_agent_accelerator.Prelude.{
  ℕ, ◌≡◌, List, [], ◌∷◌, ◌++◌, Bool, true, false, ◌&&◌, Option, none, some, Text,
  EqualityComparable, ◌==◌, list_eq, nat_eq, if◌then◌else◌, find_if, update_if, remove_if,
}
pub mod Removal
pub mod Leak
pub mod Bridge

-- `std::variant<Ts...>` over types that derive from `_base_pending_msg`.
pub record Variant (K M : Type 0) : Type 0 where
  pub alternative : M → K
  pub ids : M → Text × Text
  -- what a move leaves behind: the same alternative, its strings empty
  pub moved_from : M → M
  pub moved_from_ids : (m : M) → ids (moved_from m) ≡ ([], [])

module _ {K M : Type 0} ⦃e : EqualityComparable K⦄ (v : Variant K M) where
  abbrev pub Entry : Type 0
  Entry = Text × M

  abbrev pub Registry : Type 0
  Registry = List (Text × M)

  -- a moved-from pair: libstdc++ leaves an empty string
  abbrev pub moved_entry : Text × M → Text × M
  moved_entry en = ([], v.moved_from en.1)

  abbrev pub has_key : Text → Text × M → Bool
  has_key k en = k == en.0

  -- `find_element_t<V>::operator()`, with its predicate and optional key
  abbrev pub find_element : K → (M → Bool) → Option Text → Text × M → Bool
  find_element alt pred key en =
      if v.alternative en.1 == alt
      then elim key [ none ↦ pred en.1 | some k ↦ pred en.1 && k == en.0 ]
      else false

  abbrev pub ids_or_empty : Option (Text × M) → Text × Text
  ids_or_empty none = ([], [])
  ids_or_empty (some en) = v.ids en.1

  unfoldable pub get_ids : Text → List (Text × M) → Text × Text
  get_ids acc_id reg = ids_or_empty (find_if (has_key acc_id) reg)

  -- `_edit_pending_msg`, and `read_pending_message`, which reads through it
  unfoldable pub read_pending_message : (Text × M → Bool) → List (Text × M) → Option M
  read_pending_message lookup reg = elim (find_if lookup reg) [ none ↦ none | some en ↦ some en.1 ]

  unfoldable pub get_pending_message : K → Text → List (Text × M) → Option M
  unfolding read_pending_message
  get_pending_message alt id reg = read_pending_message (find_element alt (λ m. true) (some id)) reg

  unfoldable pub edit_pending_message :
      (Text × M → Bool) → (M → M) → List (Text × M) → List (Text × M)
  edit_pending_message lookup f reg = update_if lookup (λ en. (en.0, f en.1)) reg

  unfoldable pub add_pending_message : Text → M → List (Text × M) → List (Text × M)
  add_pending_message acc_id m reg = reg ++ (acc_id, m) ∷ []

  -- `boost::remove_if` alone: the vector keeps its size
  unfoldable pub remove_pending_message : (Text × M → Bool) → List (Text × M) → List (Text × M)
  remove_pending_message lookup reg = remove_if lookup moved_entry reg

  unfoldable pub remove_message : Text → List (Text × M) → List (Text × M)
  remove_message id reg = remove_if (has_key id) moved_entry reg

  -- The message is moved out of its entry, and then the entry is looked up again to be removed.
  unfoldable pub move_pending_message_out :
      (Text × M → Bool) → List (Text × M) → Option M × List (Text × M)
  unfolding read_pending_message edit_pending_message remove_pending_message
  move_pending_message_out lookup reg = elim (read_pending_message lookup reg) [
    | none ↦ (none, reg)
    | some m ↦
        (some m, remove_pending_message lookup (edit_pending_message lookup v.moved_from reg))
  ]

  abbrev pub of_alternative : K → List (Text × M) → List (Text × M)
  of_alternative alt [] = []
  of_alternative alt (en ∷ reg) =
      if v.alternative en.1 == alt then en ∷ of_alternative alt reg else of_alternative alt reg

  abbrev pub messages : List (Text × M) → List M
  messages [] = []
  messages (en ∷ reg) = en.1 ∷ messages reg

  unfoldable pub remove_all : List (Text × M) → List (Text × M) → List (Text × M)
  unfolding remove_message
  remove_all [] reg = reg
  remove_all (en ∷ ens) reg = remove_all ens (remove_message en.0 reg)

  unfoldable pub get_all_msgs_by_type : K → Bool → List (Text × M) → List M × List (Text × M)
  unfolding remove_all
  get_all_msgs_by_type alt remove reg =
      let found = of_alternative alt reg in
      (messages found, if remove then remove_all found reg else reg)
