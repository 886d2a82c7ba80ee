-- ===== src/Prelude/Algorithms.antt =====
-- The algorithms of the C++ standard library and of Boost.Range that the program calls.
use Prim.Native.Nat.{◌+◌}
use mathlib.Core.Path.{◌≡◌, refl}
use mathlib.Core.Logic.{◌↔◌, inl, inr}
use mathlib.Core.Bool.{Bool, true, false, ◌&&◌, ◌||◌}
use mathlib.Core.List.{List, [], ◌∷◌, ◌++◌}
use mathlib.Core.Option.{Option, none, some}
use native.Mathlib.Omega.{arith}
use multi_agent_accelerator.Prelude.Lists.{All, Any, length, length-append}
use multi_agent_accelerator.Prelude.Tests.{Bool-cases, if◌then◌else◌}

module _ {ℓ} {A : Type ℓ} where
  abbrev pub any_of : (A → Bool) → List A → Bool
  any_of p [] = false
  any_of p (x ∷ xs) = p x || any_of p xs

  abbrev pub all_of : (A → Bool) → List A → Bool
  all_of p [] = true
  all_of p (x ∷ xs) = p x && all_of p xs

  -- The element at the iterator that `find_if` returns; `none` is the end iterator.
  abbrev pub find_if : (A → Bool) → List A → Option A
  find_if p [] = none
  find_if p (x ∷ xs) = if p x then some x else find_if p xs

  -- A write through the iterator that `find_if` returns.
  abbrev pub update_if : (A → Bool) → (A → A) → List A → List A
  update_if p f [] = []
  update_if p f (x ∷ xs) = if p x then f x ∷ xs else x ∷ update_if p f xs

  abbrev pub keep_if : (A → Bool) → List A → List A
  keep_if p [] = []
  keep_if p (x ∷ xs) = if p x then x ∷ keep_if p xs else keep_if p xs

module _ {ℓ} {A : Type ℓ} (p : A → Bool) (moved : A → A) where
  -- `std::remove_if` with no `erase` after it. The first list holds the slots from the write
  -- position up to the read position. An element that stays is moved into the first of these,
  -- and its own slot keeps what a move leaves there.
  pub remove_if_loop : List A → List A → List A
  remove_if_loop [] [] = []
  remove_if_loop [] (x ∷ xs) = elim (p x) [
    | true ↦ remove_if_loop (x ∷ []) xs
    | false ↦ x ∷ remove_if_loop [] xs
  ]
  remove_if_loop (g ∷ gs) [] = g ∷ gs
  remove_if_loop (g ∷ gs) (x ∷ xs) = elim (p x) [
    | true ↦ remove_if_loop (g ∷ gs ++ x ∷ []) xs
    | false ↦ x ∷ remove_if_loop (gs ++ moved x ∷ []) xs
  ]

  unfoldable pub remove_if : List A → List A
  unfolding remove_if_loop
  remove_if = remove_if_loop []

  length-remove_if_loop :
      (gap xs : List A) → length (remove_if_loop gap xs) ≡ length gap + length xs
  unfolding remove_if_loop
  length-remove_if_loop [] [] = refl
  length-remove_if_loop [] (x ∷ xs) =
      ground (arith, length-remove_if_loop (x ∷ []) xs, length-remove_if_loop [] xs)
  length-remove_if_loop (g ∷ gs) [] = omega arith
  length-remove_if_loop (g ∷ gs) (x ∷ xs) = ground (
    arith,
    length-remove_if_loop (g ∷ gs ++ x ∷ []) xs,
    length-remove_if_loop (gs ++ moved x ∷ []) xs,
    length-append gs (x ∷ []),
    length-append gs (moved x ∷ []),
  )

  pub length-remove_if : (xs : List A) → length (remove_if xs) ≡ length xs
  unfolding remove_if
  length-remove_if xs = omega (arith, length-remove_if_loop [] xs)

module _ {ℓ} {A : Type ℓ} (q : A → Bool) where
  pub find_if-append_none :
      (xs ys : List A) → find_if q xs ≡ none → find_if q ys ≡ none → find_if q (xs ++ ys) ≡ none
  find_if-append_none [] ys h k = k
  find_if-append_none (x ∷ xs) ys h k = ground (arith, find_if-append_none xs ys)

  pub find_if-append_last :
      (xs : List A) (y : A) → find_if q xs ≡ none → q y ≡ true → find_if q (xs ++ y ∷ []) ≡ some y
  find_if-append_last [] y h k = ground arith
  find_if-append_last (x ∷ xs) y h k = ground (arith, find_if-append_last xs y)

  pub find_if-append_left :
      (xs ys : List A) {found : A} → find_if q xs ≡ some found → find_if q (xs ++ ys) ≡ some found
  find_if-append_left [] ys h = cc
  find_if-append_left (x ∷ xs) ys {found} h =
      ground (arith, find_if-append_left xs ys {found = found})

  module _ (p : A → Bool) (moved : A → A) (apart : (x : A) → p x ≡ true → q x ≡ false)
      (gone : (x : A) → q (moved x) ≡ false) where
    find_if-remove_if_loop :
        (gap xs : List A)
        → find_if q gap ≡ none
        → find_if q (remove_if_loop p moved gap xs) ≡ find_if q xs
    unfolding remove_if_loop
    find_if-remove_if_loop [] [] h = refl
    find_if-remove_if_loop [] (x ∷ xs) h =
        ground (arith, apart x, find_if-remove_if_loop (x ∷ []) xs, find_if-remove_if_loop [] xs)
    find_if-remove_if_loop (g ∷ gs) [] h = h
    find_if-remove_if_loop (g ∷ gs) (x ∷ xs) h = ground (
      arith,
      apart x,
      gone x,
      find_if-append_none gs (x ∷ []),
      find_if-append_none gs (moved x ∷ []),
      find_if-remove_if_loop (g ∷ gs ++ x ∷ []) xs,
      find_if-remove_if_loop (gs ++ moved x ∷ []) xs,
    )

    -- What `remove_if` does not remove is found as before.
    pub find_if-remove_if : (xs : List A) → find_if q (remove_if p moved xs) ≡ find_if q xs
    unfolding remove_if
    find_if-remove_if xs = find_if-remove_if_loop [] xs refl

module _ {ℓ} {A : Type ℓ} (p : A → Bool) (moved : A → A) where
  -- A match in the last slot stays where it is.
  pub remove_if-last :
      (xs : List A) (y : A)
      → find_if p xs ≡ none
      → p y ≡ true
      → remove_if p moved (xs ++ y ∷ []) ≡ xs ++ y ∷ []
  unfolding remove_if remove_if_loop
  remove_if-last [] y h k = ground arith
  remove_if-last (x ∷ xs) y h k = ground (arith, remove_if-last xs y)

module _ {ℓ} {A : Type ℓ} (p : A → Bool) where
  pub all_of-append : (xs ys : List A) → all_of p (xs ++ ys) ≡ all_of p xs && all_of p ys
  all_of-append [] ys = refl
  all_of-append (x ∷ xs) ys = ground (arith, all_of-append xs ys)

module _ {ℓ κ} {A : Type ℓ} {P : A → Type κ} (p : A → Bool)
    (reads : (x : A) → (p x ≡ true) ↔ P x) where
  pub all_of_iff : (xs : List A) → (all_of p xs ≡ true) ↔ All P xs
  all_of_iff [] = (λ h. tt, λ h. refl)
  all_of_iff (x ∷ xs) = (
    λ h. ((reads x).0 (ground arith), (all_of_iff xs).0 (ground arith)),
    λ h. ground (arith, (reads x).1 h.0, (all_of_iff xs).1 h.1),
  )

module _ {ℓ} {A : Type ℓ} (p : A → Bool) where
  pub any_of-append : (xs ys : List A) → any_of p (xs ++ ys) ≡ any_of p xs || any_of p ys
  any_of-append [] ys = refl
  any_of-append (x ∷ xs) ys = ground (arith, any_of-append xs ys)

  pub any_of-or :
      (q : A → Bool) (xs : List A) → any_of (λ x. p x || q x) xs ≡ any_of p xs || any_of q xs
  any_of-or q [] = refl
  any_of-or q (x ∷ xs) = ground (arith, any_of-or q xs)

  pub any_of_mono :
      (q : A → Bool)
      → ((x : A) → p x ≡ true → q x ≡ true)
      → (xs : List A) → any_of p xs ≡ true
      → any_of q xs ≡ true
  any_of_mono q h [] e = e
  any_of_mono q h (x ∷ xs) e = ground (arith, h x, any_of_mono q h xs)

module _ {ℓ} {A : Type ℓ} {P : A → Type 0} (p : A → Bool)
    (reads : (x : A) → (p x ≡ true) ↔ P x) where
  pub any_of_iff : (xs : List A) → (any_of p xs ≡ true) ↔ Any P xs
  any_of_iff [] = (λ h. cc, λ h. elim h [ ])
  any_of_iff (x ∷ xs) = (
    λ h. elim (Bool-cases (p x)) [
      | inl e ↦ inl ((reads x).0 e)
      | inr e ↦ inr ((any_of_iff xs).0 (ground arith))
    ],
    λ h. elim h [
      | inl y ↦ ground (arith, (reads x).1 y)
      | inr y ↦ ground (arith, (any_of_iff xs).1 y)
    ],
  )

module _ {ℓ} {A : Type ℓ} (p : A → Bool) where
  pub find_if-any_of : (xs : List A) → any_of p xs ≡ false → find_if p xs ≡ none
  find_if-any_of [] h = refl
  find_if-any_of (x ∷ xs) h = ground (arith, find_if-any_of xs)

  -- What is not found by a test is not found by a stronger one.
  pub find_if_mono :
      (q : A → Bool)
      → ((x : A) → q x ≡ true → p x ≡ true)
      → (xs : List A) → find_if p xs ≡ none
      → find_if q xs ≡ none
  find_if_mono q h [] e = e
  find_if_mono q h (x ∷ xs) e = ground (arith, h x, find_if_mono q h xs)

  pub update_if-append_last :
      (f : A → A) (xs : List A) (y : A)
      → find_if p xs ≡ none
      → p y ≡ true
      → update_if p f (xs ++ y ∷ []) ≡ xs ++ f y ∷ []
  update_if-append_last f [] y h k = ground arith
  update_if-append_last f (x ∷ xs) y h k = ground (arith, update_if-append_last f xs y)

  pub find_if-update_if :
      (f : A → A) (xs : List A) (x : A)
      → ((y : A) → p (f y) ≡ p y)
      → find_if p xs ≡ some x
      → find_if p (update_if p f xs) ≡ some (f x)
  find_if-update_if f [] x keeps h = cc
  find_if-update_if f (y ∷ ys) x keeps h = ground (arith, keeps y, find_if-update_if f ys x keeps)

  pub find_if-update_if_other :
      (q : A → Bool) (f : A → A) (xs : List A)
      → ((y : A) → q (f y) ≡ q y)
      → ((y : A) → p y ≡ true → q y ≡ false)
      → find_if q (update_if p f xs) ≡ find_if q xs
  find_if-update_if_other q f [] keeps apart = refl
  find_if-update_if_other q f (y ∷ ys) keeps apart =
      ground (arith, keeps y, apart y, find_if-update_if_other q f ys keeps apart)
