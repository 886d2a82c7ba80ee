-- ===== src/Queue/Egress.antt =====
-- utils/include/thread_manager.h: the order in which the results of a handler leave.
use multi_agent_accelerator.Prelude.{
  List, [], ap, append-nil, append_assoc, arith, length, refl, reversed, suc, sym, zero, ℕ, ◌++◌,
  ◌∙◌, ◌∷◌, ◌≡◌,
}

module _ {ℓ} {M : Type ℓ} where
  abbrev back : M → List M → M
  back x [] = x
  back x (y ∷ ys) = back y ys

  abbrev pop_back : M → List M → List M
  pop_back x [] = []
  pop_back x (y ∷ ys) = x ∷ pop_back y ys

  -- The loop of `process_single`, which runs while `msgs_out` is not empty; the fuel is its length.
  unfoldable pub drain : ℕ → List M → List M → List M
  drain zero msgs_out egress_q = egress_q
  drain (suc n) [] egress_q = egress_q
  drain (suc n) (x ∷ xs) egress_q = drain n (pop_back x xs) (egress_q ++ back x xs ∷ [])

  length-pop_back : (x : M) (xs : List M) → length (pop_back x xs) ≡ length xs
  length-pop_back x [] = refl
  length-pop_back x (y ∷ ys) = ap suc (length-pop_back y ys)

  reversed-back : (x : M) (xs : List M) → reversed (x ∷ xs) ≡ back x xs ∷ reversed (pop_back x xs)
  reversed-back x [] = refl
  reversed-back x (y ∷ ys) = ap (λ r. r ++ x ∷ []) (reversed-back y ys)

  -- With as much fuel as there are messages, all of them leave behind what is there, the last first.
  pub drain-reversed :
      (n : ℕ) (msgs_out egress_q : List M)
      → n ≡ length msgs_out
      → drain n msgs_out egress_q ≡ egress_q ++ reversed msgs_out
  unfolding drain
  drain-reversed zero [] egress_q h = sym (append-nil egress_q)
  drain-reversed zero (x ∷ xs) egress_q h = cc
  drain-reversed (suc n) [] egress_q h = cc
  drain-reversed (suc n) (x ∷ xs) egress_q h =
      drain-reversed n (pop_back x xs) (egress_q ++ back x xs ∷ [])
        (omega (arith, length-pop_back x xs))
      ∙ append_assoc egress_q (back x xs ∷ []) (reversed (pop_back x xs))
      ∙ ap (λ r. egress_q ++ r) (sym (reversed-back x xs))
