-- ===== src/Split.antt =====
-- utils/src/utils.cc, `split_str`: the words that `std::getline` reads from a text, one by one.
use multi_agent_accelerator.Prelude.{
  ℕ, ◌≡◌, refl, ◌≢◌, Bool, true, false, not, List, [], ◌∷◌, ◌++◌, Text, ◌==◌, nat_eq, arith, ap,
  sym, all_of, append_assoc, append-nil, ◌∙◌,
}

-- The word that is being read stands first. At the end of the text `getline` fails if it has
-- read nothing, so no empty word stands last.
words : ℕ → Text → Text → List Text
words d [] [] = []
words d (b ∷ w) [] = (b ∷ w) ∷ []
words d [] (c ∷ s) = elim (c == d) [ true ↦ [] ∷ words d [] s | false ↦ words d (c ∷ []) s ]
words d (b ∷ w) (c ∷ s) = elim (c == d) [
  | true ↦ (b ∷ w) ∷ words d [] s
  | false ↦ words d (b ∷ w ++ c ∷ []) s
]

unfoldable pub split_str : ℕ → Text → List Text
unfolding words
split_str d s = words d [] s

-- `d` does not occur in the text
abbrev pub is_free_of : ℕ → Text → Bool
is_free_of d s = all_of (λ c. not (c == d)) s

-- The texts with `d` between them.
abbrev pub join : ℕ → List Text → Text
join d [] = []
join d (s ∷ []) = s
join d (s ∷ t ∷ ss) = s ++ d ∷ join d (t ∷ ss)

-- Each text is one word, and the last one is not empty.
abbrev pub AreWords : ℕ → List Text → Type 0
AreWords d [] = Unit
AreWords d (s ∷ []) = (is_free_of d s ≡ true) × (s ≢ [])
AreWords d (s ∷ t ∷ ss) = (is_free_of d s ≡ true) × AreWords d (t ∷ ss)

words-free :
    (d : ℕ) (w s : Text) → is_free_of d s ≡ true → w ++ s ≢ [] → words d w s ≡ (w ++ s) ∷ []
unfolding words
words-free d [] [] h ne = absurd (ne refl)
words-free d (b ∷ w) [] h ne = ap (λ t. t ∷ []) (sym (append-nil (b ∷ w)))
words-free d [] (c ∷ s) h ne = ground (arith, words-free d (c ∷ []) s)
words-free d (b ∷ w) (c ∷ s) h ne =
    ground (arith, words-free d (b ∷ w ++ c ∷ []) s, append_assoc w (c ∷ []) s)

words-delimited :
    (d : ℕ) (w s rest : Text)
    → is_free_of d s ≡ true
    → words d w (s ++ d ∷ rest) ≡ (w ++ s) ∷ words d [] rest
unfolding words
words-delimited d [] [] rest h = ground arith
words-delimited d (b ∷ w) [] rest h = ground (arith, append-nil w)
words-delimited d [] (c ∷ s) rest h = ground (arith, words-delimited d (c ∷ []) s rest)
words-delimited d (b ∷ w) (c ∷ s) rest h =
    ground (arith, words-delimited d (b ∷ w ++ c ∷ []) s rest, append_assoc w (c ∷ []) s)

pub split_str-free : (d : ℕ) (s : Text) → is_free_of d s ≡ true → s ≢ [] → split_str d s ≡ s ∷ []
unfolding split_str
split_str-free d s h ne = words-free d [] s h ne

pub split_str-delimited :
    (d : ℕ) (s rest : Text)
    → is_free_of d s ≡ true
    → split_str d (s ++ d ∷ rest) ≡ s ∷ split_str d rest
unfolding split_str
split_str-delimited d s rest h = words-delimited d [] s rest h

-- Splitting takes a joined list apart again, if no part has the delimiter in it and the last
-- part is not empty.
pub split_str-join : (d : ℕ) (ss : List Text) → AreWords d ss → split_str d (join d ss) ≡ ss
unfolding split_str words
split_str-join d [] h = refl
split_str-join d (s ∷ []) h = words-free d [] s h.0 h.1
split_str-join d (s ∷ t ∷ ss) h =
    words-delimited d [] s (join d (t ∷ ss)) h.0 ∙ ap (λ r. s ∷ r) (split_str-join d (t ∷ ss) h.1)
