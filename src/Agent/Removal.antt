-- ===== src/Agent/Removal.antt =====
-- virtualization_agent/common/src/generator_template.cc: what stays in a map of packets when one
-- is erased, and the end of the loop of `try_remove`.
use multi_agent_accelerator.Agent.{
  Holders, Packet, Walk, done, erase_in, recur_decr_rem, remove_chain, try_remove, undefined,
  unfinished,
}
use multi_agent_accelerator.Prelude.{
  ==_iff, Bool-cases, Option, Option-cases, [], arith, emplace, erase, find, find-emplace_other,
  if◌then◌else◌, inl, inr, length, modify, nat_eq, ne_of_beq, none, refl, some, suc, zero, ℕ, ◌-◌,
  ◌<◌, ◌==◌, ◌∙◌, ◌∷◌, ◌≡◌, ◌≢◌,
}

-- No key stands twice, as in every `std::map`.
abbrev pub IsMap : Holders → Type 0
IsMap [] = Unit
IsMap (en ∷ m) = (find en.0 m ≡ none) × IsMap m

pub find-erase :
    (k j : ℕ) (m : Holders) → IsMap m → find j (erase k m) ≡ (if j == k then none else find j m)
find-erase k j [] h = ground arith
find-erase k j (en ∷ m) h =
    ground (arith, ==_iff en.0 k, ==_iff en.0 j, ==_iff j k, find-erase k j m)

pub IsMap-erase : (k : ℕ) (m : Holders) → IsMap m → IsMap (erase k m)
IsMap-erase k [] h = tt
IsMap-erase k (en ∷ m) h = elim (Bool-cases (en.0 == k)) [
  | inl e ↦ rw e h.1
  | inr e ↦ rw e (ground (arith, find-erase k en.0 m), IsMap-erase k m h.1)
]

pub find-modify :
    (k j : ℕ) (f : Packet → Packet) (m : Holders) → find j m ≡ none → find j (modify k f m) ≡ none
find-modify k j f [] h = refl
find-modify k j f (en ∷ m) h = ground (arith, find-modify k j f m)

pub IsMap-modify : (k : ℕ) (f : Packet → Packet) (m : Holders) → IsMap m → IsMap (modify k f m)
IsMap-modify k f [] h = tt
IsMap-modify k f (en ∷ m) h = elim (Bool-cases (en.0 == k)) [
  | inl e ↦ rw e h
  | inr e ↦ rw e (find-modify k en.0 f m h.0, IsMap-modify k f m h.1)
]

pub IsMap-emplace :
    (k : ℕ) (p : Packet) (m : Holders) → find k m ≡ none → IsMap m → IsMap (emplace k p m)
IsMap-emplace k p [] new h = (refl, tt)
IsMap-emplace k p (en ∷ m) new h = elim (Bool-cases (en.0 == k)) [
  | inl e ↦ cc (rw e at new)
  | inr e ↦ rw e (
    find-emplace_other k en.0 p m (ne_of_beq en.0 k e) ∙ h.0,
    IsMap-emplace k p m (rw e at new) h.1,
  )
]

pub length-erase :
    (k : ℕ) (m : Holders) {p : Packet} → find k m ≡ some p → suc (length (erase k m)) ≡ length m
length-erase k [] h = cc
length-erase k (en ∷ m) {p} h = ground (arith, length-erase k m {p = p})

remove_chain-none : (n : ℕ) (holders : Holders) → remove_chain n none holders ≢ unfinished
unfolding remove_chain
remove_chain-none zero holders = λ e. cc
remove_chain-none (suc n) holders = λ e. cc

-- The loop comes to its end, if it has a turn more than there are packets.
remove_chain-ends :
    (n : ℕ) (pred : Option ℕ) (holders : Holders)
    → length holders < n
    → remove_chain n pred holders ≢ unfinished
unfolding remove_chain recur_decr_rem
remove_chain-ends zero pred holders h = elim h [ ]
remove_chain-ends (suc n) none holders h = λ e. cc
remove_chain-ends (suc n) (some pred) holders h = elim (Option-cases (find pred holders)) [
  | inl e ↦ rw (e, remove_chain) (λ u. cc)
  | inr (entry, e) ↦ elim (Bool-cases (entry.successor_count - 1 == 0)) [
    | inl last ↦
        rw (e, remove_chain, last)
          (remove_chain-ends n entry.predecessor (erase pred holders)
            (omega (arith, length-erase pred holders e)))
    | inr more ↦ rw (e, remove_chain, more) (remove_chain-none n _)
  ]
]

-- Removing a packet comes to its end, whatever packets are kept: the loop's turns are enough.
pub try_remove-ends : (tid : ℕ) (holders : Holders) → try_remove tid holders ≢ unfinished
unfolding try_remove
try_remove-ends tid holders = elim (Option-cases (find tid holders)) [
  | inl e ↦ rw (e, try_remove) (λ u. cc)
  | inr (entry, e) ↦ elim (Bool-cases (entry.successor_count == 0)) [
    | inl last ↦
        rw (e, try_remove, last)
          (erase_in-ends (remove_chain (suc (length holders)) entry.predecessor holders)
            (remove_chain-ends (suc (length holders)) entry.predecessor holders (omega arith)))
    | inr more ↦ rw (e, try_remove, more) (λ u. cc)
  ]
]
  where
    erase_in-ends : (w : Walk Holders) → w ≢ unfinished → erase_in tid w ≢ unfinished
    erase_in-ends (done m) h = λ u. cc
    erase_in-ends undefined h = λ u. cc
    erase_in-ends unfinished h = h
