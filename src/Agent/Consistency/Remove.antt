-- ===== src/Agent/Consistency/Remove.antt =====
-- virtualization_agent/common/src/generator_template.cc: `try_remove`.
use multi_agent_accelerator.Agent.{
  Holders, Packet, PktGen, done, recur_decr_rem, remove_chain, try_remove, with_count,
}
use multi_agent_accelerator.Agent.Consistency.{
  AreOrdered-erase, IsBelow-erase, IsBelow-modify, IsConsistent, IsWalked, Precedes-find, children,
  children-erase, children_but, children_but-absent, count_of, found_here, points, refs, refs-erase,
  IsWalked-erase, IsWalked-modify,
}
use multi_agent_accelerator.Agent.Removal.{IsMap, IsMap-erase, find-erase, length-erase}
use multi_agent_accelerator.Prelude.{
  ==_iff, ==_refl, Bool-cases, IsBelow, Option, Option-cases, [], ap, arith, erase, false, find,
  find-modify_other, if◌then◌else◌, inl, inr, length, modify, nat_eq, ne_of_beq, none, refl, some,
  subst, suc, zero, ℕ, ◌+◌, ◌-◌, ◌<◌, ◌==◌, ◌∙◌, ◌∷◌, ◌≡◌,
}

beq-gt : (a b : ℕ) → a < b → (b == a) ≡ false
beq-gt a b h = ground arith

module _ (s n : ℕ) where
  -- The loop, given the turns, ends without looking for a packet that is not kept.
  remove_chain-IsWalked :
      (fuel : ℕ) (pred : Option ℕ) (m : Holders)
      → length m < fuel
      → IsBelow n m
      → IsWalked s pred m
      → (m' : Holders) × (remove_chain fuel pred m ≡ done m')
        × IsWalked s none m'
        × IsBelow n m'
        × (find s m' ≡ find s m)
  unfolding remove_chain recur_decr_rem
  remove_chain-IsWalked zero pred m h b w = elim h [ ]
  remove_chain-IsWalked (suc fuel) none m h b w = (m, refl, w, b, refl)
  remove_chain-IsWalked (suc fuel) (some p) m h b w = elim (Option-cases (find p m)) [
    | inl e ↦ absurd (omega (arith, ap count_of e, w.counted p, self p))
    | inr (entry, e) ↦ elim (Bool-cases (entry.successor_count - 1 == 0)) [
      | inl last ↦
          let w' = IsWalked-erase s p m entry e ((==_iff _ 0).0 last) w in
          let (m', runs, w'', b', same) =
            remove_chain-IsWalked fuel entry.predecessor (erase p m)
              (omega (arith, length-erase p m e)) (IsBelow-erase n p m b) w' in
          (
            m',
            rw (e, remove_chain, last) runs,
            w'',
            b',
            same ∙ rw (find-erase p s m w.is_map, beq-gt p s w.earlier) refl,
          )
      | inr more ↦
          let f = with_count (entry.successor_count - 1) in
          (
            modify p f m,
            rw (e, remove_chain, more) (chain-none fuel (modify p f m)),
            IsWalked-modify s p m entry e (ground arith) w,
            IsBelow-modify p f (λ q. refl) n m b,
            find-modify_other p s f m (ne_of_beq s p (beq-gt p s w.earlier)),
          )
    ]
  ]
    where
      self : (p : ℕ) → points p (some p) ≡ 1
      self p = ground (arith, ==_refl p)

      chain-none : (fuel : ℕ) (m : Holders) → remove_chain fuel none m ≡ done m
      chain-none zero m = refl
      chain-none (suc fuel) m = refl

children-split :
    (s k : ℕ) (m : Holders) {entry : Packet}
    → IsMap m
    → find s m ≡ some entry
    → children k m ≡ points k entry.predecessor + children_but s k m
children-split s k [] h found = cc
children-split s k (en ∷ m) {entry} h found = elim (Bool-cases (en.0 == s)) [
  | inl same ↦
      let absent = subst (λ j. find j m ≡ none) ((==_iff en.0 s).0 same) h.0 in
      rw same (
        omega (
          arith,
          children_but-absent s k m absent,
          ap (λ (t : Packet). points k t.predecessor) (found_here s en m entry same found),
        ))
  | inr other ↦
      rw other (omega (arith, children-split s k m {entry = entry} h.1 (rw other at found)))
]

-- When a packet that has no successors goes, the loop starts at its predecessor.
IsWalked-start :
    (s : ℕ) (gen : PktGen) (entry : Packet)
    → IsConsistent gen
    → find s gen.holders ≡ some entry
    → IsWalked s entry.predecessor gen.holders
IsWalked-start s gen entry c found = record {
  is_map = c.is_map;
  ordered = c.ordered;
  earlier = Precedes-find s gen.holders c.ordered found;
  counted = λ k. omega (arith, c.counted k, children-split s k gen.holders c.is_map found);
}

abbrev pub with_holders : Holders → PktGen → PktGen
with_holders m gen = record { running_id = gen.running_id; holders = m }

finished :
    (s : ℕ) (gen : PktGen) (m : Holders)
    → IsBelow gen.running_id m
    → IsWalked s none m
    → refs s m ≡ 0
    → IsConsistent (with_holders (erase s m) gen)
finished s gen m b w unused = record {
  below = IsBelow-erase gen.running_id s m b;
  is_map = IsMap-erase s m w.is_map;
  ordered = AreOrdered-erase s m w.ordered;
  counted = λ k.
      rw (refs-erase k s m w.is_map, children-erase s k m w.is_map)
        (elim (Bool-cases (k == s)) [
          | inl e ↦ rw e (counted_at k ((==_iff k s).0 e))
          | inr e ↦ rw e (omega (arith, w.counted k))
        ]);
}
  where
    counted_at : (k : ℕ) → k ≡ s → ◌≡◌ {A = ℕ} 0 (children_but s k m)
    counted_at k e = rw e (omega (arith, w.counted s, unused))

-- Removing a packet keeps the counts of successors right and every predecessor in place, and it
-- comes to its end. The packet is gone if it had no successors, and stays as it was otherwise.
pub try_remove-IsConsistent :
    (tid : ℕ) (entry : Packet) (gen : PktGen)
    → IsConsistent gen
    → find tid gen.holders ≡ some entry
    → (m : Holders) × (try_remove tid gen.holders ≡ done m)
      × IsConsistent (with_holders m gen)
      × (find tid m ≡ (if entry.successor_count == 0 then none else some entry))
unfolding try_remove
try_remove-IsConsistent tid entry gen c found = elim (Bool-cases (entry.successor_count == 0)) [
  | inl last ↦
      let m0 = gen.holders in
      let (m, runs, w, b, same) =
        remove_chain-IsWalked tid gen.running_id (suc (length m0)) entry.predecessor m0
          (omega arith) c.below (IsWalked-start tid gen entry c found) in
      (
        erase tid m,
        rw (found, try_remove, last, runs) refl,
        finished tid gen m b w (ap count_of (same ∙ found) ∙ (==_iff _ 0).0 last),
        rw (last, find-erase tid tid m w.is_map, ==_refl tid) refl,
      )
  | inr more ↦ (gen.holders, rw (found, try_remove, more) refl, c, rw more found)
]
