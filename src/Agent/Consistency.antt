-- ===== src/Agent/Consistency.antt =====
-- virtualization_agent/common/src/generator_template.cc: how the counts of successors and the
-- predecessors of the packets that are kept belong together.
use multi_agent_accelerator.Agent.{Holders, Packet, PktGen, with_count}
use multi_agent_accelerator.Agent.Removal.{IsMap, IsMap-erase, IsMap-modify, find-erase}
use multi_agent_accelerator.Prelude.{
  ==_iff, All, Bool-cases, IsBelow, Option, [], ap, arith, erase, false, find, find-modify_other,
  find-modify_self, if◌then◌else◌, inl, inr, modify, nat_eq, ne_of_beq, none, refl, some, subst,
  sym, true, ℕ, ◌+◌, ◌-◌, ◌<◌, ◌==◌, ◌∷◌, ◌≡◌,
}
pub mod Remove
pub mod Generate

abbrev pub points : ℕ → Option ℕ → ℕ
points k none = 0
points k (some q) = if q == k then 1 else 0

-- How many packets, less the one under `s`, have `k` as their predecessor.
abbrev pub children_but : ℕ → ℕ → Holders → ℕ
children_but s k [] = 0
children_but s k (en ∷ m) =
    (if en.0 == s then 0 else points k en.1.predecessor) + children_but s k m

abbrev pub children : ℕ → Holders → ℕ
children k [] = 0
children k (en ∷ m) = points k en.1.predecessor + children k m

abbrev pub count_of : Option Packet → ℕ
count_of none = 0
count_of (some p) = p.successor_count

-- A packet that is not kept counts no successors, so it is nobody's predecessor.
abbrev pub refs : ℕ → Holders → ℕ
refs k m = count_of (find k m)

abbrev pub Precedes : Option ℕ → ℕ → Type 0
Precedes none k = Unit
Precedes (some q) k = q < k

abbrev pub AreOrdered : Holders → Type 0
AreOrdered m = All (λ en. Precedes en.1.predecessor en.0) m

pub record IsConsistent (gen : PktGen) : Type 0 where
  pub below : IsBelow gen.running_id gen.holders
  pub is_map : IsMap gen.holders
  pub ordered : AreOrdered gen.holders
  pub counted : (k : ℕ) → refs k gen.holders ≡ children k gen.holders

pub AreOrdered-erase : (k : ℕ) (m : Holders) → AreOrdered m → AreOrdered (erase k m)
AreOrdered-erase k [] h = tt
AreOrdered-erase k (en ∷ m) h = elim (Bool-cases (en.0 == k)) [
  | inl e ↦ rw e h.1
  | inr e ↦ rw e (h.0, AreOrdered-erase k m h.1)
]

pub IsBelow-erase : (n k : ℕ) (m : Holders) → IsBelow n m → IsBelow n (erase k m)
IsBelow-erase n k [] h = tt
IsBelow-erase n k (en ∷ m) h = elim (Bool-cases (en.0 == k)) [
  | inl e ↦ rw e h.1
  | inr e ↦ rw e (h.0, IsBelow-erase n k m h.1)
]

pub found_here :
    (k : ℕ) (en : ℕ × Packet) (m : Holders) (p : Packet)
    → (en.0 == k) ≡ true
    → find k (en ∷ m) ≡ some p
    → en.1 ≡ p
found_here k en m p same e = ground arith

pub Precedes-find :
    (k : ℕ) (m : Holders) {p : Packet} → AreOrdered m → find k m ≡ some p → Precedes p.predecessor k
Precedes-find k [] h e = cc
Precedes-find k (en ∷ m) {p} h e = elim (Bool-cases (en.0 == k)) [
  | inl same ↦
      subst (λ (q : Packet). Precedes q.predecessor k) (found_here k en m p same e)
        (subst (λ n. Precedes en.1.predecessor n) ((==_iff en.0 k).0 same) h.0)
  | inr other ↦ Precedes-find k m {p = p} h.1 (rw other at e)
]

-- Changing only a count leaves the predecessors alone.
module _ (k : ℕ) (f : Packet → Packet)
    (keeps : (p : Packet) → (f p).predecessor ≡ p.predecessor) where
  pub children-modify : (j : ℕ) (m : Holders) → children j (modify k f m) ≡ children j m
  children-modify j [] = refl
  children-modify j (en ∷ m) = ground (arith, keeps en.1, children-modify j m)

  pub children_but-modify :
      (s j : ℕ) (m : Holders) → children_but s j (modify k f m) ≡ children_but s j m
  children_but-modify s j [] = refl
  children_but-modify s j (en ∷ m) = ground (arith, keeps en.1, children_but-modify s j m)

  pub AreOrdered-modify : (m : Holders) → AreOrdered m → AreOrdered (modify k f m)
  AreOrdered-modify [] h = tt
  AreOrdered-modify (en ∷ m) h = elim (Bool-cases (en.0 == k)) [
    | inl e ↦ rw (e, keeps en.1) h
    | inr e ↦ rw e (h.0, AreOrdered-modify m h.1)
  ]

  pub IsBelow-modify : (n : ℕ) (m : Holders) → IsBelow n m → IsBelow n (modify k f m)
  IsBelow-modify n [] h = tt
  IsBelow-modify n (en ∷ m) h = elim (Bool-cases (en.0 == k)) [
    | inl e ↦ rw e h
    | inr e ↦ rw e (h.0, IsBelow-modify n m h.1)
  ]

pub children_but-erase :
    (s k p : ℕ) (m : Holders) {e : Packet}
    → find p m ≡ some e
    → ((p == s) ≡ false)
    → children_but s k m ≡ points k e.predecessor + children_but s k (erase p m)
children_but-erase s k p [] found ne = cc
children_but-erase s k p (en ∷ m) {e} found ne = elim (Bool-cases (en.0 == p)) [
  | inl same ↦
      let q = found_here p en m e same found in
      let d = subst (λ n. (n == s) ≡ false) (sym ((==_iff en.0 p).0 same)) ne in
      rw (same, d) (omega (arith, ap (λ (t : Packet). points k t.predecessor) q))
  | inr other ↦ rw other (omega (arith, children_but-erase s k p m {e = e} (rw other at found) ne))
]

pub children_but-absent :
    (s k : ℕ) (m : Holders) → find s m ≡ none → children_but s k m ≡ children k m
children_but-absent s k [] h = refl
children_but-absent s k (en ∷ m) h = ground (arith, children_but-absent s k m)

pub children-erase : (s k : ℕ) (m : Holders) → IsMap m → children k (erase s m) ≡ children_but s k m
children-erase s k [] h = refl
children-erase s k (en ∷ m) h = ground (
  arith,
  ==_iff en.0 s,
  children_but-absent en.0 k m,
  children_but-absent s k m,
  children-erase s k m h.1,
)

pub Precedes-lt : (o : Option ℕ) (p s : ℕ) → Precedes o p → p < s → Precedes o s
Precedes-lt none p s h lt = tt
Precedes-lt (some q) p s h lt = omega arith

pub refs-erase :
    (k p : ℕ) (m : Holders) → IsMap m → refs k (erase p m) ≡ (if k == p then 0 else refs k m)
refs-erase k p m h =
    rw (find-erase p k m h) (elim (Bool-cases (k == p)) [ inl e ↦ rw e refl | inr e ↦ rw e refl ])

pub refs-modify :
    (k p : ℕ) (f : Packet → Packet) (m : Holders) {entry : Packet}
    → find p m ≡ some entry
    → refs k (modify p f m) ≡ (if k == p then (f entry).successor_count else refs k m)
refs-modify k p f m {entry} found = elim (Bool-cases (k == p)) [
  | inl e ↦ rw (e, (==_iff k p).0 e, find-modify_self p f m entry found) refl
  | inr e ↦ rw (e, find-modify_other p k f m (ne_of_beq k p e)) refl
]

pub beq-lt : (a b : ℕ) → a < b → (a == b) ≡ false
beq-lt a b h = ground arith

module _ (s : ℕ) where
  -- What the loop of `try_remove` keeps: but for the packet that goes, every count is right, less
  -- the one that the loop is about to take from a packet.
  pub record IsWalked (pred : Option ℕ) (m : Holders) : Type 0 where
    pub is_map : IsMap m
    pub ordered : AreOrdered m
    pub earlier : Precedes pred s
    pub counted : (k : ℕ) → refs k m ≡ children_but s k m + points k pred

  -- One turn of the loop, on a packet whose last successor goes.
  pub IsWalked-erase :
      (p : ℕ) (m : Holders) (entry : Packet)
      → find p m ≡ some entry
      → entry.successor_count - 1 ≡ 0
      → IsWalked (some p) m
      → IsWalked entry.predecessor (erase p m)
  IsWalked-erase p m entry found last w = record {
    is_map = IsMap-erase p m w.is_map;
    ordered = AreOrdered-erase p m w.ordered;
    earlier = Precedes-lt entry.predecessor p s (Precedes-find p m w.ordered found) w.earlier;
    counted = λ k. elim (Bool-cases (k == p)) [
      | inl e ↦
          let here = subst (λ j. find j m ≡ some entry) (sym ((==_iff k p).0 e)) found in
          rw (refs-erase k p m w.is_map, e)
            (ground (
              arith,
              w.counted k,
              ap count_of here,
              ==_iff p k,
              ==_iff k p,
              children_but-erase s k p m found (beq-lt p s w.earlier),
            ))
      | inr e ↦
          rw (refs-erase k p m w.is_map, e)
            (ground (
              arith,
              w.counted k,
              ==_iff p k,
              ==_iff k p,
              children_but-erase s k p m found (beq-lt p s w.earlier),
            ))
    ];
  }

  pub IsWalked-modify :
      (p : ℕ) (m : Holders) (entry : Packet)
      → find p m ≡ some entry
      → 0 < entry.successor_count - 1
      → IsWalked (some p) m
      → IsWalked none (modify p (with_count (entry.successor_count - 1)) m)
  IsWalked-modify p m entry found more w = record {
    is_map = IsMap-modify p (with_count (entry.successor_count - 1)) m w.is_map;
    ordered = AreOrdered-modify p (with_count (entry.successor_count - 1)) (λ q. refl) m w.ordered;
    earlier = tt;
    counted = λ k. elim (Bool-cases (k == p)) [
      | inl e ↦
          rw
            (
              refs-modify k p (with_count (entry.successor_count - 1)) m found,
              e,
              children_but-modify p (with_count (entry.successor_count - 1)) (λ q. refl) s k m,
            )
            (ground (
              arith,
              w.counted k,
              ap count_of (subst (λ j. find j m ≡ some entry) (sym ((==_iff k p).0 e)) found),
              ==_iff p k,
              ==_iff k p,
            ))
      | inr e ↦
          rw
            (
              refs-modify k p (with_count (entry.successor_count - 1)) m found,
              e,
              children_but-modify p (with_count (entry.successor_count - 1)) (λ q. refl) s k m,
            )
            (ground (arith, w.counted k, ==_iff p k, ==_iff k p))
    ];
  }
