-- ===== src/Agent/Consistency/Generate.antt =====
-- virtualization_agent/common/src/generator_template.cc: `opt_generate`.
use multi_agent_accelerator.Agent.{
  HeaderInfo, Holders, Packet, PacketKind, PktGen, generate, incr_refcount, linked, new_packet,
  opt_generate,
}
use multi_agent_accelerator.Agent.Consistency.{
  AreOrdered, AreOrdered-modify, IsConsistent, Precedes, children, children-modify, count_of,
  found_here, points, refs, refs-modify,
}
use multi_agent_accelerator.Agent.Removal.{IsMap-emplace, IsMap-modify}
use multi_agent_accelerator.Prelude.{
  ==_iff, ==_refl, Bool, Bool-cases, IsBelow, Option, [], ap, arith, emplace, emplace-IsBelow, find,
  find-IsBelow, find-emplace_other, find-emplace_self, find-modify_other, find-modify_self, inl,
  inr, length, modify, nat_eq, ne_of_beq, none, refl, some, subst, suc, sym, ℕ, ◌%◌, ◌+◌, ◌<◌, ◌==◌,
  ◌∙◌, ◌∷◌, ◌≡◌, ◌≢◌, ◌≤◌,
}

points_le : (k : ℕ) (o : Option ℕ) → points k o ≤ 1
points_le k none = omega arith
points_le k (some q) = ground arith

children_le : (k : ℕ) (m : Holders) → children k m ≤ length m
children_le k [] = omega arith
children_le k (en ∷ m) = omega (arith, points_le k en.1.predecessor, children_le k m)

children-emplace :
    (k n : ℕ) (p : Packet) (m : Holders)
    → p.predecessor ≡ none
    → children k (emplace n p m) ≡ children k m
children-emplace k n p [] h = omega (arith, ap (points k) h)
children-emplace k n p (en ∷ m) h = ground (arith, children-emplace k n p m h)

-- A packet without a predecessor gets one.
children-linked :
    (k n s : ℕ) (header : Option HeaderInfo) (m : Holders) {old : Packet}
    → find n m ≡ some old
    → old.predecessor ≡ none
    → children k (modify n (linked header s) m) ≡ points k (some s) + children k m
children-linked k n s header [] found h = cc
children-linked k n s header (en ∷ m) {old} found h = elim (Bool-cases (en.0 == n)) [
  | inl same ↦
      let q = found_here n en m old same found in
      rw same (omega (arith, ap (λ (t : Packet). points k t.predecessor) q, ap (points k) h))
  | inr other ↦
      rw other (omega (arith, children-linked k n s header m {old = old} (rw other at found) h))
]

AreOrdered-emplace :
    (n : ℕ) (p : Packet) (m : Holders)
    → p.predecessor ≡ none
    → AreOrdered m
    → AreOrdered (emplace n p m)
AreOrdered-emplace n p [] h o = (subst (λ q. Precedes q n) (sym h) tt, tt)
AreOrdered-emplace n p (en ∷ m) h o = elim (Bool-cases (en.0 == n)) [
  | inl e ↦ rw e o
  | inr e ↦ rw e (o.0, AreOrdered-emplace n p m h o.1)
]

AreOrdered-linked :
    (n s : ℕ) (header : Option HeaderInfo) (m : Holders)
    → s < n
    → AreOrdered m
    → AreOrdered (modify n (linked header s) m)
AreOrdered-linked n s header [] lt o = tt
AreOrdered-linked n s header (en ∷ m) lt o = elim (Bool-cases (en.0 == n)) [
  | inl e ↦ rw e (omega (arith, lt, (==_iff en.0 n).0 e), o.1)
  | inr e ↦ rw e (o.0, AreOrdered-linked n s header m lt o.1)
]

IsBelow-modify_any :
    (n k : ℕ) (f : Packet → Packet) (m : Holders) → IsBelow n m → IsBelow n (modify k f m)
IsBelow-modify_any n k f [] h = tt
IsBelow-modify_any n k f (en ∷ m) h = elim (Bool-cases (en.0 == k)) [
  | inl e ↦ rw e h
  | inr e ↦ rw e (h.0, IsBelow-modify_any n k f m h.1)
]

find-below : (n k : ℕ) (m : Holders) {p : Packet} → IsBelow n m → find k m ≡ some p → k < n
find-below n k [] h e = cc
find-below n k (en ∷ m) {p} h e = elim (Bool-cases (en.0 == k)) [
  | inl same ↦ omega (arith, h.0, (==_iff en.0 k).0 same)
  | inr other ↦ find-below n k m {p = p} h.1 (rw other at e)
]

next-below : (n : ℕ) → n + 1 < 18446744073709551616 → (n + 1) % 18446744073709551616 ≡ suc n
next-below n h = omega arith

module _ (kind : PacketKind) (memory : Bool) (gen : PktGen) (c : IsConsistent gen)
    (fits : gen.running_id + 1 < 18446744073709551616) where
  abbrev added : Holders
  added = emplace gen.running_id (new_packet kind memory) gen.holders

  new_absent : find gen.running_id gen.holders ≡ none
  new_absent = find-IsBelow gen.running_id gen.holders c.below

  found_new : find gen.running_id added ≡ some (new_packet kind memory)
  found_new =
      find-emplace_self gen.running_id (new_packet kind memory) gen.holders ∙ rw new_absent refl

  refs-added : (k : ℕ) → refs k added ≡ refs k gen.holders
  refs-added k = elim (Bool-cases (k == gen.running_id)) [
    | inl e ↦ rw ((==_iff k gen.running_id).0 e, found_new, new_absent) refl
    | inr e ↦
        rw
          (find-emplace_other gen.running_id k (new_packet kind memory) gen.holders
            (ne_of_beq k gen.running_id e))
          refl
  ]

  -- A packet without a source.
  generated : IsConsistent (generate kind memory gen).0
  unfolding generate
  generated = record {
    below =
        subst (λ n. IsBelow n added) (sym (next-below gen.running_id fits))
          (emplace-IsBelow gen.running_id (new_packet kind memory) gen.holders c.below);
    is_map = IsMap-emplace gen.running_id (new_packet kind memory) gen.holders new_absent c.is_map;
    ordered = AreOrdered-emplace gen.running_id (new_packet kind memory) gen.holders refl c.ordered;
    counted = λ k. omega (
      arith,
      refs-added k,
      c.counted k,
      children-emplace k gen.running_id (new_packet kind memory) gen.holders refl,
    );
  }

  module _ (s : ℕ) (entry : Packet) (found : find s gen.holders ≡ some entry)
      (room : length gen.holders + 1 < 18446744073709551616) where
    abbrev tied : Holders
    tied = modify gen.running_id (linked entry.header s) added

    earlier : s < gen.running_id
    earlier = find-below gen.running_id s gen.holders c.below found

    source_ne : s ≢ gen.running_id
    source_ne e = omega (arith, earlier, e)

    found_added : find s added ≡ some entry
    found_added =
        find-emplace_other gen.running_id s (new_packet kind memory) gen.holders source_ne ∙ found

    found_tied : find s tied ≡ some entry
    found_tied =
        find-modify_other gen.running_id s (linked entry.header s) added source_ne ∙ found_added

    refs-tied : (k : ℕ) → refs k tied ≡ refs k added
    refs-tied k =
        refs-modify k gen.running_id (linked entry.header s) added found_new
        ∙ elim (Bool-cases (k == gen.running_id)) [
          | inl e ↦ rw (e, (==_iff k gen.running_id).0 e, found_new) refl
          | inr e ↦ rw e refl
        ]

    children-counted :
        (k : ℕ)
        → children k (modify s incr_refcount tied) ≡ points k (some s) + children k gen.holders
    children-counted k =
        children-modify s incr_refcount (λ p. refl) k tied
        ∙ children-linked k gen.running_id s entry.header added found_new refl
        ∙ ap (λ (n : ℕ). points k (some s) + n)
            (children-emplace k gen.running_id (new_packet kind memory) gen.holders refl)

    refs-counted :
        (k : ℕ) → refs k (modify s incr_refcount tied) ≡ points k (some s) + children k gen.holders
    refs-counted k = refs-modify k s incr_refcount tied found_tied ∙ elim (Bool-cases (k == s)) [
      | inl e ↦
          let q = (==_iff k s).0 e in
          rw (e, q, ==_refl s)
            (omega (arith, c.counted s, ap count_of found, children_le s gen.holders, room))
      | inr e ↦
          rw e (ground (arith, refs-tied k, refs-added k, c.counted k, ==_iff s k, ==_iff k s))
    ]

    linked_up : IsConsistent (record {
      running_id = (gen.running_id + 1) % 18446744073709551616;
      holders = modify s incr_refcount tied;
    })
    linked_up = record {
      below =
          subst (λ n. IsBelow n (modify s incr_refcount tied))
            (sym (next-below gen.running_id fits))
            (IsBelow-modify_any (suc gen.running_id) s incr_refcount tied (
              IsBelow-modify_any (suc gen.running_id) gen.running_id (linked entry.header s) added
                (emplace-IsBelow gen.running_id (new_packet kind memory) gen.holders c.below)));
      is_map = IsMap-modify s incr_refcount tied (
          IsMap-modify gen.running_id (linked entry.header s) added (
            IsMap-emplace gen.running_id (new_packet kind memory) gen.holders new_absent c.is_map));
      ordered =
          AreOrdered-modify s incr_refcount (λ p. refl) tied
            (AreOrdered-linked gen.running_id s entry.header added earlier (
              AreOrdered-emplace gen.running_id (new_packet kind memory) gen.holders refl
                c.ordered));
      counted = λ k. refs-counted k ∙ sym (children-counted k);
    }

-- The source of a new packet, if it has one, is kept.
abbrev pub IsKept : Option ℕ → Holders → Type 0
IsKept none m = Unit
IsKept (some s) m = (entry : Packet) × (find s m ≡ some entry)

-- Making a packet, with or without a source that is kept, keeps the counts of successors right and
-- every predecessor in place. The packet's number is new, and its predecessor is the source. The
-- numbers and the packets are fewer than 2 to the 64.
pub opt_generate-IsConsistent :
    (kind : PacketKind) (memory : Bool) (source : Option ℕ) (gen : PktGen)
    → IsConsistent gen
    → IsKept source gen.holders
    → gen.running_id + 1 < 18446744073709551616
    → length gen.holders + 1 < 18446744073709551616
    → (gen' : PktGen) × (tid : ℕ) × (p : Packet) × (opt_generate kind memory source gen
        ≡ some (gen', tid))
      × IsConsistent gen'
      × (find tid gen.holders ≡ none)
      × (find tid gen'.holders ≡ some p)
      × (p.predecessor ≡ source)
unfolding opt_generate generate
opt_generate-IsConsistent kind memory none gen c kept fits room = (
  (generate kind memory gen).0,
  gen.running_id,
  new_packet kind memory,
  refl,
  generated kind memory gen c fits,
  new_absent kind memory gen c fits,
  found_new kind memory gen c fits,
  refl,
)
opt_generate-IsConsistent kind memory (some s) gen c (entry, found) fits room =
    let m = added kind memory gen c fits in
    (
      record {
        running_id = (gen.running_id + 1) % 18446744073709551616;
        holders = modify s incr_refcount (modify gen.running_id (linked entry.header s) m);
      },
      gen.running_id,
      linked entry.header s (new_packet kind memory),
      rw (found_added kind memory gen c fits s entry found room) refl,
      linked_up kind memory gen c fits s entry found room,
      new_absent kind memory gen c fits,
      find-modify_other s gen.running_id incr_refcount
            (modify gen.running_id (linked entry.header s) m)
            (λ e. source_ne kind memory gen c fits s entry found room (sym e))
          ∙ find-modify_self gen.running_id (linked entry.header s) m (new_packet kind memory)
              (found_new kind memory gen c fits),
      refl,
    )
