-- ===== src/Agent/Behind.antt =====
-- virtualization_agent/common/src/generator_template.cc: packets that are numbered later than others
-- are made, written and removed without a change to those.
use multi_agent_accelerator.Agent.{
  Holders, Packet, PacketKind, done, generate, incr_refcount, linked, new_packet, opt_generate,
  recur_decr_rem, remove_chain, try_remove,
}
use multi_agent_accelerator.Agent.Services.{with_packet}
use multi_agent_accelerator.Prelude.{
  Bool, IsBelow, List, [], ap, arith, emplace, erase, false, find, modify, nat_eq, refl, some, suc,
  true, ℕ, ◌%◌, ◌++◌, ◌+◌, ◌-◌, ◌==◌, ◌∙◌, ◌∷◌, ◌≡◌, ◌≤◌,
}

-- Packets that are numbered from `n` on stand behind the earlier ones.
module _ {V : Type 0} (n : ℕ) where
  pub emplace-behind :
      (j : ℕ) (v : V) (hs t : List (ℕ × V))
      → IsBelow n hs
      → n ≤ j
      → emplace j v (hs ++ t) ≡ hs ++ emplace j v t
  emplace-behind j v [] t b h = refl
  emplace-behind j v (en ∷ hs) t b h = ground (arith, emplace-behind j v hs t b.1 h)

  pub find-behind :
      (j : ℕ) (hs t : List (ℕ × V)) → IsBelow n hs → n ≤ j → find j (hs ++ t) ≡ find j t
  find-behind j [] t b h = refl
  find-behind j (en ∷ hs) t b h = ground (arith, find-behind j hs t b.1 h)

  pub modify-behind :
      (j : ℕ) (f : V → V) (hs t : List (ℕ × V))
      → IsBelow n hs
      → n ≤ j
      → modify j f (hs ++ t) ≡ hs ++ modify j f t
  modify-behind j f [] t b h = refl
  modify-behind j f (en ∷ hs) t b h = ground (arith, modify-behind j f hs t b.1 h)

  pub erase-behind :
      (j : ℕ) (hs t : List (ℕ × V)) → IsBelow n hs → n ≤ j → erase j (hs ++ t) ≡ hs ++ erase j t
  erase-behind j [] t b h = refl
  erase-behind j (en ∷ hs) t b h = ground (arith, erase-behind j hs t b.1 h)

module _ (n : ℕ) (hs : Holders) (earlier : IsBelow n hs) where
  pub opt_generate-behind :
      (kind : PacketKind) (memory : Bool) (source new : ℕ) (entry : Packet) (t t' : Holders)
      → n ≤ source
      → n ≤ new
      → find source (emplace new (new_packet kind memory) t) ≡ some entry
      → modify source incr_refcount
          (modify new (linked entry.header source) (emplace new (new_packet kind memory) t))
        ≡ t'
      → opt_generate kind memory (some source) (record { running_id = new; holders = hs ++ t })
        ≡ some (record { running_id = (new + 1) % 18446744073709551616; holders = hs ++ t' }, new)
  unfolding opt_generate generate
  opt_generate-behind kind memory source new entry t t' h k found e =
      let new_t = emplace new (new_packet kind memory) t in
      rw
        (
          emplace-behind n new (new_packet kind memory) hs t earlier k,
          find-behind n source hs new_t earlier h,
          found,
          modify-behind n new (linked entry.header source) hs new_t earlier k,
          modify-behind n source incr_refcount hs (modify new (linked entry.header source) new_t)
              earlier h,
          e,
        )
        refl

  -- A write to a packet, and the removal of one from which another was made.
  pub with_packet-behind :
      (tid next : ℕ) (f : Packet → Packet) (t t' : Holders)
      → n ≤ tid
      → modify tid f t ≡ t'
      → with_packet tid f (record { running_id = next; holders = hs ++ t })
        ≡ record { running_id = next; holders = hs ++ t' }
  unfolding with_packet
  with_packet-behind tid next f t t' h e = rw (modify-behind n tid f hs t earlier h, e) refl

  pub try_remove-used :
      (tid : ℕ) (entry : Packet) (t : Holders)
      → n ≤ tid
      → find tid t ≡ some entry
      → (entry.successor_count == 0) ≡ false
      → try_remove tid (hs ++ t) ≡ done (hs ++ t)
  unfolding try_remove
  try_remove-used tid entry t h found used =
      rw (find-behind n tid hs t earlier h ∙ found, try_remove, used) refl

  -- A packet that waited for one other goes with it.
  pub remove_chain-behind :
      (fuel pred : ℕ) (entry : Packet) (t t' : Holders)
      → n ≤ pred
      → find pred t ≡ some entry
      → (entry.successor_count - 1 == 0) ≡ true
      → erase pred t ≡ t'
      → remove_chain (suc fuel) (some pred) (hs ++ t)
        ≡ remove_chain fuel entry.predecessor (hs ++ t')
  unfolding remove_chain recur_decr_rem
  remove_chain-behind fuel pred entry t t' h found last e =
      rw
        (
          find-behind n pred hs t earlier h ∙ found,
          remove_chain,
          last,
          erase-behind n pred hs t earlier h ∙ ap (λ u. hs ++ u) e,
        )
        refl
