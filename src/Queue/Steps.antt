-- ===== src/Queue/Steps.antt =====
-- utils/include/concurrent_bounded_queue.h: the order of the items, the bound, and a deadlock.
use multi_agent_accelerator.Prelude.{
  >>=-eq-some, Ensures, Ensures-some, List, Option, [], ap, append-nil, append_assoc, arith, length,
  length-append, none, refl, some, suc, sym, zero, ℕ, ◌++◌, ◌+◌, ◌∙◌, ◌∷◌, ◌≡◌, ◌≤◌,
}
use multi_agent_accelerator.Queue.{
  BoundedQueue, Holder, Reached, Step, acquire_and_emplace, acquire_and_pop, dequeue, dequeues,
  dequeuing, enqueue, enqueues, enqueuing, fails, lock, lock_as, locks, start, step, try_dequeue,
}

module _ {ℓ} {T : Type ℓ} (depth : ℕ) where
  -- The semaphores count the items and the free slots.
  pub record IsCounted (q : BoundedQueue T) : Type 0 where
    pub counted : length q.items ≡ q.items_produced
    pub bounded : q.items_produced + q.remaining_space ≡ depth

  -- What a step leaves that takes an item, that adds one, and that does neither.
  abbrev Takes : List T → T × BoundedQueue T → Type ℓ
  Takes xs r = (xs ≡ r.0 ∷ r.1.items) × IsCounted r.1

  abbrev Adds : List T → T → BoundedQueue T → Type ℓ
  Adds xs x r = (r.items ≡ xs ++ x ∷ []) × IsCounted r

  abbrev Keeps : List T → BoundedQueue T → Type ℓ
  Keeps xs r = (r.items ≡ xs) × IsCounted r

  acquire_and_pop-Takes :
      (xs : List T) (n space : ℕ)
      → length xs ≡ n
      → n + space ≡ depth
      → Ensures (Takes xs) (acquire_and_pop xs n space)
  acquire_and_pop-Takes xs zero space h b = tt
  acquire_and_pop-Takes [] (suc n) space h b = tt
  acquire_and_pop-Takes (x ∷ xs) (suc n) space h b =
      (refl, record { counted = omega arith; bounded = omega arith })

  acquire_and_emplace-Adds :
      (x : T) (xs : List T) (n space : ℕ)
      → length xs ≡ n
      → n + space ≡ depth
      → Ensures (Adds xs x) (acquire_and_emplace x xs n space)
  acquire_and_emplace-Adds x xs n zero h b = tt
  acquire_and_emplace-Adds x xs n (suc space) h b =
      (refl, record { counted = omega (arith, length-append xs (x ∷ [])); bounded = omega arith })

  lock_as-Keeps :
      (h : Holder T) (q : BoundedQueue T) (mtx : Option (Holder T))
      → IsCounted q
      → Ensures (Keeps q.items) (lock_as h q mtx)
  lock_as-Keeps h q none c = (refl, record { counted = c.counted; bounded = c.bounded })
  lock_as-Keeps h q (some other) c = tt

  -- What was taken and what is still there is what was added, in its order, and the semaphores count
  -- the items and the free slots.
  abbrev InOrder : List T → List T → BoundedQueue T → Type ℓ
  InOrder sent received q = (received ++ q.items ≡ sent) × IsCounted q

  Step-InOrder :
      {q q' : BoundedQueue T} {added taken : List T} (sent received : List T)
      → InOrder sent received q
      → Step q added taken q'
      → InOrder (sent ++ added) (received ++ taken) q'
  unfolding lock enqueue dequeue
  Step-InOrder {q} {q'} sent received h (locks holder e) =
      let k =
        Ensures-some (Keeps q.items) (lock holder q) q' (lock_as-Keeps holder q q.items_mtx h.1)
          e in
      (
        ap (λ r. r ++ q'.items) (append-nil received)
            ∙ ap (λ xs. received ++ xs) k.0
            ∙ h.0
            ∙ sym (append-nil sent),
        k.1,
      )
  Step-InOrder {q} {q'} sent received h (enqueues i held e) =
      let k =
        Ensures-some (Adds q.items i) (enqueue i q) q'
          (acquire_and_emplace-Adds i q.items q.items_produced q.remaining_space (h.1).counted
            (h.1).bounded)
          e in
      (
        ap (λ r. r ++ q'.items) (append-nil received)
            ∙ ap (λ xs. received ++ xs) k.0
            ∙ sym (append_assoc received q.items (i ∷ []))
            ∙ ap (λ r. r ++ i ∷ []) h.0,
        k.1,
      )
  Step-InOrder {q} {q'} sent received h (dequeues x held e) =
      let k =
        Ensures-some (Takes q.items) (dequeue q) (x, q')
          (acquire_and_pop-Takes q.items q.items_produced q.remaining_space (h.1).counted
            (h.1).bounded)
          e in
      (
        append_assoc received (x ∷ []) q'.items
            ∙ ap (λ xs. received ++ xs) (sym k.0)
            ∙ h.0
            ∙ sym (append-nil sent),
        k.1,
      )
  Step-InOrder {q} sent received h (fails e) =
      (ap (λ r. r ++ q.items) (append-nil received) ∙ h.0 ∙ sym (append-nil sent), h.1)

  -- However the threads interleave, the items leave in the order in which they came, none is lost
  -- or made up, and there are never more than the depth.
  pub Reached-InOrder :
      (sent received : List T) (q : BoundedQueue T)
      → Reached depth sent received q
      → (received ++ q.items ≡ sent) × (length q.items ≤ depth)
  Reached-InOrder sent received q r = let h = in_order sent received q r in (h.0, bound (h.1))
    where
      in_order :
          (sent received : List T) (q : BoundedQueue T)
          → Reached depth sent received q
          → InOrder sent received q
      in_order _ _ _ start = (refl, record { counted = refl; bounded = omega arith })
      in_order _ _ _ (step {sent} {received} {added} {taken} {q} {q'} r s) =
          Step-InOrder sent received (in_order sent received q r) s

      bound : {q : BoundedQueue T} → IsCounted q → length q.items ≤ depth
      bound c = let a = c.counted in let b = c.bounded in omega arith

  held-stuck :
      (i : T) (q : BoundedQueue T)
      → q.items_mtx ≡ some (enqueuing i)
      → q.remaining_space ≡ 0
      → (added taken : List T) (q' : BoundedQueue T) → ¬ (Step q added taken q')
  unfolding lock enqueue try_dequeue
  held-stuck i q held full added taken q' (locks h e) =
      let blocked : none ≡ some q' = sym (ap (lock_as h q) held) ∙ e in cc
  held-stuck i q held full added taken q' (enqueues j held' e) =
      let waits : none ≡ some q' =
        sym (ap (acquire_and_emplace j q.items q.items_produced) full) ∙ e in
      cc
  held-stuck i q held full added taken q' (dequeues x held' e) =
      let other : some (enqueuing i) ≡ some dequeuing = sym held ∙ held' in cc
  held-stuck i q held full added taken q' (fails e) =
      let (q'', locked, rest) = >>=-eq-some (lock dequeuing q) _ e in
      let blocked : none ≡ some q'' = sym (ap (lock_as dequeuing q) held) ∙ locked in cc

  -- A thread that begins to add to a full queue stops every thread: it holds the mutex that the
  -- others need to make room, and no step is possible any more.
  pub enqueuing-stuck :
      (i : T) (q : BoundedQueue T)
      → q.items_mtx ≡ none
      → q.remaining_space ≡ 0
      → (q' : BoundedQueue T) × Step q [] [] q'
        × ((added taken : List T) (q'' : BoundedQueue T) → ¬ (Step q' added taken q''))
  unfolding lock
  enqueuing-stuck i q free full =
      let q' : BoundedQueue T = record {
        items = q.items;
        items_mtx = some (enqueuing i);
        items_produced = q.items_produced;
        remaining_space = q.remaining_space;
      } in
      (q', locks (enqueuing i) (ap (lock_as (enqueuing i) q) free), held-stuck i q' refl full)
