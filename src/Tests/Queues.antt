-- ===== src/Tests/Queues.antt =====
-- utils/include/concurrent_bounded_queue.h and thread_manager.h at a queue with one slot.
use multi_agent_accelerator.Prelude.{List, [], length, none, refl, some, ℕ, ◌++◌, ◌∷◌, ◌≡◌, ◌≤◌}
use multi_agent_accelerator.Queue.{
  BoundedQueue, Reached, Step, dequeue, empty_queue, enqueue, enqueues, enqueuing, lock, locks,
  start, step, try_dequeue,
}
use multi_agent_accelerator.Queue.Steps.{Reached-InOrder, enqueuing-stuck}

abbrev full : BoundedQueue ℕ
full = record { items = 5 ∷ []; items_mtx = none; items_produced = 1; remaining_space = 0 }

abbrev adding : BoundedQueue ℕ
adding = record {
  items = [];
  items_mtx = some (enqueuing 5);
  items_produced = 0;
  remaining_space = 1;
}

ran : Unit {0}
unfolding lock enqueue dequeue try_dequeue
ran = tt

full-Reached : Reached 1 (5 ∷ []) [] full
unfolding ran
full-Reached =
    step {q = adding} (step {q = empty_queue 1} start (locks {q' = adding} (enqueuing 5) refl))
      (enqueues {q' = full} 5 refl refl)

Reached-InOrder_example : ([] ++ full.items ≡ full.items) × (length full.items ≤ 1)
Reached-InOrder_example = Reached-InOrder 1 (5 ∷ []) [] full full-Reached

enqueuing-stuck_example :
    (q' : BoundedQueue ℕ) × Step full [] [] q'
    × ((added taken : List ℕ) (q'' : BoundedQueue ℕ) → ¬ (Step q' added taken q''))
enqueuing-stuck_example = enqueuing-stuck 1 7 full refl refl
