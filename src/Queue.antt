-- ===== src/Queue.antt =====
-- utils/include/concurrent_bounded_queue.h and thread_manager.h: the queue between the threads of a
-- service. Each operation takes the mutex first. A thread that holds it and waits for a semaphore is
-- the queue's holder; the other threads have not begun.
use multi_agent_accelerator.Prelude.{
  List, Option, [], none, some, suc, zero, ℕ, ◌++◌, ◌>>=◌, ◌∷◌, ◌≡◌,
}
pub mod Steps
pub mod Egress

-- What the thread that holds the mutex is about to do.
pub data Holder {ℓ} (T : Type ℓ) : Type ℓ where
  enqueuing : T → Holder T
  dequeuing : Holder T

pub record BoundedQueue {ℓ} (T : Type ℓ) : Type ℓ where
  pub items : List T
  pub items_mtx : Option (Holder T)
  pub items_produced : ℕ
  pub remaining_space : ℕ

module _ {ℓ} {T : Type ℓ} where
  abbrev pub empty_queue : ℕ → BoundedQueue T
  empty_queue depth = record {
    items = [];
    items_mtx = none;
    items_produced = 0;
    remaining_space = depth;
  }

  -- `scoped_lock`: `none` while another thread holds the mutex.
  abbrev pub lock_as : Holder T → BoundedQueue T → Option (Holder T) → Option (BoundedQueue T)
  lock_as h q none = some (record {
    items = q.items;
    items_mtx = some h;
    items_produced = q.items_produced;
    remaining_space = q.remaining_space;
  })
  lock_as h q (some other) = none

  unfoldable pub lock : Holder T → BoundedQueue T → Option (BoundedQueue T)
  lock h q = lock_as h q q.items_mtx

  -- The rest of `enqueue`, which waits in `remaining_space.acquire()`: `none`.
  abbrev pub acquire_and_emplace : T → List T → ℕ → ℕ → Option (BoundedQueue T)
  acquire_and_emplace i items produced zero = none
  acquire_and_emplace i items produced (suc space) = some (record {
    items = items ++ i ∷ [];
    items_mtx = none;
    items_produced = suc produced;
    remaining_space = space;
  })

  unfoldable pub enqueue : T → BoundedQueue T → Option (BoundedQueue T)
  enqueue i q = acquire_and_emplace i q.items q.items_produced q.remaining_space

  -- The rest of `dequeue`, which waits in `items_produced.acquire()`: `none`.
  abbrev pub acquire_and_pop : List T → ℕ → ℕ → Option (T × BoundedQueue T)
  acquire_and_pop items zero space = none
  acquire_and_pop [] (suc n) space = none
  acquire_and_pop (x ∷ xs) (suc n) space =
      some (
        x,
        record { items = xs; items_mtx = none; items_produced = n; remaining_space = suc space },
      )

  unfoldable pub dequeue : BoundedQueue T → Option (T × BoundedQueue T)
  dequeue q = acquire_and_pop q.items q.items_produced q.remaining_space

  -- `try_dequeue`, which does not wait while it holds the mutex: it takes an item, or it returns
  -- empty if `items_produced` is 0 and leaves the queue.
  unfoldable pub try_dequeue : BoundedQueue T → Option (Option T × BoundedQueue T)
  try_dequeue q = do
    q' ← lock dequeuing q
    elim q.items_produced [
      | zero ↦ some (none, q)
      | suc n ↦ do (x, q'') ← dequeue q'; some (some x, q'')
    ]

  -- One step of any thread, with what it adds to the queue and what it takes. A `try_dequeue` that
  -- takes an item locks and dequeues; one that does not leaves the queue.
  pub data Step : BoundedQueue T → List T → List T → BoundedQueue T → Type ℓ where
    locks : {q q' : BoundedQueue T} (h : Holder T) → lock h q ≡ some q' → Step q [] [] q'
    enqueues :
        {q q' : BoundedQueue T} (i : T)
        → q.items_mtx ≡ some (enqueuing i)
        → enqueue i q ≡ some q'
        → Step q (i ∷ []) [] q'
    dequeues :
        {q q' : BoundedQueue T} (x : T)
        → q.items_mtx ≡ some dequeuing
        → dequeue q ≡ some (x, q')
        → Step q [] (x ∷ []) q'
    fails : {q : BoundedQueue T} → try_dequeue q ≡ some (none, q) → Step q [] [] q

  -- The queues that the threads reach, with all that was added and taken on the way.
  pub data Reached (depth : ℕ) : List T → List T → BoundedQueue T → Type ℓ where
    start : Reached depth [] [] (empty_queue depth)
    step :
        {sent received added taken : List T} {q q' : BoundedQueue T}
        → Reached depth sent received q
        → Step q added taken q'
        → Reached depth (sent ++ added) (received ++ taken) q'
