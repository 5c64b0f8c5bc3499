-- ===== src/BlockingQueue/Invariant.antt =====
-- The invariant of the queue, its mutex and its threads.
use mylittle_code_house.Base.{ℕ, ◌+◌, ◌≤◌, ◌≡◌, ◌++◌, length, flag, update, ◌<◌}
use mylittle_code_house.Base.Counting.{total, total-moved}
use mylittle_code_house.BlockingQueue.Threads.{
  Pc, push_locked, push_admitted, push_done, push_signalled, pop_locked, pop_admitted, pop_done,
  pop_signalled, Shared,
}

module _ {A : Type 0} where
  -- The threads that hold the mutex: admitted to push, admitted to pop, and at other places.
  abbrev pub to_push : Pc A → ℕ
  to_push (push_admitted _) = 1
  to_push _ = 0

  abbrev pub to_pop : Pc A → ℕ
  to_pop pop_admitted = 1
  to_pop _ = 0

  abbrev pub elsewhere : Pc A → ℕ
  elsewhere (push_locked _) = 1
  elsewhere push_done = 1
  elsewhere push_signalled = 1
  elsewhere pop_locked = 1
  elsewhere (pop_done _) = 1
  elsewhere (pop_signalled _) = 1
  elsewhere _ = 0

  pub record Inv (capacity n : ℕ) (m : Shared A) (pc : ℕ → Pc A) : Type 0 where
    pub bounded : m.queue.capacity ≡ capacity
    pub holding : total to_push n pc + total to_pop n pc + total elsewhere n pc ≡ flag m.queue.mutex
    pub room : length m.queue.bq + total to_push n pc ≤ capacity
    pub stock : total to_pop n pc ≤ length m.queue.bq
    pub order : m.pushed ≡ m.popped ++ m.queue.bq

  -- The sums of the weights after thread `i` has gone from `q` to `p`.
  abbrev pub Sums : ℕ → (ℕ → Pc A) → ℕ → Pc A → Pc A → Type 0
  Sums n pc i q p =
      (total to_push n (update pc i p) + to_push q ≡ total to_push n pc + to_push p)
      × (total to_pop n (update pc i p) + to_pop q ≡ total to_pop n pc + to_pop p)
      × (total elsewhere n (update pc i p) + elsewhere q ≡ total elsewhere n pc + elsewhere p)

  pub sums : (n : ℕ) (pc : ℕ → Pc A) (i : ℕ) (q p : Pc A) → i < n → pc i ≡ q → Sums n pc i q p
  sums n pc i q p lt e = (
    total-moved to_push n pc i q p lt e,
    total-moved to_pop n pc i q p lt e,
    total-moved elsewhere n pc i q p lt e,
  )
