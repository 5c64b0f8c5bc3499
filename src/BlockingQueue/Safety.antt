-- ===== src/BlockingQueue/Safety.antt =====
-- Order, bounds and exclusion in the states that the threads can reach.
use mylittle_code_house.Base.{ℕ, ◌+◌, ◌≤◌, ◌<◌, ◌≡◌, arith, ◌++◌, length}
use mylittle_code_house.Base.Counting.{weights-le-total}
use mylittle_code_house.BlockingQueue.Threads.{Pc, System, Reach}
use mylittle_code_house.BlockingQueue.Invariant.{to_push, to_pop, elsewhere}
use mylittle_code_house.BlockingQueue.Moves.{Reach-Inv}

module _ {A : Type 0} where
  -- 1 between a lock and the next unlock or wait.
  abbrev pub inside : Pc A → ℕ
  inside p = to_push p + to_pop p + elsewhere p

  -- For any number of threads that push and pop on one queue, interleaved in any order and with
  -- spurious wake-ups, the values pushed are those popped, in the order of the pushes, followed
  -- by those in the queue, and the queue never holds more than its capacity.
  pub popped_in_order :
      {capacity n : ℕ} {s : System A}
      → Reach capacity n s
      → (s.mem.pushed ≡ s.mem.popped ++ s.mem.queue.bq) × (length s.mem.queue.bq ≤ capacity)
  popped_in_order r = let v = Reach-Inv r in (v.order, omega (arith, v.room))

  -- At most one of any two threads is between lock and unlock.
  pub one_inside :
      {capacity n : ℕ} {s : System A}
      → Reach capacity n s
      → (i j : ℕ) → i < j
      → j < n
      → inside (s.pc i) + inside (s.pc j) ≤ 1
  one_inside {n} {s} r i j lt below =
      let v = Reach-Inv r in
      ground (
        arith,
        v.holding,
        weights-le-total to_push n s.pc i j lt below,
        weights-le-total to_pop n s.pc i j lt below,
        weights-le-total elsewhere n s.pc i j lt below,
      )
