-- ===== src/RingQueue/Fifo.antt =====
-- Order, exclusion and the units of the semaphores, in the states that the threads can reach.
use mylittle_code_house.Base.{ℕ, ◌+◌, ◌≤◌, ◌<◌, ◌≡◌, arith, length, get_elem?}
use mylittle_code_house.Base.Counting.{total, weights-le-total}
use mylittle_code_house.RingQueue.Threads.{System, Reach}
use mylittle_code_house.RingQueue.Invariant.{in_push, in_pop, unread, unwritten}
use mylittle_code_house.RingQueue.Moves.{Reach-Inv}

module _ {A : Type 0} (junk : A) {n : ℕ} {s : System junk} (r : Reach junk n s) where
  -- For any number of producers and consumers, interleaved in any order, the values read from the
  -- ring are the first values written to it, in the order of the writes, and at most five values
  -- wait in it.
  pub reads_in_order :
      (length s.mem.read ≤ length s.mem.written)
      × (length s.mem.written ≤ 5 + length s.mem.read)
      × ((k : ℕ) → k < length s.mem.read → get_elem? s.mem.read k ≡ get_elem? s.mem.written k)
  reads_in_order =
      let v = Reach-Inv junk r in
      (omega (arith, v.occupied), omega (arith, v.vacant), v.ring.in_order)

  -- In every reachable state at most one of any two threads is between lock and unlock in push,
  -- and at most one in pop.
  pub mutual_exclusion :
      (i j : ℕ)
      → i < j
      → j < n
      → (in_push (s.pc i) + in_push (s.pc j) ≤ 1) × (in_pop (s.pc i) + in_pop (s.pc j) ≤ 1)
  mutual_exclusion i j lt below =
      let v = Reach-Inv junk r in
      (
        ground (arith, v.pushing, weights-le-total in_push n s.pc i j lt below),
        ground (arith, v.popping, weights-le-total in_pop n s.pc i j lt below),
      )

  -- In every reachable state the units on the two semaphores and those that threads hold add up
  -- to five.
  pub units_conserved :
      s.mem.queue.space_sem + s.mem.queue.data_sem + total unread n s.pc + total unwritten n s.pc
      ≡ 5
  units_conserved = let v = Reach-Inv junk r in omega (arith, v.occupied, v.vacant)
