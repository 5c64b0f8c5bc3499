-- ===== src/RingQueue/Moves.antt =====
-- The invariant along the steps of the threads.
use mylittle_code_house.Base.{ℕ, ◌+◌, ◌-◌, ◌<◌, ◌≡◌, refl, arith, true, false, update}
use mylittle_code_house.Base.Counting.{total-zero}
use mylittle_code_house.RingQueue.Threads.{
  Pc, outside, push_started, push_admitted, push_locked, push_written, push_posted, pop_started,
  pop_admitted, pop_locked, pop_read, pop_posted, Shared, Move, start_push, admit_push, lock_push,
  advance_push, write, wrap_push, post_push, unlock_push, start_pop, admit_pop, lock_pop,
  advance_pop, fetch, wrap_pop, post_pop, unlock_pop, System, Step, pick, Reach, start, later,
}
use mylittle_code_house.RingQueue.Invariant.{
  in_push, in_pop, unread, unwritten, bumped_push, bumped_pop, stored_push, fetched_pop, Inv,
}
use mylittle_code_house.RingQueue.Sums.{Sums, sums, counted}
use mylittle_code_house.RingQueue.Push.{advance_push-Inv, write-Inv, wrap_push-Inv}
use mylittle_code_house.RingQueue.Pop.{advance_pop-Inv, fetch-Inv, wrap_pop-Inv}

module _ {A : Type 0} where
  Move-Inv :
      (junk : A) {n : ℕ} {pc : ℕ → Pc A} {q : Pc A} (m : Shared A) (i : ℕ) {m' : Shared A}
      {p : Pc A}
      → pc i ≡ q
      → i < n
      → Move junk m q m' p
      → Inv n m pc
      → Sums n pc i q p
      → Inv n m' (update pc i p)
  Move-Inv junk m i e lt (start_push x) v s =
      counted outside (push_started x) m i v s m.queue.space_sem m.queue.data_sem m.queue.cmutex
        m.queue.pmutex refl (ground (arith, s, v)) (ground (arith, s, v)) (ground (arith, s, v))
        (ground (arith, s, v))
  Move-Inv junk m i e lt (admit_push x h) v s =
      counted (push_started x) (push_admitted x) m i v s (m.queue.space_sem - 1) m.queue.data_sem
        m.queue.cmutex m.queue.pmutex refl (ground (arith, s, v)) (ground (arith, s, v))
        (ground (arith, s, v)) (ground (arith, s, v))
  Move-Inv junk m i e lt (lock_push x h) v s =
      counted (push_admitted x) (push_locked x) m i v s m.queue.space_sem m.queue.data_sem
        m.queue.cmutex true refl (ground (arith, s, v)) (ground (arith, s, v))
        (ground (arith, s, v)) (ground (arith, s, v))
  Move-Inv junk m i e lt post_push v s =
      counted push_written push_posted m i v s m.queue.space_sem (m.queue.data_sem + 1)
        m.queue.cmutex m.queue.pmutex refl (ground (arith, s, v)) (ground (arith, s, v))
        (ground (arith, s, v)) (ground (arith, s, v))
  Move-Inv junk m i e lt unlock_push v s =
      counted push_posted outside m i v s m.queue.space_sem m.queue.data_sem m.queue.cmutex false
        refl (ground (arith, s, v)) (ground (arith, s, v)) (ground (arith, s, v))
        (ground (arith, s, v))
  Move-Inv junk m i e lt start_pop v s =
      counted outside pop_started m i v s m.queue.space_sem m.queue.data_sem m.queue.cmutex
        m.queue.pmutex refl (ground (arith, s, v)) (ground (arith, s, v)) (ground (arith, s, v))
        (ground (arith, s, v))
  Move-Inv junk m i e lt (admit_pop h) v s =
      counted pop_started pop_admitted m i v s m.queue.space_sem (m.queue.data_sem - 1)
        m.queue.cmutex m.queue.pmutex refl (ground (arith, s, v)) (ground (arith, s, v))
        (ground (arith, s, v)) (ground (arith, s, v))
  Move-Inv junk m i e lt (lock_pop h) v s =
      counted pop_admitted pop_locked m i v s m.queue.space_sem m.queue.data_sem true m.queue.pmutex
        refl (ground (arith, s, v)) (ground (arith, s, v)) (ground (arith, s, v))
        (ground (arith, s, v))
  Move-Inv junk m i e lt (post_pop x) v s =
      counted (pop_read x) (pop_posted x) m i v s (m.queue.space_sem + 1) m.queue.data_sem
        m.queue.cmutex m.queue.pmutex refl (ground (arith, s, v)) (ground (arith, s, v))
        (ground (arith, s, v)) (ground (arith, s, v))
  Move-Inv junk m i e lt (unlock_pop x) v s =
      counted (pop_posted x) outside m i v s m.queue.space_sem m.queue.data_sem false m.queue.pmutex
        refl (ground (arith, s, v)) (ground (arith, s, v)) (ground (arith, s, v))
        (ground (arith, s, v))
  Move-Inv junk m i e lt (advance_push x) v s = advance_push-Inv junk m i x e lt v s
  Move-Inv junk m i e lt (write x p) v s = write-Inv junk m i x p e lt v s
  Move-Inv junk m i e lt wrap_push v s = wrap_push-Inv junk m i e lt v s
  Move-Inv junk m i e lt advance_pop v s = advance_pop-Inv junk m i e lt v s
  Move-Inv junk m i e lt (fetch c) v s = fetch-Inv junk m i c e lt v s
  Move-Inv junk m i e lt (wrap_pop x) v s = wrap_pop-Inv junk m i x e lt v s

  -- Each step of a system of `n` threads keeps the invariant.
  Step-Inv :
      (junk : A) {n : ℕ} {s t : System junk} → Step junk n s t → Inv n s.mem s.pc → Inv n t.mem t.pc
  Step-Inv junk {n} {s} (pick i {m} {p} lt mv) v =
      Move-Inv junk s.mem i refl lt mv v (sums n s.pc i (s.pc i) p lt refl)

  -- Whatever the threads do, in any order, the invariant holds.
  pub Reach-Inv : (junk : A) {n : ℕ} {s : System junk} → Reach junk n s → Inv n s.mem s.pc
  Reach-Inv junk {n} start = record {
    occupied = omega (arith, total-zero unread n outside refl);
    vacant = omega (arith, total-zero unwritten n outside refl);
    pushing = omega (arith, total-zero in_push n outside refl);
    popping = omega (arith, total-zero in_pop n outside refl);
    tail =
        omega (arith, total-zero bumped_push n outside refl, total-zero stored_push n outside refl);
    head =
        omega (arith, total-zero bumped_pop n outside refl, total-zero fetched_pop n outside refl);
    drained = omega (arith, total-zero fetched_pop n outside refl);
    tail_kept = λ i lt b. absurd (omega (arith, b));
    head_kept = λ i lt b. absurd (omega (arith, b));
    ring = record {
      five = refl;
      places = refl;
      stored = λ k low high. absurd (omega arith);
      in_order = λ k h. absurd (omega arith);
    };
  }
  Reach-Inv junk (later r st) = Step-Inv junk st (Reach-Inv junk r)
