-- ===== src/BlockingQueue/Wakeups.antt =====
-- Which threads a signal still owes a wake-up, on either side.
use mylittle_code_house.Base.{
  ℕ, ◌∙◌, ◌+◌, ◌≤◌, ◌<◌, ◌≡◌, refl, ap, arith, Bool, true, false, length, length-snoc, update, ◌⊎◌,
  inl,
}
use mylittle_code_house.Base.Counting.{total, total-moved, total-zero, total-none}
use mylittle_code_house.BlockingQueue.{is_empty, is_full, enqueue}
use mylittle_code_house.BlockingQueue.Threads.{
  Pc, outside, push_started, push_locked, push_waiting, push_woken, push_admitted, push_done,
  push_signalled, pop_started, pop_locked, pop_waiting, pop_woken, pop_admitted, pop_done,
  pop_signalled, Shared, Move, start_push, lock_push, wait_push, wake_push, relock_push, admit_push,
  push_one, unlock_push, start_pop, lock_pop, wait_pop, wake_pop, relock_pop, admit_pop, pop_one,
  unlock_pop, asleep_on_full, asleep_on_empty, Signal, signal_empty, signal_full, woken, System,
  Step, pick, wake_one, wake_none, Reach, start, later,
}
use mylittle_code_house.BlockingQueue.Moves.{dequeue_first, waiter_stays}

module _ {A : Type 0} where
  -- Asleep on `full_`; awake on the way to the test or to the push; about to signal `full_`.
  abbrev pub full_asleep : Pc A → ℕ
  full_asleep (push_waiting _) = 1
  full_asleep _ = 0

  abbrev pub full_awake : Pc A → ℕ
  full_awake (push_woken _) = 1
  full_awake (push_locked _) = 1
  full_awake (push_admitted _) = 1
  full_awake _ = 0

  abbrev pub full_signals : Pc A → ℕ
  full_signals (pop_done _) = 1
  full_signals _ = 0

  -- The same for `empty_`.
  abbrev pub empty_asleep : Pc A → ℕ
  empty_asleep pop_waiting = 1
  empty_asleep _ = 0

  abbrev pub empty_awake : Pc A → ℕ
  empty_awake pop_woken = 1
  empty_awake pop_locked = 1
  empty_awake pop_admitted = 1
  empty_awake _ = 0

  abbrev pub empty_signals : Pc A → ℕ
  empty_signals push_done = 1
  empty_signals _ = 0

  -- While a producer sleeps, each free place is met by a producer that is awake or by a signal that
  -- is about to be sent; while a consumer sleeps, so is each element.
  abbrev pub FullHeard : ℕ → Shared A → (ℕ → Pc A) → Type 0
  FullHeard n m pc =
      (total full_asleep n pc ≡ 0)
      ⊎ (m.queue.capacity ≤ length m.queue.bq + total full_awake n pc + total full_signals n pc)

  abbrev pub EmptyHeard : ℕ → Shared A → (ℕ → Pc A) → Type 0
  EmptyHeard n m pc =
      (total empty_asleep n pc ≡ 0)
      ⊎ (length m.queue.bq ≤ total empty_awake n pc + total empty_signals n pc)

  abbrev Sums : (Pc A → ℕ) → (Pc A → ℕ) → (Pc A → ℕ) → ℕ → (ℕ → Pc A) → ℕ → Pc A → Pc A → Type 0
  Sums a b c n pc i q p =
      (total a n (update pc i p) + a q ≡ total a n pc + a p)
      × (total b n (update pc i p) + b q ≡ total b n pc + b p)
      × (total c n (update pc i p) + c q ≡ total c n pc + c p)

  sums :
      (a b c : Pc A → ℕ) (n : ℕ) (pc : ℕ → Pc A) (i : ℕ) (q p : Pc A)
      → i < n
      → pc i ≡ q
      → Sums a b c n pc i q p
  sums a b c n pc i q p lt e =
      (total-moved a n pc i q p lt e, total-moved b n pc i q p lt e, total-moved c n pc i q p lt e)

  Move-FullHeard :
      (n : ℕ) (pc : ℕ → Pc A) {q : Pc A} (m : Shared A) (i : ℕ) {m' : Shared A} {p : Pc A}
      → Move m q m' p
      → FullHeard n m pc
      → Sums full_asleep full_awake full_signals n pc i q p
      → FullHeard n m' (update pc i p)
  unfolding is_full enqueue
  Move-FullHeard n pc m i (start_push x) v s = ground (arith, s, v)
  Move-FullHeard n pc m i (lock_push x h) v s = ground (arith, s, v)
  Move-FullHeard n pc m i (wait_push x h) v s = ground (arith, s, v)
  Move-FullHeard n pc m i (wake_push x) v s = ground (arith, s, v)
  Move-FullHeard n pc m i (relock_push x h) v s = ground (arith, s, v)
  Move-FullHeard n pc m i (admit_push x h) v s = ground (arith, s, v)
  Move-FullHeard n pc m i (push_one x) v s = ground (arith, s, v, length-snoc m.queue.bq x)
  Move-FullHeard n pc m i unlock_push v s = ground (arith, s, v)
  Move-FullHeard n pc m i start_pop v s = ground (arith, s, v)
  Move-FullHeard n pc m i (lock_pop h) v s = ground (arith, s, v)
  Move-FullHeard n pc m i (wait_pop h) v s = ground (arith, s, v)
  Move-FullHeard n pc m i wake_pop v s = ground (arith, s, v)
  Move-FullHeard n pc m i (relock_pop h) v s = ground (arith, s, v)
  Move-FullHeard n pc m i (admit_pop h) v s = ground (arith, s, v)
  Move-FullHeard n pc m i (pop_one x q h) v s =
      let first = dequeue_first m.queue x q h in ground (arith, s, v, first, ap length first.0)
  Move-FullHeard n pc m i (unlock_pop x) v s = ground (arith, s, v)

  Move-EmptyHeard :
      (n : ℕ) (pc : ℕ → Pc A) {q : Pc A} (m : Shared A) (i : ℕ) {m' : Shared A} {p : Pc A}
      → Move m q m' p
      → EmptyHeard n m pc
      → Sums empty_asleep empty_awake empty_signals n pc i q p
      → EmptyHeard n m' (update pc i p)
  unfolding is_empty enqueue
  Move-EmptyHeard n pc m i (start_push x) v s = ground (arith, s, v)
  Move-EmptyHeard n pc m i (lock_push x h) v s = ground (arith, s, v)
  Move-EmptyHeard n pc m i (wait_push x h) v s = ground (arith, s, v)
  Move-EmptyHeard n pc m i (wake_push x) v s = ground (arith, s, v)
  Move-EmptyHeard n pc m i (relock_push x h) v s = ground (arith, s, v)
  Move-EmptyHeard n pc m i (admit_push x h) v s = ground (arith, s, v)
  Move-EmptyHeard n pc m i (push_one x) v s = ground (arith, s, v, length-snoc m.queue.bq x)
  Move-EmptyHeard n pc m i unlock_push v s = ground (arith, s, v)
  Move-EmptyHeard n pc m i start_pop v s = ground (arith, s, v)
  Move-EmptyHeard n pc m i (lock_pop h) v s = ground (arith, s, v)
  Move-EmptyHeard n pc m i (wait_pop h) v s = ground (arith, s, v)
  Move-EmptyHeard n pc m i wake_pop v s = ground (arith, s, v)
  Move-EmptyHeard n pc m i (relock_pop h) v s = ground (arith, s, v)
  Move-EmptyHeard n pc m i (admit_pop h) v s = ground (arith, s, v)
  Move-EmptyHeard n pc m i (pop_one x q h) v s =
      let first = dequeue_first m.queue x q h in ground (arith, s, v, first, ap length first.0)
  Move-EmptyHeard n pc m i (unlock_pop x) v s = ground (arith, s, v)

  at_full : (r : Pc A) → asleep_on_full r ≡ true → (x : A) × (r ≡ push_waiting x)
  at_full (push_waiting x) h = (x, refl)
  at_full outside h = cc
  at_full (push_started x) h = cc
  at_full (push_locked x) h = cc
  at_full (push_woken x) h = cc
  at_full (push_admitted x) h = cc
  at_full push_done h = cc
  at_full push_signalled h = cc
  at_full pop_started h = cc
  at_full pop_locked h = cc
  at_full pop_waiting h = cc
  at_full pop_woken h = cc
  at_full pop_admitted h = cc
  at_full (pop_done x) h = cc
  at_full (pop_signalled x) h = cc

  at_empty : (r : Pc A) → asleep_on_empty r ≡ true → r ≡ pop_waiting
  at_empty r h = ground arith

  -- A signal that wakes thread `j` up, and one that finds nobody to wake up.
  wake_one-Heard :
      (n : ℕ) (pc : ℕ → Pc A) (m : Shared A) (i j : ℕ) {waits : Pc A → Bool} {q p : Pc A} (r : Pc A)
      → pc i ≡ q
      → i < n
      → j < n
      → Signal waits q p
      → update pc i p j ≡ r
      → waits r ≡ true
      → FullHeard n m pc × EmptyHeard n m pc
      → FullHeard n m (update (update pc i p) j (woken r))
        × EmptyHeard n m (update (update pc i p) j (woken r))
  wake_one-Heard n pc m i j r e lt below signal_empty e' asleep v =
      let here = at_empty r asleep in
      let pc' = update pc i push_signalled in
      let f1 = sums full_asleep full_awake full_signals n pc i push_done push_signalled lt e in
      let e1 = sums empty_asleep empty_awake empty_signals n pc i push_done push_signalled lt e in
      let f2 =
        sums full_asleep full_awake full_signals n pc' j pop_waiting pop_woken below (e' ∙ here) in
      let e2 =
        sums empty_asleep empty_awake empty_signals n pc' j pop_waiting pop_woken below
          (e' ∙ here) in
      rw here (ground (arith, f1, f2, v.0), ground (arith, e1, e2, v.1))
  wake_one-Heard n pc m i j r e lt below (signal_full y) e' asleep v =
      let (x, here) = at_full r asleep in
      let pc' = update pc i (pop_signalled y) in
      let f1 =
        sums full_asleep full_awake full_signals n pc i (pop_done y) (pop_signalled y) lt e in
      let e1 =
        sums empty_asleep empty_awake empty_signals n pc i (pop_done y) (pop_signalled y) lt e in
      let f2 =
        sums full_asleep full_awake full_signals n pc' j (push_waiting x) (push_woken x) below
          (e' ∙ here) in
      let e2 =
        sums empty_asleep empty_awake empty_signals n pc' j (push_waiting x) (push_woken x) below
          (e' ∙ here) in
      rw here (ground (arith, f1, f2, v.0), ground (arith, e1, e2, v.1))

  none_asleep :
      (waits : Pc A → Bool) (w : Pc A → ℕ) (n : ℕ) (pc : ℕ → Pc A)
      → ((q : Pc A) → waits q ≡ false → w q ≡ 0)
      → ((j : ℕ) → j < n → waits (pc j) ≡ false)
      → total w n pc ≡ 0
  none_asleep waits w n pc light nobody = total-none w n pc λ j lt. light (pc j) (nobody j lt)

  wake_none-Heard :
      (n : ℕ) (pc : ℕ → Pc A) (m : Shared A) (i : ℕ) {waits : Pc A → Bool} {q p : Pc A}
      → pc i ≡ q
      → i < n
      → Signal waits q p
      → ((j : ℕ) → j < n → waits (pc j) ≡ false)
      → FullHeard n m pc × EmptyHeard n m pc
      → FullHeard n m (update pc i p) × EmptyHeard n m (update pc i p)
  wake_none-Heard n pc m i e lt signal_empty nobody v =
      let f1 = sums full_asleep full_awake full_signals n pc i push_done push_signalled lt e in
      let e1 = sums empty_asleep empty_awake empty_signals n pc i push_done push_signalled lt e in
      let none_there = none_asleep asleep_on_empty empty_asleep n pc (λ q h. ground arith) nobody in
      (ground (arith, f1, v.0), ground (arith, e1, none_there))
  wake_none-Heard n pc m i e lt (signal_full y) nobody v =
      let f1 =
        sums full_asleep full_awake full_signals n pc i (pop_done y) (pop_signalled y) lt e in
      let e1 =
        sums empty_asleep empty_awake empty_signals n pc i (pop_done y) (pop_signalled y) lt e in
      let none_there = none_asleep asleep_on_full full_asleep n pc (λ q h. ground arith) nobody in
      (ground (arith, f1, none_there), ground (arith, e1, v.1))

  Step-Heard :
      {n i : ℕ} {s t : System A}
      → Step n s i t
      → FullHeard n s.mem s.pc × EmptyHeard n s.mem s.pc
      → FullHeard n t.mem t.pc × EmptyHeard n t.mem t.pc
  Step-Heard {n} {i} {s} (pick {p} lt mv) v =
      let full = sums full_asleep full_awake full_signals n s.pc i (s.pc i) p lt refl in
      let empty = sums empty_asleep empty_awake empty_signals n s.pc i (s.pc i) p lt refl in
      (Move-FullHeard n s.pc s.mem i mv v.0 full, Move-EmptyHeard n s.pc s.mem i mv v.1 empty)
  Step-Heard {n} {i} {s} (wake_one j lt below sg asleep) v =
      wake_one-Heard n s.pc s.mem i j (s.pc j) refl lt below sg (waiter_stays s.pc i j sg asleep)
        asleep v
  Step-Heard {n} {i} {s} (wake_none lt sg nobody) v =
      wake_none-Heard n s.pc s.mem i refl lt sg nobody v

  pub Reach-Heard :
      {capacity n : ℕ} {s : System A}
      → Reach capacity n s
      → FullHeard n s.mem s.pc × EmptyHeard n s.mem s.pc
  Reach-Heard {n} start =
      (inl (total-zero full_asleep n outside refl), inl (total-zero empty_asleep n outside refl))
  Reach-Heard (later r st) = Step-Heard st (Reach-Heard r)
