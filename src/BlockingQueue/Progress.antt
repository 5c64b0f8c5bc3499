-- ===== src/BlockingQueue/Progress.antt =====
-- Who can move, and when every thread sleeps.
use mylittle_code_house.Base.{
  ℕ, ◌≤◌, ◌<◌, ◌≡◌, refl, sym, subst, arith, Bool, true, false, not, some, List, [], ◌∷◌, length,
  ◌⊎◌, inl, inr, Bool-cases, dec_lt,
}
use mylittle_code_house.Base.Counting.{
  total, total-none, weight-le-total, positive_weight, find_thread,
}
use mylittle_code_house.BlockingQueue.{BlockingQueue, is_empty, is_full, dequeue}
use mylittle_code_house.BlockingQueue.Threads.{
  Pc, outside, push_started, push_locked, push_waiting, push_woken, push_admitted, push_done,
  push_signalled, pop_started, pop_locked, pop_waiting, pop_woken, pop_admitted, pop_done,
  pop_signalled, Shared, Move, lock_push, wait_push, relock_push, admit_push, push_one, unlock_push,
  lock_pop, wait_pop, relock_pop, admit_pop, pop_one, unlock_pop, asleep_on_full, asleep_on_empty,
  Signal, signal_empty, signal_full, System, Step, pick, wake_one, wake_none, Reach,
}
use mylittle_code_house.BlockingQueue.Invariant.{to_push, to_pop, elsewhere, Inv}
use mylittle_code_house.BlockingQueue.Moves.{Reach-Inv}
use mylittle_code_house.BlockingQueue.Wakeups.{
  full_asleep, full_awake, full_signals, empty_asleep, empty_awake, empty_signals, Reach-Heard,
}
use mylittle_code_house.BlockingQueue.Safety.{inside}

module _ {A : Type 0} where
  -- Outside the calls, or asleep on a condition variable.
  abbrev pub is_idle : Pc A → Bool
  is_idle outside = true
  is_idle (push_waiting _) = true
  is_idle pop_waiting = true
  is_idle _ = false

  all_light :
      (w : Pc A → ℕ) (n : ℕ) (pc : ℕ → Pc A)
      → ((q : Pc A) → is_idle q ≡ true → w q ≡ 0)
      → ((i : ℕ) → i < n → is_idle (pc i) ≡ true)
      → total w n pc ≡ 0
  all_light w n pc light idle = total-none w n pc λ i lt. light (pc i) (idle i lt)

  -- No wake-up is lost: in a reachable state in which every thread is idle, either outside of
  -- push and pop or asleep, a thread asleep in pop means that the queue is empty, and one asleep
  -- in push that it is full.
  pub sleep_is_due :
      {capacity n : ℕ} {s : System A}
      → Reach capacity n s
      → ((i : ℕ) → i < n → is_idle (s.pc i) ≡ true)
      → (i : ℕ) → i < n
      → ((asleep_on_empty (s.pc i) ≡ false) ⊎ (length s.mem.queue.bq ≡ 0))
        × ((asleep_on_full (s.pc i) ≡ false) ⊎ (length s.mem.queue.bq ≡ capacity))
  sleep_is_due {n} {s} r idle i lt =
      let v = Reach-Inv r in
      let (full, empty) = Reach-Heard r in
      let fa = all_light full_awake n s.pc (λ q h. ground arith) idle in
      let fs = all_light full_signals n s.pc (λ q h. ground arith) idle in
      let ea = all_light empty_awake n s.pc (λ q h. ground arith) idle in
      let es = all_light empty_signals n s.pc (λ q h. ground arith) idle in
      (
        elim (Bool-cases (asleep_on_empty (s.pc i))) [
          | inl asleep ↦
              inr (ground (arith, empty, ea, es, weight-le-total empty_asleep n s.pc i lt))
          | inr awake ↦ inl awake
        ],
        elim (Bool-cases (asleep_on_full (s.pc i))) [
          | inl asleep ↦ inr (
              ground
                (arith, full, fa, fs, v.room, v.bounded, weight-le-total full_asleep n s.pc i lt))
          | inr awake ↦ inl awake
        ],
      )

  -- A thread that signals can move, whether somebody waits or not.
  Signal-moves :
      {n : ℕ} (s : System A) (i : ℕ) {waits : Pc A → Bool} {p : Pc A}
      → i < n
      → Signal waits (s.pc i) p
      → (t : System A) × Step n s i t
  Signal-moves {n} s i {waits} lt sg = elim (find_thread waits n s.pc) [
    | inl (j, below, asleep) ↦ (_, wake_one j lt below sg asleep)
    | inr nobody ↦ (_, wake_none lt sg nobody)
  ]

  first_of : (xs : List A) → 0 < length xs → (x : A) × (rest : List A) × (xs ≡ x ∷ rest)
  first_of [] h = absurd (omega arith)
  first_of (x ∷ rest) h = (x, rest, refl)

  dequeue-some :
      (q : BlockingQueue A)
      → 0 < length q.bq
      → (x : A) × (q' : BlockingQueue A) × (dequeue q ≡ some (x, q'))
  unfolding dequeue
  dequeue-some q h =
      let (x, rest, e) = first_of q.bq h in (x, record q { bq = rest }, ground (arith, e))

  can_move :
      {n : ℕ} (s : System A) (i : ℕ) (p : Pc A)
      → i < n
      → s.pc i ≡ p
      → is_idle p ≡ false
      → (s.mem.queue.mutex ≡ false) ⊎ (0 < inside p)
      → to_pop p ≤ length s.mem.queue.bq
      → (t : System A) × Step n s i t
  can_move {n} s i p lt e busy free stock = cases p e busy free stock
    where
      step :
          {q p' : Pc A} {m : Shared A}
          → s.pc i ≡ q
          → Move s.mem q m p'
          → (t : System A) × Step n s i t
      step {p'} {m} e mv = (_, pick lt (subst (λ q. Move s.mem q m p') (sym e) mv))

      cases :
          (p : Pc A)
          → s.pc i ≡ p
          → is_idle p ≡ false
          → (s.mem.queue.mutex ≡ false) ⊎ (0 < inside p)
          → to_pop p ≤ length s.mem.queue.bq
          → (t : System A) × Step n s i t
      cases outside e busy free stock = cc
      cases (push_waiting x) e busy free stock = cc
      cases pop_waiting e busy free stock = cc
      cases (push_started x) e busy (inl free) stock = step e (lock_push x free)
      cases (push_started x) e busy (inr held) stock = absurd (omega arith)
      cases (push_woken x) e busy (inl free) stock = step e (relock_push x free)
      cases (push_woken x) e busy (inr held) stock = absurd (omega arith)
      cases pop_started e busy (inl free) stock = step e (lock_pop free)
      cases pop_started e busy (inr held) stock = absurd (omega arith)
      cases pop_woken e busy (inl free) stock = step e (relock_pop free)
      cases pop_woken e busy (inr held) stock = absurd (omega arith)
      cases (push_locked x) e busy free stock = elim (Bool-cases (is_full s.mem.queue)) [
        | inl full ↦ step e (wait_push x full)
        | inr room ↦ step e (admit_push x room)
      ]
      cases pop_locked e busy free stock = elim (Bool-cases (is_empty s.mem.queue)) [
        | inl empty ↦ step e (wait_pop empty)
        | inr some_left ↦ step e (admit_pop some_left)
      ]
      cases (push_admitted x) e busy free stock = step e (push_one x)
      cases pop_admitted e busy free stock =
          let (x, q, took) = dequeue-some s.mem.queue stock in step e (pop_one x q took)
      cases push_done e busy free stock =
          Signal-moves s i lt
            (subst (λ q. Signal asleep_on_empty q push_signalled) (sym e) signal_empty)
      cases (pop_done x) e busy free stock =
          Signal-moves s i lt
            (subst (λ q. Signal asleep_on_full q (pop_signalled x)) (sym e) (signal_full x))
      cases push_signalled e busy free stock = step e unlock_push
      cases (pop_signalled x) e busy free stock = step e (unlock_pop x)

  -- In every reachable state of the queue either every thread is idle, outside of push and pop or
  -- asleep, or some thread that is not idle can take a step.
  pub someone_moves :
      {capacity n : ℕ} {s : System A}
      → Reach capacity n s
      → ((i : ℕ) → i < n → is_idle (s.pc i) ≡ true)
        ⊎ ((i : ℕ) × (is_idle (s.pc i) ≡ false) × (t : System A) × Step n s i t)
  someone_moves {n} {s} r =
      let v = Reach-Inv r in
      elim (Bool-cases s.mem.queue.mutex) [
        | inr free ↦ elim (find_thread (λ p. not (is_idle p)) n s.pc) [
          | inl (i, lt, e) ↦ moves v i lt (ground arith) (inl free)
          | inr nobody ↦ inl (λ i lt. ground (arith, nobody i))
        ]
        | inl held ↦ elim (dec_lt 0 (total to_push n s.pc)) [
          | yes pushing ↦ holder v to_push (λ p h. omega arith) pushing
          | no none_pushing ↦ elim (dec_lt 0 (total to_pop n s.pc)) [
            | yes popping ↦ holder v to_pop (λ p h. omega arith) popping
            | no none_popping ↦ holder v elsewhere (λ p h. omega arith) (ground (arith, v.holding))
          ]
        ]
      ]
    where
      Moves : Type 0
      Moves =
          ((i : ℕ) → i < n → is_idle (s.pc i) ≡ true)
          ⊎ ((i : ℕ) × (is_idle (s.pc i) ≡ false) × (t : System A) × Step n s i t)

      moves :
          {capacity : ℕ}
          → Inv capacity n s.mem s.pc
          → (i : ℕ) → i < n
          → is_idle (s.pc i) ≡ false
          → (s.mem.queue.mutex ≡ false) ⊎ (0 < inside (s.pc i))
          → Moves
      moves v i lt busy free =
          let stock : to_pop (s.pc i) ≤ length s.mem.queue.bq =
            omega (arith, v.stock, weight-le-total to_pop n s.pc i lt) in
          let (t, st) = can_move s i (s.pc i) lt refl busy free stock in inr (i, busy, t, st)

      busy_inside : (p : Pc A) → 0 < inside p → is_idle p ≡ false
      busy_inside p h = ground arith

      holder :
          {capacity : ℕ}
          → Inv capacity n s.mem s.pc
          → (w : Pc A → ℕ) → ((p : Pc A) → 0 < w p → 0 < inside p)
          → 0 < total w n s.pc
          → Moves
      holder v w weighs some_weight =
          let (i, lt, here) = positive_weight w n s.pc some_weight in
          let held = weighs (s.pc i) here in moves v i lt (busy_inside (s.pc i) held) (inr held)
