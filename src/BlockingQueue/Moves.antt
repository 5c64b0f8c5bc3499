-- ===== src/BlockingQueue/Moves.antt =====
-- The invariant along the steps of the threads.
use mylittle_code_house.Base.{
  ℕ, ◌<◌, ◌≡◌, refl, ap, ◌∙◌, arith, true, false, some, Bool, ◌∷◌, append_assoc, length,
  length-snoc, update, update_ne,
}
use mylittle_code_house.Base.Counting.{total-zero, share-le-total}
use mylittle_code_house.BlockingQueue.{BlockingQueue, is_empty, is_full, enqueue, dequeue}
use mylittle_code_house.BlockingQueue.Threads.{
  Pc, outside, push_started, push_locked, push_waiting, push_woken, push_admitted, push_done,
  push_signalled, pop_started, pop_locked, pop_waiting, pop_woken, pop_admitted, pop_done,
  pop_signalled, Shared, Move, start_push, lock_push, wait_push, wake_push, relock_push, admit_push,
  push_one, unlock_push, start_pop, lock_pop, wait_pop, wake_pop, relock_pop, admit_pop, pop_one,
  unlock_pop, Signal, signal_empty, signal_full, woken, System, Step, pick, wake_one, wake_none,
  Reach, start, later,
}
use mylittle_code_house.BlockingQueue.Invariant.{to_push, to_pop, elsewhere, Inv, Sums, sums}

module _ {A : Type 0} where
  -- What `dequeue` takes is the first element.
  pub dequeue_first :
      (q : BlockingQueue A) (x : A) (q' : BlockingQueue A)
      → dequeue q ≡ some (x, q')
      → (q.bq ≡ x ∷ q'.bq) × (q'.capacity ≡ q.capacity) × (q'.mutex ≡ q.mutex)
  unfolding dequeue
  dequeue_first q x q' h = ground arith

  Move-Inv :
      {capacity n : ℕ} {pc : ℕ → Pc A} {q : Pc A} (m : Shared A) (i : ℕ) {m' : Shared A} {p : Pc A}
      → pc i ≡ q
      → i < n
      → Move m q m' p
      → Inv capacity n m pc
      → Sums n pc i q p
      → Inv capacity n m' (update pc i p)
  unfolding is_full is_empty enqueue
  Move-Inv m i e lt (start_push x) v s = ground (arith, s, v)
  Move-Inv m i e lt (lock_push x h) v s = ground (arith, s, v)
  Move-Inv m i e lt (wait_push x h) v s = ground (arith, s, v)
  Move-Inv m i e lt (wake_push x) v s = ground (arith, s, v)
  Move-Inv m i e lt (relock_push x h) v s = ground (arith, s, v)
  Move-Inv {n} {pc} m i e lt (admit_push x h) v s =
      ground (arith, s, v, share-le-total elsewhere n pc i (push_locked x) lt e)
  Move-Inv m i e lt (push_one x) v s =
      let long = length-snoc m.queue.bq x in
      record {
        bounded = v.bounded;
        holding = omega (arith, s, v.holding);
        room = omega (arith, s, v.room, long);
        stock = omega (arith, s, v.stock, long);
        order = simp (v.order, append_assoc);
      }
  Move-Inv m i e lt unlock_push v s = ground (arith, s, v)
  Move-Inv m i e lt start_pop v s = ground (arith, s, v)
  Move-Inv m i e lt (lock_pop h) v s = ground (arith, s, v)
  Move-Inv m i e lt (wait_pop h) v s = ground (arith, s, v)
  Move-Inv m i e lt wake_pop v s = ground (arith, s, v)
  Move-Inv m i e lt (relock_pop h) v s = ground (arith, s, v)
  Move-Inv {n} {pc} m i e lt (admit_pop h) v s =
      ground (arith, s, v, share-le-total elsewhere n pc i pop_locked lt e)
  Move-Inv m i e lt (pop_one x q h) v s =
      let first = dequeue_first m.queue x q h in
      let long = ap length first.0 in
      record {
        bounded = first.1 ∙ v.bounded;
        holding = rw (first.2) (omega (arith, s, v.holding));
        room = omega (arith, s, v.room, long);
        stock = omega (arith, s, v.stock, long);
        order = simp (v.order, first.0, append_assoc);
      }
  Move-Inv m i e lt (unlock_pop x) v s = ground (arith, s, v)

  -- A signaller's move and a wake-up leave the queue alone, and weigh the same before and after.
  pub Signal-Inv :
      {capacity n : ℕ} {m : Shared A} {pc : ℕ → Pc A} {waits : Pc A → Bool} {q p : Pc A} (i : ℕ)
      → pc i ≡ q
      → i < n
      → Signal waits q p
      → Inv capacity n m pc
      → Inv capacity n m (update pc i p)
  Signal-Inv {n} {pc} i e lt signal_empty v =
      let s = sums n pc i push_done push_signalled lt e in ground (arith, s, v)
  Signal-Inv {n} {pc} i e lt (signal_full x) v =
      let s = sums n pc i (pop_done x) (pop_signalled x) lt e in ground (arith, s, v)

  -- Waking up does not change what a thread weighs here.
  same_weight :
      (q : Pc A)
      → (to_push (woken q) ≡ to_push q)
        × (to_pop (woken q) ≡ to_pop q)
        × (elsewhere (woken q) ≡ elsewhere q)
  same_weight (push_waiting x) = (refl, refl, refl)
  same_weight pop_waiting = (refl, refl, refl)
  same_weight outside = (refl, refl, refl)
  same_weight (push_started x) = (refl, refl, refl)
  same_weight (push_locked x) = (refl, refl, refl)
  same_weight (push_woken x) = (refl, refl, refl)
  same_weight (push_admitted x) = (refl, refl, refl)
  same_weight push_done = (refl, refl, refl)
  same_weight push_signalled = (refl, refl, refl)
  same_weight pop_started = (refl, refl, refl)
  same_weight pop_locked = (refl, refl, refl)
  same_weight pop_woken = (refl, refl, refl)
  same_weight pop_admitted = (refl, refl, refl)
  same_weight (pop_done x) = (refl, refl, refl)
  same_weight (pop_signalled x) = (refl, refl, refl)

  wake-Inv :
      {capacity n : ℕ} {m : Shared A} {pc : ℕ → Pc A} (j : ℕ) (q : Pc A)
      → pc j ≡ q
      → j < n
      → Inv capacity n m pc
      → Inv capacity n m (update pc j (woken q))
  wake-Inv {n} {pc} j q e lt v =
      let s = sums n pc j q (woken q) lt e in
      let w = same_weight q in
      record {
        bounded = v.bounded;
        holding = omega (arith, s, w, v.holding);
        room = omega (arith, s, w, v.room);
        stock = omega (arith, s, w, v.stock);
        order = v.order;
      }

  -- A thread that signals is none of those that wait for the signal.
  pub signaller_awake : {waits : Pc A → Bool} {q p : Pc A} → Signal waits q p → waits q ≡ false
  signaller_awake signal_empty = refl
  signaller_awake (signal_full x) = refl

  -- So the thread that it wakes up stands where it stood.
  pub waiter_stays :
      {waits : Pc A → Bool} (pc : ℕ → Pc A) (i j : ℕ) {p : Pc A}
      → Signal waits (pc i) p
      → waits (pc j) ≡ true
      → update pc i p j ≡ pc j
  waiter_stays {waits} pc i j {p} sg asleep =
      update_ne pc i j p λ (e : i ≡ j). clash (ap (λ a. waits (pc a)) e)
    where
      clash : waits (pc i) ≡ waits (pc j) → ⊥
      clash same = cc (same, signaller_awake sg, asleep)

  Step-Inv :
      {capacity n i : ℕ} {s t : System A}
      → Step n s i t
      → Inv capacity n s.mem s.pc
      → Inv capacity n t.mem t.pc
  Step-Inv {n} {i} {s} (pick {p} lt mv) v =
      Move-Inv s.mem i refl lt mv v (sums n s.pc i (s.pc i) p lt refl)
  Step-Inv {i} {s} (wake_one {p} j lt below sg asleep) v =
      wake-Inv j (s.pc j) (waiter_stays s.pc i j sg asleep) below (Signal-Inv i refl lt sg v)
  Step-Inv {i} (wake_none lt sg nobody) v = Signal-Inv i refl lt sg v

  -- Whatever the threads do, in any order, the invariant holds.
  pub Reach-Inv : {capacity n : ℕ} {s : System A} → Reach capacity n s → Inv capacity n s.mem s.pc
  Reach-Inv {n} start = record {
    bounded = refl;
    holding = omega (
      arith,
      total-zero to_push n outside refl,
      total-zero to_pop n outside refl,
      total-zero elsewhere n outside refl,
    );
    room = omega (arith, total-zero to_push n outside refl);
    stock = omega (arith, total-zero to_pop n outside refl);
    order = refl;
  }
  Reach-Inv (later r st) = Step-Inv st (Reach-Inv r)
