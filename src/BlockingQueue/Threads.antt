-- ===== src/BlockingQueue/Threads.antt =====
-- Producers in `push` and consumers in `pop`, a statement at a time, interleaved in any order.
use mylittle_code_house.Base.{ℕ, ◌<◌, ◌≡◌, Bool, true, false, some, List, [], ◌∷◌, ◌++◌, update}
use mylittle_code_house.BlockingQueue.{BlockingQueue, init, is_empty, is_full, enqueue, dequeue}

-- Where a thread stands: in `push` with its argument, or in `pop`.
pub data Pc (A : Type 0) : Type 0 where
  outside : Pc A
  push_started : A → Pc A  -- before the lock
  push_locked : A → Pc A  -- before `while (IsFull())`
  push_waiting : A → Pc A  -- asleep on `full_`
  push_woken : A → Pc A  -- awake, before the wait has locked again
  push_admitted : A → Pc A  -- before `bq_.push`
  push_done : Pc A  -- before the signal to `empty_`
  push_signalled : Pc A  -- before the unlock
  pop_started : Pc A  -- before the lock
  pop_locked : Pc A  -- before `while (IsEmpty())`
  pop_waiting : Pc A  -- asleep on `empty_`
  pop_woken : Pc A  -- awake, before the wait has locked again
  pop_admitted : Pc A  -- before `bq_.front` and `bq_.pop`
  pop_done : A → Pc A  -- before the signal to `full_`
  pop_signalled : A → Pc A  -- before the unlock

-- The queue, and what has been pushed and popped so far, oldest first.
pub record Shared (A : Type 0) : Type 0 where
  pub queue : BlockingQueue A
  pub pushed : List A
  pub popped : List A

pub record System (A : Type 0) : Type 0 where
  pub mem : Shared A
  pub pc : ℕ → Pc A

module _ {A : Type 0} where
  abbrev pub with_mutex : Shared A → Bool → Shared A
  with_mutex m b = record m { queue = record (m.queue) { mutex = b } }

  -- One step of one thread that leaves the others where they are. A wait gives the mutex back and
  -- falls asleep at once; it may wake up without a signal, as `pthread_cond_wait` may.
  pub data Move (m : Shared A) : Pc A → Shared A → Pc A → Type 0 where
    start_push : (x : A) → Move m outside m (push_started x)
    lock_push :
        (x : A)
        → m.queue.mutex ≡ false
        → Move m (push_started x) (with_mutex m true) (push_locked x)
    wait_push :
        (x : A)
        → is_full m.queue ≡ true
        → Move m (push_locked x) (with_mutex m false) (push_waiting x)
    wake_push : (x : A) → Move m (push_waiting x) m (push_woken x)
    relock_push :
        (x : A) → m.queue.mutex ≡ false → Move m (push_woken x) (with_mutex m true) (push_locked x)
    admit_push : (x : A) → is_full m.queue ≡ false → Move m (push_locked x) m (push_admitted x)
    push_one :
        (x : A)
        → Move m
            (push_admitted x)
            (record m { queue = enqueue m.queue x; pushed = m.pushed ++ x ∷ [] })
            push_done
    unlock_push : Move m push_signalled (with_mutex m false) outside
    start_pop : Move m outside m pop_started
    lock_pop : m.queue.mutex ≡ false → Move m pop_started (with_mutex m true) pop_locked
    wait_pop : is_empty m.queue ≡ true → Move m pop_locked (with_mutex m false) pop_waiting
    wake_pop : Move m pop_waiting m pop_woken
    relock_pop : m.queue.mutex ≡ false → Move m pop_woken (with_mutex m true) pop_locked
    admit_pop : is_empty m.queue ≡ false → Move m pop_locked m pop_admitted
    pop_one :
        (x : A) (q : BlockingQueue A)
        → dequeue m.queue ≡ some (x, q)
        → Move m pop_admitted (record m { queue = q; popped = m.popped ++ x ∷ [] }) (pop_done x)
    unlock_pop : (x : A) → Move m (pop_signalled x) (with_mutex m false) outside

  -- The threads asleep on each of the two condition variables.
  abbrev pub asleep_on_full : Pc A → Bool
  asleep_on_full (push_waiting _) = true
  asleep_on_full _ = false

  abbrev pub asleep_on_empty : Pc A → Bool
  asleep_on_empty pop_waiting = true
  asleep_on_empty _ = false

  -- `pthread_cond_signal`: the threads that wait for it, by the place of the signaller and the
  -- place behind the call.
  pub data Signal : (Pc A → Bool) → Pc A → Pc A → Type 0 where
    signal_empty : Signal asleep_on_empty push_done push_signalled
    signal_full : (x : A) → Signal asleep_on_full (pop_done x) (pop_signalled x)

  -- Where a thread goes that a signal wakes up.
  abbrev pub woken : Pc A → Pc A
  woken (push_waiting x) = push_woken x
  woken pop_waiting = pop_woken
  woken p = p

  -- Thread `i` of `n` moves. A signal wakes one thread that waits for it, and does nothing if none
  -- does.
  pub data Step (n : ℕ) (s : System A) (i : ℕ) : System A → Type 0 where
    pick :
        {m : Shared A} {p : Pc A}
        → i < n
        → Move s.mem (s.pc i) m p
        → Step n s i (record { mem = m; pc = update s.pc i p })
    wake_one :
        {waits : Pc A → Bool} {p : Pc A} (j : ℕ)
        → i < n
        → j < n
        → Signal waits (s.pc i) p
        → waits (s.pc j) ≡ true
        → Step n s i (record { mem = s.mem; pc = update (update s.pc i p) j (woken (s.pc j)) })
    wake_none :
        {waits : Pc A → Bool} {p : Pc A}
        → i < n
        → Signal waits (s.pc i) p
        → ((j : ℕ) → j < n → waits (s.pc j) ≡ false)
        → Step n s i (record { mem = s.mem; pc = update s.pc i p })

  abbrev pub initial : ℕ → System A
  initial capacity = record {
    mem = record { queue = init capacity; pushed = []; popped = [] };
    pc = λ _. outside;
  }

  pub data Reach (capacity n : ℕ) : System A → Type 0 where
    start : Reach capacity n (initial capacity)
    later : {s t : System A} {i : ℕ} → Reach capacity n s → Step n s i t → Reach capacity n t
