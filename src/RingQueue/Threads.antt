-- ===== src/RingQueue/Threads.antt =====
-- Producers in `push` and consumers in `pop`, interleaved in any order. A statement that moves an
-- index and goes to a place of the ring is two steps, and the index wraps in a step of its own.
use mylittle_code_house.Base.{ℕ, ◌+◌, ◌-◌, ◌<◌, ◌≡◌, false, update, List, [], ◌∷◌, ◌++◌}
use mylittle_code_house.RingQueue.{
  RingQueue, put, take_out, bump_pstep, bump_cstep, wrap_pstep, wrap_cstep, lock_pmutex,
  lock_cmutex, init,
}

-- Where a thread stands: in `push` with its argument, or in `pop`.
pub data Pc (A : Type 0) : Type 0 where
  outside : Pc A
  push_started : A → Pc A  -- before `spacesem_.p()`
  push_admitted : A → Pc A  -- before the lock of `pmutex_`
  push_locked : A → Pc A  -- before the index moves on
  push_bumped : A → ℕ → Pc A  -- before the write to the place `p`
  push_stored : Pc A  -- before the index wraps
  push_written : Pc A  -- before `datasem_.v()`
  push_posted : Pc A  -- before the unlock
  pop_started : Pc A  -- before `datasem_.p()`
  pop_admitted : Pc A  -- before the lock of `cmutex_`
  pop_locked : Pc A  -- before the index moves on
  pop_bumped : ℕ → Pc A  -- before the read of the place `c`
  pop_fetched : A → Pc A  -- before the index wraps
  pop_read : A → Pc A  -- before `spacesem_.v()`
  pop_posted : A → Pc A  -- before the unlock

-- The queue, and what has been written and read so far, oldest first.
pub record Shared (A : Type 0) : Type 0 where
  pub queue : RingQueue A
  pub written : List A
  pub read : List A

abbrev pub on_queue : {A : Type 0} → Shared A → RingQueue A → Shared A
on_queue m q = record m { queue = q }

module _ {A : Type 0} (junk : A) where
  -- One step of one thread. A semaphore is taken only when it is positive, a mutex only when it is
  -- free; `written` and `read` record the values that go through the queue.
  pub data Move (m : Shared A) : Pc A → Shared A → Pc A → Type 0 where
    start_push : (x : A) → Move m outside m (push_started x)
    admit_push :
        (x : A)
        → 0 < m.queue.space_sem
        → Move m
            (push_started x)
            (on_queue m (record (m.queue) { space_sem = m.queue.space_sem - 1 }))
            (push_admitted x)
    lock_push :
        (x : A)
        → m.queue.pmutex ≡ false
        → Move m (push_admitted x) (on_queue m (lock_pmutex m.queue)) (push_locked x)
    advance_push :
        (x : A)
        → Move m
            (push_locked x)
            (on_queue m (bump_pstep junk m.queue))
            (push_bumped x m.queue.pstep)
    write :
        (x : A) (p : ℕ)
        → Move m
            (push_bumped x p)
            (record m { queue = put junk m.queue p x; written = m.written ++ x ∷ [] })
            push_stored
    wrap_push : Move m push_stored (on_queue m (wrap_pstep junk m.queue)) push_written
    post_push :
        Move m push_written
          (on_queue m (record (m.queue) { data_sem = m.queue.data_sem + 1 }))
          push_posted
    unlock_push : Move m push_posted (on_queue m (record (m.queue) { pmutex = false })) outside
    start_pop : Move m outside m pop_started
    admit_pop :
        0 < m.queue.data_sem
        → Move m pop_started
            (on_queue m (record (m.queue) { data_sem = m.queue.data_sem - 1 }))
            pop_admitted
    lock_pop :
        m.queue.cmutex ≡ false → Move m pop_admitted (on_queue m (lock_cmutex m.queue)) pop_locked
    advance_pop :
        Move m pop_locked (on_queue m (bump_cstep junk m.queue)) (pop_bumped m.queue.cstep)
    fetch :
        (c : ℕ)
        → Move m
            (pop_bumped c)
            (record m { read = m.read ++ take_out junk m.queue c ∷ [] })
            (pop_fetched (take_out junk m.queue c))
    wrap_pop : (x : A) → Move m (pop_fetched x) (on_queue m (wrap_cstep junk m.queue)) (pop_read x)
    post_pop :
        (x : A)
        → Move m
            (pop_read x)
            (on_queue m (record (m.queue) { space_sem = m.queue.space_sem + 1 }))
            (pop_posted x)
    unlock_pop :
        (x : A) → Move m (pop_posted x) (on_queue m (record (m.queue) { cmutex = false })) outside

  pub record System : Type 0 where
    pub mem : Shared A
    pub pc : ℕ → Pc A

  -- Thread `i` of `n` moves.
  pub data Step (n : ℕ) (s : System) : System → Type 0 where
    pick :
        (i : ℕ) {m : Shared A} {p : Pc A}
        → i < n
        → Move s.mem (s.pc i) m p
        → Step n s (record { mem = m; pc = update s.pc i p })

  abbrev pub initial : System
  initial = record {
    mem = record { queue = init junk 5; written = []; read = [] };
    pc = λ _. outside;
  }

  pub data Reach (n : ℕ) : System → Type 0 where
    start : Reach n initial
    later : {s t : System} → Reach n s → Step n s t → Reach n t
