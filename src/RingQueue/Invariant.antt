-- ===== src/RingQueue/Invariant.antt =====
-- The invariant of the ring, its semaphores, its mutexes and its threads.
use mylittle_code_house.Base.{
  ℕ, ◌+◌, ◌-◌, ◌%◌, ◌≤◌, ◌<◌, ◌≡◌, sym, ap, ◌∙◌, arith, List, [], ◌∷◌, ◌++◌, length, get_or,
  get_elem?, set, length-set, some, get_elem?-set_self, get_elem?-set_ne, get_elem?-eq-get_or,
  get_elem?-append_left, get_elem?-snoc, length-snoc, dec_lt, flag,
}
use mylittle_code_house.Base.Counting.{total}
use mylittle_code_house.RingQueue.Threads.{
  Pc, push_admitted, push_locked, push_bumped, push_stored, push_written, push_posted, pop_admitted,
  pop_locked, pop_bumped, pop_fetched, pop_read, pop_posted, Shared,
}

module _ {A : Type 0} where
  -- The threads between a lock and its unlock on either side, those that a value in the ring is
  -- waiting for or has just been written by, and those that a free place is kept for.
  abbrev pub in_push : Pc A → ℕ
  in_push (push_locked _) = 1
  in_push (push_bumped _ _) = 1
  in_push push_stored = 1
  in_push push_written = 1
  in_push push_posted = 1
  in_push _ = 0

  abbrev pub in_pop : Pc A → ℕ
  in_pop pop_locked = 1
  in_pop (pop_bumped _) = 1
  in_pop (pop_fetched _) = 1
  in_pop (pop_read _) = 1
  in_pop (pop_posted _) = 1
  in_pop _ = 0

  abbrev pub unread : Pc A → ℕ
  unread push_stored = 1
  unread push_written = 1
  unread pop_admitted = 1
  unread pop_locked = 1
  unread (pop_bumped _) = 1
  unread _ = 0

  abbrev pub unwritten : Pc A → ℕ
  unwritten (push_admitted _) = 1
  unwritten (push_locked _) = 1
  unwritten (push_bumped _ _) = 1
  unwritten (pop_fetched _) = 1
  unwritten (pop_read _) = 1
  unwritten _ = 0

  -- The threads whose index has moved on without a write or a read yet, with that index, and those
  -- whose index has not wrapped yet.
  abbrev pub bumped_push : Pc A → ℕ
  bumped_push (push_bumped _ _) = 1
  bumped_push _ = 0

  abbrev pub bumped_pop : Pc A → ℕ
  bumped_pop (pop_bumped _) = 1
  bumped_pop _ = 0

  abbrev pub push_index : Pc A → ℕ
  push_index (push_bumped _ p) = p
  push_index _ = 0

  abbrev pub pop_index : Pc A → ℕ
  pop_index (pop_bumped c) = c
  pop_index _ = 0

  abbrev pub stored_push : Pc A → ℕ
  stored_push push_stored = 1
  stored_push _ = 0

  abbrev pub fetched_pop : Pc A → ℕ
  fetched_pop (pop_fetched _) = 1
  fetched_pop _ = 0

  -- The places: the values not yet read stand in their places, and what has been read is what was
  -- written, in order.
  pub record Ring (rq : List A) (cap : ℕ) (written read : List A) : Type 0 where
    pub five : cap ≡ 5
    pub places : length rq ≡ 5
    pub stored :
        (k : ℕ) → length read ≤ k → k < length written → get_elem? rq (k % 5) ≡ get_elem? written k
    pub in_order : (k : ℕ) → k < length read → get_elem? read k ≡ get_elem? written k

  -- A thread that has moved an index on holds the value before.
  abbrev pub Kept : (Pc A → ℕ) → (Pc A → ℕ) → ℕ → (ℕ → Pc A) → ℕ → Type 0
  Kept bumped index n pc step = (i : ℕ) → i < n → bumped (pc i) ≡ 1 → index (pc i) + 1 ≡ step

  -- The indices follow the numbers of values written and read, but for the thread that is just
  -- moving one.
  pub record Inv (n : ℕ) (m : Shared A) (pc : ℕ → Pc A) : Type 0 where
    pub occupied : length m.read + m.queue.data_sem + total unread n pc ≡ length m.written
    pub vacant : m.queue.space_sem + total unwritten n pc + length m.written ≡ 5 + length m.read
    pub pushing : total in_push n pc ≡ flag m.queue.pmutex
    pub popping : total in_pop n pc ≡ flag m.queue.cmutex
    pub tail :
        m.queue.pstep
        ≡ (length m.written - total stored_push n pc) % 5
          + total bumped_push n pc
          + total stored_push n pc
    pub head :
        m.queue.cstep
        ≡ (length m.read - total fetched_pop n pc) % 5
          + total bumped_pop n pc
          + total fetched_pop n pc
    pub drained : total fetched_pop n pc ≤ length m.read
    pub tail_kept : Kept bumped_push push_index n pc m.queue.pstep
    pub head_kept : Kept bumped_pop pop_index n pc m.queue.cstep
    pub ring : Ring m.queue.rq m.queue.capacity m.written m.read

  -- A write into a ring that is not full, and a read from one that is not empty.
  pub Ring-write :
      (rq : List A) (cap p : ℕ) (ws rs : List A) (x : A)
      → length ws < 5 + length rs
      → p ≡ length ws % 5
      → Ring rq cap ws rs
      → length rs ≤ length ws
      → Ring (set rq p x) cap (ws ++ x ∷ []) rs
  Ring-write rq cap p ws rs x room at_tail v le =
      let long = length-snoc ws x in
      record {
        five = v.five;
        places = length-set rq p x ∙ v.places;
        stored = λ k low high. elim (dec_lt k (length ws)) [
          | yes old ↦
              get_elem?-set_ne rq p (k % 5) x (omega (arith, at_tail))
              ∙ v.stored k low old
              ∙ sym (get_elem?-append_left ws (x ∷ []) k old)
          | no new ↦
              let e : k ≡ length ws = omega (arith, long) in
              rw (e, ← at_tail)
                (get_elem?-set_self rq p x (omega (arith, at_tail, v.places))
                  ∙ sym (get_elem?-snoc ws x))
        ];
        in_order = λ k h. v.in_order k h ∙ sym (get_elem?-append_left ws (x ∷ []) k (omega arith));
      }

  pub Ring-read :
      (junk : A) (rq : List A) (cap c : ℕ) (ws rs : List A)
      → length rs < length ws
      → c ≡ length rs % 5
      → Ring rq cap ws rs
      → Ring rq cap ws (rs ++ get_or rq c junk ∷ [])
  Ring-read junk rq cap c ws rs some_left at_head v =
      let x = get_or rq c junk in
      let long = length-snoc rs x in
      let value : get_elem? ws (length rs) ≡ some x =
        sym (v.stored (length rs) (omega arith) some_left)
        ∙ ap (get_elem? rq) (sym at_head)
        ∙ get_elem?-eq-get_or rq c junk (omega (arith, at_head, v.places)) in
      record {
        five = v.five;
        places = v.places;
        stored = λ k low high. v.stored k (omega (arith, long)) high;
        in_order = λ k h. elim (dec_lt k (length rs)) [
          | yes old ↦ get_elem?-append_left rs (x ∷ []) k old ∙ v.in_order k old
          | no new ↦
              let e : k ≡ length rs = omega (arith, long) in rw e (get_elem?-snoc rs x ∙ sym value)
        ];
      }
