-- ===== src/RingQueue/Sums.antt =====
-- The weights of the threads along a step, and the steps that move no index.
use mylittle_code_house.Base.{
  ℕ, ◌+◌, ◌≤◌, ◌<◌, ◌≡◌, refl, arith, Bool, true, false, length, update, update_self, update_ne,
  flag, ℕ_discrete, dec_lt,
}
use mylittle_code_house.Base.Counting.{total, total-moved, total-parts, weights-le-total}
use mylittle_code_house.RingQueue.Threads.{
  Pc, outside, push_started, push_admitted, push_locked, push_bumped, push_stored, push_written,
  push_posted, pop_started, pop_admitted, pop_locked, pop_bumped, pop_fetched, pop_read, pop_posted,
  Shared, on_queue,
}
use mylittle_code_house.RingQueue.Invariant.{
  in_push, in_pop, unread, unwritten, bumped_push, bumped_pop, push_index, pop_index, stored_push,
  fetched_pop, Kept, Inv,
}

pub flag-le : (b : Bool) → flag b ≤ 1
flag-le true = omega arith
flag-le false = omega arith

module _ {A : Type 0} where
  -- The sum of a weight after thread `i` has gone from `q` to `p`.
  abbrev Shift : (Pc A → ℕ) → ℕ → (ℕ → Pc A) → ℕ → Pc A → Pc A → Type 0
  Shift w n pc i q p = total w n (update pc i p) + w q ≡ total w n pc + w p

  abbrev pub Sums : ℕ → (ℕ → Pc A) → ℕ → Pc A → Pc A → Type 0
  Sums n pc i q p =
      Shift unread n pc i q p
      × Shift unwritten n pc i q p
      × Shift in_push n pc i q p
      × Shift in_pop n pc i q p
      × Shift bumped_push n pc i q p
      × Shift stored_push n pc i q p
      × Shift bumped_pop n pc i q p
      × Shift fetched_pop n pc i q p

  pub sums : (n : ℕ) (pc : ℕ → Pc A) (i : ℕ) (q p : Pc A) → i < n → pc i ≡ q → Sums n pc i q p
  sums n pc i q p lt e = (
    total-moved unread n pc i q p lt e,
    total-moved unwritten n pc i q p lt e,
    total-moved in_push n pc i q p lt e,
    total-moved in_pop n pc i q p lt e,
    total-moved bumped_push n pc i q p lt e,
    total-moved stored_push n pc i q p lt e,
    total-moved bumped_pop n pc i q p lt e,
    total-moved fetched_pop n pc i q p lt e,
  )

  bumped-in_push : (q : Pc A) → bumped_push q + stored_push q ≤ in_push q
  bumped-in_push outside = omega arith
  bumped-in_push (push_started x) = omega arith
  bumped-in_push (push_admitted x) = omega arith
  bumped-in_push (push_locked x) = omega arith
  bumped-in_push (push_bumped x p) = omega arith
  bumped-in_push push_stored = omega arith
  bumped-in_push push_written = omega arith
  bumped-in_push push_posted = omega arith
  bumped-in_push pop_started = omega arith
  bumped-in_push pop_admitted = omega arith
  bumped-in_push pop_locked = omega arith
  bumped-in_push (pop_bumped c) = omega arith
  bumped-in_push (pop_fetched x) = omega arith
  bumped-in_push (pop_read x) = omega arith
  bumped-in_push (pop_posted x) = omega arith

  bumped-in_pop : (q : Pc A) → bumped_pop q + fetched_pop q ≤ in_pop q
  bumped-in_pop outside = omega arith
  bumped-in_pop (push_started x) = omega arith
  bumped-in_pop (push_admitted x) = omega arith
  bumped-in_pop (push_locked x) = omega arith
  bumped-in_pop (push_bumped x p) = omega arith
  bumped-in_pop push_stored = omega arith
  bumped-in_pop push_written = omega arith
  bumped-in_pop push_posted = omega arith
  bumped-in_pop pop_started = omega arith
  bumped-in_pop pop_admitted = omega arith
  bumped-in_pop pop_locked = omega arith
  bumped-in_pop (pop_bumped c) = omega arith
  bumped-in_pop (pop_fetched x) = omega arith
  bumped-in_pop (pop_read x) = omega arith
  bumped-in_pop (pop_posted x) = omega arith

  -- The one thread in `push`, and the one in `pop`.
  pub push_parts :
      (n : ℕ) (pc : ℕ → Pc A) → total bumped_push n pc + total stored_push n pc ≤ total in_push n pc
  push_parts n pc = total-parts bumped_push stored_push in_push bumped-in_push n pc

  pub pop_parts :
      (n : ℕ) (pc : ℕ → Pc A) → total bumped_pop n pc + total fetched_pop n pc ≤ total in_pop n pc
  pop_parts n pc = total-parts bumped_pop fetched_pop in_pop bumped-in_pop n pc

  -- The index that a thread holds stays good when no thread takes one up and the step stays.
  pub Kept-same :
      (w index : Pc A → ℕ) (n : ℕ) (pc : ℕ → Pc A) (i : ℕ) (p : Pc A) (step : ℕ)
      → w p ≡ 0
      → Kept w index n pc step
      → Kept w index n (update pc i p) step
  Kept-same w index n pc i p step none kept j lt b = elim (ℕ_discrete i j) [
    | yes e ↦
        let at : update pc i p j ≡ p = rw (← e) (update_self pc i p) in
        let b' : w p ≡ 1 = rw (← at) b in absurd (omega (arith, none, b'))
    | no ne ↦
        let at : update pc i p j ≡ pc j = update_ne pc i j p ne in
        let b' : w (pc j) ≡ 1 = rw (← at) b in rw at (kept j lt b')
  ]

  -- It may move when at most the moving thread holds one.
  pub Kept-own :
      (w index : Pc A → ℕ) (n : ℕ) (pc : ℕ → Pc A) (i : ℕ) (p : Pc A) (step : ℕ)
      → i < n
      → total w n (update pc i p) ≡ w p
      → (w p ≡ 1 → index p + 1 ≡ step)
      → Kept w index n (update pc i p) step
  Kept-own w index n pc i p step here alone own j lt b = elim (ℕ_discrete i j) [
    | yes e ↦
        let at : update pc i p j ≡ p = rw (← e) (update_self pc i p) in
        let b' : w p ≡ 1 = rw (← at) b in rw at (own b')
    | no ne ↦
        let at : w (update pc i p i) ≡ w p = rw (update_self pc i p) refl in
        let two : w (update pc i p i) + w (update pc i p j) ≤ total w n (update pc i p) =
          elim (dec_lt i j) [
            | yes before ↦ weights-le-total w n (update pc i p) i j before lt
            | no behind ↦
                omega (arith, weights-le-total w n (update pc i p) j i (omega (arith, ne)) here)
          ] in
        absurd (omega (arith, two, b, alone, at))
  ]

  -- The weights of a thread that is moving an index.
  abbrev moving : Pc A → ℕ
  moving q = bumped_push q + stored_push q + bumped_pop q + fetched_pop q

  -- A step that leaves the places, the indices and the values alone.
  pub counted :
      {n : ℕ} {pc : ℕ → Pc A} (q p : Pc A) (m : Shared A) (i : ℕ)
      → Inv n m pc
      → Sums n pc i q p
      → (space data_units : ℕ) (cm pm : Bool) → moving q + moving p ≡ 0
      → length m.read + data_units + total unread n (update pc i p) ≡ length m.written
      → space + total unwritten n (update pc i p) + length m.written ≡ 5 + length m.read
      → total in_push n (update pc i p) ≡ flag pm
      → total in_pop n (update pc i p) ≡ flag cm
      → Inv n
          (on_queue m (record (m.queue) {
            space_sem = space;
            data_sem = data_units;
            cmutex = cm;
            pmutex = pm;
          }))
          (update pc i p)
  counted {n} {pc} q p m i v s space data_units cm pm quiet a b c d = record {
    occupied = a;
    vacant = b;
    pushing = c;
    popping = d;
    tail = omega (arith, v.tail, s, quiet);
    head = omega (arith, v.head, s, quiet);
    drained = omega (arith, v.drained, s, quiet);
    tail_kept =
        Kept-same bumped_push push_index n pc i p m.queue.pstep (omega (arith, quiet)) v.tail_kept;
    head_kept =
        Kept-same bumped_pop pop_index n pc i p m.queue.cstep (omega (arith, quiet)) v.head_kept;
    ring = v.ring;
  }
