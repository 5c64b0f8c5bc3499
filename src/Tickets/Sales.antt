-- ===== src/Tickets/Sales.antt =====
-- Which tickets are sold, and that the sale ends.
use mylittle_code_house.Base.{
  ℕ, ◌+◌, ◌-◌, ◌*◌, ◌≤◌, ◌<◌, ◌≡◌, refl, sym, ap, ◌∙◌, arith, Bool, true, false, not, subst, dec_lt,
  length, get_elem?, some, ◌⊎◌, inl, inr, Bool-cases,
}
use mylittle_code_house.Base.Int.{pos}
use mylittle_code_house.Base.Counting.{
  total, weights-le-total, positive_weight, weight-le-total, find_thread,
}
use mylittle_code_house.Tickets.{
  initial_tickets, Pc, ready, locked, selling, sold, leaving, gone, Shared, sold_out, Move, lock,
  find_none, find_some, sell_one, unlock, leave, System, Step, pick, Run,
}
use mylittle_code_house.Tickets.Invariant.{at_sale, at_lock, past_sale, Inv, Run-Inv}

-- For any number of threads that sell the tickets, interleaved in any order, after every step at
-- most 1000 sales have been printed, the counter is 1000 less their number, and the sale at place
-- j, counted from 0, has printed 999 - j.
pub tickets_in_order :
    {n k : ℕ} {s : System}
    → Run n k s
    → (length s.mem.printed ≤ initial_tickets)
      × (s.mem.tickets ≡ pos (initial_tickets - length s.mem.printed))
      × ((j : ℕ) → j < length s.mem.printed → get_elem? s.mem.printed j ≡ some (pos (999 - j)))
tickets_in_order {s} r =
    let (left, v) = Run-Inv r in
    let rest : left ≡ 1000 - length s.mem.printed = omega (arith, v.counted.sales) in
    (omega (arith, v.counted.sales), v.counted.counter ∙ ap pos rest, v.counted.numbers)

-- Every run of n threads that sell the tickets has at most 4 times 1000 and 3 times n steps.
pub sale_ends : {n k : ℕ} {s : System} → Run n k s → k ≤ 4 * initial_tickets + 3 * n
sale_ends r = let (left, v) = Run-Inv r in omega (arith, v.bounded)

-- At most one of any two threads is between lock and unlock.
pub one_seller :
    {n k : ℕ} {s : System}
    → Run n k s
    → (i j : ℕ) → i < j
    → j < n
    → (at_sale (s.pc i) + at_lock (s.pc i)) + (at_sale (s.pc j) + at_lock (s.pc j)) ≤ 1
one_seller {n} {s} r i j lt below =
    let (left, v) = Run-Inv r in
    ground (
      arith,
      v.holding,
      weights-le-total at_sale n s.pc i j lt below,
      weights-le-total at_lock n s.pc i j lt below,
    )

abbrev pub is_gone : Pc → Bool
is_gone gone = true
is_gone _ = false

-- A thread that is not gone can move, where the mutex is free or it holds the mutex.
can_move :
    {n : ℕ} (s : System) (i : ℕ) (p : Pc)
    → i < n
    → s.pc i ≡ p
    → is_gone p ≡ false
    → (s.mem.mutex ≡ false) ⊎ (0 < at_sale p + at_lock p)
    → (t : System) × Step n s t
can_move {n} s i p lt e here free =
    let (m, p', mv) = move p here free in (_, pick i lt (subst (λ q. Move s.mem q m p') (sym e) mv))
  where
    move :
        (p : Pc)
        → is_gone p ≡ false
        → (s.mem.mutex ≡ false) ⊎ (0 < at_sale p + at_lock p)
        → (m : Shared) × (p' : Pc) × Move s.mem p m p'
    move ready here (inl free) = (_, _, lock free)
    move ready here (inr holds) = absurd (omega arith)
    move locked here free = elim (Bool-cases (sold_out s.mem)) [
      | inl nothing_left ↦ (_, _, find_none nothing_left)
      | inr some_left ↦ (_, _, find_some some_left)
    ]
    move selling here free = (_, _, sell_one)
    move sold here free = (_, _, unlock)
    move leaving here free = (_, _, leave)
    move gone here free = cc

-- With the mutex held its holder can move, else every thread that is not gone.
someone_moves :
    {n k left : ℕ} (s : System) (i : ℕ)
    → Inv n k left s.mem s.pc
    → i < n
    → is_gone (s.pc i) ≡ false
    → (t : System) × Step n s t
someone_moves {n} s i v lt here = elim (Bool-cases s.mem.mutex) [
  | inr free ↦ can_move s i (s.pc i) lt refl here (inl free)
  | inl held ↦ elim (dec_lt 0 (total at_sale n s.pc)) [
    | yes sale ↦
        let (j, below, w) = positive_weight at_sale n s.pc sale in
        can_move s j (s.pc j) below refl (at_work (s.pc j) (omega arith)) (inr (omega arith))
    | no idle ↦
        let (j, below, w) = positive_weight at_lock n s.pc (ground (arith, v.holding)) in
        can_move s j (s.pc j) below refl (at_work (s.pc j) (omega arith)) (inr (omega arith))
  ]
]
  where
    at_work : (p : Pc) → 0 < at_sale p + at_lock p → is_gone p ≡ false
    at_work p h = ground arith

-- Every run of at least one thread can go on, unless every thread has left the loop, the counter
-- is 0 and 1000 sales have been printed.
pub sale_completes :
    {n k : ℕ} {s : System}
    → Run n k s
    → 0 < n
    → ((t : System) × Step n s t)
      ⊎ (((i : ℕ) → i < n → is_gone (s.pc i) ≡ true)
          × (s.mem.tickets ≡ pos 0)
          × (length s.mem.printed ≡ initial_tickets))
sale_completes {n} {s} r some_thread =
    let (left, v) = Run-Inv r in
    elim (find_thread waits n s.pc) [
      | inl (i, lt, e) ↦ inl (someone_moves s i v lt (ground arith))
      | inr finished ↦
          let none_left : left ≡ 0 =
            ground (arith, v.emptied, finished 0, weight-le-total past_sale n s.pc 0 some_thread) in
          inr (
            λ i lt. ground (arith, finished i),
            rw (← none_left) v.counted.counter,
            omega (arith, v.counted.sales, none_left),
          )
    ]
  where
    waits : Pc → Bool
    waits p = not (is_gone p)
