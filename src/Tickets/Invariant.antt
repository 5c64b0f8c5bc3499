-- ===== src/Tickets/Invariant.antt =====
-- The invariant of the counter, the mutex and the threads.
use mylittle_code_house.Base.{
  ℕ, suc, ◌+◌, ◌-◌, ◌*◌, ◌≤◌, ◌<◌, ◌≡◌, refl, ap, ◌∙◌, arith, [], ◌∷◌, length, get_elem?, some,
  update, ◌⊎◌, inl, inr, dec_lt, length-snoc, get_elem?-append_left, get_elem?-snoc, flag,
}
use mylittle_code_house.Base.Int.{pos, ◌-ℤ◌}
use mylittle_code_house.Base.Counting.{total, total-moved, total-zero, total-const, share-le-total}
use mylittle_code_house.Tickets.{
  Pc, ready, locked, selling, sold, leaving, gone, Shared, sell, Move, lock, find_none, find_some,
  sell_one, unlock, leave, System, pick, Run, start, later,
}

-- The thread that is about to sell, the others that hold the mutex, and those that have found no
-- ticket.
abbrev pub at_sale : Pc → ℕ
at_sale selling = 1
at_sale _ = 0

abbrev pub at_lock : Pc → ℕ
at_lock locked = 1
at_lock sold = 1
at_lock leaving = 1
at_lock _ = 0

abbrev pub past_sale : Pc → ℕ
past_sale leaving = 1
past_sale gone = 1
past_sale _ = 0

-- The steps that a thread takes at most before the next sale or its end.
abbrev pub ahead : Pc → ℕ
ahead ready = 3
ahead locked = 2
ahead selling = 1
ahead sold = 4
ahead leaving = 1
ahead gone = 0

-- `left` tickets are left.
pub record Counted (left : ℕ) (m : Shared) : Type 0 where
  pub counter : m.tickets ≡ pos left
  pub sales : length m.printed + left ≡ 1000
  pub numbers : (k : ℕ) → k < length m.printed → get_elem? m.printed k ≡ some (pos (999 - k))

-- After `k` steps.
pub record Inv (n k left : ℕ) (m : Shared) (pc : ℕ → Pc) : Type 0 where
  pub counted : Counted left m
  pub holding : total at_sale n pc + total at_lock n pc ≡ flag m.mutex
  pub stocked : total at_sale n pc ≤ left
  pub emptied : (total past_sale n pc ≡ 0) ⊎ (left ≡ 0)
  pub bounded : k + 4 * left + total ahead n pc ≤ 4000 + 3 * n

abbrev Sums : ℕ → (ℕ → Pc) → ℕ → Pc → Pc → Type 0
Sums n pc i q p =
    (total at_sale n (update pc i p) + at_sale q ≡ total at_sale n pc + at_sale p)
    × (total at_lock n (update pc i p) + at_lock q ≡ total at_lock n pc + at_lock p)
    × (total past_sale n (update pc i p) + past_sale q ≡ total past_sale n pc + past_sale p)
    × (total ahead n (update pc i p) + ahead q ≡ total ahead n pc + ahead p)

sums : (n : ℕ) (pc : ℕ → Pc) (i : ℕ) (q p : Pc) → i < n → pc i ≡ q → Sums n pc i q p
sums n pc i q p lt e = (
  total-moved at_sale n pc i q p lt e,
  total-moved at_lock n pc i q p lt e,
  total-moved past_sale n pc i q p lt e,
  total-moved ahead n pc i q p lt e,
)

sell-Counted : (left : ℕ) (m : Shared) → Counted (suc left) m → Counted left (sell m)
unfolding sell
sell-Counted left m v =
    let x = m.tickets -ℤ pos 1 in
    let long = length-snoc m.printed x in
    let taken : x ≡ pos left = rw (v.counter) (ground arith) in
    record {
      counter = taken;
      sales = omega (arith, v.sales, long);
      numbers = λ k h. elim (dec_lt k (length m.printed)) [
        | yes old ↦ get_elem?-append_left m.printed (x ∷ []) k old ∙ v.numbers k old
        | no new ↦
            let e : k ≡ length m.printed = omega (arith, long) in
            let number : 999 - k ≡ left = omega (arith, e, v.sales) in
            rw number (rw e (get_elem?-snoc m.printed x) ∙ ap some taken)
      ];
    }

-- The number of tickets left that a state goes on with.
Next : ℕ → ℕ → Shared → (ℕ → Pc) → Type 0
Next n k m pc = (left : ℕ) × Inv n k left m pc

Move-Inv :
    {n k left : ℕ} {pc : ℕ → Pc} {q : Pc} (m : Shared) (i : ℕ) {m' : Shared} {p : Pc}
    → pc i ≡ q
    → i < n
    → Move m q m' p
    → Inv n k left m pc
    → Sums n pc i q p
    → Next n (suc k) m' (update pc i p)
unfolding Next
Move-Inv {n} {k} {left} m i e lt (lock h) v s = (
  left,
  record {
    counted = record {
      counter = v.counted.counter;
      sales = v.counted.sales;
      numbers = v.counted.numbers;
    };
    holding = ground (arith, s, v.holding, h);
    stocked = ground (arith, s, v.stocked);
    emptied = ground (arith, s, v.emptied);
    bounded = omega (arith, s, v.bounded);
  },
)
Move-Inv {n} {k} {left} m i e lt (find_none h) v s = (
  left,
  record {
    counted = v.counted;
    holding = ground (arith, s, v.holding);
    stocked = ground (arith, s, v.stocked);
    emptied = inr (ground (arith, h, v.counted.counter));
    bounded = omega (arith, s, v.bounded);
  },
)
Move-Inv {n} {k} {left} {pc} m i e lt (find_some h) v s = (
  left,
  record {
    counted = v.counted;
    holding = ground (arith, s, v.holding);
    stocked =
        ground
          (arith, s, v.holding, h, v.counted.counter, share-le-total at_lock n pc i locked lt e);
    emptied = ground (arith, s, v.emptied);
    bounded = omega (arith, s, v.bounded);
  },
)
Move-Inv {n} {k} {left} {pc} m i e lt sell_one v s =
    let here = share-le-total at_sale n pc i selling lt e in
    let more : left ≡ suc (left - 1) = omega (arith, here, v.stocked) in
    (
      left - 1,
      record {
        counted = sell-Counted (left - 1) m (rw (← more) v.counted);
        holding = unfold sell in ground (arith, s, v.holding);
        stocked = ground (arith, s, v.holding, here);
        emptied = ground (arith, s, v.emptied, more);
        bounded = omega (arith, s, v.bounded, more);
      },
    )
Move-Inv {n} {k} {left} m i e lt unlock v s = (
  left,
  record {
    counted = record {
      counter = v.counted.counter;
      sales = v.counted.sales;
      numbers = v.counted.numbers;
    };
    holding = ground (arith, s, v.holding);
    stocked = ground (arith, s, v.stocked);
    emptied = ground (arith, s, v.emptied);
    bounded = omega (arith, s, v.bounded);
  },
)
Move-Inv {n} {k} {left} m i e lt leave v s = (
  left,
  record {
    counted = record {
      counter = v.counted.counter;
      sales = v.counted.sales;
      numbers = v.counted.numbers;
    };
    holding = ground (arith, s, v.holding);
    stocked = ground (arith, s, v.stocked);
    emptied = ground (arith, s, v.emptied);
    bounded = omega (arith, s, v.bounded);
  },
)

pub Run-Inv : {n k : ℕ} {s : System} → Run n k s → (left : ℕ) × Inv n k left s.mem s.pc
unfolding Next
Run-Inv {n} start = (
  1000,
  record {
    counted = record { counter = refl; sales = refl; numbers = λ k h. absurd (omega arith) };
    holding = omega (arith, total-zero at_sale n ready refl, total-zero at_lock n ready refl);
    stocked = omega (arith, total-zero at_sale n ready refl);
    emptied = inl (total-zero past_sale n ready refl);
    bounded = omega (arith, total-const ahead n ready);
  },
)
Run-Inv {n} (later {s} r (pick i {m} {p} lt mv)) =
    let (left, v) = Run-Inv r in Move-Inv s.mem i refl lt mv v (sums n s.pc i (s.pc i) p lt refl)
