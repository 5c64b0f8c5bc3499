-- ===== src/Tickets/Tests.antt =====
-- The first sale, by the first of two threads, in both programs.
use mylittle_code_house.Base.{
  ℕ, suc, update, ◌+◌, ◌-◌, ◌*◌, ◌≤◌, ◌<◌, ◌≡◌, ◌≢◌, refl, arith, length, get_elem?, some, ◌⊎◌,
  true,
}
use mylittle_code_house.Base.Int.{pos}
use mylittle_code_house.Tickets.{
  initial_tickets, Shared, Pc, Move, lock, find_some, sell_one, System, Step, pick, initial, Run,
  start, later, sell,
}
use mylittle_code_house.Tickets.Twice
use mylittle_code_house.Tickets.Sales.{tickets_in_order, sale_ends, is_gone, sale_completes}

moved :
    {k : ℕ} {s : System} {m : Shared} {p : Pc}
    → Run 2 k s
    → (i : ℕ) → i < 2
    → Move s.mem (s.pc i) m p
    → Run 2 (suc k) (record { mem = m; pc = update s.pc i p })
moved r i lt mv = later r (pick i lt mv)

first_sale : (s : System) × Run 2 3 s
unfolding sell
first_sale =
    let r1 = moved {s = initial} start 0 (omega arith) (lock refl) in
    let r2 = moved r1 0 (omega arith) (find_some refl) in
    let r3 = moved r2 0 (omega arith) sell_one in (_, r3)

abbrev after : System
after = first_sale.0

tickets_in_order_example :
    (length after.mem.printed ≤ initial_tickets)
    × (after.mem.tickets ≡ pos (initial_tickets - length after.mem.printed))
    × ((j : ℕ)
        → j < length after.mem.printed
        → get_elem? after.mem.printed j ≡ some (pos (999 - j)))
tickets_in_order_example = tickets_in_order first_sale.1

sale_ends_example : 3 ≤ 4 * initial_tickets + 3 * 2
sale_ends_example = sale_ends first_sale.1

sale_completes_example :
    ((t : System) × Step 2 after t)
    ⊎ (((i : ℕ) → i < 2 → is_gone (after.pc i) ≡ true)
        × (after.mem.tickets ≡ pos 0)
        × (length after.mem.printed ≡ initial_tickets))
sale_completes_example = sale_completes first_sale.1 (omega arith)

-- Thread 0 sells a ticket, unlocks, and thread 1 takes the mutex.
abbrev sold_and_taken : (s : Twice.System) × Twice.Reach 2 s
sold_and_taken = (
  _,
  Twice.later
      (Twice.later
        (Twice.later
          (Twice.later (Twice.later Twice.start (Twice.pick 0 (omega arith) (Twice.lock refl)))
            (Twice.pick 0 (omega arith) (Twice.find_some refl)))
          (Twice.pick 0 (omega arith) Twice.sell_one))
        (Twice.pick 0 (omega arith) Twice.unlock))
      (Twice.pick 1 (omega arith) (Twice.lock refl)),
)

unlock_again_unheld_example : sold_and_taken.0.mem.owner ≢ some 0
unlock_again_unheld_example = Twice.unlock_again_unheld sold_and_taken.1 0 refl
