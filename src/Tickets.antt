-- ===== src/Tickets.antt =====
-- 多线程抢票程序/src.cc: threads that sell the tickets of one counter under one mutex.
pub mod Invariant
pub mod Sales
pub mod Twice
mod Tests
use mylittle_code_house.Base.{ℕ, suc, ◌<◌, ◌≡◌, Bool, true, false, List, [], ◌∷◌, ◌++◌, update}
use mylittle_code_house.Base.Int.{ℤ, pos, ◌-ℤ◌, ltb_ℤ}

-- `int tickets = 1000`
abbrev pub initial_tickets : ℕ
initial_tickets = 1000

-- Where a thread stands in the loop of `Ticketsbook`.
pub data Pc : Type 0 where
  ready : Pc  -- before the lock
  locked : Pc  -- before the test of `tickets`
  selling : Pc  -- before `--tickets`
  sold : Pc  -- before the unlock behind the sale
  leaving : Pc  -- before the unlock of the branch that breaks
  gone : Pc  -- behind the loop

-- `printed` are the numbers of tickets left that the threads have printed, oldest first.
pub record Shared : Type 0 where
  pub tickets : ℤ
  pub mutex : Bool
  pub printed : List ℤ

-- `tickets <= 0`
abbrev pub sold_out : Shared → Bool
sold_out m = elim (ltb_ℤ (pos 0) m.tickets) [ true ↦ false | false ↦ true ]

-- `cout << --tickets`
unfoldable pub sell : Shared → Shared
unfolding ◌-ℤ◌
sell m = record m { tickets = m.tickets -ℤ pos 1; printed = m.printed ++ (m.tickets -ℤ pos 1) ∷ [] }

-- One step of one thread.
pub data Move (m : Shared) : Pc → Shared → Pc → Type 0 where
  lock : m.mutex ≡ false → Move m ready (record m { mutex = true }) locked
  find_none : sold_out m ≡ true → Move m locked m leaving
  find_some : sold_out m ≡ false → Move m locked m selling
  sell_one : Move m selling (sell m) sold
  unlock : Move m sold (record m { mutex = false }) ready
  leave : Move m leaving (record m { mutex = false }) gone

pub record System : Type 0 where
  pub mem : Shared
  pub pc : ℕ → Pc

-- Thread `i` of `n` moves.
pub data Step (n : ℕ) (s : System) : System → Type 0 where
  pick :
      (i : ℕ) {m : Shared} {p : Pc}
      → i < n
      → Move s.mem (s.pc i) m p
      → Step n s (record { mem = m; pc = update s.pc i p })

abbrev pub initial : System
initial = record {
  mem = record { tickets = pos initial_tickets; mutex = false; printed = [] };
  pc = λ _. ready;
}

-- A run of `k` steps from the start.
pub data Run (n : ℕ) : ℕ → System → Type 0 where
  start : Run n 0 initial
  later : {k : ℕ} {s t : System} → Run n k s → Step n s t → Run n (suc k) t
