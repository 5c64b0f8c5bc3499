-- ===== src/Tickets/Twice.antt =====
-- 多线程抢票程序/src2.cc: the same sale with a mutex that is unlocked a second time behind a sale.
use mylittle_code_house.Base.{
  ℕ, ◌<◌, ◌≡◌, ◌≢◌, refl, arith, Bool, true, false, Option, none, some, List, [], ◌∷◌, ◌++◌, update,
}
use mylittle_code_house.Base.Int.{ℤ, pos, ◌-ℤ◌, ltb_ℤ}

-- Where a thread stands in the loop of `Ticketsbook`.
pub data Pc : Type 0 where
  ready : Pc  -- before the lock
  locked : Pc  -- before the test of `tickets`
  selling : Pc  -- before `--tickets`
  sold : Pc  -- before the unlock behind the sale
  again : Pc  -- before the unlock at the end of the loop
  leaving : Pc  -- before the unlock of the branch that breaks
  gone : Pc  -- behind the loop

-- `owner` is the thread that holds the mutex.
pub record Shared : Type 0 where
  pub tickets : ℤ
  pub owner : Option ℕ
  pub printed : List ℤ

unfoldable pub sell : Shared → Shared
sell m = record m { tickets = m.tickets -ℤ pos 1; printed = m.printed ++ (m.tickets -ℤ pos 1) ∷ [] }

-- One step of thread `i`. An unlock frees the mutex, also one that another thread holds, as that
-- of a default mutex does on Linux; POSIX leaves it undefined.
pub data Move (i : ℕ) (m : Shared) : Pc → Shared → Pc → Type 0 where
  lock : m.owner ≡ none → Move i m ready (record m { owner = some i }) locked
  find_none : ltb_ℤ (pos 0) m.tickets ≡ false → Move i m locked m leaving
  find_some : ltb_ℤ (pos 0) m.tickets ≡ true → Move i m locked m selling
  sell_one : Move i m selling (sell m) sold
  unlock : Move i m sold (record m { owner = none }) again
  unlock_again : Move i m again (record m { owner = none }) ready
  leave : Move i m leaving (record m { owner = none }) gone

pub record System : Type 0 where
  pub mem : Shared
  pub pc : ℕ → Pc

pub data Step (n : ℕ) (s : System) : System → Type 0 where
  pick :
      (i : ℕ) {m : Shared} {p : Pc}
      → i < n
      → Move i s.mem (s.pc i) m p
      → Step n s (record { mem = m; pc = update s.pc i p })

-- `int tickets = 10000`
abbrev pub initial : System
initial = record {
  mem = record { tickets = pos 10000; owner = none; printed = [] };
  pc = λ _. ready;
}

pub data Reach (n : ℕ) : System → Type 0 where
  start : Reach n initial
  later : {s t : System} → Reach n s → Step n s t → Reach n t

-- The places from a lock to its unlock.
abbrev inside : Pc → Bool
inside ready = false
inside again = false
inside gone = false
inside _ = true

Move-inside :
    {j : ℕ} (pc : ℕ → Pc) (m : Shared) {m' : Shared} {q p : Pc}
    → Move j m q m' p
    → pc j ≡ q
    → ((i : ℕ) → m.owner ≡ some i → inside (pc i) ≡ true)
    → (i : ℕ) → m'.owner ≡ some i
    → inside (update pc j p i) ≡ true
unfolding sell
Move-inside pc m (lock h) e v i o = ground (arith, e, o)
Move-inside pc m (find_none h) e v i o = ground (arith, e, v i o)
Move-inside pc m (find_some h) e v i o = ground (arith, e, v i o)
Move-inside pc m sell_one e v i o = ground (arith, e, v i o)
Move-inside pc m unlock e v i o = ground (arith, o)
Move-inside pc m unlock_again e v i o = ground (arith, o)
Move-inside pc m leave e v i o = ground (arith, o)

Reach-inside :
    {n : ℕ} {s : System} → Reach n s → (i : ℕ) → s.mem.owner ≡ some i → inside (s.pc i) ≡ true
Reach-inside start i o = ground (arith, o)
Reach-inside (later {s} r (pick j lt m)) i o = Move-inside s.pc s.mem m refl (Reach-inside r) i o

-- In the second ticket program, for any number of threads, interleaved in any order, a thread
-- that is about to unlock the mutex for the second time does not hold it.
pub unlock_again_unheld :
    {n : ℕ} {s : System} → Reach n s → (i : ℕ) → s.pc i ≡ again → s.mem.owner ≢ some i
unlock_again_unheld r i at = λ o. let held = Reach-inside r i o in absurd (ground (arith, at, held))
