-- ===== src/CondDemo.antt =====
-- 条件变量/mycond.cc: four threads that wait on one condition variable, print a line each time that
-- they are woken, and stop when `quit` is set.
pub mod Lines
pub mod Hang
mod Tests
use mylittle_code_house.Base.{
  ℕ, zero, suc, ◌+◌, ◌<◌, ◌≡◌, Bool, true, false, List, [], ◌∷◌, ◌++◌, update,
}

-- `#define PTNUMS 4`, and the ten rounds of `main`.
abbrev pub ptnums : ℕ
ptnums = 4

abbrev pub rounds : ℕ
rounds = 10

-- Where a thread stands in `func_1` to `func_4`, which differ in the text that they print.
pub data Pc : Type 0 where
  testing : Pc  -- before `while(!quit)`
  at_lock : Pc  -- before the lock
  at_wait : Pc  -- before the wait, with the mutex
  waiting : Pc  -- in the wait, asleep
  woken : Pc  -- in the wait, before it takes the mutex again
  running : Pc  -- before the output
  at_unlock : Pc  -- before the unlock
  gone : Pc  -- returned

-- Where `main` stands.
pub data MainPc : Type 0 where
  resuming : ℕ → MainPc  -- before `while(cnt)`
  last_call : MainPc  -- before the broadcast behind `quit = true`
  joining : ℕ → MainPc  -- before `pthread_join` of a thread
  finished : MainPc

-- `printed` holds the threads whose lines were printed, oldest first; `calls` and `spurious` count
-- the broadcasts and, for each thread, the times that it woke up without one.
pub record Shared : Type 0 where
  pub mutex : Bool
  pub quit : Bool
  pub printed : List ℕ
  pub calls : ℕ
  pub spurious : ℕ → ℕ

-- One step of thread `i`. `pthread_cond_wait` may return without a broadcast.
pub data Move (i : ℕ) (m : Shared) : Pc → Shared → Pc → Type 0 where
  go_on : m.quit ≡ false → Move i m testing m at_lock
  stop : m.quit ≡ true → Move i m testing m gone
  lock : m.mutex ≡ false → Move i m at_lock (record m { mutex = true }) at_wait
  wait : Move i m at_wait (record m { mutex = false }) waiting
  wake : Move i m waiting (record m { spurious = update m.spurious i (m.spurious i + 1) }) woken
  relock : m.mutex ≡ false → Move i m woken (record m { mutex = true }) running
  print : Move i m running (record m { printed = m.printed ++ i ∷ [] }) at_unlock
  unlock : Move i m at_unlock (record m { mutex = false }) testing

-- Where a broadcast leaves a thread.
abbrev pub called : Pc → Pc
called waiting = woken
called p = p

abbrev pub call : Shared → Shared
call m = record m { calls = m.calls + 1 }

pub record System : Type 0 where
  pub mem : Shared
  pub pc : ℕ → Pc
  pub main : MainPc

-- A step of one of `n` threads, or of `main`.
pub data Step (n : ℕ) (s : System) : System → Type 0 where
  pick :
      (i : ℕ) {m : Shared} {p : Pc}
      → i < n
      → Move i s.mem (s.pc i) m p
      → Step n s (record { mem = m; pc = update s.pc i p; main = s.main })
  resume :
      (k : ℕ)
      → s.main ≡ resuming (suc k)
      → Step n s (record { mem = call s.mem; pc = λ i. called (s.pc i); main = resuming k })
  set_quit :
      s.main ≡ resuming zero
      → Step n s (record { mem = record (s.mem) { quit = true }; pc = s.pc; main = last_call })
  call_last :
      s.main ≡ last_call
      → Step n s (record { mem = call s.mem; pc = λ i. called (s.pc i); main = joining zero })
  join :
      (i : ℕ)
      → s.main ≡ joining i
      → i < n
      → s.pc i ≡ gone
      → Step n s (record { mem = s.mem; pc = s.pc; main = joining (suc i) })
  finish : s.main ≡ joining n → Step n s (record { mem = s.mem; pc = s.pc; main = finished })

abbrev pub initial : System
initial = record {
  mem = record { mutex = false; quit = false; printed = []; calls = 0; spurious = λ _. 0 };
  pc = λ _. testing;
  main = resuming rounds;
}

-- From one state on, and from the start.
pub data Runs (n : ℕ) (s : System) : System → Type 0 where
  start : Runs n s s
  later : {t u : System} → Runs n s t → Step n t u → Runs n s u
