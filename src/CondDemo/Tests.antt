-- ===== src/CondDemo/Tests.antt =====
-- Thread 0 tests `quit` before it is set, and goes to sleep behind the last broadcast.
use mylittle_code_house.Base.{◌+◌, update, ◌≤◌, refl, arith}
use mylittle_code_house.CondDemo.{
  joining, gone, go_on, stop, lock, wait, relock, print, System, pick, resume, set_quit, call_last,
  initial, Runs, start, later,
}
use mylittle_code_house.CondDemo.Lines.{lines, lines_bounded}
use mylittle_code_house.CondDemo.Hang.{Asleep, never_woken}

abbrev ten_calls : (s : System) × Runs 4 initial s
ten_calls = (
  _,
  later
      (later
        (later
          (later
            (later
              (later
                (later
                  (later
                    (later (later (later start (pick 0 (omega arith) (go_on refl))) (resume 9 refl))
                      (resume 8 refl))
                    (resume 7 refl))
                  (resume 6 refl))
                (resume 5 refl))
              (resume 4 refl))
            (resume 3 refl))
          (resume 2 refl))
        (resume 1 refl))
      (resume 0 refl),
)

abbrev too_late : (s : System) × Runs 4 initial s
too_late = (
  _,
  later
      (later (later (later ten_calls.1 (set_quit refl)) (call_last refl))
        (pick 0 (omega arith) (lock refl)))
      (pick 0 (omega arith) wait),
)

too_late-Asleep : Asleep 0 0 too_late.0
too_late-Asleep = record {
  joined = 0;
  joins = refl;
  before = omega arith;
  asleep = refl;
  count = refl;
}

-- Then thread 1 goes to the lock.
never_woken_example :
    Asleep 0 0 (record { mem = too_late.0.mem; pc = update too_late.0.pc 1 gone; main = joining 0 })
never_woken_example =
    never_woken {n = 4} {s = too_late.0} 0 (omega arith) too_late-Asleep
      (later start (pick 1 (omega arith) (stop refl))) refl

abbrev one_line : (s : System) × Runs 4 initial s
one_line = (
  _,
  later
      (later
        (later
          (later
            (later (later start (pick 0 (omega arith) (go_on refl)))
              (pick 0 (omega arith) (lock refl)))
            (pick 0 (omega arith) wait))
          (resume 9 refl))
        (pick 0 (omega arith) (relock refl)))
      (pick 0 (omega arith) print),
)

lines_bounded_example : lines 0 one_line.0.mem.printed ≤ 11 + one_line.0.mem.spurious 0
lines_bounded_example = lines_bounded one_line.1 0
