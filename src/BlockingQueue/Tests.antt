-- ===== src/BlockingQueue/Tests.antt =====
-- A queue of one place: thread 1 falls asleep on the empty queue, then thread 0 pushes 7.
use mylittle_code_house.Base.{ℕ, ◌≤◌, ◌<◌, ◌≡◌, refl, arith, true, false, ◌++◌, length, update, ◌⊎◌}
use mylittle_code_house.BlockingQueue.{is_empty, is_full, enqueue}
use mylittle_code_house.BlockingQueue.Threads.{
  Pc, Shared, Move, start_push, lock_push, admit_push, push_one, start_pop, lock_pop, wait_pop,
  asleep_on_full, asleep_on_empty, signal_empty, System, Step, pick, wake_one, initial, Reach,
  start, later,
}
use mylittle_code_house.BlockingQueue.Safety.{popped_in_order}
use mylittle_code_house.BlockingQueue.Progress.{is_idle, sleep_is_due, someone_moves}

abbrev Runs : System ℕ → Type 0
Runs s = Reach 1 2 s

moved :
    {s : System ℕ} {m : Shared ℕ} {p : Pc ℕ}
    → Runs s
    → (i : ℕ) → i < 2
    → Move s.mem (s.pc i) m p
    → Runs (record { mem = m; pc = update s.pc i p })
moved r i lt mv = later r (pick lt mv)

one_sleeps : (s : System ℕ) × Runs s
unfolding is_empty
one_sleeps =
    let r1 = moved {s = initial 1} start 1 (omega arith) start_pop in
    let r2 = moved r1 1 (omega arith) (lock_pop refl) in
    let r3 = moved r2 1 (omega arith) (wait_pop refl) in (_, r3)

abbrev sleeping : System ℕ
sleeping = one_sleeps.0

seven_pushed : (s : System ℕ) × Runs s
unfolding is_full enqueue one_sleeps
seven_pushed =
    let r4 = moved one_sleeps.1 0 (omega arith) (start_push 7) in
    let r5 = moved r4 0 (omega arith) (lock_push 7 refl) in
    let r6 = moved r5 0 (omega arith) (admit_push 7 refl) in
    let r7 = moved r6 0 (omega arith) (push_one 7) in
    let r8 = later {i = 0} r7 (wake_one 1 (omega arith) (omega arith) signal_empty refl) in (_, r8)

abbrev pushed : System ℕ
pushed = seven_pushed.0

popped_in_order_example :
    (pushed.mem.pushed ≡ pushed.mem.popped ++ pushed.mem.queue.bq)
    × (length pushed.mem.queue.bq ≤ 1)
popped_in_order_example = popped_in_order seven_pushed.1

all_idle : (i : ℕ) → i < 2 → is_idle (sleeping.pc i) ≡ true
unfolding one_sleeps
all_idle i h = ground arith

sleep_is_due_example :
    ((asleep_on_empty (sleeping.pc 0) ≡ false) ⊎ (length sleeping.mem.queue.bq ≡ 0))
    × ((asleep_on_full (sleeping.pc 0) ≡ false) ⊎ (length sleeping.mem.queue.bq ≡ 1))
sleep_is_due_example = sleep_is_due one_sleeps.1 all_idle 0 (omega arith)

someone_moves_example :
    ((i : ℕ) → i < 2 → is_idle (pushed.pc i) ≡ true)
    ⊎ ((i : ℕ) × (is_idle (pushed.pc i) ≡ false) × (t : System ℕ) × Step 2 pushed i t)
someone_moves_example = someone_moves seven_pushed.1
