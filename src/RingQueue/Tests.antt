-- ===== src/RingQueue/Tests.antt =====
-- A producer's first push and a consumer's first pop, up to the read.
use mylittle_code_house.Base.{ℕ, ◌+◌, ◌≤◌, ◌<◌, ◌≡◌, refl, arith, length, get_elem?, update}
use mylittle_code_house.RingQueue.{put, take_out, bump_pstep, bump_cstep, wrap_pstep}
use mylittle_code_house.RingQueue.Threads.{
  System, Shared, Pc, Move, Reach, start, later, initial, pick, start_push, admit_push, lock_push,
  advance_push, write, wrap_push, start_pop, post_push, admit_pop, lock_pop, advance_pop, fetch,
}
use mylittle_code_house.RingQueue.Fifo.{reads_in_order}

abbrev Run : System {A = ℕ} 0 → Type 0
Run s = Reach {A = ℕ} 0 2 s

moved :
    {s : System {A = ℕ} 0} {m : Shared ℕ} {p : Pc ℕ}
    → Run s
    → (i : ℕ) → i < 2
    → Move {A = ℕ} 0 s.mem (s.pc i) m p
    → Run (record { mem = m; pc = update s.pc i p })
moved r i lt mv = later r (pick i lt mv)

-- Thread 0 writes 7 and posts it; thread 1 reads it.
first_read : (s : System {A = ℕ} 0) × Run s
unfolding put take_out bump_pstep bump_cstep wrap_pstep
first_read =
    let r1 = moved {s = initial {A = ℕ} 0} start 0 (omega arith) (start_push 7) in
    let r2 = moved r1 0 (omega arith) (admit_push 7 (omega arith)) in
    let r3 = moved r2 0 (omega arith) (lock_push 7 refl) in
    let r4 = moved r3 0 (omega arith) (advance_push 7) in
    let r5 = moved r4 0 (omega arith) (write 7 0) in
    let r6 = moved r5 0 (omega arith) wrap_push in
    let r7 = moved r6 0 (omega arith) post_push in
    let r8 = moved r7 1 (omega arith) start_pop in
    let r9 = moved r8 1 (omega arith) (admit_pop (omega arith)) in
    let r10 = moved r9 1 (omega arith) (lock_pop refl) in
    let r11 = moved r10 1 (omega arith) advance_pop in
    let r12 = moved r11 1 (omega arith) (fetch 0) in (_, r12)

abbrev read_one : System {A = ℕ} 0
read_one = first_read.0

reads_in_order_example :
    (length read_one.mem.read ≤ length read_one.mem.written)
    × (length read_one.mem.written ≤ 5 + length read_one.mem.read)
    × ((k : ℕ)
        → k < length read_one.mem.read
        → get_elem? read_one.mem.read k ≡ get_elem? read_one.mem.written k)
reads_in_order_example = reads_in_order {A = ℕ} 0 first_read.1
