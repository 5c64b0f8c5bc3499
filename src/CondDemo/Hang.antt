-- ===== src/CondDemo/Hang.antt =====
-- A thread that goes to sleep behind the last broadcast.
use mylittle_code_house.Base.{ℕ, suc, ◌≤◌, ◌<◌, ◌≡◌, refl, sym, ◌∙◌, arith, update}
use mylittle_code_house.CondDemo.{
  Pc, waiting, gone, MainPc, joining, Shared, Move, go_on, stop, lock, wait, wake, relock, print,
  unlock, System, Step, pick, resume, set_quit, call_last, join, finish, Runs, start, later,
}

-- `main` waits for the threads, and thread `i` is asleep; it has woken up without a broadcast `k`
-- times.
pub record Asleep (i k : ℕ) (s : System) : Type 0 where
  pub joined : ℕ
  pub joins : s.main ≡ joining joined
  pub before : joined ≤ i
  pub asleep : s.pc i ≡ waiting
  pub count : s.mem.spurious i ≡ k

Move-spurious :
    {j : ℕ} {m m' : Shared} {q p : Pc} (i : ℕ) → Move j m q m' p → m.spurious i ≤ m'.spurious i
Move-spurious i (go_on h) = omega arith
Move-spurious i (stop h) = omega arith
Move-spurious i (lock h) = omega arith
Move-spurious i wait = omega arith
Move-spurious {j} {m} i wake = ground arith
Move-spurious i (relock h) = omega arith
Move-spurious i print = omega arith
Move-spurious i unlock = omega arith

Step-spurious : {n : ℕ} {s t : System} (i : ℕ) → Step n s t → s.mem.spurious i ≤ t.mem.spurious i
Step-spurious i (pick j lt m) = Move-spurious i m
Step-spurious i (resume k e) = omega arith
Step-spurious i (set_quit e) = omega arith
Step-spurious i (call_last e) = omega arith
Step-spurious i (join j e lt h) = omega arith
Step-spurious i (finish e) = omega arith

Runs-spurious : {n : ℕ} {s t : System} (i : ℕ) → Runs n s t → s.mem.spurious i ≤ t.mem.spurious i
Runs-spurious i start = omega arith
Runs-spurious i (later r step) = omega (arith, Runs-spurious i r, Step-spurious i step)

-- Asleep, a thread moves by a wake-up that is counted only.
Move-asleep :
    {j : ℕ} (i : ℕ) (pc : ℕ → Pc) (m : Shared) {m' : Shared} {q p : Pc}
    → Move j m q m' p
    → pc j ≡ q
    → pc i ≡ waiting
    → m'.spurious i ≡ m.spurious i
    → update pc j p i ≡ waiting
Move-asleep i pc m (go_on h) e a c = ground (arith, e, a)
Move-asleep i pc m (stop h) e a c = ground (arith, e, a)
Move-asleep i pc m (lock h) e a c = ground (arith, e, a)
Move-asleep i pc m wait e a c = ground (arith, e, a)
Move-asleep i pc m wake e a c = ground (arith, e, a, c)
Move-asleep i pc m (relock h) e a c = ground (arith, e, a)
Move-asleep i pc m print e a c = ground (arith, e, a)
Move-asleep i pc m unlock e a c = ground (arith, e, a)

-- `pthread_join` of a thread that has not returned does not come back.
join_earlier :
    {i j l : ℕ} (pc : ℕ → Pc) (main : MainPc)
    → main ≡ joining l
    → main ≡ joining j
    → l ≤ i
    → pc i ≡ waiting
    → pc j ≡ gone
    → suc j ≤ i
join_earlier pc main e f le a g = ground (arith, e, f, le, a, g)

Step-Asleep :
    {n : ℕ} {s t : System} (i k : ℕ)
    → i < n
    → Asleep i k s
    → Step n s t
    → t.mem.spurious i ≡ k
    → Asleep i k t
Step-Asleep {n} {s} i k lt v (pick j ltj m) c = record {
  joined = v.joined;
  joins = v.joins;
  before = v.before;
  asleep = Move-asleep i s.pc s.mem m refl v.asleep (c ∙ sym v.count);
  count = c;
}
Step-Asleep i k lt v (resume r e) c = absurd (cc (v.joins, e))
Step-Asleep i k lt v (set_quit e) c = absurd (cc (v.joins, e))
Step-Asleep i k lt v (call_last e) c = absurd (cc (v.joins, e))
Step-Asleep {n} {s} i k lt v (join j e ltj h) c = record {
  joined = suc j;
  joins = refl;
  before = join_earlier s.pc s.main v.joins e v.before v.asleep h;
  asleep = v.asleep;
  count = c;
}
Step-Asleep i k lt v (finish e) c = absurd (ground (arith, lt, v.joins, e, v.before))

-- Once main has made its last broadcast and joins the threads, a thread that is asleep in the
-- wait, and not joined yet, stays asleep, and main stays in the joining of it or of an earlier
-- one, along every run in which that thread does not wake up spuriously.
pub never_woken :
    {n : ℕ} {s t : System} (i : ℕ)
    → i < n
    → Asleep i (s.mem.spurious i) s
    → Runs n s t
    → t.mem.spurious i ≡ s.mem.spurious i
    → Asleep i (s.mem.spurious i) t
never_woken i lt v start c = v
never_woken {n} {s} i lt v (later {t} r step) c =
    let same : t.mem.spurious i ≡ s.mem.spurious i =
      omega (arith, c, Runs-spurious i r, Step-spurious i step) in
    Step-Asleep i (s.mem.spurious i) lt (never_woken i lt v r same) step c
