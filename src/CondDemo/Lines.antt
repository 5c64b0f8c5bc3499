-- ===== src/CondDemo/Lines.antt =====
-- The mutex, and the number of lines.
use mylittle_code_house.Base.{
  ℕ, zero, suc, ◌+◌, ◌≤◌, ◌≡◌, refl, ap, ◌∙◌, arith, List, [], ◌∷◌, ◌++◌, update, flag, ◌==◌,
}
use mylittle_code_house.Base.Counting.{total, total-same, total-moved, total-zero}
use mylittle_code_house.CondDemo.{
  Pc, testing, at_wait, woken, running, at_unlock, MainPc, resuming, last_call, joining, Shared,
  Move, go_on, stop, lock, wait, wake, relock, print, unlock, called, call, System, Step, pick,
  resume, set_quit, call_last, join, finish, initial, Runs, start, later,
}

-- The places where a thread holds the mutex.
abbrev pub holds : Pc → ℕ
holds at_wait = 1
holds running = 1
holds at_unlock = 1
holds _ = 0

-- The places between a wake-up and its line.
abbrev pub owes : Pc → ℕ
owes woken = 1
owes running = 1
owes _ = 0

-- How often thread `i` printed.
abbrev pub lines : ℕ → List ℕ → ℕ
lines i [] = 0
lines i (j ∷ js) = flag (i == j) + lines i js

lines-snoc : (i : ℕ) (js : List ℕ) (j : ℕ) → lines i (js ++ j ∷ []) ≡ lines i js + flag (i == j)
lines-snoc i [] j = omega arith
lines-snoc i (k ∷ js) j = omega (arith, lines-snoc i js j)

-- The broadcasts that are still to come.
abbrev pub to_call : MainPc → ℕ
to_call (resuming k) = suc k
to_call last_call = 1
to_call _ = 0

pub record Inv (n : ℕ) (s : System) : Type 0 where
  pub holding : total holds n s.pc ≡ flag s.mem.mutex
  pub printing : (i : ℕ) → lines i s.mem.printed + owes (s.pc i) ≤ s.mem.calls + s.mem.spurious i
  pub calling : s.mem.calls + to_call s.main ≡ 11

Move-holding :
    {i : ℕ} (before after : ℕ) {q : Pc} (m : Shared) {m' : Shared} {p : Pc}
    → Move i m q m' p
    → before ≡ flag m.mutex
    → after + holds q ≡ before + holds p
    → after ≡ flag m'.mutex
Move-holding before after m (go_on h) v s = ground (arith, v, s)
Move-holding before after m (stop h) v s = ground (arith, v, s)
Move-holding before after m (lock h) v s = ground (arith, v, s, h)
Move-holding before after m wait v s = ground (arith, v, s)
Move-holding before after m wake v s = ground (arith, v, s)
Move-holding before after m (relock h) v s = ground (arith, v, s, h)
Move-holding before after m print v s = ground (arith, v, s)
Move-holding before after m unlock v s = ground (arith, v, s)

Move-printing :
    {i : ℕ} (pc : ℕ → Pc) (m : Shared) {m' : Shared} {q p : Pc}
    → Move i m q m' p
    → pc i ≡ q
    → ((j : ℕ) → lines j m.printed + owes (pc j) ≤ m.calls + m.spurious j)
    → (j : ℕ) → lines j m'.printed + owes (update pc i p j) ≤ m'.calls + m'.spurious j
Move-printing pc m (go_on h) e v j = ground (arith, v j, e)
Move-printing pc m (stop h) e v j = ground (arith, v j, e)
Move-printing pc m (lock h) e v j = ground (arith, v j, e)
Move-printing pc m wait e v j = ground (arith, v j, e)
Move-printing pc m wake e v j = ground (arith, v j, e)
Move-printing pc m (relock h) e v j = ground (arith, v j, e)
Move-printing {i} pc m print e v j = ground (arith, v j, e, lines-snoc j m.printed i)
Move-printing pc m unlock e v j = ground (arith, v j, e)

Move-calls : {i : ℕ} {m m' : Shared} {q p : Pc} → Move i m q m' p → m'.calls ≡ m.calls
Move-calls (go_on h) = refl
Move-calls (stop h) = refl
Move-calls (lock h) = refl
Move-calls wait = refl
Move-calls wake = refl
Move-calls (relock h) = refl
Move-calls print = refl
Move-calls unlock = refl

holds-called : (p : Pc) → holds (called p) ≡ holds p
holds-called p = ground arith

owes-called : (p : Pc) → owes (called p) ≤ owes p + 1
owes-called p = ground arith

called-Inv :
    {n : ℕ} {s : System} (main : MainPc)
    → Inv n s
    → to_call s.main ≡ suc (to_call main)
    → Inv n (record { mem = call s.mem; pc = λ i. called (s.pc i); main = main })
called-Inv {n} {s} main v e = record {
  holding =
      total-same holds n (λ i. called (s.pc i)) s.pc (λ i lt. holds-called (s.pc i)) ∙ v.holding;
  printing = λ i. omega (arith, v.printing i, owes-called (s.pc i));
  calling = omega (arith, v.calling, e);
}

Step-Inv : {n : ℕ} {s t : System} → Inv n s → Step n s t → Inv n t
Step-Inv {n} {s} v (pick i lt m) = record {
  holding =
      Move-holding (total holds n s.pc) _ s.mem m v.holding
        (total-moved holds n s.pc i (s.pc i) _ lt refl);
  printing = Move-printing s.pc s.mem m refl v.printing;
  calling = ap (λ c. c + to_call s.main) (Move-calls m) ∙ v.calling;
}
Step-Inv {n} {s} v (resume k e) = called-Inv (resuming k) v (ap to_call e)
Step-Inv v (set_quit e) = record {
  holding = v.holding;
  printing = v.printing;
  calling = omega (arith, v.calling, ap to_call e);
}
Step-Inv v (call_last e) = called-Inv (joining zero) v (ap to_call e)
Step-Inv v (join i e lt h) = record {
  holding = v.holding;
  printing = v.printing;
  calling = omega (arith, v.calling, ap to_call e);
}
Step-Inv v (finish e) = record {
  holding = v.holding;
  printing = v.printing;
  calling = omega (arith, v.calling, ap to_call e);
}

pub Runs-Inv : {n : ℕ} {s : System} → Runs n initial s → Inv n s
Runs-Inv {n} start = record {
  holding = total-zero holds n testing refl;
  printing = λ i. omega arith;
  calling = refl;
}
Runs-Inv (later r step) = Step-Inv (Runs-Inv r) step

-- In every state that any number of threads and main reach, interleaved in any order, each thread
-- has printed at most eleven lines and one for each of its spurious wake-ups.
pub lines_bounded :
    {n : ℕ} {s : System}
    → Runs n initial s
    → (i : ℕ) → lines i s.mem.printed ≤ 11 + s.mem.spurious i
lines_bounded r i = let v = Runs-Inv r in omega (arith, v.printing i, v.calling)
