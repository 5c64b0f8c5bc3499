-- ===== src/ThreadPool.antt =====
-- 线程池/ThreadPool.hpp and LockGuard.hpp: one pool of threads over one queue of tasks.
pub mod Laws
mod Tests
use mylittle_code_house.Base.{
  ℕ, zero, suc, ◌+◌, Bool, true, false, Option, none, some, List, [], ◌∷◌, ◌++◌, Result, ok, err,
  deadlock, segfault, ◌>>=◌, ◌>>◌, if◌then◌else◌,
}

-- The names of the threads, by their numbers, and the queue with its lock.
pub record Pool (T : Type 0) : Type 0 where
  pub threads : List ℕ
  pub nums : ℕ
  pub taskq : List T
  pub mutex : Bool

-- The static members `pthreadpool` and `tmutex`.
pub record Statics (T : Type 0) : Type 0 where
  pub thread_pool : Option (Pool T)
  pub tmutex : Bool

-- `pthread_mutex_lock`: a normal mutex that its owner locks again is waited for without end.
abbrev pub lock : Bool → Result Bool
lock true = err deadlock
lock false = ok true

-- `for (i = 1; i <= nums_; i++) TP_.push_back(new Thread(i, ...))`
unfoldable pub number_from : ℕ → ℕ → List ℕ
number_from zero i = []
number_from (suc k) i = i ∷ number_from k (i + 1)

module _ {T : Type 0} where
  unfoldable pub construct : ℕ → Pool T
  construct n = record { threads = number_from n 1; nums = n; taskq = []; mutex = false }

  -- The pool made under the lock, if it is still missing; `tmutex` is locked once more there.
  unfoldable pub make_pool : ℕ → Statics T → Result (Statics T)
  make_pool n s = elim s.thread_pool [
    | some p ↦ ok s
    | none ↦ (do
      held ← lock s.tmutex
      ok (record s { thread_pool = some (construct n); tmutex = held }))
  ]

  unfoldable pub get_thread_pool : ℕ → Statics T → Result (Statics T)
  get_thread_pool n s = elim s.thread_pool [
    | some p ↦ ok s
    | none ↦ (do
      held ← lock s.tmutex
      s' ← make_pool n (record s { tmutex = held })
      ok (record s' { tmutex = false }))
  ]

  -- `LockGuard` holds the lock for the block, and its destructor gives it back.
  unfoldable pub push_task : Pool T → T → Result (Pool T)
  push_task p task = do
    held ← lock p.mutex
    let p' = record p { taskq = p.taskq ++ task ∷ []; mutex = held }
    ok (record p' { mutex = false })

  -- One round of `routine` up to the call of the task; `none` while the thread waits.
  unfoldable pub take_task : Pool T → Result (Option T × Pool T)
  take_task p = do
    held ← lock p.mutex
    elim p.taskq [
      | [] ↦ ok (none, record p { mutex = false })
      | task ∷ rest ↦ ok (some task, record p { taskq = rest; mutex = false })
    ]
