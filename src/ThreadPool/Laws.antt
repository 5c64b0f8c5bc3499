-- ===== src/ThreadPool/Laws.antt =====
-- The singleton, and the order of the tasks.
use mylittle_code_house.Base.{
  ℕ, ◌≡◌, arith, false, none, some, List, [], ◌∷◌, ◌++◌, ok, err, deadlock, ◌>>=◌,
}
use mylittle_code_house.ThreadPool.{Pool, Statics, get_thread_pool, make_pool, push_task, take_task}

-- As long as there is no pool, every call of getThreadPool ends in a deadlock, whatever the state
-- of its lock and the number of threads.
pub get_thread_pool-deadlock :
    {T : Type 0} (n : ℕ) (s : Statics T) → s.thread_pool ≡ none → get_thread_pool n s ≡ err deadlock
unfolding get_thread_pool make_pool
get_thread_pool-deadlock n s h = ground arith

-- On a pool with its lock free, taking a task after a push gives the oldest task, the pushed one
-- if there was none, and leaves the others in order with the lock free.
pub take_task-push_task :
    {T : Type 0} (p : Pool T) (x t : T) (rest : List T)
    → p.mutex ≡ false
    → p.taskq ++ x ∷ [] ≡ t ∷ rest
    → (push_task p x >>= take_task) ≡ ok (some t, record p { taskq = rest; mutex = false })
unfolding push_task take_task
take_task-push_task p x t rest free e = rw (free, e)
