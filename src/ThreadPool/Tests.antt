-- ===== src/ThreadPool/Tests.antt =====
-- The first call for a pool, and a pool with one waiting task.
use mylittle_code_house.Base.{ℕ, ◌≡◌, refl, false, none, [], ◌∷◌, err, deadlock}
use mylittle_code_house.ThreadPool.{Pool, Statics, get_thread_pool}
use mylittle_code_house.ThreadPool.Laws.{get_thread_pool-deadlock}

abbrev unmade : Statics ℕ
unmade = record { thread_pool = none; tmutex = false }

get_thread_pool-deadlock_example : get_thread_pool 5 unmade ≡ err deadlock
get_thread_pool-deadlock_example = get_thread_pool-deadlock 5 unmade refl

abbrev waiting : Pool ℕ
waiting = record { threads = 1 ∷ []; nums = 1; taskq = 40 ∷ []; mutex = false }
