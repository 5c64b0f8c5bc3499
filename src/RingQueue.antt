-- ===== src/RingQueue.antt =====
-- 循环队列版生产者消费者模型/RingQueue.hpp and Sem.hpp: a ring of five places between producers and
-- consumers, guarded by two semaphores and a mutex for each side.
pub mod Threads
pub mod Invariant
pub mod Sums
pub mod Push
pub mod Pop
pub mod Moves
pub mod Fifo
mod Tests
use mylittle_code_house.Base.{
  ℕ, ◌+◌, ◌-◌, ◌%◌, Bool, true, false, List, get_or, set, replicate, update,
}

abbrev pub g_default_num : ℕ
g_default_num = 5

-- `RQ<T>`. The constructor ignores its argument: each size is `g_default_num`.
pub record RingQueue (A : Type 0) : Type 0 where
  pub rq : List A
  pub capacity : ℕ
  pub space_sem : ℕ
  pub data_sem : ℕ
  pub cstep : ℕ
  pub pstep : ℕ
  pub cmutex : Bool
  pub pmutex : Bool

-- `pthread_mutex_lock` of a mutex that is free
module _ {A : Type 0} where
  abbrev pub lock_pmutex : RingQueue A → RingQueue A
  lock_pmutex q = record q { pmutex = true }

  abbrev pub lock_cmutex : RingQueue A → RingQueue A
  lock_cmutex q = record q { cmutex = true }

-- `junk` is the value of `T()`, with which `vector<T>` fills its places.
module _ {A : Type 0} (junk : A) where
  abbrev pub init : ℕ → RingQueue A
  init default_num = record {
    rq = replicate g_default_num junk;
    capacity = g_default_num;
    space_sem = g_default_num;
    data_sem = 0;
    cstep = 0;
    pstep = 0;
    cmutex = false;
    pmutex = false;
  }

  -- `rq_[pstep_++] = in`, in two parts: the index moves on, then its old value `p` is the place
  -- written to.
  unfoldable pub bump_pstep : RingQueue A → RingQueue A
  bump_pstep q = record q { pstep = q.pstep + 1 }

  unfoldable pub put : RingQueue A → ℕ → A → RingQueue A
  put q p x = record q { rq = set q.rq p x }

  -- `pstep_ %= capacity_`
  unfoldable pub wrap_pstep : RingQueue A → RingQueue A
  wrap_pstep q = record q { pstep = q.pstep % q.capacity }

  -- `*out = rq_[cstep_++]`, in the same two parts
  unfoldable pub bump_cstep : RingQueue A → RingQueue A
  bump_cstep q = record q { cstep = q.cstep + 1 }

  unfoldable pub take_out : RingQueue A → ℕ → A
  take_out q c = get_or q.rq c junk

  -- `cstep_ %= capacity_`
  unfoldable pub wrap_cstep : RingQueue A → RingQueue A
  wrap_cstep q = record q { cstep = q.cstep % q.capacity }
