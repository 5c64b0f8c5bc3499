-- ===== src/BlockingQueue.antt =====
-- 生产者消费者模型/BlockingQueue.hpp: a bounded queue between producers and consumers, guarded by
-- one mutex and two condition variables.
pub mod Threads
pub mod Invariant
pub mod Moves
pub mod Wakeups
pub mod Safety
pub mod Progress
mod Tests
use mylittle_code_house.Base.{ℕ, Bool, false, Option, none, some, List, [], ◌∷◌, ◌++◌, ◌==◌, length}

abbrev pub g_defalut_capacity : ℕ
g_defalut_capacity = 10

-- `bq_`, `capacity_` and `mutex_`. Who waits on `full_` or `empty_` is in the threads' places.
pub record BlockingQueue (A : Type 0) : Type 0 where
  pub bq : List A
  pub capacity : ℕ
  pub mutex : Bool

module _ {A : Type 0} where
  abbrev pub init : ℕ → BlockingQueue A
  init capacity = record { bq = []; capacity = capacity; mutex = false }

  unfoldable pub is_empty : BlockingQueue A → Bool
  is_empty q = length q.bq == 0

  unfoldable pub is_full : BlockingQueue A → Bool
  is_full q = length q.bq == q.capacity

  -- `bq_.push(in)`
  unfoldable pub enqueue : BlockingQueue A → A → BlockingQueue A
  enqueue q x = record q { bq = q.bq ++ x ∷ [] }

  -- `*out = bq_.front(); bq_.pop();`, undefined on the empty queue
  unfoldable pub dequeue : BlockingQueue A → Option (A × BlockingQueue A)
  dequeue q = elim q.bq [ [] ↦ none | x ∷ xs ↦ some (x, record q { bq = xs }) ]
