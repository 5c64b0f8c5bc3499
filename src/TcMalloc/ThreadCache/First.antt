-- ===== src/TcMalloc/ThreadCache/First.antt =====
-- `Allocate` of a class that no thread has a block of: the page cache provides a span.
use mylittle_code_house.Base.{ℕ, ◌*◌, ◌≡◌, true, List, ◌∷◌, update}
use mylittle_code_house.TcMalloc.ClassSize.{num_move_pages}
use mylittle_code_house.TcMalloc.FreeList
use mylittle_code_house.TcMalloc.State.{State}
use mylittle_code_house.TcMalloc.CentralCache.Carve.{cuts, block_count}
use mylittle_code_house.TcMalloc.CentralCache.Bucket.{with_bucket}
use mylittle_code_house.TcMalloc.CentralCache.Supply.{Cut}
use mylittle_code_house.TcMalloc.ThreadCache.{next_batch}
use mylittle_code_house.TcMalloc.ThreadCache.Refill.{Refilled}

-- The state in which the thread's list has its next limit.
abbrev pub raised : State → ℕ → ℕ → ℕ → State
raised s c i size = record s {
  caches = update s.caches c (update (s.caches c) i (next_batch (s.caches c i) size).1);
}

-- A span was cut into blocks of `size` bytes, which gives the state `t`; the first block is
-- returned, and more of its blocks fill the thread's list.
pub record First (s : State) (c i size : ℕ) (ys : List ℕ) (x id count : ℕ) (r : ℕ × State)
    : Type 0 where
  pub state : State
  pub cut : Cut (with_bucket (raised s c i size) i true) i size ys x id count (x, state)
  pub address : r.0 ≡ id * 8192
  pub filled :
      Refilled
        (record state { caches = s.caches })
        c
        i
        x
        size
        (x ∷ ys)
        (cuts (block_count (num_move_pages size * 8192) size) (id * 8192) size)
        r
