-- ===== src/TcMalloc/ObjectPool.antt =====
-- `ObjectPool<T>` of TCmalloc/TCmallocSRC/ObjectPool.hpp: objects of one type, cut from chunks of
-- 128 KB and recycled through a free list in their first words.
pub mod Recycle
mod Tests
use mylittle_code_house.Base.{
  ℕ, ◌+◌, ◌*◌, ◌≡◌, Result, ok, err, segfault, bad_alloc, ◌>>=◌, ◌>>◌, ltb, ◌==◌, not,
  if◌then◌else◌, add64, sub64, shr64, null, max,
}
use mylittle_code_house.TcMalloc.ClassSize.{page_shift}
use mylittle_code_house.TcMalloc.Os.{Os, system_alloc}

-- The objects of type `T` in a store `S`: `GetNext` on one, and the effect of `new (obj) T`.
-- Neither type that the program pools has a destructor that does anything.
pub record Cells (S : Type 0) : Type 0 where
  pub peek : S → ℕ → ℕ
  pub poke : S → ℕ → ℕ → S
  pub construct : S → ℕ → S
  pub size_of : ℕ
  pub peek-poke : (s : S) (p v : ℕ) → peek (poke s p v) p ≡ v

pub record Pool : Type 0 where
  pub memory : ℕ
  pub freelist : ℕ
  pub remain : ℕ

abbrev pub empty_pool : Pool
empty_pool = record { memory = null; freelist = null; remain = 0 }

module _ {S : Type 0} (c : Cells S) where
  unfoldable pub delete : S → Pool → ℕ → Result (S × Pool)
  delete s pool obj =
      if obj == null
      then err segfault
      else ok (c.poke s obj pool.freelist, record pool { freelist = obj })

  -- The chunk that the next object comes from.
  unfoldable pub refill : Pool → Os → Result (Pool × Os)
  refill pool os =
      if ltb pool.remain c.size_of
      then (do
        (memory, os) ← system_alloc os (shr64 (1024 * 128) page_shift)
        if memory == null
            then err bad_alloc
            else ok (record pool { memory = memory; remain = 1024 * 128 }, os))
      else ok (pool, os)

  unfoldable pub new : S → Pool → Os → Result (ℕ × S × Pool × Os)
  unfolding refill
  new s pool os =
      if not (pool.freelist == null)
      then ok (pool.freelist, s, record pool { freelist = c.peek s pool.freelist }, os)
      else (do
        (pool, os) ← refill pool os
        let newsize = max c.size_of 8
        ok (
          pool.memory,
          c.construct s pool.memory,
          record pool { memory = add64 pool.memory newsize; remain = sub64 pool.remain newsize },
          os,
        ))
