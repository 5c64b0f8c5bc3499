-- ===== src/TcMalloc/ObjectPool/Recycle.antt =====
-- What a pool hands out: recycled objects first, else the next piece of its chunk.
use mylittle_code_house.Base.{
  ℕ, ◌+◌, ◌*◌, ◌≤◌, ◌<◌, ◌≡◌, ◌≢◌, refl, arith, ok, Returns, returns, u64_mod, null, ltb,
  if◌then◌else◌, ◌>>=◌, ne→not-==, Bool-cases, inl, inr, not-ltb→le,
}
use mylittle_code_house.TcMalloc.Os.{Os, system_alloc}
use mylittle_code_house.TcMalloc.ObjectPool.{Cells, Pool, delete, refill, new}

module _ {S : Type 0} (c : Cells S) where
  open c use {poke, construct, size_of, peek-poke}

  -- New after Delete of an object that is not null hands out that object and restores the pool;
  -- it runs no constructor, so but for its first word the object is as it was given back.
  pub new-delete :
      (s : S) (pool : Pool) (os : Os) (obj : ℕ)
      → obj ≢ null
      → (delete c s pool obj >>= λ (s', pool'). new c s' pool' os)
        ≡ ok (obj, poke s obj pool.freelist, pool, os)
  unfolding delete new
  new-delete s pool os obj ne = rw (ne→not-== obj null ne, ne→not-== obj null ne, peek-poke)

  -- With nothing to recycle and no wrap, New of an object of 8 bytes to 128 KB constructs it at
  -- the front of the chunk, a fresh chunk if the rest is too small; the object lies inside the
  -- chunk and what is left lies behind it.
  pub new-inside :
      (s : S) (pool : Pool) (os : Os)
      → pool.freelist ≡ null
      → 8 ≤ size_of
      → size_of ≤ 1024 * 128
      → pool.memory + pool.remain < u64_mod
      → os.top ≢ null
      → os.top + 1024 * 128 < u64_mod
      → Returns
          (λ (r : ℕ × S × Pool × Os).
            (r.0 ≡ (if ltb pool.remain size_of then os.top else pool.memory))
            × (r.1 ≡ construct s r.0)
            × (r.2.memory ≡ r.0 + size_of)
            × (r.2.memory + r.2.remain ≡ (
                if ltb pool.remain size_of
                then os.top + 1024 * 128
                else pool.memory + pool.remain)))
          (new c s pool os)
  unfolding new refill system_alloc
  new-inside s pool os none_free big small room top fits =
      elim (Bool-cases (ltb pool.remain size_of)) [
        | inl short ↦
            rw (none_free, short, ne→not-== os.top null top, ne→not-== os.top null top)
              (returns (refl, refl, omega arith, omega arith))
        | inr enough ↦
            let fits' = not-ltb→le pool.remain size_of enough in
            rw (none_free, enough) (returns (refl, refl, omega arith, omega arith))
      ]
