-- ===== src/TcMalloc/Concurrent.antt =====
-- `ConCurrentAlloc` and `ConCurrentFree` of TCmalloc/TCmallocSRC/Concurrentalloc.hpp.
pub mod Foreign
use mylittle_code_house.Base.{
  ℕ, Bool, true, not, ok, ltb, ◌==◌, if◌then◌else◌, shl64, shr64, null, update,
}
use mylittle_code_house.TcMalloc.ClassSize.{round_up, max_bytes, page_shift}
use mylittle_code_house.TcMalloc.ObjectPool
use mylittle_code_house.TcMalloc.State.{
  State, M, pure, ◌>>=◌, ◌>>◌, assert, get, reading, lock_pages, unlock_pages, cache_cells,
}
use mylittle_code_house.TcMalloc.PageCache.{load, modify, new_span, map_to_span, release_span}
use mylittle_code_house.TcMalloc.CentralCache.{new_span_fuel}
use mylittle_code_house.TcMalloc.ThreadCache.{allocate, deallocate}

-- `pTLSthreadcahe` of thread `t`
unfoldable pub read_tls : ℕ → M ℕ
read_tls t s = ok (s.tls t, s)

-- `pTLSthreadcahe = TLSPool.New()`
unfoldable pub new_cache : ℕ → M (Unit {0})
new_cache t = do
  (c, caches, pool, os) ← reading (λ s. ObjectPool.new cache_cells s.caches s.tls_pool s.os)
  λ s. ok (tt, record s { caches = caches; tls_pool = pool; os = os; tls = update s.tls t c })

unfoldable pub alloc_large : ℕ → M ℕ
alloc_large size = do
  lock_pages
  span ← new_span new_span_fuel (shr64 (round_up size) page_shift)
  modify span (λ s. record s { obj_size = size })
  modify span (λ s. record s { is_use = true })
  unlock_pages
  at ← load span
  pure (shl64 at.id page_shift)

-- A call by thread `t`.
unfoldable pub alloc : ℕ → ℕ → ℕ → M ℕ
alloc fuel t size = if ltb max_bytes size then alloc_large size else (do
  c ← read_tls t
  if c == null then new_cache t else pure tt
  c ← read_tls t
  allocate fuel c size)

unfoldable pub free : ℕ → ℕ → ℕ → M (Unit {0})
free fuel t p = do
  span ← map_to_span p
  at ← load span
  assert (not (p == null))
  if ltb max_bytes at.obj_size
      then (do lock_pages; release_span span; unlock_pages)
      else (do c ← read_tls t; deallocate fuel c p at.obj_size)
