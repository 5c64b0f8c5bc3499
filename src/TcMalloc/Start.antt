-- ===== src/TcMalloc/Start.antt =====
-- A state to run the allocator from.
use mylittle_code_house.Base.{◌+◌, ◌*◌, true, false, none, null}
use mylittle_code_house.TcMalloc.SpanList.{fresh_span}
use mylittle_code_house.TcMalloc.FreeList.{fresh_list}
use mylittle_code_house.TcMalloc.ObjectPool.{empty_pool}
use mylittle_code_house.TcMalloc.State.{State}

-- All lists empty: list heads from 1 on for the page cache, from 1001 on for the central cache.
abbrev pub start_state : State
start_state = record {
  words = λ _. 0;
  spans = λ p. record fresh_span { next = p; prev = p };
  os = record { top = 1024 * 8192; grants = λ _. true };
  pages = record { lists = λ k. k + 1; span_map = λ _. none; pool = empty_pool; locked = false };
  central = record { lists = λ i. i + 1001; locked = λ _. false };
  caches = λ _ _. fresh_list;
  tls = λ _. null;
  tls_pool = empty_pool;
  fresh = λ k. 5000 + k;
  news = 0;
}
