-- ===== src/TcMalloc/ThreadCache.antt =====
-- `ThreadCache` of TCmalloc/TCmallocSRC/ThreadCache.hpp: a thread's own free lists.
pub mod Balance
pub mod Reuse
pub mod Refill
pub mod First
pub mod Overflow
mod Tests
use mylittle_code_house.Base.{
  ℕ, Bool, not, ok, err, segfault, out_of_bounds, Result, ltb, leb, ◌==◌, if◌then◌else◌, add64,
  sub64, null, update, min,
}
use mylittle_code_house.TcMalloc.ClassSize.{round_up, index, num_move_size, max_bytes, max_listnode}
use mylittle_code_house.TcMalloc.Memory.{Words, get_next}
use mylittle_code_house.TcMalloc.FreeList
use mylittle_code_house.TcMalloc.FreeList.{FreeList}
use mylittle_code_house.TcMalloc.State.{State, M, pure, ◌>>=◌, ◌>>◌, assert, reading}
use mylittle_code_house.TcMalloc.CentralCache.{fetch_range, release_back}

-- `_freelists[i]` of the cache at `c`, read and written.
unfoldable pub load_list : ℕ → ℕ → M FreeList
load_list c i s =
    if c == null
    then err segfault
    else if ltb i max_listnode
    then ok (s.caches c i, s)
    else err out_of_bounds

unfoldable pub store_list : ℕ → ℕ → FreeList → M (Unit {0})
store_list c i l s = ok (tt, record s { caches = update s.caches c (update (s.caches c) i l) })

abbrev pub set_words : Words → M (Unit {0})
set_words w s = ok (tt, record s { words = w })

-- The batch, and the list with the slow start's next limit.
abbrev pub next_batch : FreeList → ℕ → ℕ × FreeList
next_batch l size =
    let batch = min l.max_size (num_move_size size) in
    (batch, if l.max_size == batch then record l { max_size = add64 l.max_size 1 } else l)

-- The first block of a batch is returned, and the others go to the list.
unfoldable pub keep_batch : ℕ → ℕ → FreeList → ℕ × ℕ × ℕ → M ℕ
keep_batch c i l (start, end, actual) = do
  assert (ltb 0 actual)
  if actual == 1 then (do assert (start == end); pure start) else (do
    after ← reading (λ s. get_next s.words start)
    (w, pushed) ← reading (λ s. FreeList.push_range s.words l after end (sub64 actual 1))
    set_words w
    store_list c i pushed
    pure start)

unfoldable pub get_batch : ℕ → ℕ → ℕ → ℕ → M ℕ
get_batch fuel c size i = do
  assert (ltb size max_bytes)
  l ← load_list c i
  let (batch, grown) = next_batch l size
  store_list c i grown
  fetched ← fetch_range fuel batch size
  keep_batch c i grown fetched

unfoldable pub allocate : ℕ → ℕ → ℕ → M ℕ
allocate fuel c size = do
  assert (leb size max_bytes)
  i ← reading (λ _. index (round_up size))
  assert (ltb (round_up size) max_bytes)
  l ← load_list c i
  if not (FreeList.is_empty l)
      then (do (p, rest) ← reading (λ s. FreeList.pop s.words l); store_list c i rest; pure p)
      else get_batch fuel c (round_up size) i

unfoldable pub list_too_long : ℕ → ℕ → ℕ → ℕ → M (Unit {0})
list_too_long fuel c i size = do
  l ← load_list c i
  (w, rest, start, end) ← reading (λ s. FreeList.pop_range s.words l l.max_size)
  set_words w
  store_list c i rest
  release_back fuel start size

unfoldable pub deallocate : ℕ → ℕ → ℕ → ℕ → M (Unit {0})
deallocate fuel c p size = do
  assert (not (p == null))
  assert (ltb size max_bytes)
  i ← reading (λ _. index (round_up size))
  l ← load_list c i
  (w, pushed) ← reading (λ s. FreeList.push s.words l p)
  set_words w
  store_list c i pushed
  if leb pushed.max_size pushed.size then list_too_long fuel c i (round_up size) else pure tt
