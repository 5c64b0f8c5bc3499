-- ===== src/TcMalloc/CentralCache.antt =====
-- `CentralCache` of TCmalloc/TCmallocSRC/CentralCache.hpp: spans cut into blocks, by block size.
pub mod Carve
pub mod Fetch
pub mod Bucket
pub mod GiveBack
pub mod Restore
pub mod Link
pub mod Supply
pub mod Grow
mod Tests
use mylittle_code_house.Base.{
  ℕ, zero, suc, ◌+◌, ◌^◌, Bool, true, false, not, Option, none, some, Result, ok, err, out_of_fuel,
  ltb, ◌==◌, if◌then◌else◌, add64, sub64, shl64, null, leb,
}
use mylittle_code_house.Base
use mylittle_code_house.TcMalloc.ClassSize.{index, num_move_pages, page_shift}
use mylittle_code_house.TcMalloc.Memory.{Words, get_next, put_next}
use mylittle_code_house.TcMalloc.SpanList
use mylittle_code_house.TcMalloc.State.{
  State, M, pure, fail, ◌>>=◌, ◌>>◌, assert, get, reading, on_spans, on_words, lock_pages,
  unlock_pages, lock_bucket, unlock_bucket, central_list,
}
use mylittle_code_house.TcMalloc.PageCache.{load, modify, new_span, map_to_span, release_span}

-- `while (start != end)`: the first span behind `p` that has a free block.
unfoldable pub find_span : ℕ → ℕ → ℕ → M (Option ℕ)
find_span zero list p = fail out_of_fuel
find_span (suc fuel) list p =
    let later = find_span fuel list in
    if p == list
    then pure none
    else (do at ← load p; if not (at.freelist == null) then pure (some p) else later at.next)

-- `while (_start < _end)`: the blocks from `start` on are linked behind `tail`.
unfoldable pub carve_rest : ℕ → Words → ℕ → ℕ → ℕ → ℕ → Result (Words × ℕ)
carve_rest zero w tail start end size = err out_of_fuel
carve_rest (suc fuel) w tail start end size =
    let stop = ok (w, tail) in
    let go_on = Base.◌>>=◌ (put_next w tail start) (λ w'.
      Base.◌>>=◌ (get_next w' tail)
        (λ tail'. carve_rest fuel w' tail' (add64 start size) end size)) in
    if ltb start end then go_on else stop

-- The `bytes` from `start` on cut into blocks of `size`, linked in order and ended by null.
unfoldable pub carve : ℕ → Words → ℕ → ℕ → ℕ → Result Words
carve fuel w start bytes size =
    Base.◌>>=◌ (carve_rest fuel w start (add64 start size) (add64 start bytes) size)
      (λ (w', tail). put_next w' tail null)

-- A span of up to 2^20 bytes is cut into as many blocks at most.
abbrev pub carve_fuel : ℕ
carve_fuel = 2 ^ 20

-- `NewSpan` calls itself once, after the largest bucket has been filled.
abbrev pub new_span_fuel : ℕ
new_span_fuel = 2

-- A span from the page cache is marked, cut into blocks, and linked into the bucket.
unfoldable pub link_span : ℕ → ℕ → ℕ → ℕ → M ℕ
link_span list i size span = do
  modify span (λ s. record s { is_use = true })
  modify span (λ s. record s { obj_size = size })
  unlock_pages
  at ← load span
  modify span (λ s. record s { freelist = shl64 at.id page_shift })
  on_words (λ w. carve carve_fuel w (shl64 at.id page_shift) (shl64 at.n page_shift) size)
  lock_bucket i
  on_spans (λ sp. SpanList.push_front sp list span)
  pure span

-- `fuel` bounds the length of the bucket's list.
unfoldable pub get_one_span : ℕ → ℕ → ℕ → M ℕ
get_one_span fuel i size = do
  list ← central_list i
  start ← reading (λ s. SpanList.begin s.spans list)
  found ← find_span fuel list start
  elim found [
    | some p ↦ pure p
    | none ↦ (do
      unlock_bucket i
      lock_pages
      span ← new_span new_span_fuel (num_move_pages size)
      link_span list i size span)
  ]

-- `while (i < batchnum - 1 && GetNext(end) != nullptr)`, with `k` rounds left: `end` and
-- `actualnum`.
unfoldable pub fetch_rest : ℕ → Words → ℕ → ℕ → Result (ℕ × ℕ)
fetch_rest zero w end actual = ok (end, actual)
fetch_rest (suc k) w end actual = Base.◌>>=◌ (get_next w end) (λ after.
    let go_on = fetch_rest k w after (add64 actual 1) in
    if after == null then ok (end, actual) else go_on)

-- `start`, `end`, the rest behind `end`, and `actualnum`, with the words after `end` has been
-- ended by null.
unfoldable pub fetch : Words → ℕ → ℕ → Result (Words × ℕ × ℕ × ℕ)
fetch w start batch = Base.◌>>=◌ (fetch_rest (sub64 batch 1) w start 1) (λ (end, actual).
    Base.◌>>=◌ (get_next w end)
      (λ rest. Base.◌>>=◌ (put_next w end null) (λ w'. ok (w', end, rest, actual))))

-- The blocks for a batch, taken from the span that was found, and the bucket's lock given back.
unfoldable pub hand_out : ℕ → ℕ → ℕ → M (ℕ × ℕ × ℕ)
hand_out batch i span = do
  assert (not (span == null))
  at ← load span
  assert (not (at.freelist == null))
  (w, end, rest, actual) ← reading (λ s. fetch s.words at.freelist batch)
  modify span (λ s. record s { freelist = rest; use_count = add64 at.use_count actual })
  (λ s. ok (tt, record s { words = w }))
  unlock_bucket i
  pure (at.freelist, end, actual)

-- `FetchRangObj`: `start`, `end` and the number of blocks.
unfoldable pub fetch_range : ℕ → ℕ → ℕ → M (ℕ × ℕ × ℕ)
fetch_range fuel batch size = do
  i ← reading (λ _. index size)
  lock_bucket i
  span ← get_one_span fuel i size
  hand_out batch i span

-- One block goes back to its span, and the span to the page cache when it was the last.
unfoldable pub release_block : ℕ → ℕ → M (Unit {0})
release_block i block = do
  span ← map_to_span block
  at ← load span
  on_words (λ w. put_next w block at.freelist)
  modify span (λ s. record s { freelist = block; use_count = sub64 at.use_count 1 })
  if sub64 at.use_count 1 == 0
      then (do
        on_spans (λ sp. SpanList.erase sp span)
        modify span (λ s. record s { freelist = null; next = null; prev = null })
        unlock_bucket i
        lock_pages
        release_span span
        unlock_pages
        lock_bucket i)
      else pure tt

-- `while (start != nullptr)`
unfoldable pub release_blocks : ℕ → ℕ → ℕ → M (Unit {0})
release_blocks zero i start = fail out_of_fuel
release_blocks (suc fuel) i start =
    let later = release_blocks fuel i in
    if start == null
    then pure tt
    else (do after ← reading (λ s. get_next s.words start); release_block i start; later after)

-- `ReleaseBackSpan`; `fuel` exceeds the number of blocks.
unfoldable pub release_back : ℕ → ℕ → ℕ → M (Unit {0})
release_back fuel start size = do
  i ← reading (λ _. index size)
  lock_bucket i
  release_blocks fuel i start
  unlock_bucket i
