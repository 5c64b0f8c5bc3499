-- ===== src/TcMalloc/PageCache.antt =====
-- `PageCache` of TCmalloc/TCmallocSRC/PageCache.hpp: spans of 1 to 128 pages, by their length.
pub mod Mapping
pub mod Assign
pub mod Buckets
pub mod Split
pub mod Divide
pub mod Halve
pub mod Search
pub mod Grow
pub mod Supply
pub mod Provide
pub mod Relocked
pub mod Merge
pub mod Release
mod Tests
use mylittle_code_house.Base.{
  ℕ, zero, suc, ◌-◌, ◌+◌, ◌^◌, Bool, false, not, ◌&&◌, ◌||◌, Option, none, some, ok, err,
  out_of_fuel, assert_failed, ltb, leb, ◌==◌, if◌then◌else◌, add64, sub64, shl64, shr64, update,
}
use mylittle_code_house.TcMalloc.ClassSize.{npages, page_shift}
use mylittle_code_house.TcMalloc.SpanList
use mylittle_code_house.TcMalloc.SpanList.{Span, fresh_span}
use mylittle_code_house.TcMalloc.Os.{system_alloc, system_free}
use mylittle_code_house.TcMalloc.ObjectPool
use mylittle_code_house.TcMalloc.State.{
  State, Pages, M, pure, fail, ◌>>=◌, ◌>>◌, assert, get, reading, on_spans, lock_pages,
  unlock_pages, map_page, page_list, span_cells,
}

abbrev pub max_pages : ℕ
max_pages = npages - 1

-- `SystemAlloc`, on the state's break
unfoldable pub alloc_pages : ℕ → M ℕ
alloc_pages k = do
  s ← get
  (p, os) ← reading (λ s. system_alloc s.os k)
  λ s. ok (p, record s { os = os })

unfoldable pub free_pages : ℕ → M (Unit {0})
free_pages p s = ok (tt, record s { os = system_free s.os p })

-- `new Span`
unfoldable pub new_span_object : M ℕ
new_span_object s =
    let p = s.fresh s.news in
    ok (p, record s { spans = update s.spans p fresh_span; news = s.news + 1 })

-- `_objPool.New()` and `_objPool.Delete(p)`
unfoldable pub pool_new : M ℕ
pool_new = do
  (p, sp, pool, os) ← reading (λ s. ObjectPool.new span_cells s.spans s.pages.pool s.os)
  λ s. ok (p, record s { spans = sp; os = os; pages = record (s.pages) { pool = pool } })

unfoldable pub pool_delete : ℕ → M (Unit {0})
pool_delete p = do
  (sp, pool) ← reading (λ s. ObjectPool.delete span_cells s.spans s.pages.pool p)
  λ s. ok (tt, record s { spans = sp; pages = record (s.pages) { pool = pool } })

unfoldable pub load : ℕ → M Span
load p = reading (λ s. SpanList.load s.spans p)

unfoldable pub modify : ℕ → (Span → Span) → M (Unit {0})
modify p f = on_spans (λ sp. SpanList.modify sp p f)

abbrev pub with_pages : ℕ → ℕ → Span → Span
with_pages n id s = record s { n = n; id = id }

-- `for (i = 0; i < n; i++) _spanMap[id + i] = p`
unfoldable pub map_pages : ℕ → ℕ → ℕ → M (Unit {0})
map_pages zero id p = pure tt
map_pages (suc k) id p = do map_page id p; map_pages k (add64 id 1) p

unfoldable pub map_span : ℕ → M (Unit {0})
map_span p = do at ← load p; map_pages at.n at.id p

-- The branch for more than 128 pages, straight from the system.
unfoldable pub new_large_span : ℕ → M ℕ
new_large_span n = do
  p ← alloc_pages n
  span ← new_span_object
  modify span (λ s. record s { id = shr64 p page_shift; n = n })
  map_page (shr64 p page_shift) span
  modify span (λ s. record s { obj_size = shl64 n page_shift })
  pure span

-- The assignments that give the first `n` pages of `curr` to `ret`; `curr` as it was.
unfoldable pub divide : ℕ → ℕ → ℕ → M Span
divide curr ret n = do
  modify ret (λ s. record s { n = n })
  at ← load curr
  modify ret (λ s. record s { id = at.id })
  modify curr (λ s. record s { n = sub64 at.n n; id = add64 at.id n })
  pure at

-- The first span of a longer bucket cut in two: the front is returned, the rest goes back.
unfoldable pub split_span : ℕ → ℕ → M ℕ
split_span list n = do
  curr ← (do
    (p, sp) ← reading (λ s. SpanList.pop_front s.spans list)
    λ s. ok (p, record s { spans = sp }))
  ret ← pool_new
  at ← divide curr ret n
  map_page (add64 at.id n) curr
  map_page (sub64 (add64 (add64 at.id n) (sub64 at.n n)) 1) curr
  rest ← page_list (sub64 at.n n)
  on_spans (λ sp. SpanList.push_front sp rest curr)
  map_span ret
  pure ret

-- `for (step = npages + 1; step < NPAGES; step++)`, with `k` rounds left.
unfoldable pub search_longer : ℕ → ℕ → ℕ → M (Option ℕ)
search_longer zero step n = pure none
search_longer (suc k) step n =
    let later = search_longer k (step + 1) n in
    do
      list ← page_list step
      e ← reading (λ s. SpanList.is_empty s.spans list)
      if e then later else (do p ← split_span list n; pure (some p))

-- The largest span, fetched from the system into its bucket.
unfoldable pub grow : M (Unit {0})
grow = do
  span ← pool_new
  p ← alloc_pages max_pages
  modify span (λ s. record s { n = max_pages })
  modify span (λ s. record s { id = shr64 p page_shift })
  list ← page_list max_pages
  on_spans (λ sp. SpanList.push_front sp list span)

unfoldable pub new_span : ℕ → ℕ → M ℕ
new_span zero n = fail out_of_fuel
new_span (suc fuel) n =
    let again = new_span fuel n in
    let longer = search_longer (max_pages - n) (n + 1) n in
    if ltb max_pages n then new_large_span n else (do
      assert (ltb 0 n && leb n max_pages)
      list ← page_list n
      e ← reading (λ s. SpanList.is_empty s.spans list)
      if not e
          then (do
            p ← (do
              (p, sp) ← reading (λ s. SpanList.pop_front s.spans list)
              λ s. ok (p, record s { spans = sp }))
            map_span p
            pure p)
          else (do found ← longer; elim found [ some p ↦ pure p | none ↦ (do grow; again) ]))

unfoldable pub find_page : ℕ → M (Option ℕ)
find_page id s = ok (s.pages.span_map id, s)

-- `MapToSpan`, under its own lock
unfoldable pub map_to_span : ℕ → M ℕ
map_to_span target = do
  lock_pages
  found ← find_page (shr64 target page_shift)
  elim found [ some p ↦ (do unlock_pages; pure p) | none ↦ fail assert_failed ]

-- The first loop of `ReleaseSpanToPageCache`.
unfoldable pub merge_back : ℕ → ℕ → M (Unit {0})
merge_back zero span = fail out_of_fuel
merge_back (suc fuel) span =
    let again = merge_back fuel span in
    do
      at ← load span
      found ← find_page (sub64 at.id 1)
      elim found [
        | none ↦ pure tt
        | some p ↦ (do
          other ← load p
          if other.is_use || ltb max_pages (add64 other.n at.n) then pure tt else (do
            modify span (λ s. record s { n = add64 at.n other.n; id = other.id })
            list ← page_list other.n
            on_spans (λ sp. SpanList.erase sp p)
            pool_delete p
            again))
      ]

-- The second loop; the page that it looks up is `_id + n - 1`.
unfoldable pub merge_forward : ℕ → ℕ → M (Unit {0})
merge_forward zero span = fail out_of_fuel
merge_forward (suc fuel) span =
    let again = merge_forward fuel span in
    do
      at ← load span
      found ← find_page (sub64 (add64 at.id at.n) 1)
      elim found [
        | none ↦ pure tt
        | some p ↦ (do
          other ← load p
          if other.is_use || ltb max_pages (add64 other.n at.n) then pure tt else (do
            modify span (λ s. record s { n = add64 at.n other.n })
            list ← page_list other.n
            on_spans (λ sp. SpanList.erase sp p)
            pool_delete p
            again))
      ]

-- At most 128 pages are merged, a page or more at a time.
abbrev pub merge_fuel : ℕ
merge_fuel = 129

-- The tail of `ReleaseSpanToPageCache`, behind the two loops.
unfoldable pub put_back : ℕ → M (Unit {0})
put_back span = do
  at ← load span
  list ← page_list at.n
  on_spans (λ sp. SpanList.push_front sp list span)
  modify span (λ s. record s { is_use = false })
  map_page at.id span
  map_page (sub64 (add64 at.id at.n) 1) span

unfoldable pub release_span : ℕ → M (Unit {0})
release_span span = do
  at ← load span
  if ltb max_pages at.n
      then free_pages (shl64 at.id page_shift)
      else (do merge_back merge_fuel span; merge_forward merge_fuel span; put_back span)
