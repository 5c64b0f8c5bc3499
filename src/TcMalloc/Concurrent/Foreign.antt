-- ===== src/TcMalloc/Concurrent/Foreign.antt =====
-- `ConCurrentFree` by a thread that has no thread cache.
use mylittle_code_house.Base.{
  ℕ, ◌*◌, ◌/◌, ◌≤◌, ◌<◌, ◌≡◌, ◌≢◌, arith, false, some, err, segfault, null, ne→not-==, le→not-ltb,
  Returns-value, lt→ltb,
}
use mylittle_code_house.TcMalloc.ClassSize.Buckets.{index-round_up}
use mylittle_code_house.TcMalloc.State.{State}
use mylittle_code_house.TcMalloc.PageCache.Mapping.{map_to_span-found, load-ok}
use mylittle_code_house.TcMalloc.ThreadCache.{deallocate, load_list}
use mylittle_code_house.TcMalloc.Concurrent.{free, read_tls}

deallocate-null :
    (fuel a size : ℕ) (s : State)
    → a ≢ null
    → 0 < size
    → size ≤ 253952
    → deallocate fuel null a size s ≡ err segfault
unfolding deallocate load_list
deallocate-null fuel a size s ne positive small =
    let (i, e, h) = Returns-value (index-round_up size positive small) in
    rw (ne→not-== a null ne, lt→ltb size (256 * 1024) (omega arith), e)

-- ConCurrentFree of a block of 1 byte to 248 KB, at an address that is not null, whose page is
-- entered for a span, with the page cache lock free, faults when the calling thread has no thread
-- cache.
pub free-foreign :
    (fuel t a p : ℕ) (s : State)
    → a ≢ null
    → p ≢ null
    → s.pages.locked ≡ false
    → s.pages.span_map (a / 8192) ≡ some p
    → 0 < (s.spans p).obj_size
    → (s.spans p).obj_size ≤ 253952
    → s.tls t ≡ null
    → free fuel t a s ≡ err segfault
unfolding free read_tls
free-foreign fuel t a p s ne span_ne unlocked found positive small none_yet =
    rw
      (
        map_to_span-found s a p unlocked found,
        load-ok _ p span_ne,
        ne→not-== a null ne,
        le→not-ltb (256 * 1024) (s.spans p).obj_size (omega arith),
        none_yet,
      )
      (deallocate-null fuel a (s.spans p).obj_size _ ne positive small)
