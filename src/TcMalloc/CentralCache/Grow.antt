-- ===== src/TcMalloc/CentralCache/Grow.antt =====
-- `FetchRangObj` on a bucket without free blocks: it hands out blocks of a span that has been cut.
use mylittle_code_house.Base.{
  ℕ, zero, suc, ◌+◌, ◌*◌, ◌≤◌, ◌<◌, ◌≡◌, refl, sym, ap, subst, arith, true, false, ok, Returns,
  mono, List, [], ◌∷◌, length, null, u64_mod, Fresh, IsDistinct, ◌-◌,
}
use mylittle_code_house.TcMalloc.ClassSize.{index, num_move_pages, max_bytes}
use mylittle_code_house.TcMalloc.ClassSize.Batch.{num_move_pages_bounds}
use mylittle_code_house.TcMalloc.Memory.{Chain}
use mylittle_code_house.TcMalloc.SpanList.Refine.{Holds}
use mylittle_code_house.TcMalloc.State.{State, bind_state}
use mylittle_code_house.TcMalloc.CentralCache.{fetch_range}
use mylittle_code_house.TcMalloc.CentralCache.Carve.{cuts, block_count, block_count_bounds}
use mylittle_code_house.TcMalloc.CentralCache.Bucket.{
  with_bucket, lock_bucket-ok, Served, hand_out-Served,
}
use mylittle_code_house.TcMalloc.PageCache.Relocked.{Source-relocked}
use mylittle_code_house.TcMalloc.CentralCache.Supply.{Supplied, Cut, get_one_span-Cut}

-- The cuts of a span stand at different places.
cuts-Fresh : (k a start size : ℕ) → a < start → Fresh a (cuts k start size)
cuts-Fresh zero a start size h = tt
cuts-Fresh (suc k) a start size h = (omega arith, cuts-Fresh k a (start + size) size (omega arith))

pub cuts-IsDistinct : (k start size : ℕ) → 0 < size → IsDistinct (cuts k start size)
cuts-IsDistinct zero start size h = tt
cuts-IsDistinct (suc k) start size h =
    (cuts-Fresh k start (start + size) size (omega arith), cuts-IsDistinct k (start + size) size h)

pub length-cuts : (k start size : ℕ) → length (cuts k start size) ≡ k
length-cuts zero start size = refl
length-cuts (suc k) start size = ap suc (length-cuts k (start + size) size)

-- What `FetchRangObj` gives when the bucket had no free block.
abbrev pub Grown : State → ℕ → ℕ → List ℕ → ℕ → ℕ → ℕ → ℕ → (ℕ × ℕ × ℕ) × State → Type 0
Grown s i size ys x id count batch r =
    (t : State) × Cut (with_bucket s i true) i size ys x id count (x, t)
    × Served t i [] x ys (cuts (block_count (num_move_pages size * 8192) size) (id * 8192) size)
        batch r

-- FetchRangObj of a positive batch below 2^64 blocks, for a size of 1 byte to 256 KB of a class
-- whose bucket is unlocked and exists and has only spans without free blocks, while the page
-- cache is unlocked and has a source for a span of NumMovePages pages apart from that bucket, with a
-- first page above 0 and no wrap, and with more fuel than spans in the bucket, succeeds. That span
-- is entered in the page map, marked in use with the block size, cut
-- into blocks, and put at the front of the bucket; the first of its blocks are then handed out as
-- from a bucket that had them.
pub fetch_range-Grown :
    (fuel batch size i : ℕ) (s : State) (ys : List ℕ) (x id count : ℕ)
    → index size ≡ ok i
    → 0 < size
    → size ≤ max_bytes
    → s.central.locked i ≡ false
    → Supplied s i size ys x id count
    → 0 < batch
    → batch < u64_mod
    → length ys < fuel
    → Returns (Grown s i size ys x id count batch) (fetch_range fuel batch size s)
unfolding fetch_range
fetch_range-Grown fuel batch size i s ys x id count idx positive small free v low high enough =
    let s' = with_bucket s i true in
    let v' : Supplied s' i size ys x id count = record {
      exists = v.exists;
      spans = v.spans;
      used_up = v.used_up;
      source =
          Source-relocked s s.caches s'.central s.pages.locked (num_move_pages size)
            (s.central.lists i ∷ ys) x id count v.source;
      based = v.based;
      fits = v.fits;
      pages_free = v.pages_free;
    } in
    let bounds = num_move_pages_bounds size positive small in
    let bytes = num_move_pages size * 8192 in
    let start = id * 8192 in
    let k = block_count bytes size in
    let many = block_count_bounds bytes size positive (omega (arith, bounds)) in
    let one_more : k ≡ suc (k - 1) = omega (arith, many) in
    let all : cuts k start size ≡ start ∷ cuts (k - 1) (start + size) size =
      ap (λ j. cuts j start size) one_more in
    rw (idx, lock_bucket-ok i s free)
      (bind_state _ (get_one_span-Cut fuel i size s' ys x id count positive small v' enough) λ r c.
        rw c.span (
          mono
            (hand_out-Served batch i r.1 [] x ys start (cuts (k - 1) (start + size) size)
              (subst (λ g. Holds r.1.spans (g i) (x ∷ ys)) (sym c.lists) c.bucket)
              c.bucket.not_null.1.0 c.first (subst (λ b. Chain r.1.words start b null) all c.blocks)
              (subst IsDistinct all (cuts-IsDistinct k start size positive))
              (omega (arith, length-cuts (k - 1) (start + size) size, many, v.fits)) low high)
            λ q f. (
              r.1,
              subst (λ a. Cut s' i size ys x id count (a, r.1)) c.span c,
              subst (λ b. Served r.1 i [] x ys b batch q) (sym all) f,
            )))
