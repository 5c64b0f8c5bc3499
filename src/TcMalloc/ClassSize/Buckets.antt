-- ===== src/TcMalloc/ClassSize/Buckets.antt =====
-- `Index`: which bucket a rounded size goes to.
use mylittle_code_house.Base.{
  ℕ, ◌+◌, ◌-◌, ◌*◌, ◌/◌, ◌%◌, ◌≤◌, ◌<◌, ◌≡◌, refl, arith, ok, err, assert_failed, leb, ltb,
  if◌then◌else◌, u64_mod, sub64, Returns, returns,
}
use mylittle_code_house.TcMalloc.ClassSize.{round_up, round_up_to, index, max_bytes, max_listnode}
use mylittle_code_house.TcMalloc.ClassSize.Align.{
  class_align, round_up_least, class_align-round_up, round_up_to_8, round_up_to_16, round_up_to_128,
  round_up_to_1024, round_up_to_8192,
}

-- The size of the blocks of a bucket, from the table in the comment above `ClassSize`:
-- 16, 56, 56, 56 and 24 buckets, of steps 8, 16, 128, 1024 and 8192.
abbrev pub bucket_size : ℕ → ℕ
bucket_size i =
    if ltb i 16
    then 8 * (i + 1)
    else if ltb i 72
    then 128 + 16 * (i - 16 + 1)
    else if ltb i 128
    then 1024 + 128 * (i - 72 + 1)
    else if ltb i 184
    then 8192 + 1024 * (i - 128 + 1)
    else 65536 + 8192 * (i - 184 + 1)

-- The bucket as a number; `Index` computes it past its assertions.
abbrev bucket : ℕ → ℕ
bucket a =
    if leb a 128
    then sub64 (a / 8) 1
    else if leb a 1024
    then (a - 128) / 16 + 16 - 1
    else if leb a 8192
    then (a - 1024) / 128 + 16 + 56 - 1
    else if leb a 65536
    then (a - 8192) / 1024 + 16 + 56 + 56 - 1
    else (a - 65536) / 8192 + 16 + 56 + 56 + 56 - 1

index-bucket : (a : ℕ) → a ≤ 253952 → index a ≡ ok (bucket a)
unfolding index
index-bucket a h = ground arith

bucket_size-bucket :
    (a : ℕ)
    → 0 < a
    → a ≤ 253952
    → a % class_align a ≡ 0
    → (bucket a < max_listnode) × (bucket_size (bucket a) ≡ a)
bucket_size-bucket a h small e = ground arith

round_up_small : (size : ℕ) → 0 < size → size ≤ 253952 → round_up size ≤ 253952
unfolding round_up
round_up_small size h small = ground (
  arith,
  round_up_to_8 size (omega arith),
  round_up_to_16 size (omega arith),
  round_up_to_128 size (omega arith),
  round_up_to_1024 size (omega arith),
  round_up_to_8192 size (omega arith),
)

-- For a size from 1 to 248 KB Index of the rounded size returns a bucket that exists, whose
-- blocks have exactly the rounded size.
pub index-round_up :
    (size : ℕ)
    → 0 < size
    → size ≤ 253952
    → Returns (λ i. (i < max_listnode) × (bucket_size i ≡ round_up size)) (index (round_up size))
index-round_up size h small =
    let le = round_up_small size h small in
    let least = round_up_least size (omega arith) in
    rw (index-bucket (round_up size) le) (
      returns (
        bucket_size-bucket (round_up size) (omega arith) le
          (rw (class_align-round_up size (omega arith)) least.0)))

-- For a size above 248 KB and up to 256 KB, Index of the rounded size fails its assertion.
pub index-round_up_top :
    (size : ℕ) → 253952 < size → size ≤ max_bytes → index (round_up size) ≡ err assert_failed
unfolding index round_up
index-round_up_top size h small = ground (arith, round_up_to_8192 size (omega arith))

-- A request of 0 bytes passes the assertions and gets the bucket 2^64 - 1, outside the array.
pub index-zero : index (round_up 0) ≡ ok (u64_mod - 1)
unfolding index round_up round_up_to
index-zero = refl
