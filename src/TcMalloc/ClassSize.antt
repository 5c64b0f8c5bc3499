-- ===== src/TcMalloc/ClassSize.antt =====
-- `ClassSize` of TCmalloc/TCmallocSRC/Common.hpp: sizes, buckets and batches, in `size_t`.
pub mod Align
pub mod Buckets
pub mod Batch
mod Tests
use mylittle_code_house.Base.{
  ℕ, ◌+◌, ◌-◌, ◌*◌, ◌/◌, ◌%◌, ◌^◌, bit_and, Result, ok, err, assert_failed, assert, ◌>>=◌, ◌>>◌,
  ltb, leb, ◌==◌, if◌then◌else◌, add64, sub64, mul64, shr64, u64_mod,
}

abbrev pub max_bytes : ℕ
max_bytes = 256 * 1024

abbrev pub max_listnode : ℕ
max_listnode = 208

abbrev pub npages : ℕ
npages = 129

abbrev pub page_shift : ℕ
page_shift = 13

-- `~(align - 1)` of `size_t`
abbrev align_mask : ℕ → ℕ
align_mask align = u64_mod - 1 - (align - 1)

unfoldable pub round_up_to : ℕ → ℕ → ℕ
round_up_to allocsize align = bit_and (sub64 (add64 allocsize align) 1) (align_mask align)

unfoldable pub round_up : ℕ → ℕ
round_up allocsize =
    if leb allocsize 128
    then round_up_to allocsize 8
    else if leb allocsize 1024
    then round_up_to allocsize 16
    else if leb allocsize (8 * 1024)
    then round_up_to allocsize 128
    else if leb allocsize (64 * 1024)
    then round_up_to allocsize 1024
    else if leb allocsize (256 * 1024)
    then round_up_to allocsize (8 * 1024)
    else round_up_to allocsize (2 ^ page_shift)

-- The value of `Index` past its first assertion. `list_group` is 16, 56, 56, 56.
index_of : ℕ → Result ℕ
index_of alignsize =
    if leb alignsize 128
    then ok (sub64 (alignsize / 8) 1)
    else if leb alignsize 1024
    then ok ((alignsize - 128) / 16 + 16 - 1)
    else if leb alignsize (8 * 1024)
    then ok ((alignsize - 1024) / 128 + 16 + 56 - 1)
    else if leb alignsize (64 * 1024)
    then ok ((alignsize - 8 * 1024) / 1024 + 16 + 56 + 56 - 1)
    else if leb alignsize (256 * 1024)
    then ok ((alignsize - 64 * 1024) / (8 * 1024) + 16 + 56 + 56 + 56 - 1)
    else err assert_failed

unfoldable pub index : ℕ → Result ℕ
unfolding index_of
index alignsize = do assert (ltb alignsize (256 * 1024)); index_of alignsize

unfoldable pub num_move_size : ℕ → ℕ
num_move_size size =
    if size == 0
    then 0
    else let num = max_bytes / size in if ltb 512 num then 512 else if ltb num 2 then 2 else num

unfoldable pub num_move_pages : ℕ → ℕ
unfolding num_move_size
num_move_pages size =
    let totalnum = mul64 (num_move_size size) size in
    let pages = shr64 totalnum page_shift in if pages == 0 then 1 else pages
