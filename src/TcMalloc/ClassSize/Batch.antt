-- ===== src/TcMalloc/ClassSize/Batch.antt =====
-- `NumMoveSize` and `NumMovePages`: how much is fetched at once.
use mylittle_code_house.Base.{ℕ, ◌*◌, ◌≤◌, ◌<◌, arith}
use mylittle_code_house.TcMalloc.ClassSize.{num_move_size, num_move_pages, max_bytes}

-- For a positive size a batch has 2 to 512 blocks.
pub num_move_size_bounds :
    (size : ℕ) → 0 < size → (2 ≤ num_move_size size) × (num_move_size size ≤ 512)
unfolding num_move_size
num_move_size_bounds size h = ground arith

-- A batch stays within 512 KB.
total_bound :
    (size : ℕ)
    → 0 < size
    → size ≤ max_bytes
    → (num_move_size size * size ≤ 524288) × (2 * size ≤ num_move_size size * size)
unfolding num_move_size
total_bound size h small = grind arith

-- For a size from 1 to 256 KB NumMovePages gives 1 to 64 pages, which hold at least one block.
pub num_move_pages_bounds :
    (size : ℕ)
    → 0 < size
    → size ≤ max_bytes
    → (1 ≤ num_move_pages size) × (num_move_pages size ≤ 64) × (size ≤ num_move_pages size * 8192)
unfolding num_move_pages
num_move_pages_bounds size h small = ground (arith, total_bound size h small)
