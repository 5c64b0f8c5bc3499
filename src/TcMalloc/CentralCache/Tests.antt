-- ===== src/TcMalloc/CentralCache/Tests.antt =====
-- Concrete spans: 32 bytes from 64 on cut into blocks of 16 and of 24, and the sample states.
use mylittle_code_house.Base.{ℕ, ◌+◌, ◌<◌, ◌≡◌, refl, arith, Returns, List, [], ◌∷◌, ◌++◌, null}
use mylittle_code_house.TcMalloc.State.{and_then}
use mylittle_code_house.TcMalloc.CentralCache.Bucket.{Served, fetch_range-Served}
use mylittle_code_house.TcMalloc.CentralCache.Grow.{Grown, fetch_range-Grown}
use mylittle_code_house.TcMalloc.CentralCache.Restore.{Restored, release_back-fetch_range}
use mylittle_code_house.TcMalloc.Sample.{
  supplied, supplied-Supplied, stocked, stocked-Stocked, span_blocks, span_chain,
  span_blocks-IsDistinct, class_of_16,
}
use mylittle_code_house.TcMalloc.Memory.{Words, Chain}
use mylittle_code_house.TcMalloc.CentralCache.{carve, fetch_range, release_back}
use mylittle_code_house.TcMalloc.CentralCache.Carve.{carve-cuts, carve-overrun}

abbrev blank : Words
blank = λ _. null

carve-cuts_example :
    Returns
      (λ (w' : Words). Chain w' 64 (64 ∷ 80 ∷ []) null × ((a : ℕ) → a < 64 → w' a ≡ null))
      (carve 32 blank 64 32 16)
carve-cuts_example =
    carve-cuts 32 blank 64 32 16 (omega arith) (omega arith) (omega arith) (omega arith)
      (omega arith)

carve-overrun_example :
    Returns
      (λ (w' : Words).
        (blocks : List ℕ) × (last : ℕ) × Chain w' 64 (blocks ++ last ∷ []) null × (96 < last + 24))
      (carve 32 blank 64 32 24)
carve-overrun_example =
    carve-overrun 32 blank 64 32 24 (omega arith) (omega arith) (omega arith) (omega arith)
      (omega arith) (omega arith)

fetch_range-Served_example :
    Returns (Served stocked 1 [] 200 [] span_blocks 2) (fetch_range 8 2 16 stocked)
fetch_range-Served_example =
    fetch_range-Served 8 2 16 1 stocked [] 200 [] 8192 (8208 ∷ 8224 ∷ []) class_of_16 refl
      stocked-Stocked (omega arith) refl span_chain span_blocks-IsDistinct (omega arith)
      (omega arith) (omega arith) (omega arith)

release_back-fetch_range_example :
    Returns
      (Restored stocked 1 200 100 (200 ∷ []) span_blocks)
      (and_then (fetch_range 8 2 16 stocked) λ (start, end, actual). release_back 8 start 16)
release_back-fetch_range_example =
    release_back-fetch_range 8 2 16 1 stocked [] 200 [] 8192 (8208 ∷ 8224 ∷ []) class_of_16 refl
      refl stocked-Stocked (omega arith) refl span_chain span_blocks-IsDistinct
      (refl, (refl, (refl, tt))) (omega arith) (omega arith) (omega arith) (omega arith)
      (omega arith) (omega arith)

supplied_run : Returns (Grown supplied 1 16 [] 100064 1024 0 3) (fetch_range 8 3 16 supplied)
supplied_run =
    fetch_range-Grown 8 3 16 1 supplied [] 100064 1024 0 class_of_16 (omega arith) (omega arith)
      refl supplied-Supplied (omega arith) (omega arith) (omega arith)
