-- ===== src/TcMalloc/FreeList/Tests.antt =====
-- Concrete lists: block 8 leads to block 16, and block 32 to block 40.
use mylittle_code_house.Base.{ℕ, ◌≡◌, refl, arith, [], ◌∷◌, null, update, ok, length}
use mylittle_code_house.TcMalloc.Memory.{Words, get_next, put_next}
use mylittle_code_house.TcMalloc.FreeList.{FreeList, walk, pop_range}
use mylittle_code_house.TcMalloc.FreeList.Refine.{Holds}
use mylittle_code_house.TcMalloc.FreeList.Ranges.{pop_range-only_all}

abbrev words : Words
words = update (update (λ _. null) 8 16) 32 40

abbrev two : FreeList
two = record { head = 8; max_size = 3; size = 2 }

two-Holds : Holds words two (8 ∷ 16 ∷ [])
two-Holds = record {
  chain = (refl, omega arith, (refl, omega arith, refl));
  distinct = ((omega arith, tt), (tt, tt));
  counted = refl;
  small = omega arith;
}

both_popped : Words × FreeList × ℕ × ℕ
both_popped = (update words 16 null, record { head = null; max_size = 3; size = 0 }, 8, 16)

pop_both : pop_range words two 2 ≡ ok both_popped
unfolding pop_range both_popped walk get_next put_next
pop_both = refl

pop_range-only_all_example : ◌≡◌ {A = ℕ} 2 (length {A = ℕ} (8 ∷ 16 ∷ []))
pop_range-only_all_example =
    pop_range-only_all words two (8 ∷ 16 ∷ []) 2 both_popped two-Holds (omega arith) (omega arith)
      pop_both
