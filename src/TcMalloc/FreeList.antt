-- ===== src/TcMalloc/FreeList.antt =====
-- `FreeList` of TCmalloc/TCmallocSRC/Common.hpp: a singly linked list threaded through the blocks.
pub mod Ranges
mod Tests
pub mod Refine
use mylittle_code_house.Base.{
  ℕ, zero, suc, Bool, ◌≡◌, Result, ok, assert, ◌>>=◌, ◌>>◌, ◌==◌, leb, not, add64, sub64, null,
}
use mylittle_code_house.TcMalloc.Memory.{Words, get_next, put_next}

pub record FreeList : Type 0 where
  pub head : ℕ
  pub max_size : ℕ
  pub size : ℕ

abbrev pub fresh_list : FreeList
fresh_list = record { head = null; max_size = 1; size = 0 }

unfoldable pub is_empty : FreeList → Bool
is_empty l = l.head == null

unfoldable pub push : Words → FreeList → ℕ → Result (Words × FreeList)
push w l obj = do
  w' ← put_next w obj l.head
  ok (w', record l { head = obj; size = add64 l.size 1 })

unfoldable pub push_range : Words → FreeList → ℕ → ℕ → ℕ → Result (Words × FreeList)
push_range w l start end size = do
  w' ← put_next w end l.head
  ok (w', record l { head = start; size = add64 l.size size })

unfoldable pub pop : Words → FreeList → Result (ℕ × FreeList)
pop w l = do
  assert (not (is_empty l))
  rest ← get_next w l.head
  ok (l.head, record l { head = rest; size = sub64 l.size 1 })

-- `for (i = 0; i < k; i++) end = GetNext(end)`
unfoldable pub walk : Words → ℕ → ℕ → Result ℕ
walk w zero end = ok end
walk w (suc k) end = do end' ← get_next w end; walk w k end'

-- Returns the words, the list, `start` and `end`.
unfoldable pub pop_range : Words → FreeList → ℕ → Result (Words × FreeList × ℕ × ℕ)
pop_range w l size = do
  assert (leb l.size size)
  end ← walk w (sub64 size 1) l.head
  rest ← get_next w end
  w' ← put_next w end null
  ok (w', record l { head = rest; size = sub64 l.size size }, l.head, end)
