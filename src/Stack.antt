-- ===== src/Stack.antt =====
-- 栈的实现/Stack源文件.c and stack.h: a stack in an array of four cells.
pub mod Laws
mod Tests
use mylittle_code_house.Base.{
  ℕ, ◌+◌, ◌-◌, Bool, not, List, [], get_or, set, replicate, Result, ok, err, segfault,
  out_of_bounds, assert, ◌>>=◌, ◌>>◌, ltb, ◌==◌, if◌then◌else◌, length,
}
use mylittle_code_house.Base.Int.{ℤ, pos}

-- `cells` is the array that `data` points to, null after `StackDestory`.
pub record Stack : Type 0 where
  pub cells : List ℤ
  pub top : ℕ
  pub capacity : ℕ

-- `junk` is what a cell holds before it is written.
unfoldable pub init : ℤ → Stack
init junk = record { cells = replicate 4 junk; top = 0; capacity = 4 }

unfoldable pub destory : Stack → Stack
destory s = record { cells = []; top = 0; capacity = 0 }

-- At the limit the code calls `realloc(Stack->Capacity, ...)`: the capacity stands where the array
-- should, and is no pointer that `malloc` returned, so the call is undefined. Only the capacity 0
-- that `StackDestory` leaves is one, the null pointer: it gets a block of no cells, and the write
-- goes behind it.
unfoldable pub push : Stack → ℤ → Result Stack
push s x =
    if s.top == s.capacity
    then err (if s.capacity == 0 then out_of_bounds else segfault)
    else ok (record s { cells = set s.cells s.top x; top = s.top + 1 })

unfoldable pub pop : Stack → Result Stack
pop s = do assert (not (s.top == 0)); ok (record s { top = s.top - 1 })

unfoldable pub top : ℤ → Stack → Result ℤ
top junk s = do assert (ltb 0 s.top); ok (get_or s.cells (s.top - 1) junk)

unfoldable pub size : Stack → ℕ
size s = s.top

unfoldable pub is_empty : Stack → Bool
is_empty s = s.top == 0
