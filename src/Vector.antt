-- ===== src/Vector.antt =====
-- 模拟实现vector/test.cpp: `HML::vector<T>`, a growing array.
pub mod Cells
pub mod Insert
pub mod Erase
pub mod Build
mod Tests
use mylittle_code_house.Base.{
  ℕ, zero, suc, ◌+◌, ◌-◌, ◌*◌, ◌%◌, List, [], length, get_elem?, get_or, set, replicate, ◌∷◌,
  Result, ok, err, out_of_bounds, bad_alloc, ◌&&◌, assert, ◌>>=◌, ◌>>◌, ltb, leb, ◌==◌,
  if◌then◌else◌,
}

-- `buf` holds the cells from `_start` to `_endOfStorage`; `size` is `_finish - _start`.
pub record Vector (A : Type 0) : Type 0 where
  pub buf : List A
  pub size : ℕ

-- Half of the values that `int` holds from 0 on.
abbrev pub int_half : ℕ
int_half = 1073741824

-- `int newcapacity`, by its 32 bits: the double is cut to them, and those from 2^31 on are negative.
unfoldable pub new_capacity : ℕ → ℕ
new_capacity n = if n == 0 then 4 else (2 * n) % 4294967296

-- `const T& x`: an object outside the vector, or the cell at a position of its storage.
pub data Ref (A : Type 0) : Type 0 where
  object : A → Ref A
  cell : ℕ → Ref A

abbrev pub capacity : {A : Type 0} → Vector A → ℕ
capacity v = length v.buf

module _ {A : Type 0} where
  unfoldable pub empty : Vector A
  empty = record { buf = []; size = 0 }

  unfoldable pub swap : Vector A → Vector A → Vector A × Vector A
  swap v w = (w, v)

-- `junk` is what a cell of `new T[n]` holds before it is written.
module _ {A : Type 0} (junk : A) where
  -- `for (i = 0; i < k; i++) newspace[i] = _start[i]`
  unfoldable pub copy : ℕ → ℕ → List A → List A → List A
  copy zero i src dst = dst
  copy (suc k) i src dst = copy k (i + 1) src (set dst i (get_or src i junk))

  unfoldable pub reserve : Vector A → ℕ → Vector A
  reserve v n =
      if ltb (capacity v) n then record v { buf = copy v.size 0 v.buf (replicate n junk) } else v

  -- `while (end >= pos) { *(end + 1) = *end; end--; }`, with `k` rounds left.
  unfoldable pub shift_up : ℕ → ℕ → List A → List A
  shift_up zero pos buf = buf
  shift_up (suc k) pos buf = shift_up k pos (set buf (pos + k + 1) (get_or buf (pos + k) junk))

  -- `reserve(newcapacity)` when the storage is full. A negative `int` is a `size_t` that no
  -- allocation grants.
  unfoldable pub grow : Vector A → Result (Vector A)
  grow v =
      if v.size == capacity v
      then if leb 2147483648 (new_capacity (capacity v))
        then err bad_alloc
        else ok (reserve v (new_capacity (capacity v)))
      else ok v

  -- What a reference into the storage `buf` reads.
  unfoldable pub deref : Ref A → List A → A
  deref (object x) buf = x
  deref (cell j) buf = get_or buf j junk

  -- Returns the vector and the position of the new element. Positions are counted from `_start`.
  -- `*pos = x` comes behind the moves. A storage that has been replaced is not deleted, so a
  -- reference into it reads what stood there before; without room the moves write behind the end.
  unfoldable pub insert : Vector A → ℕ → Ref A → Result (Vector A × ℕ)
  insert v pos x = do
    assert (leb pos v.size)
    v' ← grow v
    let moved = shift_up (v'.size - pos) pos v'.buf
    let seen = if ltb (capacity v) (capacity v') then v.buf else moved
    if ltb v'.size (capacity v')
        then ok (record v' { buf = set moved pos (deref x seen); size = v'.size + 1 }, pos)
        else err out_of_bounds

  -- `while (start != _finish - 1) { *start = *(start + 1); start++; }`, with `k` rounds left.
  unfoldable pub shift_down : ℕ → ℕ → List A → List A
  shift_down zero start buf = buf
  shift_down (suc k) start buf =
      shift_down k (start + 1) (set buf start (get_or buf (start + 1) junk))

  -- A position behind the last element makes the loop run past its end.
  unfoldable pub erase : Vector A → ℕ → Result (Vector A × ℕ)
  erase v pos = do
    assert (ltb 0 v.size)
    if ltb pos v.size
        then ok (record v { buf = shift_down (v.size - 1 - pos) pos v.buf; size = v.size - 1 }, pos)
        else err out_of_bounds

  unfoldable pub push_back : Vector A → Ref A → Result (Vector A)
  push_back v x = do (v', _) ← insert v v.size x; ok v'

  unfoldable pub pop_back : Vector A → Result (Vector A)
  pop_back v = do (v', _) ← erase v (v.size - 1); ok v'

  -- `operator[]`, unchecked: a position outside the storage is undefined.
  unfoldable pub at : Vector A → ℕ → Result A
  at v pos = if ltb pos (capacity v) then ok (get_or v.buf pos junk) else err out_of_bounds

  -- `vector(n, value)`: `while (n--) push_back(value)`
  unfoldable pub push_times : ℕ → Vector A → A → Result (Vector A)
  push_times zero v x = ok v
  push_times (suc n) v x = do v' ← push_back v (object x); push_times n v' x

  unfoldable pub filled : ℕ → A → Result (Vector A)
  filled n x = push_times n (reserve empty n) x

  -- `vector(first, last)`, over the elements of the range
  unfoldable pub push_all : Vector A → List A → Result (Vector A)
  push_all v [] = ok v
  push_all v (x ∷ xs) = do v' ← push_back v (object x); push_all v' xs

  unfoldable pub from_range : List A → Result (Vector A)
  from_range xs = push_all (reserve empty (length xs)) xs
