-- ===== src/TcMalloc/Os.antt =====
-- `SystemAlloc` and `SystemFree` of TCmalloc/TCmallocSRC/Common.hpp, over the program break.
use mylittle_code_house.Base.{
  ℕ, Bool, Result, ok, err, bad_alloc, ◌==◌, if◌then◌else◌, add64, shl64, null,
}
use mylittle_code_house.TcMalloc.ClassSize.{page_shift}

-- `top` is the program break. `grants` stands for the kernel: `brk` moves the break to the
-- addresses that it grants, and leaves it where it is at the others.
pub record Os : Type 0 where
  pub top : ℕ
  pub grants : ℕ → Bool

-- `brk(p)`, its result ignored as the code ignores it
abbrev pub set_break : Os → ℕ → Os
set_break os p = if os.grants p then record os { top = p } else os

unfoldable pub system_alloc : Os → ℕ → Result (ℕ × Os)
system_alloc os kpage =
    if os.top == null
    then err bad_alloc
    else ok (os.top, set_break os (add64 os.top (shl64 kpage page_shift)))

unfoldable pub system_free : Os → ℕ → Os
system_free os p = set_break os p
