-- ===== src/Calculator.antt =====
-- `CalculateHelp` of 网络计算机NetCal/CalServer.cc: the calculation that the server answers with.
pub mod Laws
mod Tests
use mylittle_code_house.Base.{
  ℕ, ◌/◌, ◌^◌, ◌-◌, ◌≡◌, Bool, ◌&&◌, ◌==◌, leb, if◌then◌else◌, Option, none, some,
}
use mylittle_code_house.Base.Int.{ℤ, pos, negsuc, pos_part, neg_part, sub_ℕ, ◌+ℤ◌, ◌-ℤ◌, ◌*ℤ◌}

-- `x` and `y` are `int`, `op` is a byte.
pub record Request : Type 0 where
  pub x : ℤ
  pub y : ℤ
  pub op : ℕ

pub record Response : Type 0 where
  pub result : ℤ
  pub code : ℕ

-- The values of a 32-bit `int`.
abbrev pub fits_int : ℤ → Bool
fits_int a = leb (pos_part a) (2 ^ 31 - 1) && leb (neg_part a) (2 ^ 31)

-- `x / y`, rounded towards zero
unfoldable pub quot : ℤ → ℤ → ℤ
quot x y =
    sub_ℕ (pos_part x / pos_part y) 0
    +ℤ sub_ℕ (neg_part x / neg_part y) 0
    +ℤ sub_ℕ 0 (pos_part x / neg_part y)
    +ℤ sub_ℕ 0 (neg_part x / pos_part y)

abbrev pub is_zero : ℤ → Bool
is_zero a = (pos_part a == 0) && (neg_part a == 0)

-- An `int` that does not hold the result is undefined behaviour: `none`.
abbrev pub answer : ℤ → Option Response
answer a = if fits_int a then some (record { result = a; code = 0 }) else none

abbrev pub failure : ℕ → Option Response
failure code = some (record { result = pos 0; code = code })

unfoldable pub calculate_help : Request → Option Response
calculate_help req =
    if req.op == b'+'
    then answer (req.x +ℤ req.y)
    else if req.op == b'-'
    then answer (req.x -ℤ req.y)
    else if req.op == b'*'
    then answer (req.x *ℤ req.y)
    else if req.op == b'/'
    then (if is_zero req.y then failure 1 else answer (quot req.x req.y))
    else if req.op == b'%'
    then (if is_zero req.y then failure 2 else answer (quot req.x req.y))
    else failure 3
