-- ===== src/Calculator/Laws.antt =====
-- The answers of the calculator, and its remainder.
use native.Mathlib.Nat.{div-eq_of_lt}
use mylittle_code_house.Base.{ℕ, ◌/◌, ◌<◌, ◌≡◌, ap, ◌∙◌, arith, false, some, ◌==◌, if◌then◌else◌}
use mylittle_code_house.Base.Int.{ℤ, pos, ◌+ℤ◌}
use mylittle_code_house.Calculator.{Request, Response, quot, is_zero, calculate_help}

-- The error code of every answer: 1 for a division and 2 for a remainder by zero, 3 for an unknown
-- operator, and 0 otherwise.
abbrev pub expected_code : Request → ℕ
expected_code req =
    if req.op == b'/'
    then (if is_zero req.y then 1 else 0)
    else if req.op == b'%'
    then (if is_zero req.y then 2 else 0)
    else if req.op == b'+'
    then 0
    else if req.op == b'-'
    then 0
    else if req.op == b'*'
    then 0
    else 3

-- Every answer of the calculator carries code 1 for a division and 2 for a remainder by zero, 3
-- for an unknown operator, and 0 otherwise.
pub code-calculate_help :
    (req : Request) (res : Response) → calculate_help req ≡ some res → res.code ≡ expected_code req
unfolding calculate_help
code-calculate_help req res h = ground arith

-- `quot` on two numbers that are not negative.
quot-pos : (a b : ℕ) → quot (pos a) (pos b) ≡ pos (a / b)
unfolding quot ◌+ℤ◌
quot-pos a b = ground arith

-- For a divisor that is not zero the calculator gives for % the same answer as for /.
pub remainder_is_quotient :
    (x y : ℤ)
    → is_zero y ≡ false
    → calculate_help (record { x = x; y = y; op = b'%' })
      ≡ calculate_help (record { x = x; y = y; op = b'/' })
unfolding calculate_help
remainder_is_quotient x y h = ground arith

-- So for 0 < a < b the answer to `a % b` is 0, with code 0, where the remainder is `a`.
pub remainder_wrong :
    (a b : ℕ)
    → 0 < a
    → a < b
    → calculate_help (record { x = pos a; y = pos b; op = b'%' })
      ≡ some (record { result = pos 0; code = 0 })
unfolding calculate_help
remainder_wrong a b h lt =
    let q : a / b ≡ 0 = div-eq_of_lt lt in
    let zero_quot : quot (pos a) (pos b) ≡ pos 0 = quot-pos a b ∙ ap pos q in
    rw zero_quot (ground arith)
