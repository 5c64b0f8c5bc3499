-- ===== src/Calculator/Tests.antt =====
-- The answers to 7 / 0, and to 7 % 2 beside 7 / 2.
use mylittle_code_house.Base.{◌≡◌, refl, some}
use mylittle_code_house.Base.Int.{pos}
use mylittle_code_house.Calculator.{Request, Response, calculate_help}

abbrev by_zero : Request
by_zero = record { x = pos 7; y = pos 0; op = b'/' }

abbrev refused : Response
refused = record { result = pos 0; code = 1 }

refusal : calculate_help by_zero ≡ some refused
unfolding calculate_help
refusal = refl
