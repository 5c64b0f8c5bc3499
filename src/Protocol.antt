-- ===== src/Protocol.antt =====
-- VSCodeProject/网络计算机NetCal/Protocol.hpp: the text in which a request travels.
pub mod Decimal
pub mod RoundTrip
mod Tests
use mylittle_code_house.Base.{
  ℕ, zero, suc, ◌+◌, ◌*◌, ◌-◌, ◌/◌, ◌%◌, Bool, true, false, ◌&&◌, ◌||◌, ltb, leb, ◌==◌,
  if◌then◌else◌, Option, none, some, List, [], ◌∷◌, ◌++◌, length, take, drop, get_or,
}
use mylittle_code_house.Base.Int.{ℤ, pos, sub_ℕ}
use mylittle_code_house.Calculator.{Request}

-- `#define SPACE " "`
abbrev pub space : ℕ
space = 32

-- `std::to_string`: the decimal digits, most significant first, after a sign.
unfoldable pub decimal : ℕ → ℕ → List ℕ
decimal zero n = []
decimal (suc fuel) n =
    let front = decimal fuel (n / 10) in (if ltb n 10 then [] else front) ++ (n % 10 + b'0') ∷ []

unfoldable pub to_string : ℤ → List ℕ
to_string (ℤ.pos n) = decimal (suc n) n
to_string (ℤ.negsuc n) = b'-' ∷ decimal (suc (suc n)) (suc n)

abbrev pub is_digit : ℕ → Bool
is_digit c = leb b'0' c && leb c b'9'

-- The digits that stand first, read behind the value `acc`.
unfoldable pub read_digits : ℕ → List ℕ → ℕ
read_digits acc [] = acc
read_digits acc (c ∷ cs) =
    let rest = read_digits (acc * 10 + (c - b'0')) cs in if is_digit c then rest else acc

-- `atoi`: white space, a sign, digits. The value of a text whose number is no `int` is undefined.
unfoldable pub atoi : List ℕ → ℤ
atoi [] = pos 0
atoi (c ∷ cs) =
    let skipped = atoi cs in
    if c == space || (leb 9 c && leb c 13)
    then skipped
    else if c == b'-'
    then sub_ℕ 0 (read_digits 0 cs)
    else if c == b'+'
    then pos (read_digits 0 cs)
    else pos (read_digits 0 (c ∷ cs))

-- `package.find(SPACE)` and `package.rfind(SPACE)`; none is `npos`.
unfoldable pub find : List ℕ → Option ℕ
find [] = none
find (c ∷ cs) =
    if c == space then some 0 else (elim (find cs) [ none ↦ none | some i ↦ some (suc i) ])

unfoldable pub rfind : List ℕ → Option ℕ
rfind [] = none
rfind (c ∷ cs) = elim (rfind cs) [
  | some i ↦ some (suc i)
  | none ↦ if c == space then some 0 else none
]

-- `Request::Serialize`
unfoldable pub serialize : Request → List ℕ
serialize req = (((to_string req.x ++ space ∷ []) ++ req.op ∷ []) ++ space ∷ []) ++ to_string req.y

-- How `DeSerialize` ends: it returns false, or runs off its end without a `return`.
pub data Verdict : Type 0 where
  rejected no_return : Verdict

-- `Request::DeSerialize`. Behind the last byte `package[i]` is the null byte.
unfoldable pub de_serialize : Request → List ℕ → Request × Verdict
de_serialize req text = elim (find text) [
  | none ↦ (req, rejected)
  | some left ↦ elim (rfind text) [
    | none ↦ (req, rejected)
    | some right ↦
        let numbers = record req { x = atoi (take left text); y = atoi (drop (right + 1) text) } in
        if ltb (length text) (left + 1)
        then (numbers, rejected)
        else (record numbers { op = get_or text (left + 1) 0 }, no_return)
  ]
]
