-- ===== src/Protocol/Decimal.antt =====
-- `atoi` against `std::to_string`.
use mylittle_code_house.Base.{
  ℕ, zero, suc, ◌+◌, ◌*◌, ◌-◌, ◌/◌, ◌%◌, ◌≤◌, ◌<◌, ◌≡◌, refl, ap, ◌∙◌, arith, lt→ltb, le→not-ltb,
  List, [], ◌∷◌, ◌++◌, All, All-append, dec_lt,
}
use mylittle_code_house.Base.Int.{ℤ, pos, negsuc, sub_ℕ}
use mylittle_code_house.Protocol.{decimal, to_string, read_digits, atoi}

abbrev pub IsDigit : ℕ → Type 0
IsDigit c = (b'0' ≤ c) × (c ≤ b'9')

pub All-IsDigit-decimal : (fuel n : ℕ) → All IsDigit (decimal fuel n)
unfolding decimal
All-IsDigit-decimal zero n = tt
All-IsDigit-decimal (suc fuel) n = elim (dec_lt n 10) [
  | yes one ↦ rw (lt→ltb n 10 one) (omega arith, tt)
  | no more ↦ rw (le→not-ltb n 10 (omega arith)) (
      All-append IsDigit (decimal fuel (n / 10)) ((n % 10 + b'0') ∷ [])
        (All-IsDigit-decimal fuel (n / 10)) (omega arith, tt))
]

read_digits-snoc :
    (acc : ℕ) (xs : List ℕ) (d : ℕ)
    → All IsDigit xs
    → IsDigit d
    → read_digits acc (xs ++ d ∷ []) ≡ read_digits acc xs * 10 + (d - b'0')
unfolding read_digits
read_digits-snoc acc [] d digits digit = ground arith
read_digits-snoc acc (c ∷ cs) d digits digit =
    ground (arith, read_digits-snoc (acc * 10 + (c - b'0')) cs d)

pub read_digits-decimal : (fuel n : ℕ) → n < fuel → read_digits 0 (decimal fuel n) ≡ n
unfolding decimal
read_digits-decimal zero n h = absurd (omega arith)
read_digits-decimal (suc fuel) n h = elim (dec_lt n 10) [
  | yes one ↦ rw (lt→ltb n 10 one) (unfold read_digits in ground arith)
  | no more ↦
      rw
        (
          le→not-ltb n 10 (omega arith),
          read_digits-snoc 0 (decimal fuel (n / 10)) (n % 10 + b'0')
              (All-IsDigit-decimal fuel (n / 10)) (omega arith),
          read_digits-decimal fuel (n / 10) (omega arith),
        )
        (omega arith)
]

pub atoi-digits : (xs : List ℕ) → All IsDigit xs → atoi xs ≡ pos (read_digits 0 xs)
unfolding atoi
atoi-digits [] h = unfold read_digits in refl
atoi-digits (c ∷ cs) h = ground arith

-- `atoi` reads back every number that `std::to_string` writes.
pub atoi-to_string : (z : ℤ) → atoi (to_string z) ≡ z
unfolding to_string
atoi-to_string (pos n) =
    atoi-digits (decimal (suc n) n) (All-IsDigit-decimal (suc n) n)
    ∙ ap pos (read_digits-decimal (suc n) n (omega arith))
atoi-to_string (negsuc n) =
    let value = read_digits-decimal (suc (suc n)) (suc n) (omega arith) in
    unfold atoi in ap (sub_ℕ 0) value ∙ ground arith
