-- ===== src/TcMalloc/ClassSize/Align.antt =====
-- `Round_up` and the mask of `_Round_up`, bit by bit, beside the alignment of each size class.
use Prim.Native.Nat.{digits, bit_and-bitwise}
use mylittle_code_house.Base.{
  ℕ, zero, suc, ◌+◌, ◌-◌, ◌*◌, ◌/◌, ◌%◌, ◌^◌, ◌≤◌, ◌<◌, ◌≡◌, refl, min, bit_and, arith, ap, u64_mod,
  add64, sub64, leb, if◌then◌else◌,
}
use native.Mathlib.Nat.{pow-suc}
use mylittle_code_house.TcMalloc.ClassSize.{round_up_to, round_up}

-- The digits that the native `bit_and` stands for.
abbrev and_rec : ℕ → ℕ → ℕ → ℕ
and_rec n a b = digits (λ b. zero) min n a b

and_rec_fuel : (n m a b : ℕ) → a ≤ n → a ≤ m → and_rec n a b ≡ and_rec m a b
and_rec_fuel zero zero a b p q = refl
and_rec_fuel zero (suc m) zero b p q = refl
and_rec_fuel zero (suc m) (suc a) b p q = absurd (omega arith)
and_rec_fuel (suc n) zero zero b p q = refl
and_rec_fuel (suc n) zero (suc a) b p q = absurd (omega arith)
and_rec_fuel (suc n) (suc m) zero b p q = refl
and_rec_fuel (suc n) (suc m) (suc a) b p q =
    omega (arith, and_rec_fuel n m (suc a / 2) (b / 2) (omega arith) (omega arith))

bit_and-lowest : (a b : ℕ) → bit_and a b ≡ bit_and (a / 2) (b / 2) * 2 + min (a % 2) (b % 2)
bit_and-lowest zero b = omega (arith, bit_and-bitwise 0 b, bit_and-bitwise 0 (b / 2))
bit_and-lowest (suc a) b = omega (
  arith,
  bit_and-bitwise (suc a) b,
  bit_and-bitwise (suc a / 2) (b / 2),
  and_rec_fuel a (suc a / 2) (suc a / 2) (b / 2) (omega arith) (omega arith),
)

two_pow_suc : (w : ℕ) → 2 ^ suc w ≡ 2 ^ w * 2
two_pow_suc w = pow-suc 2 w

two_pow_pos : (w : ℕ) → 0 < 2 ^ w
two_pow_pos zero = omega arith
two_pow_pos (suc w) = omega (arith, two_pow_suc w, two_pow_pos w)

-- A mask of `w` ones keeps a number of `w` bits.
bit_and-ones : (w a m : ℕ) → a < 2 ^ w → suc m ≡ 2 ^ w → bit_and a m ≡ a
bit_and-ones zero a m h e =
    let none_left : a ≡ 0 = omega arith in rw none_left (bit_and-bitwise 0 m)
bit_and-ones (suc w) a m h e = omega (
  arith,
  bit_and-lowest a m,
  two_pow_suc w,
  two_pow_pos w,
  bit_and-ones w (a / 2) (m / 2) (omega (arith, two_pow_suc w))
      (omega (arith, two_pow_suc w, two_pow_pos w)),
)

abbrev double : ℕ → ℕ → ℕ
double zero m = m
double (suc k) m = double k m * 2

abbrev halve : ℕ → ℕ → ℕ
halve zero x = x
halve (suc k) x = halve k (x / 2)

-- Zeros at the low end of a mask clear as many low bits.
bit_and-double : (k x m : ℕ) → bit_and x (double k m) ≡ double k (bit_and (halve k x) m)
bit_and-double zero x m = refl
bit_and-double (suc k) x m =
    let half : double k m * 2 / 2 ≡ double k m = omega arith in
    rw bit_and-lowest (rw half (omega (arith, bit_and-double k (x / 2) m)))

-- `_Round_up` at an alignment of `k` zero bits, with `w` ones above them in the mask.
round_up_to-double :
    (k w m align x : ℕ)
    → x < 2 ^ 63
    → 0 < align
    → align < 2 ^ 62
    → double k m ≡ u64_mod - 1 - (align - 1)
    → suc m ≡ 2 ^ w
    → halve k (x + align - 1) < 2 ^ w
    → round_up_to x align ≡ double k (halve k (x + align - 1))
unfolding round_up_to
round_up_to-double k w m align x small positive modest mask ones fits =
    let sum : sub64 (add64 x align) 1 ≡ x + align - 1 = omega arith in
    rw (sum, ← mask, bit_and-double k (x + align - 1) m)
      (ap (double k) (bit_and-ones w (halve k (x + align - 1)) m fits ones))

pub round_up_to_8 : (x : ℕ) → x < 2 ^ 63 → round_up_to x 8 ≡ (x + 7) / 8 * 8
round_up_to_8 x h = omega (
  arith,
  round_up_to-double 3 61 (2 ^ 61 - 1) 8 x h (omega arith) (omega arith) refl refl (omega arith),
)

pub round_up_to_16 : (x : ℕ) → x < 2 ^ 63 → round_up_to x 16 ≡ (x + 15) / 16 * 16
round_up_to_16 x h = omega (
  arith,
  round_up_to-double 4 60 (2 ^ 60 - 1) 16 x h (omega arith) (omega arith) refl refl (omega arith),
)

pub round_up_to_128 : (x : ℕ) → x < 2 ^ 63 → round_up_to x 128 ≡ (x + 127) / 128 * 128
round_up_to_128 x h = omega (
  arith,
  round_up_to-double 7 57 (2 ^ 57 - 1) 128 x h (omega arith) (omega arith) refl refl (omega arith),
)

pub round_up_to_1024 : (x : ℕ) → x < 2 ^ 63 → round_up_to x 1024 ≡ (x + 1023) / 1024 * 1024
round_up_to_1024 x h = omega (
  arith,
  round_up_to-double 10 54 (2 ^ 54 - 1) 1024 x h (omega arith) (omega arith) refl refl
      (omega arith),
)

pub round_up_to_8192 : (x : ℕ) → x < 2 ^ 63 → round_up_to x 8192 ≡ (x + 8191) / 8192 * 8192
round_up_to_8192 x h = omega (
  arith,
  round_up_to-double 13 51 (2 ^ 51 - 1) 8192 x h (omega arith) (omega arith) refl refl
      (omega arith),
)

-- The alignment of a size's class, as the comment above `ClassSize` tabulates it.
abbrev pub class_align : ℕ → ℕ
class_align size =
    if leb size 128
    then 8
    else if leb size 1024
    then 16
    else if leb size 8192
    then 128
    else if leb size 65536
    then 1024
    else 8192

-- For a size below 2^63 Round_up gives a multiple of the alignment of its class that is at least
-- the size and less than one alignment above it.
pub round_up_least :
    (size : ℕ)
    → size < 2 ^ 63
    → (round_up size % class_align size ≡ 0)
      × (size ≤ round_up size)
      × (round_up size < size + class_align size)
unfolding round_up
round_up_least size h = ground (
  arith,
  round_up_to_8 size h,
  round_up_to_16 size h,
  round_up_to_128 size h,
  round_up_to_1024 size h,
  round_up_to_8192 size h,
)

-- Rounding keeps within the class: a size of the first four classes never grows past its class.
pub class_align-round_up :
    (size : ℕ) → size < 2 ^ 63 → class_align (round_up size) ≡ class_align size
unfolding round_up
class_align-round_up size h = ground (
  arith,
  round_up_to_8 size h,
  round_up_to_16 size h,
  round_up_to_128 size h,
  round_up_to_1024 size h,
  round_up_to_8192 size h,
)
