-- ===== src/Base/Results.antt =====
-- How a call of the code ends: with a value, or by the way in which the process stops.
use mathlib.Core.Path.{◌≡◌, refl}
use mathlib.Core.Bool.{Bool, true, false}

-- `assert_failed` is a failed `assert`, `segfault` a null pointer that is read or written,
-- `out_of_bounds` an array index outside the array, `deadlock` a lock taken while it is held,
-- `bad_alloc` the C++ exception; `out_of_fuel` is the model's own.
pub data Error : Type 0 where
  assert_failed segfault out_of_bounds deadlock bad_alloc out_of_fuel : Error

pub data Result {ℓ} (A : Type ℓ) : Type ℓ where
  err : Error → Result A
  ok : A → Result A

infixl 5 ◌>>=◌ ◌>>◌
abbrev pub ◌>>=◌ {ℓ κ} : {A : Type ℓ} {B : Type κ} → Result A → (A → Result B) → Result B
err stop >>= next = err stop
ok value >>= next = next value

abbrev pub ◌>>◌ {ℓ} : {B : Type ℓ} → Result (Unit {0}) → Result B → Result B
first >> second = first >>= λ _. second

-- `assert(b)`
abbrev pub assert : Bool → Result (Unit {0})
assert true = ok tt
assert false = err assert_failed

-- Total correctness of a run: it ends with a value, and the value is as promised.
pub data Returns {ℓ κ} {A : Type ℓ} (P : A → Type κ) : Result A → Type (ℓ ⊔ κ) where
  returns : {a : A} → P a → Returns P (ok a)

module _ {ℓ κ} {A : Type ℓ} {P : A → Type κ} where
  pub bind {ℓ' κ'} :
      {B : Type ℓ'} {Q : B → Type κ'} {r : Result A} {k : A → Result B}
      → Returns P r
      → ((a : A) → P a → Returns Q (k a))
      → Returns Q (r >>= k)
  bind (returns p) next = next _ p

  pub mono {κ'} :
      {Q : A → Type κ'} {r : Result A} → Returns P r → ((a : A) → P a → Q a) → Returns Q r
  mono (returns p) weaken = returns (weaken _ p)

  pub Returns-value : {r : Result A} → Returns P r → (a : A) × (r ≡ ok a) × P a
  Returns-value (returns {a} p) = (a, refl, p)

-- A run of two parts that ends with a value went through the first.
pub >>=-eq-ok {ℓ κ} :
    {A : Type ℓ} {B : Type κ} (r : Result A) (next : A → Result B) {y : B}
    → (r >>= next) ≡ ok y
    → (x : A) × (r ≡ ok x) × (next x ≡ ok y)
>>=-eq-ok (err stop) next e = cc
>>=-eq-ok (ok x) next e = (x, refl, e)
