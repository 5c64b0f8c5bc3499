-- ===== src/Base/Store.antt =====
-- Stores: a value for each address, `size_t` arithmetic, and pointers.
use Prim.Native.Nat.{ℕ, ◌+◌, ◌-◌, ◌*◌, ◌/◌, ◌%◌, ◌^◌}
use mathlib.Core.Path.{◌≡◌}
use mathlib.Core.Logic.{◌≢◌}
use native.Mathlib.Omega.{arith}
use mylittle_code_house.Base.Tests.{◌==◌, if◌then◌else◌}

abbrev pub null : ℕ
null = 0

-- `f[a] = v`
abbrev pub update {ℓ} : {A : Type ℓ} → (ℕ → A) → ℕ → A → ℕ → A
update f a v b = if a == b then v else f b

abbrev pub u64_mod : ℕ
u64_mod = 2 ^ 64

-- `a + b` and `a - b` of `size_t`
abbrev pub add64 : ℕ → ℕ → ℕ
add64 a b = (a + b) % u64_mod

abbrev pub sub64 : ℕ → ℕ → ℕ
sub64 a b = (a + u64_mod - b) % u64_mod

abbrev pub mul64 : ℕ → ℕ → ℕ
mul64 a b = a * b % u64_mod

-- `a << k` and `a >> k` of `size_t`
abbrev pub shl64 : ℕ → ℕ → ℕ
shl64 a k = a * 2 ^ k % u64_mod

abbrev pub shr64 : ℕ → ℕ → ℕ
shr64 a k = a / 2 ^ k

pub update_self {ℓ} : {A : Type ℓ} (f : ℕ → A) (a : ℕ) (v : A) → update f a v a ≡ v
update_self f a v = ground arith

pub update_ne {ℓ} : {A : Type ℓ} (f : ℕ → A) (a b : ℕ) (v : A) → a ≢ b → update f a v b ≡ f b
update_ne f a b v h = ground arith
