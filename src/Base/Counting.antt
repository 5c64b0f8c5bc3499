-- ===== src/Base/Counting.antt =====
-- Sums over the threads.
use Prim.Native.Nat.{ℕ, zero, suc, ◌+◌, ◌*◌, ◌≤◌, ◌<◌}
use mathlib.Core.Path.{◌≡◌, refl}
use mathlib.Core.Logic.{◌⊎◌, inl, inr}
use mathlib.Core.Bool.{Bool, true, false}
use native.Mathlib.Omega.{arith}
unfoldable use native.Mathlib.Decide.{dec_lt}
use mylittle_code_house.Base.Tests.{Bool-cases}
use mylittle_code_house.Base.Store.{update}

module _ {ℓ} {P : Type ℓ} (w : P → ℕ) where
  -- The weights of the first `n` threads.
  pub total : ℕ → (ℕ → P) → ℕ
  total zero f = 0
  total (suc n) f = w (f n) + total n f

  total-beyond : (n : ℕ) (f : ℕ → P) (i : ℕ) (p : P) → n ≤ i → total n (update f i p) ≡ total n f
  unfolding total
  total-beyond zero f i p h = refl
  total-beyond (suc n) f i p h = ground (arith, total-beyond n f i p)

  -- A thread that moves changes the sum by the change of its own weight.
  pub total-update :
      (n : ℕ) (f : ℕ → P) (i : ℕ) (p : P)
      → i < n
      → total n (update f i p) + w (f i) ≡ total n f + w p
  unfolding total
  total-update zero f i p h = absurd (omega arith)
  total-update (suc n) f i p h = elim (dec_lt i n) [
    | yes earlier ↦ ground (arith, total-update n f i p earlier)
    | no last ↦ ground (arith, total-beyond n f i p)
  ]

  pub total-const : (n : ℕ) (p : P) → total n (λ _. p) ≡ n * w p
  unfolding total
  total-const zero p = omega arith
  total-const (suc n) p = grind (arith, total-const n p)

  pub total-zero : (n : ℕ) (p : P) → w p ≡ 0 → total n (λ _. p) ≡ 0
  unfolding total
  total-zero zero p h = refl
  total-zero (suc n) p h = omega (arith, total-zero n p h)

  -- A thread's weight is part of the sum, and two threads' weights are.
  pub weight-le-total : (n : ℕ) (f : ℕ → P) (i : ℕ) → i < n → w (f i) ≤ total n f
  unfolding total
  weight-le-total zero f i h = absurd (omega arith)
  weight-le-total (suc n) f i h = elim (dec_lt i n) [
    | yes earlier ↦ omega (arith, weight-le-total n f i earlier)
    | no last ↦ let e : i ≡ n = omega arith in rw e (omega arith)
  ]

  pub weights-le-total :
      (n : ℕ) (f : ℕ → P) (i j : ℕ) → i < j → j < n → w (f i) + w (f j) ≤ total n f
  unfolding total
  weights-le-total zero f i j h k = absurd (omega arith)
  weights-le-total (suc n) f i j h k = elim (dec_lt j n) [
    | yes earlier ↦ omega (arith, weights-le-total n f i j h earlier)
    | no last ↦
        let e : j ≡ n = omega arith in rw e (omega (arith, weight-le-total n f i (omega arith)))
  ]

  -- A sum that is not zero has a thread with a weight that is not zero.
  pub positive_weight : (n : ℕ) (f : ℕ → P) → 0 < total n f → (i : ℕ) × (i < n) × (0 < w (f i))
  unfolding total
  positive_weight zero f h = absurd (omega arith)
  positive_weight (suc n) f h = elim (dec_lt 0 (w (f n))) [
    | yes own ↦ (n, omega arith, own)
    | no none ↦ let (i, lt, pos) = positive_weight n f (omega arith) in (i, omega arith, pos)
  ]

  -- The same for a thread whose place `q` is known, and the share of such a thread.
  pub total-moved :
      (n : ℕ) (f : ℕ → P) (i : ℕ) (q p : P)
      → i < n
      → f i ≡ q
      → total n (update f i p) + w q ≡ total n f + w p
  total-moved n f i q p lt e = rw (← e) (total-update n f i p lt)

  pub share-le-total : (n : ℕ) (f : ℕ → P) (i : ℕ) (q : P) → i < n → f i ≡ q → w q ≤ total n f
  share-le-total n f i q lt e = rw (← e) (weight-le-total n f i lt)

  pub total-none : (n : ℕ) (f : ℕ → P) → ((i : ℕ) → i < n → w (f i) ≡ 0) → total n f ≡ 0
  unfolding total
  total-none zero f h = refl
  total-none (suc n) f h =
      omega (arith, h n (omega arith), total-none n f (λ i lt. h i (omega arith)))

-- Threads of the same weights have the same sum.
pub total-same {ℓ} :
    {P : Type ℓ} (w : P → ℕ) (n : ℕ) (f g : ℕ → P)
    → ((i : ℕ) → i < n → w (f i) ≡ w (g i))
    → total w n f ≡ total w n g
unfolding total
total-same w zero f g h = refl
total-same w (suc n) f g h =
    omega (arith, h n (omega arith), total-same w n f g (λ i lt. h i (omega arith)))

-- Some thread passes a test, or none does.
pub find_thread {ℓ} :
    {P : Type ℓ} (p : P → Bool) (n : ℕ) (f : ℕ → P)
    → ((i : ℕ) × (i < n) × (p (f i) ≡ true)) ⊎ ((i : ℕ) → i < n → p (f i) ≡ false)
find_thread p zero f = inr (λ i h. absurd (omega arith))
find_thread p (suc n) f = elim (Bool-cases (p (f n))) [
  | inl yes_last ↦ inl (n, omega arith, yes_last)
  | inr not_last ↦ elim (find_thread p n f) [
    | inl (i, lt, e) ↦ inl (i, omega arith, e)
    | inr none ↦ inr (λ i h. elim (dec_lt i n) [
      | yes earlier ↦ none i earlier
      | no last ↦ let e : i ≡ n = omega arith in rw e not_last
    ])
  ]
]

-- Two weights that lie inside a third one together have sums that do.
pub total-parts {ℓ} :
    {P : Type ℓ} (v w u : P → ℕ)
    → ((p : P) → v p + w p ≤ u p)
    → (n : ℕ) (f : ℕ → P) → total v n f + total w n f ≤ total u n f
unfolding total
total-parts v w u h zero f = omega arith
total-parts v w u h (suc n) f = omega (arith, h (f n), total-parts v w u h n f)
