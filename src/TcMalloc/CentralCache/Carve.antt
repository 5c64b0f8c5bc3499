-- ===== src/TcMalloc/CentralCache/Carve.antt =====
-- `GetOneSpan`'s loop that cuts a span into blocks.
use native.Mathlib.Nat.{div-add-mod', mod-lt, mul-mod_left}
use mylittle_code_house.Base.{
  ℕ, zero, suc, ◌+◌, ◌-◌, ◌*◌, ◌/◌, ◌%◌, ◌≤◌, ◌<◌, ◌≡◌, ◌≢◌, refl, arith, Returns, returns, mono,
  List, [], ◌∷◌, ◌++◌, ap, subst, null, update, update_self, update_ne, lt→ltb, le→not-ltb, add64,
  u64_mod, ◌>>=◌, ◌∙◌, All, ◌⊎◌, inr,
}
use mylittle_code_house.TcMalloc.Memory.{Words, Chain, put_next, get_next-ok, put_next-ok}
use mylittle_code_house.TcMalloc.CentralCache.{carve_rest, carve}

-- `k` blocks of `size` from `start` on.
abbrev pub cuts : ℕ → ℕ → ℕ → List ℕ
cuts zero start size = []
cuts (suc k) start size = start ∷ cuts k (start + size) size

-- The blocks that `bytes` bytes are cut into: the last one may be cut short.
abbrev pub block_count : ℕ → ℕ → ℕ
block_count bytes size = (bytes + size - 1) / size

abbrev Carved : Words → ℕ → List ℕ → Words → Type 0
Carved w p xs w' = Chain w' p xs null × ((a : ℕ) → a < p → w' a ≡ w a)

carve_rest-cuts :
    (k fuel : ℕ) (w : Words) (tail start end size : ℕ)
    → k < fuel
    → 0 < size
    → 0 < tail
    → tail < start
    → end + size < u64_mod
    → end ≤ start + k * size
    → k ≡ 0 ⊎ (start + k * size < end + size)
    → Returns
        (Carved w tail (tail ∷ cuts k start size))
        (carve_rest fuel w tail start end size >>= λ (w', t). put_next w' t null)
unfolding carve_rest
carve_rest-cuts k zero w tail start end size f s p lt fits above below = absurd (omega arith)
carve_rest-cuts zero (suc fuel) w tail start end size f s p lt fits above below =
    rw (le→not-ltb start end (omega arith), put_next-ok w tail null (omega arith))
      (returns (
        (refl, omega arith, update_self w tail null),
        λ a h. update_ne w tail a null (omega arith),
      ))
carve_rest-cuts (suc k) (suc fuel) w tail start end size f s p lt fits above below =
    let more : start + suc k * size < end + size = ground arith in
    let w' = update w tail start in
    let linked = update_self w tail start in
    let sum : add64 start size ≡ start + size = omega arith in
    rw
      (
        lt→ltb start end (omega arith),
        put_next-ok w tail start (omega arith),
        get_next-ok w' tail (omega arith),
        linked,
        sum,
      )
      (mono
        (carve_rest-cuts k fuel w' start (start + size) end size (omega arith) s (omega arith)
          (omega arith) fits (omega arith) (ground arith))
        λ w'' c. (
          (refl, omega arith, rw (c.1 tail lt ∙ linked) c.0),
          λ a h. c.1 a (omega arith) ∙ update_ne w tail a start (omega arith),
        ))

pub block_count_bounds :
    (bytes size : ℕ)
    → 0 < size
    → 0 < bytes
    → (1 ≤ block_count bytes size)
      × (bytes ≤ block_count bytes size * size)
      × (block_count bytes size * size < bytes + size)
      × (block_count bytes size ≤ bytes)
block_count_bounds bytes size s b =
    let n = bytes + size - 1 in
    let d = div-add-mod' n size in
    let m = mod-lt n s in
    let low : 1 ≤ block_count bytes size = grind (arith, d, m) in
    (low, omega (arith, d, m), omega (arith, d, m), grind (arith, d, m))

carve-cuts_count :
    (fuel : ℕ) (w : Words) (start bytes size k : ℕ)
    → 0 < size
    → 0 < start
    → start + bytes + size < u64_mod
    → k < fuel
    → bytes ≤ suc k * size
    → suc k * size < bytes + size
    → Returns (Carved w start (cuts (suc k) start size)) (carve fuel w start bytes size)
unfolding carve
carve-cuts_count fuel w start bytes size k s p fits f above below =
    let first : add64 start size ≡ start + size = omega arith in
    let last : add64 start bytes ≡ start + bytes = omega arith in
    rw (first, last)
      (carve_rest-cuts k fuel w start (start + size) (start + bytes) size f s p (omega arith)
        (omega arith) (omega arith) (inr (omega arith)))

-- For a block size and a span length that are positive, at an address that is not null, with no
-- wrap at the end of the span and fuel for each of its bytes, cutting the span links its blocks,
-- as many as begin inside it, in order and ended by null, and writes no word below the span.
pub carve-cuts :
    (fuel : ℕ) (w : Words) (start bytes size : ℕ)
    → bytes ≤ fuel
    → 0 < size
    → 0 < start
    → 0 < bytes
    → start + bytes + size < u64_mod
    → Returns
        (λ (w' : Words).
          Chain w' start (cuts (block_count bytes size) start size) null
          × ((a : ℕ) → a < start → w' a ≡ w a))
        (carve fuel w start bytes size)
carve-cuts fuel w start bytes size f s p b fits =
    let bounds = block_count_bounds bytes size s b in
    let k = block_count bytes size - 1 in
    let count : block_count bytes size ≡ suc k = omega (arith, bounds.0) in
    rw count (
      carve-cuts_count fuel w start bytes size k s p fits (omega (arith, bounds.0, bounds.3))
        (rw (← count) bounds.1) (rw (← count) bounds.2))

All-cuts :
    (k base start size end : ℕ)
    → base ≤ start
    → start + k * size ≤ end
    → All (λ block. (base ≤ block) × (block + size ≤ end)) (cuts k start size)
All-cuts zero base start size end b h = tt
All-cuts (suc k) base start size end b h =
    ((b, omega arith), All-cuts k base (start + size) size end (omega arith) (omega arith))

count-mul-eq :
    (bytes size : ℕ)
    → 0 < size
    → 0 < bytes
    → bytes % size ≡ 0
    → block_count bytes size * size ≡ bytes
count-mul-eq bytes size s b exact =
    let bounds = block_count_bounds bytes size s b in
    let whole = div-add-mod' bytes size in
    same (block_count bytes size) (bytes / size) (omega (arith, whole)) bounds.1 bounds.2
  where
    same :
        (k m : ℕ) → m * size ≡ bytes → bytes ≤ k * size → k * size < bytes + size → k * size ≡ bytes
    same k m e lo hi = grind arith

-- Under the conditions of the cutting and for a block size that divides the span, every block
-- lies inside the span.
pub carve-inside :
    (fuel : ℕ) (w : Words) (start bytes size : ℕ)
    → bytes ≤ fuel
    → 0 < size
    → 0 < start
    → 0 < bytes
    → start + bytes + size < u64_mod
    → bytes % size ≡ 0
    → Returns
        (λ (w' : Words).
          (blocks : List ℕ) × Chain w' start blocks null
          × All (λ block. (start ≤ block) × (block + size ≤ start + bytes)) blocks)
        (carve fuel w start bytes size)
carve-inside fuel w start bytes size f s p b fits exact =
    mono (carve-cuts fuel w start bytes size f s p b fits) λ w' c. (
      cuts (block_count bytes size) start size,
      c.0,
      All-cuts (block_count bytes size) start start size (start + bytes) (omega arith)
          (omega (arith, count-mul-eq bytes size s b exact)),
    )

cuts-snoc :
    (k start size : ℕ) → cuts (suc k) start size ≡ cuts k start size ++ (start + k * size) ∷ []
cuts-snoc zero start size = let e : start ≡ start + 0 * size = omega arith in ap (λ a. a ∷ []) e
cuts-snoc (suc k) start size =
    let e : start + size + k * size ≡ start + suc k * size = omega arith in
    ap (◌∷◌ start) (rw (← e) (cuts-snoc k (start + size) size))

-- Under the conditions of the cutting and for a block size that does not divide the span, the
-- last block that is linked reaches beyond the end of the span.
pub carve-overrun :
    (fuel : ℕ) (w : Words) (start bytes size : ℕ)
    → bytes ≤ fuel
    → 0 < size
    → 0 < start
    → 0 < bytes
    → start + bytes + size < u64_mod
    → bytes % size ≢ 0
    → Returns
        (λ (w' : Words).
          (blocks : List ℕ) × (last : ℕ) × Chain w' start (blocks ++ last ∷ []) null
          × (start + bytes < last + size))
        (carve fuel w start bytes size)
carve-overrun fuel w start bytes size f s p b fits uneven =
    let bounds = block_count_bounds bytes size s b in
    let k = block_count bytes size - 1 in
    let count : block_count bytes size ≡ suc k = omega (arith, bounds.0) in
    let beyond : block_count bytes size * size ≢ bytes =
      λ e. uneven (rw (← e) (mul-mod_left (block_count bytes size) size)) in
    mono (carve-cuts fuel w start bytes size f s p b fits) λ w' c. (
      cuts k start size,
      start + k * size,
      subst (λ bs. Chain w' start bs null)
          (ap (λ (n : ℕ). cuts n start size) count ∙ cuts-snoc k start size) c.0,
      omega (arith, bounds.1, beyond, ap (λ (n : ℕ). n * size) count),
    )
