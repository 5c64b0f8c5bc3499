-- ===== src/TcMalloc/Memory.antt =====
-- `GetNext` of TCmalloc/TCmallocSRC/Common.hpp: the pointer in the first word of a free block.
use mylittle_code_house.Base.{
  ℕ, ◌≡◌, ◌≢◌, refl, arith, Result, ok, err, segfault, List, [], ◌∷◌, ◌++◌, ◌==◌, if◌then◌else◌,
  null, update, Fresh,
}

-- The first word of each block of raw memory, by the block's address. The sizes of blocks are
-- multiples of 8, so the words of different blocks do not overlap.
abbrev pub Words : Type 0
Words = ℕ → ℕ

-- `GetNext(p)` read: a read through the null pointer faults. Memory behind a refused program break
-- is not told apart: where a theorem writes to fresh pages, it asks for a break that is granted.
unfoldable pub get_next : Words → ℕ → Result ℕ
get_next w p = if p == null then err segfault else ok (w p)

-- `GetNext(p) = v`
unfoldable pub put_next : Words → ℕ → ℕ → Result Words
put_next w p v = if p == null then err segfault else ok (update w p v)

-- From `p` the words lead through the blocks `xs` to `q`.
abbrev pub Chain : Words → ℕ → List ℕ → ℕ → Type 0
Chain w p [] q = p ≡ q
Chain w p (x ∷ xs) q = (p ≡ x) × (x ≢ null) × Chain w (w x) xs q

pub get_next-ok : (w : Words) (p : ℕ) → p ≢ null → get_next w p ≡ ok (w p)
unfolding get_next
get_next-ok w p h = ground arith

pub get_next-null : (w : Words) → get_next w null ≡ err segfault
unfolding get_next
get_next-null w = refl

pub put_next-ok : (w : Words) (p v : ℕ) → p ≢ null → put_next w p v ≡ ok (update w p v)
unfolding put_next
put_next-ok w p v h = ground arith

-- A write to a block outside the chain leaves the chain.
pub Chain-update :
    (w : Words) (p : ℕ) (xs : List ℕ) (q a v : ℕ)
    → Fresh a xs
    → Chain w p xs q
    → Chain (update w a v) p xs q
Chain-update w p [] q a v out c = c
Chain-update w p (x ∷ xs) q a v out c = (c.0, c.1, ground (arith, Chain-update w (w x) xs q a v))

pub Chain-append :
    (w : Words) (p : ℕ) (xs ys : List ℕ) (m q : ℕ)
    → Chain w p xs m
    → Chain w m ys q
    → Chain w p (xs ++ ys) q
Chain-append w p [] ys m q c d = ground arith
Chain-append w p (x ∷ xs) ys m q c d = (c.0, c.1, Chain-append w (w x) xs ys m q c.2 d)
