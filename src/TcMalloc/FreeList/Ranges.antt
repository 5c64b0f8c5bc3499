-- ===== src/TcMalloc/FreeList/Ranges.antt =====
-- Ranges of blocks: walking along a list, `PushRang` and `PopRang`.
use mylittle_code_house.Base.{
  ℕ, zero, suc, ◌<◌, ◌≤◌, ◌≡◌, ◌≢◌, refl, arith, ok, err, segfault, Returns, returns, ◌>>=◌, List,
  [], ◌∷◌, ◌++◌, length, u64_mod, null, update, Fresh, IsDistinct, sub64, length-append, le→leb,
  lt→not-leb, update_self, dec_lt, IsDistinct-left, Fresh-last_right,
}
use mylittle_code_house.TcMalloc.Memory.{
  Words, Chain, get_next, get_next-ok, get_next-null, put_next-ok, Chain-update, Chain-append,
  Chain-append,
}
use mylittle_code_house.TcMalloc.FreeList.{FreeList, push_range, walk, pop_range}
use mylittle_code_house.TcMalloc.FreeList.Refine.{Holds}

-- `length ys` steps lead to the block behind `ys`.
pub walk-last :
    (w : Words) (p : ℕ) (ys : List ℕ) (e q : ℕ)
    → Chain w p (ys ++ e ∷ []) q
    → walk w (length ys) p ≡ ok e
unfolding walk
walk-last w p [] e q c = ground (arith, c)
walk-last w p (y ∷ ys) e q c = rw (c.0, get_next-ok w y c.1) (walk-last w (w y) ys e q c.2)

-- As many steps as the list has blocks, or more, end in a read through the null pointer.
pub walk_off :
    (w : Words) (k p : ℕ) (xs : List ℕ)
    → Chain w p xs null
    → length xs ≤ k
    → (walk w k p >>= get_next w) ≡ err segfault
unfolding walk
walk_off w zero p [] c h = rw (c) (get_next-null w)
walk_off w zero p (x ∷ xs) c h = absurd (omega arith)
walk_off w (suc k) p [] c h = rw (c, get_next-null w)
walk_off w (suc k) p (x ∷ xs) c h =
    rw (c.0, get_next-ok w x c.1) (walk_off w k (w x) xs c.2 (omega arith))

Chain-last-ne : (w : Words) (p : ℕ) (ys : List ℕ) (e q : ℕ) → Chain w p (ys ++ e ∷ []) q → e ≢ null
Chain-last-ne w p [] e q c = c.1
Chain-last-ne w p (y ∷ ys) e q c = Chain-last-ne w (w y) ys e q c.2

pub Chain-last : (w : Words) (p : ℕ) (ys : List ℕ) (e q : ℕ) → Chain w p (ys ++ e ∷ []) q → w e ≡ q
Chain-last w p [] e q c = c.2
Chain-last w p (y ∷ ys) e q c = Chain-last w (w y) ys e q c.2

Fresh-last : (y : ℕ) (ys : List ℕ) (e : ℕ) → Fresh y (ys ++ e ∷ []) → y ≢ e
Fresh-last y [] e f = f.0
Fresh-last y (z ∷ ys) e f = Fresh-last y ys e f.1

-- A write to the last block of a chain turns the end of the chain, and nothing else.
pub Chain-relink :
    (w : Words) (p : ℕ) (ys : List ℕ) (e q v : ℕ)
    → IsDistinct (ys ++ e ∷ [])
    → Chain w p (ys ++ e ∷ []) q
    → Chain (update w e v) p (ys ++ e ∷ []) v
Chain-relink w p [] e q v d c = (c.0, c.1, update_self w e v)
Chain-relink w p (y ∷ ys) e q v d c =
    let ne = Fresh-last y ys e d.0 in
    (c.0, c.1, ground (arith, ne, Chain-relink w (w y) ys e q v d.1 c.2))

-- PushRang of a chain of blocks apart from the list, with its true first block, last block and
-- count, and no wrap of the count, puts the chain in front of the list in its order, keeps the
-- limit, and writes to its last block only.
pub push_range-Holds :
    (w : Words) (l : FreeList) (xs ys : List ℕ) (start e q : ℕ)
    → Holds w l xs
    → Chain w start (ys ++ e ∷ []) q
    → IsDistinct ((ys ++ e ∷ []) ++ xs)
    → length ((ys ++ e ∷ []) ++ xs) < u64_mod
    → Returns
        (λ (r : Words × FreeList).
          Holds r.0 r.1 ((ys ++ e ∷ []) ++ xs)
          × (r.1.max_size ≡ l.max_size)
          × (r.0 ≡ update w e l.head))
        (push_range w l start e (length (ys ++ e ∷ [])))
unfolding push_range
push_range-Holds w l xs ys start e q v c d room =
    rw (put_next-ok w e l.head (Chain-last-ne w start ys e q c)) (
      returns (
        record {
          chain =
              Chain-append (update w e l.head) start (ys ++ e ∷ []) xs l.head null
                (Chain-relink w start ys e q l.head (IsDistinct-left _ xs d) c)
                (Chain-update w l.head xs null e l.head (Fresh-last_right ys e xs d) v.chain);
          distinct = d;
          counted = omega (arith, v.counted, length-append (ys ++ e ∷ []) xs);
          small = room;
        },
        refl,
        refl,
      ))

-- PopRang of as many blocks as a list holds, at least one, hands out the whole list in order,
-- ended by null, from its first block to its last, and leaves the empty list under the same
-- limit.
pub pop_range-Holds :
    (w : Words) (l : FreeList) (ys : List ℕ) (e : ℕ)
    → Holds w l (ys ++ e ∷ [])
    → Returns
        (λ (r : Words × FreeList × ℕ × ℕ).
          Holds r.0 r.1 []
          × Chain r.0 r.2 (ys ++ e ∷ []) null
          × (r.3 ≡ e)
          × (r.1.max_size ≡ l.max_size)
          × (r.0 ≡ update w e null))
        (pop_range w l (length (ys ++ e ∷ [])))
unfolding pop_range
pop_range-Holds w l ys e v =
    let ne = Chain-last-ne w l.head ys e null v.chain in
    let count = length-append ys (e ∷ []) in
    let steps : sub64 (length (ys ++ e ∷ [])) 1 ≡ length ys = omega (arith, v.small) in
    rw
      (
        le→leb l.size (length (ys ++ e ∷ [])) (omega (arith, v.counted)),
        steps,
        walk-last w l.head ys e null v.chain,
        get_next-ok w e ne,
        put_next-ok w e null ne,
      )
      (returns (
        record {
          chain = Chain-last w l.head ys e null v.chain;
          distinct = tt;
          counted = omega (arith, v.counted, v.small);
          small = omega arith;
        },
        Chain-relink w l.head ys e null null v.distinct v.chain,
        refl,
        refl,
        refl,
      ))

-- PopRang of at least one block succeeds only if it asks for exactly as many as the list holds.
pub pop_range-only_all :
    (w : Words) (l : FreeList) (xs : List ℕ) (n : ℕ) (r : Words × FreeList × ℕ × ℕ)
    → Holds w l xs
    → 0 < n
    → n < u64_mod
    → pop_range w l n ≡ ok r
    → n ≡ length xs
unfolding pop_range
pop_range-only_all w l xs n r v positive small h = elim (dec_lt n (length xs)) [
  | yes few ↦ let failed = lt→not-leb l.size n (omega (arith, v.counted)) in ground (arith, failed)
  | no not_few ↦ elim (dec_lt (length xs) n) [
    | yes many ↦
        let off = walk_off w (sub64 n 1) l.head xs v.chain (omega arith) in
        let passed = le→leb l.size n (omega (arith, v.counted)) in ground (arith, off, passed)
    | no not_many ↦ omega arith
  ]
]
