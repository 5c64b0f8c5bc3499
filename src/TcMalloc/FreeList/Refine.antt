-- ===== src/TcMalloc/FreeList/Refine.antt =====
-- A free list read as a list of blocks, for `Push` and `Pop`.
use mylittle_code_house.Base.{
  ℕ, ◌+◌, ◌<◌, ◌≡◌, ◌≢◌, refl, arith, err, assert_failed, Returns, returns, List, [], ◌∷◌, length,
  u64_mod, null, update, Fresh, IsDistinct, ne→not-==, update_self,
}
use mylittle_code_house.TcMalloc.Memory.{Words, Chain, get_next-ok, put_next-ok, Chain-update}
use mylittle_code_house.TcMalloc.FreeList.{FreeList, is_empty, push, pop}

-- The list `l` holds the blocks `xs`, the next to be handed out first.
pub record Holds (w : Words) (l : FreeList) (xs : List ℕ) : Type 0 where
  pub chain : Chain w l.head xs null
  pub distinct : IsDistinct xs
  pub counted : l.size ≡ length xs
  pub small : length xs < u64_mod

-- Push of a block that is not null and not in the list, with no wrap of the count, puts it at the
-- front, keeps the limit, and writes to that block only.
pub push-Holds :
    (w : Words) (l : FreeList) (xs : List ℕ) (obj : ℕ)
    → Holds w l xs
    → obj ≢ null
    → Fresh obj xs
    → length xs + 1 < u64_mod
    → Returns
        (λ (r : Words × FreeList).
          Holds r.0 r.1 (obj ∷ xs) × (r.1.max_size ≡ l.max_size) × (r.0 ≡ update w obj l.head))
        (push w l obj)
unfolding push
push-Holds w l xs obj v ne out room = rw (put_next-ok w obj l.head ne) (
    returns (
      record {
        chain = (
          refl,
          ne,
          rw (update_self w obj l.head) (Chain-update w l.head xs null obj l.head out v.chain),
        );
        distinct = (out, v.distinct);
        counted = omega (arith, v.counted);
        small = omega arith;
      },
      refl,
      refl,
    ))

-- Pop of a list that is not empty returns its first block and leaves the others in order, with
-- the limit unchanged.
pub pop-Holds :
    (w : Words) (l : FreeList) (x : ℕ) (xs : List ℕ)
    → Holds w l (x ∷ xs)
    → Returns
        (λ (r : ℕ × FreeList). (r.0 ≡ x) × Holds w r.1 xs × (r.1.max_size ≡ l.max_size))
        (pop w l)
unfolding pop is_empty
pop-Holds w l x xs v =
    let ne : l.head ≢ null = ground (arith, v.chain) in
    rw (ne→not-== l.head null ne, get_next-ok w l.head ne)
      (returns (
        v.chain.0,
        record {
          chain = rw v.chain.0 (v.chain.2);
          distinct = v.distinct.1;
          counted = omega (arith, v.counted, v.small);
          small = omega (arith, v.small);
        },
        refl,
      ))

-- `Pop` of the empty list fails its assertion.
pub pop-empty : (w : Words) (l : FreeList) → Holds w l [] → pop w l ≡ err assert_failed
unfolding pop is_empty
pop-empty w l v = ground (arith, v.chain)
