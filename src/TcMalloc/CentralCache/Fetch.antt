-- ===== src/TcMalloc/CentralCache/Fetch.antt =====
-- `FetchRangObj`'s walk along a span's free blocks.
use mylittle_code_house.Base.{
  ℕ, zero, suc, ◌+◌, ◌-◌, ◌<◌, ◌≡◌, ◌≢◌, refl, arith, Returns, returns, bind, mono, List, [], ◌∷◌,
  ◌++◌, null, update, ne→not-==, add64, sub64, u64_mod, length, min, IsDistinct, ap, subst,
  length-append, IsDistinct-left, Fresh-last_right,
}
use mylittle_code_house.TcMalloc.Memory.{Words, Chain, get_next-ok, put_next-ok, Chain-update}
use mylittle_code_house.TcMalloc.FreeList.Ranges.{Chain-relink}
use mylittle_code_house.TcMalloc.CentralCache.{fetch_rest, fetch}

-- What the walk ends with, started at the block `x` with `actual` blocks counted: `ys` and `e` are
-- the blocks walked, `zs` those left.
record Walked (w : Words) (x : ℕ) (xs : List ℕ) (k actual : ℕ) (r : ℕ × ℕ) : Type 0 where
  ys : List ℕ
  zs : List ℕ
  split : x ∷ xs ≡ (ys ++ r.0 ∷ []) ++ zs
  counted : r.1 ≡ actual + min k (length xs)
  taken : length ys ≡ min k (length xs)
  before : Chain w x (ys ++ r.0 ∷ []) (w r.0)
  after : Chain w (w r.0) zs null
  ne : r.0 ≢ null

fetch_rest-Walked :
    (w : Words) (k x : ℕ) (xs : List ℕ) (actual : ℕ)
    → Chain w x (x ∷ xs) null
    → actual + length xs < u64_mod
    → Returns (Walked w x xs k actual) (fetch_rest k w x actual)
unfolding fetch_rest
fetch_rest-Walked w zero x xs actual c room = returns (record {
  ys = [];
  zs = xs;
  split = refl;
  counted = omega arith;
  taken = omega arith;
  before = (refl, c.1, refl);
  after = c.2;
  ne = c.1;
})
fetch_rest-Walked w (suc k) x [] actual c room =
    rw (get_next-ok w x c.1, c.2)
      (returns (record {
        ys = [];
        zs = [];
        split = refl;
        counted = omega arith;
        taken = omega arith;
        before = (refl, c.1, refl);
        after = c.2;
        ne = c.1;
      }))
fetch_rest-Walked w (suc k) x (z ∷ xs) actual c room =
    let sum : add64 actual 1 ≡ actual + 1 = omega arith in
    let next : w x ≡ z = c.2.0 in
    rw (get_next-ok w x c.1, next, ne→not-== z null c.2.1, sum)
      (mono (fetch_rest-Walked w k z xs (actual + 1) (refl, c.2.1, c.2.2) (omega arith)) λ r v.
        record {
          ys = x ∷ v.ys;
          zs = v.zs;
          split = ap (◌∷◌ x) v.split;
          counted = omega (arith, v.counted);
          taken = omega (arith, v.taken);
          before = (refl, c.1, rw next v.before);
          after = v.after;
          ne = v.ne;
        })

-- What `fetch` gives to the thread cache and leaves in the span.
pub record Fetched (w : Words) (blocks : List ℕ) (x batch : ℕ) (r : Words × ℕ × ℕ × ℕ)
    : Type 0 where
  pub given : List ℕ
  pub left : List ℕ
  pub split : blocks ≡ (given ++ r.1 ∷ []) ++ left
  pub counted : r.3 ≡ min batch (length blocks)
  pub taken : length (given ++ r.1 ∷ []) ≡ r.3
  pub handed : Chain r.0 x (given ++ r.1 ∷ []) null
  pub kept : Chain r.0 r.2 left null
  pub written : r.0 ≡ update w r.1 null

-- Fetching a positive batch from a chain of distinct blocks ended by null, with both counts below
-- 2^64, hands out the first blocks, as many as the batch asks for or all there are, as a chain
-- ended by null, reports their number, and leaves the others chained in order.
pub fetch-Fetched :
    (w : Words) (x : ℕ) (xs : List ℕ) (batch : ℕ)
    → Chain w x (x ∷ xs) null
    → IsDistinct (x ∷ xs)
    → length (x ∷ xs) < u64_mod
    → 0 < batch
    → batch < u64_mod
    → Returns (Fetched w (x ∷ xs) x batch) (fetch w x batch)
unfolding fetch
fetch-Fetched w x xs batch c d room positive small =
    let steps : sub64 batch 1 ≡ batch - 1 = omega arith in
    rw steps (
      bind (fetch_rest-Walked w (batch - 1) x xs 1 c (omega arith)) λ r v.
        let d' : IsDistinct ((v.ys ++ r.0 ∷ []) ++ v.zs) = subst IsDistinct v.split d in
        rw (get_next-ok w r.0 v.ne, put_next-ok w r.0 null v.ne)
          (returns (record {
            given = v.ys;
            left = v.zs;
            split = v.split;
            counted = omega (arith, v.counted);
            taken = omega (arith, v.counted, v.taken, length-append v.ys (r.0 ∷ []));
            handed = Chain-relink w x v.ys r.0 (w r.0) null (IsDistinct-left _ v.zs d') v.before;
            kept =
                Chain-update w (w r.0) v.zs null r.0 null (Fresh-last_right v.ys r.0 v.zs d')
                  v.after;
            written = refl;
          })))
