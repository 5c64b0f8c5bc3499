-- ===== src/TcMalloc/PageCache/Search.antt =====
-- `NewSpan` on a bucket that holds nothing: the search through the longer buckets.
use mylittle_code_house.Base.{
  ℕ, zero, suc, ◌+◌, ◌-◌, ◌≤◌, ◌<◌, ◌≡◌, refl, sym, arith, none, some, ok, Returns, returns,
  Returns-value, List, [], ◌∷◌, ne→not-==, ==_refl, lt→ltb, le→leb, le→not-ltb,
}
use mylittle_code_house.TcMalloc.SpanList.Refine.{Holds, is_empty-Holds}
use mylittle_code_house.TcMalloc.State.{State, pure, and_then, page_list}
use mylittle_code_house.TcMalloc.PageCache.{new_span, search_longer, split_span}
use mylittle_code_house.TcMalloc.PageCache.Split.{Splits, Halved}
use mylittle_code_house.TcMalloc.PageCache.Halve.{split_span-Halved}

-- No bucket from `low` up to but without `high` holds a span.
abbrev pub AllEmpty : State → ℕ → ℕ → Type 0
AllEmpty s low high = (k : ℕ) → low ≤ k → k < high → Holds s.spans (s.pages.lists k) []

pub search_longer-none :
    (k step n : ℕ) (s : State)
    → step + k ≤ 129
    → AllEmpty s step (step + k)
    → search_longer k step n s ≡ ok (none, s)
unfolding search_longer page_list
search_longer-none zero step n s high clear = refl
search_longer-none (suc k) step n s high clear =
    rw
      (
        lt→ltb step 129 (omega arith),
        is_empty-Holds s.spans (s.pages.lists step) [] (clear step (omega arith) (omega arith)),
        ==_refl (s.pages.lists step),
      )
      (search_longer-none k (step + 1) n s (omega arith)
        λ j l h. clear j (omega arith) (omega arith))

-- The search cuts the first span of the first bucket that holds one.
search_longer-split :
    (k d step m n x : ℕ) (xs : List ℕ) (s : State)
    → step + d ≡ m
    → d < k
    → m ≤ 128
    → AllEmpty s step m
    → Holds s.spans (s.pages.lists m) (x ∷ xs)
    → search_longer k step n s ≡ and_then (split_span (s.pages.lists m) n s) λ p. pure (some p)
unfolding search_longer page_list
search_longer-split zero d step m n x xs s on enough high clear found = absurd (omega arith)
search_longer-split (suc k) zero step m n x xs s on enough high clear found =
    let here : step ≡ m = omega arith in
    rw
      (
        here,
        lt→ltb m 129 (omega arith),
        is_empty-Holds s.spans (s.pages.lists m) (x ∷ xs) found,
        ne→not-== x (s.pages.lists m) (λ q. found.distinct.0.0 (sym q)),
      )
      refl
search_longer-split (suc k) (suc d) step m n x xs s on enough high clear found =
    rw
      (
        lt→ltb step 129 (omega arith),
        is_empty-Holds s.spans (s.pages.lists step) [] (clear step (omega arith) (omega arith)),
        ==_refl (s.pages.lists step),
      )
      (search_longer-split k d (step + 1) m n x xs s (omega arith) (omega arith) high
        (λ j l h. clear j (omega arith) h) found)

-- NewSpan for a length whose bucket is empty, when the first longer bucket with a span has one of
-- its length at the front, without a wrap of its pages, the two buckets are apart, and the pool
-- has nothing to recycle and a piece of its chunk left that is not in either bucket: the front of
-- that span, of the length asked for, becomes a new span that is returned and entered page by
-- page; the rest of the pages stays with the old span, which moves from the front of its bucket
-- to the front of the bucket of its new length, with its first and last page entered; the other
-- spans of both buckets stay in order, and the map outside of these pages is as before.
pub new_span-Halved :
    (fuel n m x : ℕ) (xs zs : List ℕ) (s : State)
    → AllEmpty s n m
    → Splits s m n x xs zs
    → Returns (Halved s m n x xs zs) (new_span (suc fuel) n s)
unfolding new_span page_list
new_span-Halved fuel n m x xs zs s clear v =
    rw
      (
        le→not-ltb 128 n (omega (arith, v.shorter, v.high)),
        lt→ltb 0 n v.low,
        le→leb n 128 (omega (arith, v.shorter, v.high)),
        lt→ltb n 129 (omega (arith, v.shorter, v.high)),
        is_empty-Holds s.spans (s.pages.lists n) [] (clear n (omega arith) v.shorter),
        ==_refl (s.pages.lists n),
      )
      (let eq =
          search_longer-split (128 - n) (m - (n + 1)) (n + 1) m n x xs s (omega (arith, v.shorter))
            (omega (arith, v.shorter, v.high)) v.high (λ j l h. clear j (omega arith) h) v.longer in
        let (r, e, h) = Returns-value (split_span-Halved s m n x xs zs v) in rw (eq, e) (returns h))
