-- ===== src/TcMalloc/ThreadCache/Balance.antt =====
-- The slow start of a thread cache's lists, and when a list is handed back.
use mylittle_code_house.Base.{
  ℕ, ◌+◌, ◌≤◌, ◌<◌, ◌≡◌, ◌≢◌, arith, Returns, bind, mono, List, [], ◌∷◌, ◌++◌, length, u64_mod,
  null, Fresh, ◌>>=◌, unsnoc, subst, ◌∙◌,
}
use mylittle_code_house.TcMalloc.ClassSize.{num_move_size}
use mylittle_code_house.TcMalloc.ClassSize.Batch.{num_move_size_bounds}
use mylittle_code_house.TcMalloc.Memory.{Words, Chain}
use mylittle_code_house.TcMalloc.FreeList.{FreeList, push, pop_range}
use mylittle_code_house.TcMalloc.FreeList.Refine.{Holds, push-Holds}
use mylittle_code_house.TcMalloc.FreeList.Ranges.{pop_range-Holds}
use mylittle_code_house.TcMalloc.ThreadCache.{next_batch}

-- For a positive size and a limit from 1 to one more than the largest batch, the slow start asks
-- for at least 1 block, at most the limit and at most the largest batch, raises the limit by at
-- most one and to at most one more than the largest batch, and leaves the blocks of the list
-- alone.
pub next_batch_bounds :
    (l : FreeList) (size : ℕ)
    → 0 < size
    → 1 ≤ l.max_size
    → l.max_size ≤ num_move_size size + 1
    → let (batch, grown) = next_batch l size in
      (1 ≤ batch)
      × (batch ≤ l.max_size)
      × (batch ≤ num_move_size size)
      × (l.max_size ≤ grown.max_size)
      × (grown.max_size ≤ l.max_size + 1)
      × (grown.max_size ≤ num_move_size size + 1)
      × (grown.head ≡ l.head)
      × (grown.size ≡ l.size)
next_batch_bounds l size s low high = ground (arith, num_move_size_bounds size s)

pop_all :
    (w : Words) (l : FreeList) (n : ℕ) (zs ys : List ℕ) (y : ℕ)
    → zs ≡ ys ++ y ∷ []
    → n ≡ length zs
    → Holds w l zs
    → Returns
        (λ (r : Words × FreeList × ℕ × ℕ).
          Holds r.0 r.1 [] × Chain r.0 r.2 zs null × (r.1.max_size ≡ l.max_size))
        (pop_range w l n)
pop_all w l n zs ys y e count v =
    rw (count, e) (mono (pop_range-Holds w l ys y (subst (Holds w l) e v)) λ r p. (p.0, p.1, p.3))

-- When a freed block, not null and not in the list, fills a well-formed list to its limit, with
-- no wrap of the count, the PopRang that Deallocate then calls succeeds: the whole list comes out
-- as a chain ended by null with the freed block first, and the empty list stays under the same
-- limit.
pub push-pop_range :
    (w : Words) (l : FreeList) (xs : List ℕ) (p : ℕ)
    → Holds w l xs
    → p ≢ null
    → Fresh p xs
    → length xs + 1 < u64_mod
    → length xs + 1 ≡ l.max_size
    → Returns
        (λ (r : Words × FreeList × ℕ × ℕ).
          Holds r.0 r.1 [] × Chain r.0 r.2 (p ∷ xs) null × (r.1.max_size ≡ l.max_size))
        (push w l p >>= λ (w', l'). pop_range w' l' l'.max_size)
push-pop_range w l xs p v ne out room full = bind (push-Holds w l xs p v ne out room) λ r h.
    let (ys, y, e) = unsnoc p xs in
    mono (pop_all r.0 r.1 r.1.max_size (p ∷ xs) ys y e (omega (arith, h.1)) h.0)
      λ q g. (g.0, g.1, g.2 ∙ h.1)
