-- ===== src/TcMalloc/PageCache/Split.antt =====
-- A span of the page cache to be cut in two, and the two.
use mylittle_code_house.Base.{
  ℕ, ◌+◌, ◌-◌, ◌≤◌, ◌<◌, ◌≡◌, ◌≢◌, sym, ◌∙◌, arith, false, some, List, [], ◌∷◌, u64_mod, All, Fresh,
  All-Fresh_sym, ◌⊎◌, inl, inr,
}
use mylittle_code_house.TcMalloc.SpanList.{Spans}
use mylittle_code_house.TcMalloc.SpanList.Refine.{Keeps, Holds, Holds-apart}
use mylittle_code_house.TcMalloc.State.{State}
use mylittle_code_house.TcMalloc.PageCache.Assign.{Ready}

-- The first span `x` of the bucket of `m` pages, to be cut behind its first `n` pages, and the
-- bucket of the rest.
pub record Splits (s : State) (m n x : ℕ) (xs zs : List ℕ) : Type 0 where
  pub low : 1 ≤ n
  pub shorter : n < m
  pub high : m ≤ 128
  pub longer : Holds s.spans (s.pages.lists m) (x ∷ xs)
  pub rest : Holds s.spans (s.pages.lists (m - n)) zs
  pub apart : All (λ y. Fresh y (s.pages.lists m ∷ x ∷ xs)) (s.pages.lists (m - n) ∷ zs)
  pub size : (s.spans x).n ≡ m
  pub room : (s.spans x).id + m < u64_mod
  pub ready : Ready s
  pub unused : Fresh s.pages.pool.memory (s.pages.lists m ∷ x ∷ xs)
  pub unused_rest : Fresh s.pages.pool.memory (s.pages.lists (m - n) ∷ zs)

-- What the cut leaves: the new span has the first `n` pages, and `x` the others.
pub record Halved (s : State) (m n x : ℕ) (xs zs : List ℕ) (r : ℕ × State) : Type 0 where
  pub front : r.0 ≡ s.pages.pool.memory
  pub front_pages : (r.1.spans s.pages.pool.memory).n ≡ n
  pub front_first : (r.1.spans s.pages.pool.memory).id ≡ (s.spans x).id
  pub front_use : (r.1.spans s.pages.pool.memory).is_use ≡ false
  pub front_count : (r.1.spans s.pages.pool.memory).use_count ≡ 0
  pub back_pages : (r.1.spans x).n ≡ m - n
  pub back_first : (r.1.spans x).id ≡ (s.spans x).id + n
  pub back_use : (r.1.spans x).is_use ≡ (s.spans x).is_use
  pub others : Holds r.1.spans (s.pages.lists m) xs
  pub rest : Holds r.1.spans (s.pages.lists (m - n)) (x ∷ zs)
  pub entered : (i : ℕ) → i < n → r.1.pages.span_map ((s.spans x).id + i) ≡ some s.pages.pool.memory
  pub entered_first : r.1.pages.span_map ((s.spans x).id + n) ≡ some x
  pub entered_last : r.1.pages.span_map ((s.spans x).id + m - 1) ≡ some x
  pub outside :
      (page : ℕ)
      → (page < (s.spans x).id) ⊎ ((s.spans x).id + m ≤ page)
      → r.1.pages.span_map page ≡ s.pages.span_map page
  pub same :
      (y : ℕ)
      → y ≢ s.pages.pool.memory
      → Fresh y (s.pages.lists m ∷ x ∷ xs)
      → Fresh y (s.pages.lists (m - n) ∷ zs)
      → r.1.spans y ≡ s.spans y
  pub next : r.1.pages.pool.memory ≡ s.pages.pool.memory + 64
  pub remain : r.1.pages.pool.remain + 64 ≡ s.pages.pool.remain
  pub lists : r.1.pages.lists ≡ s.pages.lists
  pub locked : r.1.pages.locked ≡ s.pages.locked
  pub words : r.1.words ≡ s.words
  pub os : r.1.os ≡ s.os
  pub central : r.1.central ≡ s.central
  pub caches : r.1.caches ≡ s.caches

module _ (s : State) (m n x : ℕ) (xs zs : List ℕ) (v : Splits s m n x xs zs) where
  -- The bucket of the rest is as before in a store that changed at the halves alone.
  pub untouched :
      (sp sp' : Spans)
      → Keeps (s.pages.lists m ∷ xs) s.spans sp
      → ((y : ℕ) → y ≢ s.pages.pool.memory → y ≢ x → sp' y ≡ sp y)
      → Holds sp' (s.pages.lists (m - n)) zs
  untouched sp sp' keeps same =
      Holds-apart s.spans sp' (s.pages.lists (m - n)) zs
        (each (s.pages.lists (m - n) ∷ zs) v.apart v.unused_rest) v.rest
    where
      each :
          (ys : List ℕ)
          → All (λ y. Fresh y (s.pages.lists m ∷ x ∷ xs)) ys
          → Fresh s.pages.pool.memory ys
          → All (λ y. sp' y ≡ s.spans y) ys
      each [] a f = tt
      each (y ∷ ys) a f =
          (same y (λ e. f.0 (sym e)) a.0.1.0 ∙ keeps.1 y (a.0.0, a.0.1.1), each ys a.1 f.1)

  pub changed : All (λ y. Fresh y (s.pages.lists (m - n) ∷ zs)) (s.pages.lists m ∷ x ∷ xs)
  changed = All-Fresh_sym (s.pages.lists (m - n) ∷ zs) (s.pages.lists m ∷ x ∷ xs) v.apart

  -- The longer bucket keeps its other spans.
  pub kept :
      (sp sp' : Spans)
      → ((y : ℕ)
          → Fresh y (s.pages.lists (m - n) ∷ x ∷ zs)
          → y ≢ s.pages.pool.memory
          → sp' y ≡ sp y)
      → Holds sp (s.pages.lists m) xs
      → Holds sp' (s.pages.lists m) xs
  kept sp sp' same = Holds-apart sp sp' (s.pages.lists m) xs (
    same (s.pages.lists m) (changed.0.0, (v.longer.distinct.0.0, changed.0.1))
        (λ e. v.unused.0 (sym e)),
    each xs changed.1.1 v.longer.distinct.1.0 v.unused.1.1,
  )
    where
      each :
          (ys : List ℕ)
          → All (λ y. Fresh y (s.pages.lists (m - n) ∷ zs)) ys
          → Fresh x ys
          → Fresh s.pages.pool.memory ys
          → All (λ y. sp' y ≡ sp y) ys
      each [] a f g = tt
      each (y ∷ ys) a f g =
          (same y (a.0.0, (λ e. f.0 (sym e), a.0.1)) (λ e. g.0 (sym e)), each ys a.1 f.1 g.1)

  pub beside :
      (page : ℕ)
      → (page < (s.spans x).id) ⊎ ((s.spans x).id + m ≤ page)
      → (page < (s.spans x).id) ⊎ ((s.spans x).id + n ≤ page)
  beside page (inl h) = inl h
  beside page (inr h) = inr (omega (arith, h, v.shorter))
