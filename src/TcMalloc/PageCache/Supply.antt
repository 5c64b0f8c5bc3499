-- ===== src/TcMalloc/PageCache/Supply.antt =====
-- `NewSpan` on a page cache that has no span to give: 128 pages from the system, cut in two.
use mylittle_code_house.Base.{
  ℕ, suc, ◌+◌, ◌-◌, ◌/◌, ◌≤◌, ◌<◌, ◌≡◌, ◌≢◌, sym, ap, subst, ◌∙◌, arith, false, some, Returns, mono,
  List, [], ◌∷◌, ==_refl, lt→ltb, le→leb, le→not-ltb, null, Fresh, All, All-Fresh_sym, u64_mod, ◌⊎◌,
  add64, shl64,
}
use mylittle_code_house.TcMalloc.SpanList.Refine.{Holds, Holds-apart, is_empty-Holds}
use mylittle_code_house.TcMalloc.Os.{set_break}
use mylittle_code_house.TcMalloc.State.{State, bind_state, page_list}
use mylittle_code_house.TcMalloc.PageCache.{new_span}
use mylittle_code_house.TcMalloc.PageCache.Assign.{Ready}
use mylittle_code_house.TcMalloc.PageCache.Split.{Splits, Halved}
use mylittle_code_house.TcMalloc.PageCache.Search.{AllEmpty, search_longer-none, new_span-Halved}
use mylittle_code_house.TcMalloc.PageCache.Grow.{Grown, grow-Grown}

-- No bucket from `n` pages on holds a span; the two next pieces of the pool are not spans of any
-- bucket that is touched.
pub record Bare (s : State) (n : ℕ) (zs : List ℕ) : Type 0 where
  pub low : 1 ≤ n
  pub short : n < 128
  pub clear : AllEmpty s n 129
  pub rest : Holds s.spans (s.pages.lists (128 - n)) zs
  pub heads : (k : ℕ) → k < 128 → s.pages.lists 128 ≢ s.pages.lists k
  pub apart : Fresh (s.pages.lists 128) zs
  pub ready : Ready s
  pub twice : 128 ≤ s.pages.pool.remain
  pub unused : (k : ℕ) → k ≤ 128 → s.pages.pool.memory ≢ s.pages.lists k
  pub unused_next : (k : ℕ) → k ≤ 128 → s.pages.pool.memory + 64 ≢ s.pages.lists k
  pub unused_rest : Fresh s.pages.pool.memory zs
  pub unused_rest_next : Fresh (s.pages.pool.memory + 64) zs
  pub top : s.os.top ≢ null
  pub room : s.os.top / 8192 + 128 < u64_mod

-- What `NewSpan` makes of a bare page cache.
pub record FromSystem (s : State) (n : ℕ) (zs : List ℕ) (r : ℕ × State) : Type 0 where
  pub front : r.0 ≡ s.pages.pool.memory + 64
  pub front_pages : (r.1.spans (s.pages.pool.memory + 64)).n ≡ n
  pub front_first : (r.1.spans (s.pages.pool.memory + 64)).id ≡ s.os.top / 8192
  pub front_count : (r.1.spans (s.pages.pool.memory + 64)).use_count ≡ 0
  pub same :
      (y : ℕ)
      → Fresh y (s.pages.pool.memory ∷ (s.pages.pool.memory + 64) ∷ s.pages.lists 128 ∷ [])
      → Fresh y (s.pages.lists (128 - n) ∷ zs)
      → r.1.spans y ≡ s.spans y
  pub back_pages : (r.1.spans s.pages.pool.memory).n ≡ 128 - n
  pub back_first : (r.1.spans s.pages.pool.memory).id ≡ s.os.top / 8192 + n
  pub back_free : (r.1.spans s.pages.pool.memory).is_use ≡ false
  pub largest : Holds r.1.spans (s.pages.lists 128) []
  pub rest : Holds r.1.spans (s.pages.lists (128 - n)) (s.pages.pool.memory ∷ zs)
  pub entered :
      (i : ℕ) → i < n → r.1.pages.span_map (s.os.top / 8192 + i) ≡ some (s.pages.pool.memory + 64)
  pub outside :
      (page : ℕ)
      → (page < s.os.top / 8192) ⊎ (s.os.top / 8192 + 128 ≤ page)
      → r.1.pages.span_map page ≡ s.pages.span_map page
  pub os : r.1.os ≡ set_break s.os (add64 s.os.top (shl64 128 13))
  pub words : r.1.words ≡ s.words
  pub central : r.1.central ≡ s.central
  pub caches : r.1.caches ≡ s.caches

module _ (s : State) (n : ℕ) (zs : List ℕ) (b : Bare s n zs) (r : (Unit {0}) × State)
    (g : Grown s r) where
  next_piece : r.1.pages.pool.memory ≡ s.pages.pool.memory + 64
  next_piece = ap (λ t. t.pool.memory) g.pages ∙ omega (arith, b.ready.inside, b.twice)

  lists_kept : r.1.pages.lists ≡ s.pages.lists
  lists_kept = ap (λ t. t.lists) g.pages

  grown-Ready : Ready r.1
  grown-Ready = record {
    unused = ap (λ t. t.pool.freelist) g.pages ∙ b.ready.unused;
    enough = rw g.pages (omega (arith, b.ready.inside, b.twice));
    somewhere = rw next_piece (omega arith);
    inside = rw g.pages (omega (arith, b.ready.inside, b.twice));
  }

  kept :
      (xs : List ℕ) (k : ℕ)
      → k < 128
      → Fresh s.pages.pool.memory xs
      → Fresh (s.pages.lists 128) xs
      → Holds s.spans (s.pages.lists k) xs
      → Holds r.1.spans (r.1.pages.lists k) xs
  kept xs k lt f h v = rw lists_kept (
      Holds-apart s.spans r.1.spans (s.pages.lists k) xs
        (
          g.others (s.pages.lists k) (λ e. b.unused k (omega arith) (sym e))
              (λ e. b.heads k lt (sym e)),
          each xs f h,
        )
        v)
    where
      each :
          (ys : List ℕ)
          → Fresh s.pages.pool.memory ys
          → Fresh (s.pages.lists 128) ys
          → All (λ y. r.1.spans y ≡ s.spans y) ys
      each [] f h = tt
      each (y ∷ ys) f h = (g.others y (λ e. f.0 (sym e)) (λ e. h.0 (sym e)), each ys f.1 h.1)

  grown-AllEmpty : AllEmpty r.1 n 128
  grown-AllEmpty k low high = kept [] k high tt tt (b.clear k low (omega arith))

  grown-Splits : Splits r.1 128 n s.pages.pool.memory [] zs
  grown-Splits = record {
    low = b.low;
    shorter = b.short;
    high = omega arith;
    longer = rw lists_kept g.bucket;
    rest = kept zs (128 - n) (omega (arith, b.low)) b.unused_rest b.apart b.rest;
    apart =
        subst
          (λ heads.
            All (λ y. Fresh y (heads 128 ∷ s.pages.pool.memory ∷ [])) (heads (128 - n) ∷ zs))
          (sym lists_kept)
          (All-Fresh_sym (s.pages.lists 128 ∷ s.pages.pool.memory ∷ [])
            (s.pages.lists (128 - n) ∷ zs)
            (
              (b.heads (128 - n) (omega (arith, b.low)), b.apart),
              ((b.unused (128 - n) (omega arith), b.unused_rest), tt),
            ));
    size = g.size;
    room = rw g.first b.room;
    ready = grown-Ready;
    unused =
        rw (next_piece, lists_kept)
          (b.unused_next 128 (omega arith), (λ e. absurd (omega arith), tt));
    unused_rest = (
      rw (next_piece, lists_kept) (b.unused_next (128 - n) (omega arith)),
      subst (λ a. Fresh a zs) (sym next_piece) b.unused_rest_next,
    );
  }

  from_system : (x : ℕ × State) → Halved r.1 128 n s.pages.pool.memory [] zs x → FromSystem s n zs x
  from_system x h = record {
    front = h.front ∙ next_piece;
    front_pages = ap (λ a. (x.1.spans a).n) (sym next_piece) ∙ h.front_pages;
    front_first = ap (λ a. (x.1.spans a).id) (sym next_piece) ∙ h.front_first ∙ g.first;
    front_count = ap (λ a. (x.1.spans a).use_count) (sym next_piece) ∙ h.front_count;
    same = λ y f k.
        h.same y (rw next_piece f.1.0) (rw lists_kept (f.1.1.0, (f.0, tt)))
          (subst (λ heads. Fresh y (heads (128 - n) ∷ zs)) (sym lists_kept) k)
        ∙ g.others y f.0 f.1.1.0;
    back_pages = h.back_pages;
    back_first = h.back_first ∙ ap (λ a. a + n) g.first;
    back_free = h.back_use ∙ g.free;
    largest = rw⁻¹ lists_kept h.others;
    rest = rw⁻¹ lists_kept h.rest;
    entered = λ i lt.
        ap (λ a. x.1.pages.span_map (a + i)) (sym g.first) ∙ h.entered i lt ∙ ap some next_piece;
    outside = λ page c. h.outside page (rw g.first c) ∙ ap (λ t. t.span_map page) g.pages;
    os = h.os ∙ g.os;
    words = h.words ∙ g.words;
    central = h.central ∙ g.central;
    caches = h.caches ∙ g.caches;
  }

-- NewSpan for 1 to 127 pages when no bucket from that length on holds a span, with nothing to
-- recycle in the pool and two pieces of its chunk left that are neither heads nor spans of the
-- buckets, the heads apart, and a program break that is not null and gives page numbers without a
-- wrap: 128 pages are fetched from the program break, which is moved behind them if the system
-- grants it, the first of them become a new span of that length, entered in the map, and the rest
-- becomes a free span at the front of its bucket, while the largest bucket stays empty.
pub new_span-FromSystem :
    (fuel n : ℕ) (zs : List ℕ) (s : State)
    → Bare s n zs
    → Returns (FromSystem s n zs) (new_span (suc (suc fuel)) n s)
unfolding new_span page_list
new_span-FromSystem fuel n zs s b =
    rw
      (
        le→not-ltb 128 n (omega (arith, b.short)),
        lt→ltb 0 n b.low,
        le→leb n 128 (omega (arith, b.short)),
        lt→ltb n 129 (omega (arith, b.short)),
        is_empty-Holds s.spans (s.pages.lists n) []
            (b.clear n (omega arith) (omega (arith, b.short))),
        ==_refl (s.pages.lists n),
        search_longer-none (128 - n) (n + 1) n s (omega (arith, b.short))
            (λ k l h. b.clear k (omega arith) (omega (arith, h, b.short))),
      )
      (bind_state _
        (grow-Grown s (b.clear 128 (omega (arith, b.short)) (omega arith))
          (b.unused 128 (omega arith)) b.ready b.top)
        λ r g.
          mono
            (new_span-Halved fuel n 128 s.pages.pool.memory [] zs r.1 (grown-AllEmpty s n zs b r g)
              (grown-Splits s n zs b r g))
            (from_system s n zs b r g))
