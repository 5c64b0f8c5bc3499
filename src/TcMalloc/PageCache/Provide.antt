-- ===== src/TcMalloc/PageCache/Provide.antt =====
-- What `NewSpan` promises to the central cache, and the four ways in which it keeps the promise.
use mylittle_code_house.Base.{
  ℕ, ◌+◌, ◌-◌, ◌/◌, ◌≤◌, ◌<◌, ◌≡◌, ◌≢◌, sym, ap, subst, ◌∙◌, arith, true, some, ==_refl, add64,
  shl64, Returns, mono, List, [], ◌∷◌, null, Fresh, All, All-map, u64_mod,
}
use mylittle_code_house.TcMalloc.SpanList.Refine.{Holds, is_empty-Holds}
use mylittle_code_house.TcMalloc.State.{State, bind_state, page_list}
use mylittle_code_house.TcMalloc.PageCache.{new_span}
use mylittle_code_house.TcMalloc.PageCache.Assign.{Ready}
use mylittle_code_house.TcMalloc.PageCache.Buckets.{Taken, new_span-Taken}
use mylittle_code_house.TcMalloc.PageCache.Split.{Splits}
use mylittle_code_house.TcMalloc.PageCache.Search.{AllEmpty, search_longer-none, new_span-Halved}
use mylittle_code_house.TcMalloc.PageCache.Supply.{Bare, new_span-FromSystem}
use mylittle_code_house.TcMalloc.PageCache.Grow.{Grown, grow-Grown}

-- The span `x` with the `n` pages from `id` on, entered in the map, with its use count; the spans
-- `ws` are not touched, and `x` is none of them.
pub record Provided (s : State) (n : ℕ) (ws : List ℕ) (x id count : ℕ) (r : ℕ × State)
    : Type 0 where
  pub span : r.0 ≡ x
  pub not_null : x ≢ null
  pub size : (r.1.spans x).n ≡ n
  pub first : (r.1.spans x).id ≡ id
  pub counted : (r.1.spans x).use_count ≡ count
  pub kept : All (λ y. r.1.spans y ≡ s.spans y) ws
  pub apart : Fresh x ws
  pub entered : (j : ℕ) → j < n → r.1.pages.span_map (id + j) ≡ some x
  pub words : r.1.words ≡ s.words
  pub central : r.1.central ≡ s.central
  pub caches : r.1.caches ≡ s.caches

-- The break that `SystemAlloc` moves on for 128 pages is granted, so the pages can be used.
abbrev pub Granted : State → Type 0
Granted s = s.os.grants (add64 s.os.top (shl64 128 13)) ≡ true

-- The bucket of `n` pages has a span; a longer bucket has the first one; none has, and the system
-- grants 128 pages, which are cut or taken whole.
pub data Source (s : State) (n : ℕ) (ws : List ℕ) : ℕ → ℕ → ℕ → Type 0 where
  waiting :
      (x : ℕ) (xs : List ℕ)
      → Holds s.spans (s.pages.lists n) (x ∷ xs)
      → (s.spans x).n ≡ n
      → (s.spans x).id + n < u64_mod
      → All (λ y. Fresh y (s.pages.lists n ∷ xs)) ws
      → Fresh x ws
      → Source s n ws x (s.spans x).id (s.spans x).use_count
  longer :
      (m y : ℕ) (xs zs : List ℕ)
      → AllEmpty s n m
      → Splits s m n y xs zs
      → All (λ w. Fresh w (s.pages.lists m ∷ y ∷ xs) × Fresh w (s.pages.lists (m - n) ∷ zs)) ws
      → Fresh s.pages.pool.memory ws
      → Source s n ws s.pages.pool.memory (s.spans y).id 0
  system :
      (zs : List ℕ)
      → Bare s n zs
      → Granted s
      → All (λ w. Fresh w (s.pages.lists 128 ∷ s.pages.lists (128 - n) ∷ zs)) ws
      → Fresh s.pages.pool.memory ws
      → Fresh (s.pages.pool.memory + 64) ws
      → Source s n ws (s.pages.pool.memory + 64) (s.os.top / 8192) 0
  whole :
      n ≡ 128
      → Holds s.spans (s.pages.lists 128) []
      → s.pages.pool.memory ≢ s.pages.lists 128
      → Ready s
      → s.os.top ≢ null
      → s.os.top / 8192 + 128 < u64_mod
      → Granted s
      → All (λ w. Fresh w (s.pages.lists 128 ∷ [])) ws
      → Fresh s.pages.pool.memory ws
      → Source s n ws s.pages.pool.memory (s.os.top / 8192) 0

apart_from :
    (a : ℕ) (P : ℕ → Type 0) (ws : List ℕ) → Fresh a ws → All P ws → All (λ w. (w ≢ a) × P w) ws
apart_from a P [] f p = tt
apart_from a P (w ∷ ws) f p = (((λ e. f.0 (sym e)), p.0), apart_from a P ws f.1 p.1)

-- 128 pages when no span of that length waits: the span from the system is taken whole.
new_span-Whole :
    (s : State) (ws : List ℕ)
    → Holds s.spans (s.pages.lists 128) []
    → s.pages.pool.memory ≢ s.pages.lists 128
    → Ready s
    → s.os.top ≢ null
    → s.os.top / 8192 + 128 < u64_mod
    → All (λ w. Fresh w (s.pages.lists 128 ∷ [])) ws
    → Fresh s.pages.pool.memory ws
    → Returns (Provided s 128 ws s.pages.pool.memory (s.os.top / 8192) 0) (new_span 2 128 s)
unfolding new_span page_list
new_span-Whole s ws clear ne ready top room far own =
    let q = s.pages.pool.memory in
    rw
      (
        is_empty-Holds s.spans (s.pages.lists 128) [] clear,
        ==_refl (s.pages.lists 128),
        search_longer-none 0 129 128 s (omega arith) (λ k l h. absurd (omega arith)),
      )
      (bind_state _ (grow-Grown s clear ne ready top) λ r g.
        let lists : r.1.pages.lists ≡ s.pages.lists = ap (λ t. t.lists) g.pages in
        mono
          (new_span-Taken 0 128 q [] r.1 (omega arith) (omega arith) (rw lists g.bucket) g.size
            (rw g.first room))
          λ x t. made r g x t)
  where
    made :
        (r : (Unit {0}) × State)
        → Grown s r
        → (x : ℕ × State) → Taken r.1 128 s.pages.pool.memory [] x
        → Provided s 128 ws s.pages.pool.memory (s.os.top / 8192) 0 x
    made r g x t =
        let q = s.pages.pool.memory in
        let spans : x.1.spans ≡ t.spans = ap (λ u. u.spans) t.only in
        record {
          span = t.first;
          not_null = ready.somewhere;
          size = ap (λ sp. (sp q).n) spans ∙ (t.keeps.0 q).1 ∙ g.size;
          first = ap (λ sp. (sp q).id) spans ∙ (t.keeps.0 q).0 ∙ g.first;
          counted = ap (λ sp. (sp q).use_count) spans ∙ (t.keeps.0 q).2 ∙ g.unused;
          kept =
              All-map
                (λ y f.
                  ap (λ sp. sp y) spans
                  ∙ t.keeps.1 y
                      (subst (λ l. Fresh y (l 128 ∷ [])) (sym (ap (λ u. u.lists) g.pages)) f.1)
                  ∙ g.others y f.0 f.1.0)
                ws (apart_from q _ ws own far);
          apart = own;
          entered = λ j lt.
              ap (λ u. u.pages.span_map (s.os.top / 8192 + j)) t.only
              ∙ ap (λ a. t.map (a + j)) (sym g.first)
              ∙ t.entered j lt;
          words = ap (λ u. u.words) t.only ∙ g.words;
          central = ap (λ u. u.central) t.only ∙ g.central;
          caches = ap (λ u. u.caches) t.only ∙ g.caches;
        }

-- NewSpan for 1 to 128 pages keeps its promise to the central cache in each of four cases: the
-- bucket of that length holds a span, a longer bucket does and is the first that does, or no
-- bucket from that length on does and the program break is not null and is granted for 128 pages
-- more, which are cut for fewer pages and taken whole for 128; the first two need spans of the
-- length of their bucket, all four page numbers without a wrap and buckets and pieces of the pool
-- apart from one another and from the given spans, and all but the first a pool with nothing to
-- recycle and enough of its chunk left. It returns a span that is not null, of the length asked
-- for, and enters each of its pages in the map; it leaves the given spans of others, of which the
-- new one is none, the words of memory, the central cache and the thread lists as they were.
pub new_span-Provided :
    (s : State) (n : ℕ) (ws : List ℕ) (x id count : ℕ)
    → 1 ≤ n
    → n ≤ 128
    → Source s n ws x id count
    → Returns (Provided s n ws x id count) (new_span 2 n s)
new_span-Provided s n ws _ _ _ low high (waiting x xs held long room far own) =
    mono (new_span-Taken 1 n x xs s low high held long room) λ r t.
      let spans : r.1.spans ≡ t.spans = ap (λ u. u.spans) t.only in
      record {
        span = t.first;
        not_null = held.not_null.1.0;
        size = ap (λ sp. (sp x).n) spans ∙ (t.keeps.0 x).1 ∙ long;
        first = ap (λ sp. (sp x).id) spans ∙ (t.keeps.0 x).0;
        counted = ap (λ sp. (sp x).use_count) spans ∙ (t.keeps.0 x).2;
        kept = All-map (λ y f. ap (λ sp. sp y) spans ∙ t.keeps.1 y f) ws far;
        apart = own;
        entered = λ j lt. ap (λ u. u.pages.span_map ((s.spans x).id + j)) t.only ∙ t.entered j lt;
        words = ap (λ u. u.words) t.only;
        central = ap (λ u. u.central) t.only;
        caches = ap (λ u. u.caches) t.only;
      }
new_span-Provided s n ws _ _ _ low high (longer m y xs zs clear v far own) =
    mono (new_span-Halved 1 n m y xs zs s clear v) λ r h. record {
      span = h.front;
      not_null = v.ready.somewhere;
      size = h.front_pages;
      first = h.front_first;
      counted = h.front_count;
      kept =
          All-map (λ w f. h.same w f.0 f.1.0 f.1.1) ws
            (apart_from s.pages.pool.memory _ ws own far);
      apart = own;
      entered = h.entered;
      words = h.words;
      central = h.central;
      caches = h.caches;
    }
new_span-Provided s n ws _ _ _ low high (system zs b given far own own') =
    mono (new_span-FromSystem 0 n zs s b) λ r h. record {
      span = h.front;
      not_null = omega arith;
      size = h.front_pages;
      first = h.front_first;
      counted = h.front_count;
      kept =
          All-map (λ w f. h.same w (f.1.0, (f.0, (f.1.1.0, tt))) f.1.1.1) ws
            (apart_from (s.pages.pool.memory + 64) _ ws own'
              (apart_from s.pages.pool.memory _ ws own far));
      apart = own';
      entered = h.entered;
      words = h.words;
      central = h.central;
      caches = h.caches;
    }
new_span-Provided s n ws _ _ _ low high (whole e clear ne ready top room given far own) =
    subst (λ k. Returns (Provided s k ws s.pages.pool.memory (s.os.top / 8192) 0) (new_span 2 k s))
      (sym e) (new_span-Whole s ws clear ne ready top room far own)
