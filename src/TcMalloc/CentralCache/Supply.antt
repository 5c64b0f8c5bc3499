-- ===== src/TcMalloc/CentralCache/Supply.antt =====
-- `GetOneSpan` on a bucket without free blocks, with a span that the page cache provides.
use mylittle_code_house.Base.{
  ℕ, zero, suc, ◌+◌, ◌*◌, ◌≤◌, ◌<◌, ◌≡◌, ◌≢◌, sym, ap, subst, ◌∙◌, arith, true, false, none, some,
  ok, Returns, mono, List, [], ◌∷◌, length, null, update_self, u64_mod, All, Fresh, ne→not-==,
  ==_refl,
}
use mylittle_code_house.TcMalloc.ClassSize.{num_move_pages, max_bytes, max_listnode}
use mylittle_code_house.TcMalloc.ClassSize.Batch.{num_move_pages_bounds}
use mylittle_code_house.TcMalloc.Memory.{Chain}
use mylittle_code_house.TcMalloc.SpanList.Linked.{Linked, first_or}
use mylittle_code_house.TcMalloc.SpanList.Refine.{Holds, Holds-apart, begin-ok}
use mylittle_code_house.TcMalloc.State.{State, unlock_bucket, lock_pages, bind_state}
use mylittle_code_house.TcMalloc.PageCache.Mapping.{load-ok}
use mylittle_code_house.TcMalloc.PageCache.Provide.{Source, new_span-Provided}
use mylittle_code_house.TcMalloc.PageCache.Relocked.{Source-relocked}
use mylittle_code_house.TcMalloc.CentralCache.{find_span, get_one_span}
use mylittle_code_house.TcMalloc.CentralCache.Carve.{cuts, block_count}
use mylittle_code_house.TcMalloc.CentralCache.Bucket.{with_bucket, central_list-ok}
use mylittle_code_house.TcMalloc.CentralCache.Link.{link_span-LinkedIn}

-- The search through spans that have no free block finds none.
find_span-none :
    (fuel : ℕ) (s : State) (a list : ℕ) (ys : List ℕ)
    → length ys < fuel
    → Linked s.spans a ys list
    → Fresh list ys
    → All (λ y. y ≢ null) ys
    → All (λ y. (s.spans y).freelist ≡ null) ys
    → find_span fuel list (first_or ys list) s ≡ ok (none, s)
unfolding find_span
find_span-none zero s a list ys h l f ne clear = absurd (omega arith)
find_span-none (suc fuel) s a list [] h l f ne clear = rw (==_refl list)
find_span-none (suc fuel) s a list (y ∷ ys) h l f ne clear =
    let next : (s.spans y).next ≡ first_or ys list = follows ys l.2 in
    rw (ne→not-== y list (λ e. f.0 (sym e)), load-ok s y ne.0, clear.0, next)
      (find_span-none fuel s y list ys (omega arith) l.2 f.1 ne.1 clear.1)
  where
    follows : (xs : List ℕ) → Linked s.spans y xs list → (s.spans y).next ≡ first_or xs list
    follows [] k = k.0
    follows (x ∷ xs) k = k.0

-- A bucket without free blocks, and what `NewSpan` will provide for it: the span `x` with the
-- pages from `id` on and the use count `count`.
pub record Supplied (s : State) (i size : ℕ) (ys : List ℕ) (x id count : ℕ) : Type 0 where
  pub exists : i < max_listnode
  pub spans : Holds s.spans (s.central.lists i) ys
  pub used_up : All (λ y. (s.spans y).freelist ≡ null) ys
  pub source : Source s (num_move_pages size) (s.central.lists i ∷ ys) x id count
  pub based : 0 < id
  pub fits : (id + num_move_pages size) * 8192 + size < u64_mod
  pub pages_free : s.pages.locked ≡ false

-- What `GetOneSpan` makes of it.
pub record Cut (s : State) (i size : ℕ) (ys : List ℕ) (x id count : ℕ) (r : ℕ × State)
    : Type 0 where
  pub span : r.0 ≡ x
  pub bucket : Holds r.1.spans (s.central.lists i) (x ∷ ys)
  pub first : (r.1.spans x).freelist ≡ id * 8192
  pub blocks :
      Chain r.1.words
        (id * 8192)
        (cuts (block_count (num_move_pages size * 8192) size) (id * 8192) size)
        null
  pub below : (a : ℕ) → a < id * 8192 → r.1.words a ≡ s.words a
  pub counted : (r.1.spans x).use_count ≡ count
  pub marked : (r.1.spans x).is_use ≡ true
  pub block_size : (r.1.spans x).obj_size ≡ size
  pub entered : (j : ℕ) → j < num_move_pages size → r.1.pages.span_map (id + j) ≡ some x
  pub locked : r.1.central.locked i ≡ true
  pub pages_free : r.1.pages.locked ≡ false
  pub caches : r.1.caches ≡ s.caches
  pub lists : r.1.central.lists ≡ s.central.lists

pub get_one_span-Cut :
    (fuel i size : ℕ) (s : State) (ys : List ℕ) (x id count : ℕ)
    → 0 < size
    → size ≤ max_bytes
    → Supplied s i size ys x id count
    → length ys < fuel
    → Returns (Cut s i size ys x id count) (get_one_span fuel i size s)
unfolding get_one_span unlock_bucket lock_pages
get_one_span-Cut fuel i size s ys x id count positive small v enough =
    let n = num_move_pages size in
    let bounds = num_move_pages_bounds size positive small in
    let list = s.central.lists i in
    let s0 = with_bucket s i false in
    let s1 : State = record s0 { pages = record (s.pages) { locked = true } } in
    rw
      (
        central_list-ok i s v.exists,
        begin-ok s.spans list ys v.spans,
        find_span-none fuel s list list ys enough v.spans.linked v.spans.distinct.0
            v.spans.not_null.1 v.used_up,
        v.pages_free,
      )
      (bind_state _
        (new_span-Provided s1 n (list ∷ ys) x id count bounds.0 (omega (arith, bounds))
          (Source-relocked s s.caches s0.central true n (list ∷ ys) x id count v.source))
        λ r t. rw t.span (
          mono
            (link_span-LinkedIn list i size x n r.1 ys positive bounds.0 (omega (arith, bounds))
              t.not_null t.size (omega (arith, t.first, v.based)) (omega (arith, t.first, v.fits))
              (ap (λ c. c.locked i) t.central ∙ update_self s.central.locked i false)
              (Holds-apart s.spans r.1.spans list ys t.kept v.spans) t.apart)
            λ q l. record {
              span = l.span;
              bucket = l.bucket;
              first = l.first ∙ ap (λ a. a * 8192) t.first;
              blocks =
                  subst
                    (λ a.
                      Chain q.1.words (a * 8192)
                        (cuts (block_count (n * 8192) size) (a * 8192) size) null)
                    t.first l.blocks;
              below = λ a lt. l.below a (omega (arith, t.first)) ∙ ap (λ w. w a) t.words;
              counted = l.count ∙ t.counted;
              marked = l.marked;
              block_size = l.block_size;
              entered = λ j lt. ap (λ g. g.span_map (id + j)) l.pages ∙ t.entered j lt;
              locked = l.locked;
              pages_free = ap (λ g. g.locked) l.pages;
              caches = l.caches ∙ t.caches;
              lists = l.lists ∙ ap (λ u. u.lists) t.central;
            }))
