-- ===== src/TcMalloc/PageCache/Buckets.antt =====
-- Spans that leave a bucket of the page cache and come back to one.
use mylittle_code_house.Base.{
  ℕ, suc, ◌+◌, ◌≤◌, ◌<◌, ◌≡◌, ◌≢◌, sym, ap, subst, ◌∙◌, arith, true, false, none, Option, mono,
  some, Returns, returns, Returns-value, List, ◌∷◌, u64_mod, add64, sub64, update, update_self,
  update_ne, refl, null, lt→ltb, le→leb, le→not-ltb, ne→not-==, Fresh,
}
use mylittle_code_house.TcMalloc.SpanList
use mylittle_code_house.TcMalloc.SpanList.Refine.{
  Holds, Keeps, is_empty-Holds, pop_front-Holds, push_front-Holds, Holds-same,
}
use mylittle_code_house.TcMalloc.State.{State, bind_state, page_list, map_page}
use mylittle_code_house.TcMalloc.PageCache.{new_span, put_back, release_span, merge_back, find_page}
use mylittle_code_house.TcMalloc.PageCache.Assign.{modify-ok}
use mylittle_code_house.TcMalloc.PageCache.Mapping.{
  with_map, map_span-Mapped, load-ok, merge_forward-idle,
}

-- What taking the first span `x` out of its bucket leaves: the map with its pages, and the spans.
pub record Taken (s : State) (n x : ℕ) (xs : List ℕ) (r : ℕ × State) : Type 0 where
  pub first : r.0 ≡ x
  pub spans : SpanList.Spans
  pub map : ℕ → Option ℕ
  pub only : r.1 ≡ with_map (record s { spans = spans }) map
  pub others : Holds spans (s.pages.lists n) xs
  pub keeps : Keeps (s.pages.lists n ∷ xs) s.spans spans
  pub entered : (i : ℕ) → i < n → map ((s.spans x).id + i) ≡ some x

pub new_span-Taken :
    (fuel n x : ℕ) (xs : List ℕ) (s : State)
    → 1 ≤ n
    → n ≤ 128
    → Holds s.spans (s.pages.lists n) (x ∷ xs)
    → (s.spans x).n ≡ n
    → (s.spans x).id + n < u64_mod
    → Returns (Taken s n x xs) (new_span (suc fuel) n s)
unfolding new_span page_list
new_span-Taken fuel n x xs s low high v size room =
    let (r, e, p) = Returns-value (pop_front-Holds s.spans (s.pages.lists n) x xs v) in
    let s' = record s { spans = r.1 } in
    let body = p.2.0 r.0 in
    let id : (r.1 r.0).id ≡ (s.spans x).id = body.0 ∙ ap (λ a. (s.spans a).id) p.0 in
    let pages : (r.1 r.0).n ≡ n = body.1 ∙ ap (λ a. (s.spans a).n) p.0 ∙ size in
    rw
      (
        le→not-ltb 128 n high,
        lt→ltb 0 n low,
        le→leb n 128 high,
        lt→ltb n 129 (omega arith),
        is_empty-Holds s.spans (s.pages.lists n) (x ∷ xs) v,
        ne→not-== x (s.pages.lists n) (λ q. v.distinct.0.0 (sym q)),
        e,
      )
      (bind_state _ (map_span-Mapped s' r.0 n (rw p.0 v.not_null.1.0) pages (rw id room)) λ q m.
        returns (record {
          first = p.0;
          spans = r.1;
          map = m.map;
          only = m.only;
          others = p.1;
          keeps = p.2;
          entered = λ i h. ap (λ a. m.map (a + i)) (sym id) ∙ m.inside i h ∙ ap some p.0;
        }))

-- NewSpan for 1 to 128 pages whose bucket holds a span of that length, with no wrap of its page
-- numbers, returns the first span of the bucket, leaves the others in order, and enters each page
-- of the span in the map.
pub new_span-exact :
    (fuel n x : ℕ) (xs : List ℕ) (s : State)
    → 1 ≤ n
    → n ≤ 128
    → Holds s.spans (s.pages.lists n) (x ∷ xs)
    → (s.spans x).n ≡ n
    → (s.spans x).id + n < u64_mod
    → Returns
        (λ (r : ℕ × State).
          (r.0 ≡ x)
          × Holds r.1.spans (s.pages.lists n) xs
          × ((i : ℕ) → i < n → r.1.pages.span_map ((s.spans x).id + i) ≡ some x))
        (new_span (suc fuel) n s)
new_span-exact fuel n x xs s low high v size room =
    mono (new_span-Taken fuel n x xs s low high v size room) λ r t. (
      t.first,
      subst (λ sp. Holds sp (s.pages.lists n) xs) (sym (ap (λ (u : State). u.spans) t.only))
          t.others,
      λ i h. ap (λ (u : State). u.pages.span_map ((s.spans x).id + i)) t.only ∙ t.entered i h,
    )

idle_links :
    (sp : SpanList.Spans) (p y : ℕ)
    → ((update sp p (record (sp p) { is_use = false }) y).next ≡ (sp y).next)
      × ((update sp p (record (sp p) { is_use = false }) y).prev ≡ (sp y).prev)
idle_links sp p y = ground arith

-- What putting the span `p` of `n` pages back in front of `xs` leaves.
pub record PutBack (s : State) (p n : ℕ) (xs : List ℕ) (r : (Unit {0}) × State) : Type 0 where
  pub bucket : Holds r.1.spans (s.pages.lists n) (p ∷ xs)
  pub free : (r.1.spans p).is_use ≡ false
  pub size : (r.1.spans p).n ≡ n
  pub start : (r.1.spans p).id ≡ (s.spans p).id
  pub first : r.1.pages.span_map (s.spans p).id ≡ some p
  pub last : r.1.pages.span_map (sub64 (add64 (s.spans p).id n) 1) ≡ some p
  pub others : (y : ℕ) → Fresh y (s.pages.lists n ∷ p ∷ xs) → r.1.spans y ≡ s.spans y
  pub pool : r.1.pages.pool ≡ s.pages.pool
  pub lists : r.1.pages.lists ≡ s.pages.lists
  pub words : r.1.words ≡ s.words

pub put_back-PutBack :
    (p n : ℕ) (xs : List ℕ) (s : State)
    → p ≢ null
    → n ≤ 128
    → (s.spans p).n ≡ n
    → Holds s.spans (s.pages.lists n) xs
    → Fresh p (s.pages.lists n ∷ xs)
    → Returns (PutBack s p n xs) (put_back p s)
unfolding put_back page_list map_page
put_back-PutBack p n xs s ne high size v out =
    let (sp, e, h) = Returns-value (push_front-Holds s.spans (s.pages.lists n) xs p v ne out) in
    rw
      (
        load-ok s p ne,
        size,
        lt→ltb n 129 (omega arith),
        e,
        modify-ok (record s { spans = sp }) p (λ t. record t { is_use = false }) ne,
      )
      (returns (record {
        bucket = Holds-same sp _ (s.pages.lists n) (p ∷ xs) (idle_links sp p) h.0;
        free = ground arith;
        size =
            ap (λ t. t.n) (update_self sp p (record (sp p) { is_use = false }))
            ∙ (h.1.0 p).1
            ∙ size;
        start = ap (λ t. t.id) (update_self sp p (record (sp p) { is_use = false })) ∙ (h.1.0 p).0;
        first = ground arith;
        last = ground arith;
        others = λ y f.
            update_ne sp p y (record (sp p) { is_use = false }) (λ q. f.1.0 (sym q)) ∙ h.1.1 y f;
        pool = refl;
        lists = refl;
        words = refl;
      }))

-- ReleaseSpanToPageCache of a span in use of at most 128 pages, which is not null, not in its
-- bucket, and has its last page entered and its previous page not, puts it unmerged at the front
-- of its bucket, marked free, with its first and last page in the map.
pub release_span-alone :
    (p n : ℕ) (xs : List ℕ) (s : State)
    → p ≢ null
    → n ≤ 128
    → (s.spans p).n ≡ n
    → (s.spans p).is_use ≡ true
    → s.pages.span_map (sub64 (s.spans p).id 1) ≡ none
    → s.pages.span_map (sub64 (add64 (s.spans p).id n) 1) ≡ some p
    → Holds s.spans (s.pages.lists n) xs
    → Fresh p (s.pages.lists n ∷ xs)
    → Returns (PutBack s p n xs) (release_span p s)
unfolding release_span merge_back find_page
release_span-alone p n xs s ne high size used alone own v out =
    rw
      (
        load-ok s p ne,
        size,
        le→not-ltb 128 n high,
        load-ok s p ne,
        alone,
        merge_forward-idle s p 128 ne used (rw size own),
      )
      (put_back-PutBack p n xs s ne high size v out)
