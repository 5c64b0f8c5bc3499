-- ===== src/TcMalloc/CentralCache/Link.antt =====
-- `GetOneSpan` from the marking of the new span to its place in the bucket.
use mylittle_code_house.Base.{
  ℕ, ◌+◌, ◌*◌, ◌≤◌, ◌<◌, ◌≡◌, ◌≢◌, refl, sym, ap, ◌∙◌, arith, true, false, Returns, returns,
  Returns-value, List, [], ◌∷◌, null, update_self, u64_mod, shl64, All, Fresh,
}
use mylittle_code_house.TcMalloc.Memory.{Chain}
use mylittle_code_house.TcMalloc.SpanList.{Span, Spans}
use mylittle_code_house.TcMalloc.SpanList.Refine.{Holds, Holds-apart, push_front-Holds}
use mylittle_code_house.TcMalloc.State.{State, Pages, unlock_pages, bind_state}
use mylittle_code_house.TcMalloc.PageCache.Mapping.{load-ok}
use mylittle_code_house.TcMalloc.PageCache.Assign.{modify-Assigned}
use mylittle_code_house.TcMalloc.CentralCache.{link_span, carve_fuel}
use mylittle_code_house.TcMalloc.CentralCache.Carve.{cuts, block_count, carve-cuts}
use mylittle_code_house.TcMalloc.CentralCache.Bucket.{lock_bucket-ok}

-- What linking the cut span `x` of `n` pages into a bucket that holds `ys` makes of a state.
pub record LinkedIn (s : State) (list i size : ℕ) (ys : List ℕ) (x n : ℕ) (r : ℕ × State)
    : Type 0 where
  pub span : r.0 ≡ x
  pub bucket : Holds r.1.spans list (x ∷ ys)
  pub first : (r.1.spans x).freelist ≡ (s.spans x).id * 8192
  pub blocks :
      Chain r.1.words
        ((s.spans x).id * 8192)
        (cuts (block_count (n * 8192) size) ((s.spans x).id * 8192) size)
        null
  pub below : (a : ℕ) → a < (s.spans x).id * 8192 → r.1.words a ≡ s.words a
  pub count : (r.1.spans x).use_count ≡ (s.spans x).use_count
  pub marked : (r.1.spans x).is_use ≡ true
  pub block_size : (r.1.spans x).obj_size ≡ size
  pub pages : r.1.pages ≡ record (s.pages) { locked = false }
  pub locked : r.1.central.locked i ≡ true
  pub caches : r.1.caches ≡ s.caches
  pub lists : r.1.central.lists ≡ s.central.lists

abbrev mark : Span → Span
mark t = record t { is_use = true }

abbrev sized : ℕ → Span → Span
sized size t = record t { obj_size = size }

abbrev headed : ℕ → Span → Span
headed start t = record t { freelist = start }

abbrev unlocked : Pages → Pages
unlocked t = record t { locked = false }

pub link_span-LinkedIn :
    (list i size x n : ℕ) (s : State) (ys : List ℕ)
    → 0 < size
    → 1 ≤ n
    → n ≤ 128
    → x ≢ null
    → (s.spans x).n ≡ n
    → 0 < (s.spans x).id
    → ((s.spans x).id + n) * 8192 + size < u64_mod
    → s.central.locked i ≡ false
    → Holds s.spans list ys
    → Fresh x (list ∷ ys)
    → Returns (LinkedIn s list i size ys x n) (link_span list i size x s)
unfolding link_span unlock_pages
link_span-LinkedIn list i size x n s ys positive low high ne long based fits free v out =
    bind_state _ (modify-Assigned s x mark ne) λ r1 a1.
      bind_state _ (modify-Assigned r1.1 x (sized size) ne) λ r2 a2.
        let at2 : r2.1.spans x ≡ sized size (mark (s.spans x)) = a2.at ∙ ap (sized size) a1.at in
        let s3 : State = record r2.1 { pages = record (r2.1.pages) { locked = false } } in
        let start = (s.spans x).id * 8192 in
        let here : shl64 (r2.1.spans x).id 13 ≡ start = ap (λ t. shl64 t.id 13) at2 ∙ omega arith in
        let room : shl64 (r2.1.spans x).n 13 ≡ n * 8192 =
          ap (λ t. shl64 t.n 13) at2 ∙ omega (arith, long) in
        let same = λ (y : ℕ) (h : y ≢ x). a2.others y h ∙ a1.others y h in
        rw (load-ok s3 x ne, here, room)
          (bind_state _ (modify-Assigned s3 x (headed start) ne) λ r4 a4.
            let at4 : r4.1.spans x ≡ headed start (sized size (mark (s.spans x))) =
              a4.at ∙ ap (headed start) at2 in
            let words : r4.1.words ≡ s.words = a4.words ∙ a2.words ∙ a1.words in
            let (w, e, k) = Returns-value (
              carve-cuts carve_fuel r4.1.words start (n * 8192) size (omega arith) positive
                (omega arith) (omega arith) (omega arith)) in
            let s5 : State = record r4.1 { words = w } in
            let central : r4.1.central ≡ s.central = a4.central ∙ a2.central ∙ a1.central in
            let free4 : r4.1.central.locked i ≡ false = ap (λ t. t.locked i) central ∙ free in
            let v4 : Holds r4.1.spans list ys =
              Holds-apart s.spans r4.1.spans list ys
                (all_same s.spans r4.1.spans (list ∷ ys) out λ y h. a4.others y h ∙ same y h) v in
            let (sp, e', h) = Returns-value (push_front-Holds r4.1.spans list ys x v4 ne out) in
            rw (e, lock_bucket-ok i s5 free4, e')
              (returns (record {
                span = refl;
                bucket = h.0;
                first = (h.1.0 x).3 ∙ ap (λ t. t.freelist) at4;
                blocks = k.0;
                below = λ a lt. k.1 a lt ∙ ap (λ f. f a) words;
                count = (h.1.0 x).2 ∙ ap (λ t. t.use_count) at4;
                marked = (h.1.0 x).4 ∙ ap (λ t. t.is_use) at4;
                block_size = (h.1.0 x).5 ∙ ap (λ t. t.obj_size) at4;
                pages = a4.pages ∙ ap unlocked (a2.pages ∙ a1.pages);
                locked = update_self r4.1.central.locked i true;
                caches = a4.caches ∙ a2.caches ∙ a1.caches;
                lists = ap (λ t. t.lists) central;
              })))
  where
    all_same :
        (sp sp' : Spans) (zs : List ℕ)
        → Fresh x zs
        → ((y : ℕ) → y ≢ x → sp' y ≡ sp y)
        → All (λ y. sp' y ≡ sp y) zs
    all_same sp sp' [] f h = tt
    all_same sp sp' (z ∷ zs) f h = (h z (λ e. f.0 (sym e)), all_same sp sp' zs f.1 h)
