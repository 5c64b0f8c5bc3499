-- ===== src/TcMalloc/PageCache/Merge.antt =====
-- A span given back behind a free span: `ReleaseSpanToPageCache` merges the two.
use mylittle_code_house.Base.{
  ℕ, suc, ◌+◌, ◌≤◌, ◌≡◌, ◌≢◌, refl, sym, ap, ◌∙◌, arith, false, some, Returns-value, List, [], ◌∷◌,
  ◌++◌, ne→not-==, lt→ltb, le→not-ltb, null, Fresh, All, update, update_ne, update_self, add64,
  sub64,
}
use mylittle_code_house.TcMalloc.SpanList.{Span, Spans}
use mylittle_code_house.TcMalloc.SpanList.Refine.{
  Holds, Holds-apart, Holds-same, All-right, erase-Holds,
}
use mylittle_code_house.TcMalloc.ObjectPool
use mylittle_code_house.TcMalloc.State.{State, page_list}
use mylittle_code_house.TcMalloc.PageCache.{merge_back, find_page, pool_delete}
use mylittle_code_house.TcMalloc.PageCache.Assign.{modify-ok}
use mylittle_code_house.TcMalloc.PageCache.Mapping.{load-ok}

-- The span `o` that ends before `p` is free, short enough, and stands in its bucket.
pub record Mergeable (s : State) (p o : ℕ) (ys zs : List ℕ) : Type 0 where
  pub not_null : p ≢ null
  pub before : s.pages.span_map (sub64 (s.spans p).id 1) ≡ some o
  pub held : Holds s.spans (s.pages.lists (s.spans o).n) (ys ++ o ∷ zs)
  pub free : (s.spans o).is_use ≡ false
  pub fits : (s.spans o).n + (s.spans p).n ≤ 128
  pub apart : Fresh p (s.pages.lists (s.spans o).n ∷ ys ++ o ∷ zs)

-- What one round of the first loop makes of it.
pub record Merged (s : State) (p o : ℕ) (ys zs : List ℕ) (r : State) : Type 0 where
  pub size : (r.spans p).n ≡ (s.spans o).n + (s.spans p).n
  pub start : (r.spans p).id ≡ (s.spans o).id
  pub use_kept : (r.spans p).is_use ≡ (s.spans p).is_use
  pub bucket : Holds r.spans (s.pages.lists (s.spans o).n) (ys ++ zs)
  pub others :
      (y : ℕ) → Fresh y (p ∷ o ∷ s.pages.lists (s.spans o).n ∷ ys ++ zs) → r.spans y ≡ s.spans y
  pub recycled : r.pages.pool.freelist ≡ o
  pub map : r.pages.span_map ≡ s.pages.span_map
  pub lists : r.pages.lists ≡ s.pages.lists
  pub words : r.words ≡ s.words

same_links :
    (sp : Spans) (o v y : ℕ)
    → ((update sp o (record (sp o) { id = v }) y).next ≡ (sp y).next)
      × ((update sp o (record (sp o) { id = v }) y).prev ≡ (sp y).prev)
same_links sp o v y = ground arith

abbrev joined_span : ℕ → ℕ → Span → Span
joined_span n id t = record t { n = n; id = id }

pub merge_back-Merged :
    (fuel : ℕ) (s : State) (p o : ℕ) (ys zs : List ℕ)
    → Mergeable s p o ys zs
    → (r : State) × Merged s p o ys zs r × (merge_back (suc fuel) p s ≡ merge_back fuel p r)
unfolding merge_back find_page page_list pool_delete ObjectPool.delete
merge_back-Merged fuel s p o ys zs v =
    let list = s.pages.lists (s.spans o).n in
    let neo : o ≢ null = (All-right _ ys (o ∷ zs) v.held.not_null.1).0 in
    let nep : o ≢ p = λ e. (All-right _ ys (o ∷ zs) v.apart.1).0 (sym e) in
    let fits : add64 (s.spans o).n (s.spans p).n ≡ (s.spans o).n + (s.spans p).n =
      omega (arith, v.fits) in
    let sum : add64 (s.spans p).n (s.spans o).n ≡ (s.spans o).n + (s.spans p).n =
      omega (arith, v.fits) in
    let one = joined_span ((s.spans o).n + (s.spans p).n) (s.spans o).id (s.spans p) in
    let sp1 : Spans = update s.spans p one in
    let held : Holds sp1 list (ys ++ o ∷ zs) =
      Holds-apart s.spans sp1 list (ys ++ o ∷ zs) (unchanged one (list ∷ ys ++ o ∷ zs) v.apart)
        v.held in
    let (sp2, e, h) = Returns-value (erase-Holds sp1 list ys o zs held) in
    let sp3 : Spans = update sp2 o (record (sp2 o) { id = s.pages.pool.freelist }) in
    let r : State = record s {
      spans = sp3;
      pages = record (s.pages) { pool = record (s.pages.pool) { freelist = o } };
    } in
    let at : sp3 p ≡ sp2 p =
      update_ne sp2 o p (record (sp2 o) { id = s.pages.pool.freelist }) nep in
    (
      r,
      record {
        size = ap (λ t. t.n) at ∙ (h.1.0 p).1 ∙ ap (λ t. t.n) (update_self s.spans p one);
        start = ap (λ t. t.id) at ∙ (h.1.0 p).0 ∙ ap (λ t. t.id) (update_self s.spans p one);
        use_kept =
            ap (λ t. t.is_use) at ∙ (h.1.0 p).4 ∙ ap (λ t. t.is_use) (update_self s.spans p one);
        bucket = Holds-same sp2 sp3 list (ys ++ zs) (same_links sp2 o s.pages.pool.freelist) h.0;
        others = λ y f.
            update_ne sp2 o y (record (sp2 o) { id = s.pages.pool.freelist }) (λ e. f.1.0 (sym e))
            ∙ h.1.1 y f.1.1
            ∙ update_ne s.spans p y one (λ e. f.0 (sym e));
        recycled = refl;
        map = refl;
        lists = refl;
        words = refl;
      },
      rw
          (
            load-ok s p v.not_null,
            v.before,
            load-ok s o neo,
            v.free,
            fits,
            le→not-ltb 128 ((s.spans o).n + (s.spans p).n) v.fits,
            modify-ok s p (joined_span (add64 (s.spans p).n (s.spans o).n) (s.spans o).id)
                v.not_null,
            sum,
            lt→ltb (s.spans o).n 129 (omega (arith, v.fits)),
            e,
            ne→not-== o null neo,
          )
          refl,
    )
  where
    unchanged :
        (one : Span) (ws : List ℕ) → Fresh p ws → All (λ y. update s.spans p one y ≡ s.spans y) ws
    unchanged one [] f = tt
    unchanged one (w ∷ ws) f = (update_ne s.spans p w one f.0, unchanged one ws f.1)
