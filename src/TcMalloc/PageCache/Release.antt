-- ===== src/TcMalloc/PageCache/Release.antt =====
-- `ReleaseSpanToPageCache` of a span that lies behind a free one.
use mylittle_code_house.Base.{
  ℕ, ◌+◌, ◌-◌, ◌≤◌, ◌<◌, ◌≡◌, sym, ap, subst, ◌∙◌, arith, true, false, none, some, Returns, mono,
  List, ◌∷◌, ◌++◌, le→not-ltb, Fresh, All, All-Fresh_sym, All-map, u64_mod, add64, sub64,
}
use mylittle_code_house.TcMalloc.SpanList.Refine.{Holds, Holds-apart, All-drop}
use mylittle_code_house.TcMalloc.State.{State}
use mylittle_code_house.TcMalloc.PageCache.{release_span, merge_back, find_page, put_back}
use mylittle_code_house.TcMalloc.PageCache.Mapping.{load-ok, merge_forward-idle}
use mylittle_code_house.TcMalloc.PageCache.Buckets.{PutBack, put_back-PutBack}
use mylittle_code_house.TcMalloc.PageCache.Merge.{Mergeable, Merged, merge_back-Merged}

-- The span `p` in use, the free span `o` before it with nothing known before that, and the bucket
-- for both.
pub record Behind (s : State) (p o : ℕ) (ys zs ws : List ℕ) : Type 0 where
  pub merge : Mergeable s p o ys zs
  pub used : (s.spans p).is_use ≡ true
  pub adjacent : (s.spans o).id + (s.spans o).n ≡ (s.spans p).id
  pub positive : 1 ≤ (s.spans p).n
  pub room : (s.spans p).id + (s.spans p).n < u64_mod
  pub edge : s.pages.span_map (sub64 (s.spans o).id 1) ≡ none
  pub last : s.pages.span_map ((s.spans p).id + (s.spans p).n - 1) ≡ some p
  pub target : Holds s.spans (s.pages.lists ((s.spans o).n + (s.spans p).n)) ws
  pub apart :
      All
        (λ y. Fresh y (p ∷ o ∷ s.pages.lists (s.spans o).n ∷ ys ++ zs))
        (s.pages.lists ((s.spans o).n + (s.spans p).n) ∷ ws)

-- One free span with the pages of both.
pub record Coalesced (s : State) (p o : ℕ) (ys zs ws : List ℕ) (r : (Unit {0}) × State)
    : Type 0 where
  pub bucket : Holds r.1.spans (s.pages.lists ((s.spans o).n + (s.spans p).n)) (p ∷ ws)
  pub left : Holds r.1.spans (s.pages.lists (s.spans o).n) (ys ++ zs)
  pub size : (r.1.spans p).n ≡ (s.spans o).n + (s.spans p).n
  pub start : (r.1.spans p).id ≡ (s.spans o).id
  pub free : (r.1.spans p).is_use ≡ false
  pub first : r.1.pages.span_map (s.spans o).id ≡ some p
  pub last : r.1.pages.span_map ((s.spans p).id + (s.spans p).n - 1) ≡ some p
  pub recycled : r.1.pages.pool.freelist ≡ o
  pub words : r.1.words ≡ s.words

module _ (s : State) (p o : ℕ) (ys zs ws : List ℕ) (v : Behind s p o ys zs ws) (t : State)
    (m : Merged s p o ys zs t) where
  abbrev both : ℕ
  both = (s.spans o).n + (s.spans p).n

  target_kept : Holds t.spans (t.pages.lists both) ws
  target_kept = rw m.lists (
      Holds-apart s.spans t.spans (s.pages.lists both) ws
        (All-map m.others (s.pages.lists both ∷ ws) v.apart) v.target)

  abbrev touched : List ℕ
  touched = s.pages.lists (s.spans o).n ∷ ys ++ zs

  p_fresh : Fresh p (t.pages.lists both ∷ ws)
  p_fresh =
      subst (λ heads. Fresh p (heads both ∷ ws)) (sym m.lists)
        (All-Fresh_sym (s.pages.lists both ∷ ws) (p ∷ o ∷ touched) v.apart).0

  left_kept : All (λ y. Fresh y (t.pages.lists both ∷ p ∷ ws)) touched
  left_kept =
      let a = All-map (λ z f. f.1.1) (s.pages.lists both ∷ ws) v.apart in
      subst (λ heads. All (λ y. Fresh y (heads both ∷ p ∷ ws)) touched) (sym m.lists)
        (All-Fresh_sym (s.pages.lists both ∷ p ∷ ws) touched
          (a.0, ((v.merge.apart.0, All-drop _ ys o zs v.merge.apart.1), a.1)))

  put : Returns (PutBack t p both ws) (put_back p t)
  put = put_back-PutBack p both ws t v.merge.not_null v.merge.fits m.size target_kept p_fresh

  end : sub64 (add64 (t.spans p).id both) 1 ≡ (s.spans p).id + (s.spans p).n - 1
  end = omega (arith, m.start, v.adjacent, v.positive, v.room)

  own : t.pages.span_map (sub64 (add64 (t.spans p).id (t.spans p).n) 1) ≡ some p
  own =
      ap (λ k. t.pages.span_map (sub64 (add64 (t.spans p).id k) 1)) m.size
      ∙ ap t.pages.span_map end
      ∙ ap (λ f. f ((s.spans p).id + (s.spans p).n - 1)) m.map
      ∙ v.last

  coalesced : (r : (Unit {0}) × State) → PutBack t p both ws r → Coalesced s p o ys zs ws r
  coalesced r b = record {
    bucket = rw⁻¹ m.lists b.bucket;
    left =
        Holds-apart t.spans r.1.spans (s.pages.lists (s.spans o).n) (ys ++ zs)
          (All-map b.others touched left_kept) m.bucket;
    size = b.size;
    start = b.start ∙ m.start;
    free = b.free;
    first = ap (λ a. r.1.pages.span_map a) (sym m.start) ∙ b.first;
    last = ap (λ a. r.1.pages.span_map a) (sym end) ∙ b.last;
    recycled = ap (λ z. z.freelist) b.pool ∙ m.recycled;
    words = b.words ∙ m.words;
  }

-- ReleaseSpanToPageCache of a span in use, not null and of at least one page, with its last page
-- entered and no wrap of its pages, behind a free one with which it has at most 128 pages
-- together, where the free one is entered for the page before, stands in its bucket, which the
-- other does not, begins at a page before which none is entered, and ends where the other begins,
-- and the bucket for both is apart from all of these: the two become one free span with the pages
-- of both at the front of that bucket, its first and last page entered; the free one leaves its
-- bucket, where the others stay in order, and its object is the next that the pool gives out.
pub release_span-Coalesced :
    (s : State) (p o : ℕ) (ys zs ws : List ℕ)
    → Behind s p o ys zs ws
    → Returns (Coalesced s p o ys zs ws) (release_span p s)
unfolding release_span merge_back find_page
release_span-Coalesced s p o ys zs ws v =
    let (t, m, e) = merge_back-Merged 128 s p o ys zs v.merge in
    rw (load-ok s p v.merge.not_null, le→not-ltb 128 (s.spans p).n (omega (arith, v.merge.fits)), e)
      (let edge : t.pages.span_map (sub64 (t.spans p).id 1) ≡ none =
          ap (λ f. f (sub64 (t.spans p).id 1)) m.map
          ∙ ap (λ i. s.pages.span_map (sub64 i 1)) m.start
          ∙ v.edge in
        rw
          (
            load-ok t p v.merge.not_null,
            edge,
            merge_forward-idle t p 128 v.merge.not_null (m.use_kept ∙ v.used)
                (own s p o ys zs ws v t m),
          )
          (mono (put s p o ys zs ws v t m) (coalesced s p o ys zs ws v t m)))
