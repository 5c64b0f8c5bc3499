-- ===== src/TcMalloc/PageCache/Halve.antt =====
-- The cut of a span, and the two buckets.
use mylittle_code_house.Base.{
  ℕ, ◌+◌, ◌-◌, ◌≤◌, ◌<◌, ◌≡◌, ◌≢◌, refl, sym, ap, ◌∙◌, arith, some, Returns, returns, Returns-value,
  List, ◌∷◌, add64, sub64, update, update_self, update_ne, lt→ltb, ◌⊎◌, inr, Option,
}
use mylittle_code_house.TcMalloc.SpanList.{Span, Spans, fresh_span}
use mylittle_code_house.TcMalloc.SpanList.Refine.{Keeps, Holds, pop_front-Holds, push_front-Holds}
use mylittle_code_house.TcMalloc.State.{State, bind_state, page_list, map_page}
use mylittle_code_house.TcMalloc.PageCache.{split_span}
use mylittle_code_house.TcMalloc.PageCache.Assign.{Ready, pool_new-ok, pool_made}
use mylittle_code_house.TcMalloc.PageCache.Mapping.{Mapped, map_span-Mapped}
use mylittle_code_house.TcMalloc.PageCache.Split.{Splits, Halved, untouched, changed, kept, beside}
use mylittle_code_house.TcMalloc.PageCache.Divide.{Divided, divide-Divided, with_n, with_id}

module _ (s : State) (m n x : ℕ) (xs zs : List ℕ) (v : Splits s m n x xs zs) where
  -- What divides `x` in the store that the bucket was left in.
  abbrev popped : Spans → State
  popped sp = record s { spans = sp }

  abbrev new_map : ℕ → Option ℕ
  new_map =
      update (update s.pages.span_map ((s.spans x).id + n) (some x)) ((s.spans x).id + m - 1)
        (some x)

  -- The state before the pages of the new span are entered.
  abbrev before_map : State → Spans → State
  before_map t sp = record t {
    spans = sp;
    pages = record ((pool_made s).pages) { span_map = new_map };
  }

  -- The store `sp` after the span has left its bucket, and the state `t` after the assignments.
  module _ (sp : Spans) (keeps : Keeps (s.pages.lists m ∷ xs) s.spans sp) (t : Span × State)
      (p : Divided (pool_made (popped sp)) x s.pages.pool.memory n t) where
    old : (pool_made (popped sp)).spans x ≡ sp x
    old = update_ne sp s.pages.pool.memory x fresh_span v.unused.1.0

    old_id : ((pool_made (popped sp)).spans x).id ≡ (s.spans x).id
    old_id = ap (λ z. z.id) old ∙ (keeps.0 x).0

    old_n : ((pool_made (popped sp)).spans x).n ≡ m
    old_n = ap (λ z. z.n) old ∙ (keeps.0 x).1 ∙ v.size

    first : t.0.id ≡ (s.spans x).id
    first = ap (λ z. z.id) p.whole ∙ old_id

    long : t.0.n ≡ m
    long = ap (λ z. z.n) p.whole ∙ old_n

    same : (y : ℕ) → y ≢ s.pages.pool.memory → y ≢ x → t.1.spans y ≡ sp y
    same y h g = p.others y h g ∙ update_ne sp s.pages.pool.memory y fresh_span (λ e. h (sym e))

    front : t.1.spans s.pages.pool.memory ≡ with_id (s.spans x).id (with_n n fresh_span)
    front =
        p.front
        ∙ ap (λ a. with_id a (with_n n ((pool_made (popped sp)).spans s.pages.pool.memory))) old_id
        ∙ ap (λ z. with_id (s.spans x).id (with_n n z))
            (update_self sp s.pages.pool.memory fresh_span)

    back_n : (t.1.spans x).n ≡ m - n
    back_n = ap (λ z. z.n) p.back ∙ omega (arith, old_n, v.shorter, v.high)

    back_id : (t.1.spans x).id ≡ (s.spans x).id + n
    back_id = ap (λ z. z.id) p.back ∙ omega (arith, old_id, v.shorter, v.room)

    back_use : (t.1.spans x).is_use ≡ (s.spans x).is_use
    back_use = ap (λ z. z.is_use) p.back ∙ ap (λ z. z.is_use) old ∙ (keeps.0 x).4

    -- The store `sp'` with the old span in its new bucket, and the state `r` with the map.
    module _ (others : Holds sp (s.pages.lists m) xs) (sp' : Spans)
        (h : Holds sp' (s.pages.lists (m - n)) (x ∷ zs)
          × Keeps (s.pages.lists (m - n) ∷ x ∷ zs) t.1.spans sp') where
      new_id : (sp' s.pages.pool.memory).id ≡ (s.spans x).id
      new_id = (h.1.0 s.pages.pool.memory).0 ∙ ap (λ z. z.id) front

      new_n : (sp' s.pages.pool.memory).n ≡ n
      new_n = (h.1.0 s.pages.pool.memory).1 ∙ ap (λ z. z.n) front

      entries :
          (m' : ℕ → Option ℕ)
          → ((page : ℕ)
              → (page < (sp' s.pages.pool.memory).id) ⊎ ((sp' s.pages.pool.memory).id + n ≤ page)
              → m' page ≡ new_map page)
          → (m' ((s.spans x).id + n) ≡ some x)
            × (m' ((s.spans x).id + m - 1) ≡ some x)
            × ((page : ℕ)
                → (page < (s.spans x).id) ⊎ ((s.spans x).id + m ≤ page)
                → m' page ≡ s.pages.span_map page)
      entries m' outside = (
        outside ((s.spans x).id + n) (inr (rw new_id (omega arith))) ∙ ground arith,
        outside ((s.spans x).id + m - 1) (inr (rw new_id (omega (arith, v.shorter))))
            ∙ update_self (update s.pages.span_map ((s.spans x).id + n) (some x))
                ((s.spans x).id + m - 1) (some x),
        λ page c.
            outside page (rw new_id (beside s m n x xs zs v page c)) ∙ ground (arith, v.shorter),
      )

      halved :
          (r : (Unit {0}) × State)
          → Mapped (before_map t.1 sp') n (sp' s.pages.pool.memory).id s.pages.pool.memory r
          → Halved s m n x xs zs (s.pages.pool.memory, r.1)
      halved r d =
          let q = s.pages.pool.memory in
          let id = (s.spans x).id in
          let spans : r.1.spans ≡ sp' = ap (λ (z : State). z.spans) d.only in
          let pages = ap (λ (z : State). z.pages) d.only in
          let map : r.1.pages.span_map ≡ d.map = ap (λ z. z.span_map) pages in
          let (at, last, outside) = entries d.map d.outside in
          record {
            front = refl;
            front_pages = ap (λ f. (f q).n) spans ∙ new_n;
            front_first = ap (λ f. (f q).id) spans ∙ new_id;
            front_use = ap (λ f. (f q).is_use) spans ∙ (h.1.0 q).4 ∙ ap (λ z. z.is_use) front;
            front_count =
                ap (λ f. (f q).use_count) spans ∙ (h.1.0 q).2 ∙ ap (λ z. z.use_count) front;
            same = λ y a f g.
                ap (λ z. z y) spans
                ∙ h.1.1 y (g.0, (f.1.0, g.1))
                ∙ same y a f.1.0
                ∙ keeps.1 y (f.0, f.1.1);
            back_pages = ap (λ f. (f x).n) spans ∙ (h.1.0 x).1 ∙ back_n;
            back_first = ap (λ f. (f x).id) spans ∙ (h.1.0 x).0 ∙ back_id;
            back_use = ap (λ f. (f x).is_use) spans ∙ (h.1.0 x).4 ∙ back_use;
            others =
                rw spans (
                  kept s m n x xs zs v sp sp' (λ y f g. h.1.1 y f ∙ same y g (λ e. f.1.0 e))
                    others);
            rest = rw spans h.0;
            entered = λ i lt.
                ap (λ f. f (id + i)) map ∙ ap (λ a. d.map (a + i)) (sym new_id) ∙ d.inside i lt;
            entered_first = ap (λ f. f (id + n)) map ∙ at;
            entered_last = ap (λ f. f (id + m - 1)) map ∙ last;
            outside = λ page c. ap (λ f. f page) map ∙ outside page c;
            next = ap (λ z. z.pool.memory) pages ∙ omega (arith, v.ready.inside, v.ready.enough);
            remain =
                ap (λ z. z.pool.remain + 64) pages ∙ omega (arith, v.ready.inside, v.ready.enough);
            lists = ap (λ z. z.lists) pages;
            locked = ap (λ z. z.locked) pages;
            words = ap (λ (z : State). z.words) d.only ∙ p.words;
            os = ap (λ (z : State). z.os) d.only ∙ p.os;
            central = ap (λ (z : State). z.central) d.only ∙ p.central;
            caches = ap (λ (z : State). z.caches) d.only ∙ p.caches;
          }

  -- The cut of the first span of a bucket behind its first pages, for the bucket of the rest apart
  -- from it, as new_span-Halved tells.
  pub split_span-Halved : Returns (Halved s m n x xs zs) (split_span (s.pages.lists m) n s)
  unfolding split_span map_page page_list
  split_span-Halved =
      let ((y, sp), e, out) =
        Returns-value (pop_front-Holds s.spans (s.pages.lists m) x xs v.longer) in
      let q = s.pages.pool.memory in
      let ready : Ready (popped sp) = record {
        unused = v.ready.unused;
        enough = v.ready.enough;
        somewhere = v.ready.somewhere;
        inside = v.ready.inside;
      } in
      let left : sub64 m n ≡ m - n = omega (arith, v.shorter, v.high) in
      let behind : add64 (s.spans x).id n ≡ (s.spans x).id + n = omega (arith, v.shorter, v.room) in
      let last : sub64 (add64 ((s.spans x).id + n) (m - n)) 1 ≡ (s.spans x).id + m - 1 =
        omega (arith, v.shorter, v.room, v.low) in
      rw (e, out.0, pool_new-ok (popped sp) ready)
        (bind_state _
          (divide-Divided (pool_made (popped sp)) x q n v.longer.not_null.1.0 v.ready.somewhere
            v.unused.1.0)
          λ t p.
            let (sp', e', h) = Returns-value (
              push_front-Holds t.1.spans (s.pages.lists (m - n)) zs x
                (untouched s m n x xs zs v sp t.1.spans out.2 (same sp out.2 t p))
                v.longer.not_null.1.0 (changed s m n x xs zs v).1.0) in
            rw
              (
                first sp out.2 t p,
                long sp out.2 t p,
                left,
                behind,
                last,
                p.pages,
                lt→ltb (m - n) 129 (omega (arith, v.high)),
                e',
              )
              (bind_state _
                (map_span-Mapped (before_map t.1 sp') q n v.ready.somewhere
                  (new_n sp out.2 t p out.1 sp' h)
                  (rw (new_id sp out.2 t p out.1 sp' h) (omega (arith, v.room, v.shorter))))
                λ r d. returns (halved sp out.2 t p out.1 sp' h r d)))
