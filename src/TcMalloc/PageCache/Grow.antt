-- ===== src/TcMalloc/PageCache/Grow.antt =====
-- The largest span, fetched from the system into its bucket.
use mylittle_code_house.Base.{
  ℕ, ◌/◌, ◌≡◌, ◌≢◌, refl, sym, ap, ◌∙◌, false, Returns, returns, Returns-value, [], ◌∷◌, ne→not-==,
  null, update_ne, update_self, add64, shl64,
}
use mylittle_code_house.TcMalloc.SpanList.{Span, fresh_span}
use mylittle_code_house.TcMalloc.SpanList.Refine.{Holds, Holds-apart, push_front-Holds}
use mylittle_code_house.TcMalloc.Os.{system_alloc, set_break}
use mylittle_code_house.TcMalloc.State.{State, bind_state, page_list}
use mylittle_code_house.TcMalloc.PageCache.{grow, alloc_pages}
use mylittle_code_house.TcMalloc.PageCache.Assign.{Ready, pool_new-ok, pool_made, modify-Assigned}

-- The span that `grow` adds.
pub record Grown (s : State) (r : (Unit {0}) × State) : Type 0 where
  pub bucket : Holds r.1.spans (s.pages.lists 128) (s.pages.pool.memory ∷ [])
  pub size : (r.1.spans s.pages.pool.memory).n ≡ 128
  pub first : (r.1.spans s.pages.pool.memory).id ≡ s.os.top / 8192
  pub free : (r.1.spans s.pages.pool.memory).is_use ≡ false
  pub unused : (r.1.spans s.pages.pool.memory).use_count ≡ 0
  pub others : (y : ℕ) → y ≢ s.pages.pool.memory → y ≢ s.pages.lists 128 → r.1.spans y ≡ s.spans y
  pub pages : r.1.pages ≡ (pool_made s).pages
  pub os : r.1.os ≡ set_break s.os (add64 s.os.top (shl64 128 13))
  pub words : r.1.words ≡ s.words
  pub central : r.1.central ≡ s.central
  pub caches : r.1.caches ≡ s.caches

pub grow-Grown :
    (s : State)
    → Holds s.spans (s.pages.lists 128) []
    → s.pages.pool.memory ≢ s.pages.lists 128
    → Ready s
    → s.os.top ≢ null
    → Returns (Grown s) (grow s)
unfolding grow alloc_pages system_alloc page_list
grow-Grown s clear ne ready top =
    let q = s.pages.pool.memory in
    rw (pool_new-ok s ready, ne→not-== s.os.top null top)
      (bind_state _
        (modify-Assigned
          (record (pool_made s) { os = set_break s.os (add64 s.os.top (shl64 128 13)) }) q
          (λ t. record t { n = 128 }) ready.somewhere)
        λ r1 a1.
          bind_state _
            (modify-Assigned r1.1 q (λ t. record t { id = s.os.top / 8192 }) ready.somewhere)
            λ r2 a2.
              let at : r2.1.spans q ≡ record fresh_span { n = 128; id = s.os.top / 8192 } =
                a2.at
                ∙ ap (λ (t : Span). record t { id = s.os.top / 8192 })
                    (a1.at
                      ∙ ap (λ (t : Span). record t { n = 128 })
                          (update_self s.spans q fresh_span)) in
              let same = λ (y : ℕ) (h : y ≢ q).
                a2.others y h ∙ a1.others y h ∙ update_ne s.spans q y fresh_span (λ e. h (sym e)) in
              let clear' : Holds r2.1.spans (s.pages.lists 128) [] =
                Holds-apart s.spans r2.1.spans (s.pages.lists 128) []
                  (same (s.pages.lists 128) (λ e. ne (sym e)), tt) clear in
              let (sp, e, h) = Returns-value (
                push_front-Holds r2.1.spans (s.pages.lists 128) [] q clear' ready.somewhere
                  (ne, tt)) in
              rw (a2.pages ∙ a1.pages, e)
                (returns (record {
                  bucket = h.0;
                  size = (h.1.0 q).1 ∙ ap (λ t. t.n) at;
                  first = (h.1.0 q).0 ∙ ap (λ t. t.id) at;
                  free = (h.1.0 q).4 ∙ ap (λ t. t.is_use) at;
                  unused = (h.1.0 q).2 ∙ ap (λ t. t.use_count) at;
                  others = λ y f g. h.1.1 y (g, (f, tt)) ∙ same y f;
                  pages = refl;
                  os = a2.os ∙ a1.os;
                  words = a2.words ∙ a1.words;
                  central = a2.central ∙ a1.central;
                  caches = a2.caches ∙ a1.caches;
                })))
