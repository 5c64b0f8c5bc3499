-- ===== src/TcMalloc/PageCache/Mapping.antt =====
-- `_spanMap`: which span a page belongs to.
use mylittle_code_house.Base.{
  ℕ, zero, suc, ◌+◌, ◌-◌, ◌*◌, ◌/◌, ◌≤◌, ◌<◌, ◌≡◌, ◌≢◌, refl, ap, ◌∙◌, arith, true, false, Option,
  some, ok, Returns, returns, mono, u64_mod, add64, sub64, update, update_self, update_ne, null,
  ◌⊎◌, inl,
}
use mylittle_code_house.TcMalloc.SpanList
use mylittle_code_house.TcMalloc.SpanList.{Span}
use mylittle_code_house.TcMalloc.State.{
  State, and_then, bind_state, map_page, lock_pages, unlock_pages,
}
use mylittle_code_house.TcMalloc.PageCache.{
  map_pages, map_span, load, find_page, merge_forward, map_to_span,
}

-- `map_pages` changes the map alone.
abbrev pub with_map : State → (ℕ → Option ℕ) → State
with_map s m = record s { pages = record (s.pages) { span_map = m } }

pub record Mapped (s : State) (k id p : ℕ) (r : (Unit {0}) × State) : Type 0 where
  pub map : ℕ → Option ℕ
  pub only : r.1 ≡ with_map s map
  pub inside : (i : ℕ) → i < k → map (id + i) ≡ some p
  pub outside : (page : ℕ) → (page < id) ⊎ (id + k ≤ page) → map page ≡ s.pages.span_map page

-- The loop that enters a span's pages enters each of them, and touches no other page.
map_pages-Mapped :
    (k : ℕ) (s : State) (id p : ℕ)
    → id + k < u64_mod
    → Returns (Mapped s k id p) (map_pages k id p s)
unfolding map_pages map_page
map_pages-Mapped zero s id p room = returns (record {
  map = s.pages.span_map;
  only = refl;
  inside = λ i h. absurd (omega arith);
  outside = λ page h. refl;
})
map_pages-Mapped (suc k) s id p room =
    let sum : add64 id 1 ≡ id + 1 = omega arith in
    let s' = with_map s (update s.pages.span_map id (some p)) in
    rw sum (
      mono (map_pages-Mapped k s' (id + 1) p (omega arith)) λ r v. record {
        map = v.map;
        only = v.only;
        inside =
            inside_all v.map v.inside
              (v.outside id (inl (omega arith)) ∙ update_self s.pages.span_map id (some p));
        outside = λ page h.
            v.outside page (ground arith)
            ∙ update_ne s.pages.span_map id page (some p) (ground arith);
      })
  where
    inside_all :
        (m : ℕ → Option ℕ)
        → ((i : ℕ) → i < k → m (id + 1 + i) ≡ some p)
        → m id ≡ some p
        → (i : ℕ) → i < suc k
        → m (id + i) ≡ some p
    inside_all m later first zero h = let e : id + 0 ≡ id = omega arith in rw e first
    inside_all m later first (suc i) h =
        let e : id + suc i ≡ id + 1 + i = omega arith in rw e (later i (omega arith))

pub load-ok : (s : State) (p : ℕ) → p ≢ null → load p s ≡ ok (s.spans p, s)
unfolding load SpanList.load
load-ok s p h = ground arith

-- `MapToSpan` of an address whose page is entered: the span, with the lock given back.
pub map_to_span-found :
    (s : State) (a p : ℕ)
    → s.pages.locked ≡ false
    → s.pages.span_map (a / 8192) ≡ some p
    → map_to_span a s ≡ ok (p, record s { pages = record (s.pages) { locked = false } })
unfolding map_to_span lock_pages unlock_pages find_page
map_to_span-found s a p free found = rw (free, found)

map_to_span-some :
    (s : State) (a p : ℕ)
    → s.pages.locked ≡ false
    → s.pages.span_map (a / 8192) ≡ some p
    → Returns (λ (r : ℕ × State). r.0 ≡ p) (map_to_span a s)
map_to_span-some s a p free found = rw (map_to_span-found s a p free found) (returns refl)

-- `map_span` of a span of known length and first page.
pub map_span-Mapped :
    (s : State) (p n : ℕ)
    → p ≢ null
    → (s.spans p).n ≡ n
    → (s.spans p).id + n < u64_mod
    → Returns (Mapped s n (s.spans p).id p) (map_span p s)
unfolding map_span
map_span-Mapped s p n ne size room =
    rw (load-ok s p ne, size) (map_pages-Mapped n s (s.spans p).id p room)

-- Once the pages of a span that is not null have been entered, with no wrap of the page numbers
-- and the lock free, MapToSpan of every address from its first page to its last finds that span.
pub map_to_span-map_span :
    (s : State) (p a : ℕ)
    → p ≢ null
    → s.pages.locked ≡ false
    → (s.spans p).id + (s.spans p).n < u64_mod
    → (s.spans p).id * 8192 ≤ a
    → a < ((s.spans p).id + (s.spans p).n) * 8192
    → Returns (λ (r : ℕ × State). r.0 ≡ p) (and_then (map_span p s) λ _. map_to_span a)
unfolding map_span
map_to_span-map_span s p a ne free room low high =
    let id = (s.spans p).id in
    let n = (s.spans p).n in
    rw (load-ok s p ne) (
      bind_state _ (map_pages-Mapped n s id p room) λ r v.
        map_to_span-some r.1 a p (ap (λ (t : State). t.pages.locked) v.only ∙ free)
          (ap (λ (t : State). t.pages.span_map (a / 8192)) v.only ∙ page_in v.map v.inside))
  where
    page_in :
        (m : ℕ → Option ℕ)
        → ((i : ℕ) → i < (s.spans p).n → m ((s.spans p).id + i) ≡ some p)
        → m (a / 8192) ≡ some p
    page_in m inside =
        let e : (s.spans p).id + (a / 8192 - (s.spans p).id) ≡ a / 8192 = omega arith in
        rw (← e) (inside (a / 8192 - (s.spans p).id) (omega arith))

-- For a span in use that is not null and whose last page is entered for it, the second merging
-- loop of ReleaseSpanToPageCache changes nothing.
pub merge_forward-idle :
    (s : State) (p fuel : ℕ)
    → p ≢ null
    → (s.spans p).is_use ≡ true
    → s.pages.span_map (sub64 (add64 (s.spans p).id (s.spans p).n) 1) ≡ some p
    → merge_forward (suc fuel) p s ≡ ok (tt, s)
unfolding merge_forward find_page
merge_forward-idle s p fuel ne used own = rw (load-ok s p ne, own, load-ok s p ne, used)
