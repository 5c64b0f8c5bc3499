-- ===== src/TcMalloc/SpanList/Tests.antt =====
-- A concrete list: the head 1 with the spans 2 and 3.
use mylittle_code_house.Base.{ℕ, refl, arith, [], ◌∷◌, update}
use mylittle_code_house.TcMalloc.SpanList.{Span, Spans, fresh_span}
use mylittle_code_house.TcMalloc.SpanList.Refine.{Holds}

abbrev linked_span : ℕ → ℕ → Span
linked_span next prev = record fresh_span { next = next; prev = prev }

abbrev spans : Spans
spans =
    update (update (update (λ _. fresh_span) 1 (linked_span 2 3)) 2 (linked_span 3 1)) 3
      (linked_span 1 2)

two-Holds : Holds spans 1 (2 ∷ 3 ∷ [])
two-Holds = record {
  linked = (refl, refl, (refl, refl, (refl, refl)));
  distinct = ((omega arith, (omega arith, tt)), ((omega arith, tt), (tt, tt)));
  not_null = (omega arith, (omega arith, (omega arith, tt)));
}
