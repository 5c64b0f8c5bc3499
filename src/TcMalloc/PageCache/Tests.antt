-- ===== src/TcMalloc/PageCache/Tests.antt =====
-- Span 7 with the pages 16 to 19, in the bucket with the head 5 and out of it; a longer bucket to cut
-- a span from, no span at all, and a span behind a free one.
use mylittle_code_house.Base.{ℕ, ◌≡◌, refl, arith, true, none, some, Returns, [], ◌∷◌, update, null}
use mylittle_code_house.TcMalloc.SpanList.{Span, Spans, fresh_span}
use mylittle_code_house.TcMalloc.SpanList.Refine.{Holds}
use mylittle_code_house.TcMalloc.State.{State, and_then}
use mylittle_code_house.TcMalloc.Start.{start_state}
use mylittle_code_house.TcMalloc.PageCache.Split.{Splits, Halved}
use mylittle_code_house.TcMalloc.PageCache.Search.{AllEmpty, new_span-Halved}
use mylittle_code_house.TcMalloc.PageCache.Provide.{Provided, system, whole, new_span-Provided}
use mylittle_code_house.TcMalloc.PageCache.Supply.{Bare, FromSystem, new_span-FromSystem}
use mylittle_code_house.TcMalloc.PageCache.Release.{Behind, Coalesced, release_span-Coalesced}
use mylittle_code_house.TcMalloc.PageCache.{new_span, map_span, map_to_span, release_span}
use mylittle_code_house.TcMalloc.PageCache.Mapping.{map_to_span-map_span}
use mylittle_code_house.TcMalloc.PageCache.Buckets.{PutBack, release_span-alone}

abbrev four_pages : Span
four_pages = record fresh_span { id = 16; n = 4; next = 5; prev = 5 }

abbrev linked : Spans
linked = update (update start_state.spans 5 (record fresh_span { next = 7; prev = 7 })) 7 four_pages

abbrev cached : State
cached = record start_state { spans = linked }

map_to_span-map_span_example :
    Returns (λ (r : ℕ × State). r.0 ≡ 7) (and_then (map_span 7 cached) λ _. map_to_span 140000)
map_to_span-map_span_example =
    map_to_span-map_span cached 7 140000 (omega arith) refl (omega arith) (omega arith)
      (omega arith)

abbrev in_use : State
in_use = record start_state {
  spans = update start_state.spans 7 (record four_pages { is_use = true });
  pages = record (start_state.pages) { span_map = update (λ _. none) 19 (some 7) };
}

empty-Holds : Holds in_use.spans 5 []
empty-Holds = record { linked = (refl, refl); distinct = (tt, tt); not_null = (omega arith, tt) }

released_alone : Returns (PutBack in_use 7 4 []) (release_span 7 in_use)
released_alone =
    release_span-alone 7 4 [] in_use (omega arith) (omega arith) refl refl refl refl empty-Holds
      (omega arith, tt)

-- The span 700 alone in the bucket of 4 pages, and a pool of 1024 bytes at 100000.
abbrev with_longer : State
with_longer = record start_state {
  spans =
      update (update start_state.spans 5 (record fresh_span { next = 700; prev = 700 })) 700
        (record fresh_span { id = 16; n = 4; next = 5; prev = 5 });
  pages = record (start_state.pages) {
    pool = record { memory = 100000; freelist = null; remain = 1024 };
  };
}

with_longer-AllEmpty : AllEmpty with_longer 3 4
with_longer-AllEmpty k low high = record {
  linked = (ground arith, ground arith);
  distinct = (tt, tt);
  not_null = (omega arith, tt);
}

with_longer-Splits : Splits with_longer 4 3 700 [] []
with_longer-Splits = record {
  low = omega arith;
  shorter = omega arith;
  high = omega arith;
  longer = record {
    linked = (refl, refl, (refl, refl));
    distinct = ((omega arith, tt), (tt, tt));
    not_null = (omega arith, (omega arith, tt));
  };
  rest = record { linked = (refl, refl); distinct = (tt, tt); not_null = (omega arith, tt) };
  apart = ((omega arith, (omega arith, tt)), tt);
  size = refl;
  room = omega arith;
  ready = record {
    unused = refl;
    enough = omega arith;
    somewhere = omega arith;
    inside = omega arith;
  };
  unused = (omega arith, (omega arith, tt));
  unused_rest = (omega arith, tt);
}

new_span-Halved_example : Returns (Halved with_longer 4 3 700 [] []) (new_span 2 3 with_longer)
new_span-Halved_example =
    new_span-Halved 1 3 4 700 [] [] with_longer with_longer-AllEmpty with_longer-Splits

-- No span at all.
abbrev bare : State
bare = record start_state {
  pages = record (start_state.pages) {
    pool = record { memory = 100000; freelist = null; remain = 1024 };
  };
}

bare-Bare : Bare bare 3 []
bare-Bare = record {
  low = omega arith;
  short = omega arith;
  clear = λ k low high. record {
    linked = (refl, refl);
    distinct = (tt, tt);
    not_null = (omega arith, tt);
  };
  rest = record { linked = (refl, refl); distinct = (tt, tt); not_null = (omega arith, tt) };
  heads = λ k high. omega arith;
  apart = tt;
  ready = record {
    unused = refl;
    enough = omega arith;
    somewhere = omega arith;
    inside = omega arith;
  };
  twice = omega arith;
  unused = λ k high. omega arith;
  unused_next = λ k high. omega arith;
  unused_rest = tt;
  unused_rest_next = tt;
  top = omega arith;
  room = omega arith;
}

new_span-FromSystem_example : Returns (FromSystem bare 3 []) (new_span 2 3 bare)
new_span-FromSystem_example = new_span-FromSystem 0 3 [] bare bare-Bare

-- The free span 700 of 4 pages, and the span 800 of 2 pages behind it, in use.
abbrev behind : State
behind = record start_state {
  spans = update with_longer.spans 800 (record fresh_span { id = 20; n = 2; is_use = true });
  pages = record (start_state.pages) {
    span_map = update (update (λ _. none) 19 (some 700)) 21 (some 800);
  };
}

behind-Behind : Behind behind 800 700 [] [] []
behind-Behind = record {
  merge = record {
    not_null = omega arith;
    before = refl;
    held = record {
      linked = (refl, refl, (refl, refl));
      distinct = ((omega arith, tt), (tt, tt));
      not_null = (omega arith, (omega arith, tt));
    };
    free = refl;
    fits = omega arith;
    apart = (omega arith, (omega arith, tt));
  };
  used = refl;
  adjacent = refl;
  positive = omega arith;
  room = omega arith;
  edge = refl;
  last = refl;
  target = record { linked = (refl, refl); distinct = (tt, tt); not_null = (omega arith, tt) };
  apart = ((omega arith, (omega arith, (omega arith, tt))), tt);
}

release_span-Coalesced_example :
    Returns (Coalesced behind 800 700 [] [] []) (release_span 800 behind)
release_span-Coalesced_example = release_span-Coalesced behind 800 700 [] [] [] behind-Behind

new_span-Provided_example : Returns (Provided bare 3 (5 ∷ []) 100064 1024 0) (new_span 2 3 bare)
new_span-Provided_example =
    new_span-Provided bare 3 (5 ∷ []) 100064 1024 0 (omega arith) (omega arith) (
      system [] bare-Bare refl ((omega arith, (omega arith, tt)), tt) (omega arith, tt)
        (omega arith, tt))

-- All 128 pages, from the system.
whole_span : Returns (Provided bare 128 (5 ∷ []) 100000 1024 0) (new_span 2 128 bare)
whole_span = new_span-Provided bare 128 (5 ∷ []) 100000 1024 0 (omega arith) (omega arith) (
    whole refl (bare-Bare.clear 128 (omega arith) (omega arith))
      (bare-Bare.unused 128 (omega arith)) bare-Bare.ready bare-Bare.top bare-Bare.room refl
      ((omega arith, tt), tt) (omega arith, tt))
