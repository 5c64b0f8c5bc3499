-- ===== src/TcMalloc/Sample.antt =====
-- Two concrete states. In the first the span at 200 holds the three free blocks 8192, 8208 and 8224,
-- and one block of it is in use; every bucket's list is the one at 100.
use mylittle_code_house.Base.{
  ℕ, ◌≡◌, refl, sym, subst, arith, false, some, ok, [], ◌∷◌, IsDistinct, List, null, update,
}
use mylittle_code_house.TcMalloc.ClassSize.{index, num_move_pages, num_move_size}
use mylittle_code_house.TcMalloc.Memory.{Words, Chain}
use mylittle_code_house.TcMalloc.SpanList.{Spans, fresh_span}
use mylittle_code_house.TcMalloc.State.{State}
use mylittle_code_house.TcMalloc.Start.{start_state}
use mylittle_code_house.TcMalloc.PageCache.Supply.{Bare}
use mylittle_code_house.TcMalloc.PageCache.Provide.{Source, system}
use mylittle_code_house.TcMalloc.CentralCache.Bucket.{Stocked}
use mylittle_code_house.TcMalloc.CentralCache.Supply.{Supplied}

abbrev pub span_words : Words
span_words = update (update (λ _. null) 8192 8208) 8208 8224

abbrev pub span_blocks : List ℕ
span_blocks = 8192 ∷ 8208 ∷ 8224 ∷ []

abbrev two_spans : Spans
two_spans =
    update (update (λ _. fresh_span) 100 (record fresh_span { next = 200; prev = 200 })) 200
      (record fresh_span { id = 1; n = 1; next = 100; prev = 100; use_count = 1; freelist = 8192 })

abbrev pub stocked : State
stocked = record start_state {
  words = span_words;
  spans = two_spans;
  central = record (start_state.central) { lists = λ _. 100; locked = λ _. false };
  pages = record (start_state.pages) { span_map = λ _. some 200; locked = false };
}

pub stocked-Stocked : Stocked stocked 1 [] 200 []
stocked-Stocked = record {
  exists = omega arith;
  spans = record {
    linked = (refl, refl, (refl, refl));
    distinct = ((omega arith, tt), (tt, tt));
    not_null = (omega arith, (omega arith, tt));
  };
  used_up = tt;
}

pub span_chain : Chain span_words 8192 span_blocks null
span_chain = (refl, omega arith, (refl, omega arith, (refl, omega arith, refl)))

pub span_blocks-IsDistinct : IsDistinct span_blocks
span_blocks-IsDistinct = ((omega arith, (omega arith, tt)), ((omega arith, tt), (tt, tt)))

pub class_of_16 : index 16 ≡ ok 1
unfolding index
class_of_16 = refl

one_page : num_move_pages 16 ≡ 1
unfolding num_move_pages num_move_size
one_page = refl

-- Every bucket is empty, and the pool of the page cache has a piece of its chunk left.
abbrev pub supplied : State
supplied = record start_state {
  pages = record (start_state.pages) {
    pool = record { memory = 100000; freelist = null; remain = 1024 };
  };
}

supplied-Bare : Bare supplied 1 []
supplied-Bare = record {
  low = omega arith;
  short = omega arith;
  clear = λ k low high. record {
    linked = (refl, refl);
    distinct = (tt, tt);
    not_null = (omega arith, tt);
  };
  rest = record { linked = (refl, refl); distinct = (tt, tt); not_null = (omega arith, tt) };
  heads = λ k high. omega arith;
  apart = tt;
  ready = record {
    unused = refl;
    enough = omega arith;
    somewhere = omega arith;
    inside = omega arith;
  };
  twice = omega arith;
  unused = λ k high. omega arith;
  unused_next = λ k high. omega arith;
  unused_rest = tt;
  unused_rest_next = tt;
  top = omega arith;
  room = omega arith;
}

-- The first span is the second piece, with page 1024.
pub supplied-Supplied : Supplied supplied 1 16 [] 100064 1024 0
supplied-Supplied = record {
  exists = omega arith;
  spans = record { linked = (refl, refl); distinct = (tt, tt); not_null = (omega arith, tt) };
  used_up = tt;
  source =
      subst (λ n. Source supplied n (1002 ∷ []) 100064 1024 0) (sym one_page)
        (system [] supplied-Bare refl ((omega arith, (omega arith, tt)), tt) (omega arith, tt)
          (omega arith, tt));
  based = omega arith;
  fits = omega (arith, one_page);
  pages_free = refl;
}
