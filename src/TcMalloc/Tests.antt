-- ===== src/TcMalloc/Tests.antt =====
-- Runs of the whole allocator.
use mylittle_code_house.Base.{◌≡◌, refl, arith, some, err, segfault}
use mylittle_code_house.TcMalloc.SpanList.{fresh_span}
use mylittle_code_house.TcMalloc.State.{State}
use mylittle_code_house.TcMalloc.Start.{start_state}
use mylittle_code_house.TcMalloc.Concurrent.{free}
use mylittle_code_house.TcMalloc.Concurrent.Foreign.{free-foreign}

-- Page 2 belongs to span 7, which is cut into blocks of 64 bytes; thread 3 has no cache.
abbrev foreign : State
foreign = record start_state {
  pages = record (start_state.pages) { span_map = λ _. some 7 };
  spans = λ _. record fresh_span { obj_size = 64 };
}

free-foreign_example : free 10 3 16384 foreign ≡ err segfault
free-foreign_example =
    free-foreign 10 3 16384 7 foreign (omega arith) (omega arith) refl refl (omega arith)
      (omega arith) refl
