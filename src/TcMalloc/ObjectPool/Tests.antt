-- ===== src/TcMalloc/ObjectPool/Tests.antt =====
-- A pool of objects of 64 bytes, of which the store holds the first words.
use mylittle_code_house.Base.{◌≡◌, true, arith, ok, null, update, update_self, ◌>>=◌}
use mylittle_code_house.TcMalloc.Memory.{Words}
use mylittle_code_house.TcMalloc.Os.{Os}
use mylittle_code_house.TcMalloc.ObjectPool.{Cells, empty_pool, delete, new}
use mylittle_code_house.TcMalloc.ObjectPool.Recycle.{new-delete}

abbrev cells : Cells Words
cells = record {
  peek = λ w p. w p;
  poke = λ w p v. update w p v;
  construct = λ w p. update w p null;
  size_of = 64;
  peek-poke = λ w p v. update_self w p v;
}

abbrev os : Os
os = record { top = 8192; grants = λ _. true }

abbrev zeros : Words
zeros = λ _. 0

new-delete_example :
    (delete cells zeros empty_pool 640 >>= λ (s', pool'). new cells s' pool' os)
    ≡ ok (640, update zeros 640 null, empty_pool, os)
new-delete_example = new-delete cells zeros empty_pool os 640 (omega arith)
