-- ===== src/TcMalloc/ThreadCache/Tests.antt =====
-- A thread cache at 7 whose list of 8-byte blocks holds one block and may hold three.
use mylittle_code_house.Base.{
  update, ℕ, ◌+◌, ◌≤◌, ◌<◌, ◌≡◌, refl, arith, ok, Returns, [], ◌∷◌, null,
}
use mylittle_code_house.TcMalloc.ThreadCache.Overflow.{Flushed, deallocate-Flushed}
use mylittle_code_house.TcMalloc.ThreadCache.Refill.{Refilled, allocate-Refilled}
use mylittle_code_house.TcMalloc.ThreadCache.First.{First}
use mylittle_code_house.TcMalloc.Sample.{
  stocked, stocked-Stocked, span_blocks, span_chain, span_blocks-IsDistinct,
}
use mylittle_code_house.TcMalloc.Memory.{Words}
use mylittle_code_house.TcMalloc.FreeList.{FreeList}
use mylittle_code_house.TcMalloc.FreeList.Refine.{Holds}
use mylittle_code_house.TcMalloc.ClassSize.{num_move_size, index, round_up, round_up_to}
use mylittle_code_house.TcMalloc.State.{State, and_then}
use mylittle_code_house.TcMalloc.Start.{start_state}
use mylittle_code_house.TcMalloc.ThreadCache.{allocate, deallocate}
use mylittle_code_house.TcMalloc.ThreadCache.Reuse.{allocate-deallocate}

abbrev zeros : Words
zeros = λ _. null

abbrev one : ℕ → FreeList
one limit = record { head = 8; max_size = limit; size = 1 }

one-Holds : (limit : ℕ) → Holds zeros (one limit) (8 ∷ [])
one-Holds limit = record {
  chain = (refl, omega arith, refl);
  distinct = (tt, tt);
  counted = refl;
  small = omega arith;
}

limit : 2 ≤ num_move_size 1024 + 1
unfolding num_move_size
limit = omega arith

abbrev cached : State
cached = record start_state { caches = λ _ _. one 3 }

first_bucket : index (round_up 8) ≡ ok 0
unfolding index round_up round_up_to
first_bucket = refl

rounded : round_up 5 ≡ round_up 8
unfolding round_up round_up_to
rounded = refl

below : round_up 8 < 262144
unfolding round_up round_up_to
below = omega arith

allocate-deallocate_example :
    Returns
      (λ (r : ℕ × State). (r.0 ≡ 16) × Holds r.1.words (r.1.caches 7 0) (8 ∷ []))
      (and_then (deallocate 0 7 16 8 cached) λ _. allocate 0 7 5)
allocate-deallocate_example =
    allocate-deallocate 7 0 (omega arith) (omega arith) 0 16 8 5 cached (8 ∷ []) first_bucket
      rounded (omega arith) (omega arith) below (omega arith) (one-Holds 3) (omega arith, tt)
      (omega arith) (omega arith)

second_bucket : index (round_up 13) ≡ ok 1
unfolding index round_up round_up_to
second_bucket = refl

sixteen : round_up 13 ≡ 16
unfolding round_up round_up_to
sixteen = refl

no_blocks : Holds stocked.words (stocked.caches 7 1) []
no_blocks = record { chain = refl; distinct = tt; counted = refl; small = omega arith }

allocate-Refilled_example :
    Returns
      (Refilled stocked 7 1 200 (round_up 13) (200 ∷ []) span_blocks)
      (allocate 8 7 13 stocked)
allocate-Refilled_example =
    allocate-Refilled 7 1 (omega arith) 8 13 stocked [] 200 [] 8192 (8208 ∷ 8224 ∷ []) second_bucket
      (omega (arith, sixteen)) (omega arith) (omega (arith, sixteen)) no_blocks (omega arith) refl
      stocked-Stocked (omega arith) refl span_chain span_blocks-IsDistinct (omega arith)
      (omega arith)

-- The span at 200 has four blocks in use, one of which is in the list of the thread at 7.
abbrev after_one : State
after_one = record stocked {
  words = update (update (λ _. null) 8208 8224) 8240 null;
  spans = update stocked.spans 200 (record (stocked.spans 200) { freelist = 8208; use_count = 4 });
  caches = λ _ _. record { head = 8192; max_size = 2; size = 1 };
}

one_freed : Holds after_one.words (after_one.caches 7 1) (8192 ∷ [])
one_freed = record {
  chain = (refl, omega arith, refl);
  distinct = (tt, tt);
  counted = refl;
  small = omega arith;
}

deallocate-Flushed_example :
    Returns
      (Flushed after_one 7 1 200 2 (8192 ∷ 8240 ∷ 8208 ∷ 8224 ∷ []))
      (deallocate 8 7 8240 13 after_one)
deallocate-Flushed_example =
    deallocate-Flushed 7 1 (omega arith) (omega arith) 8 200 8240 13 after_one (8192 ∷ [])
      (8208 ∷ 8224 ∷ []) second_bucket (omega arith) (omega arith) one_freed (omega arith, tt) refl
      (omega arith) refl refl (omega arith) (refl, (refl, tt))
      (refl, omega arith, (refl, omega arith, refl))
      ((omega arith, (omega arith, tt)), ((omega arith, (omega arith, tt)), tt)) (omega arith)
      (omega arith) (omega arith)
