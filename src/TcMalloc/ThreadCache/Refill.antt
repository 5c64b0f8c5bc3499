-- ===== src/TcMalloc/ThreadCache/Refill.antt =====
-- `Allocate` from an empty list: a batch is fetched from the central cache.
use mylittle_code_house.Base.{
  ℕ, ◌≤◌, ◌<◌, ◌≡◌, ◌≢◌, refl, sym, ap, subst, ◌∙◌, arith, false, ok, Returns, returns, mono,
  Returns-value, List, [], ◌∷◌, ◌++◌, length, min, u64_mod, add64, sub64, null, update, Fresh,
  IsDistinct, IsDistinct-left, Fresh-last_right, ne→not-==, ==_refl, lt→ltb, le→leb, append-nil,
  length-append, ◌==◌,
}
use mylittle_code_house.TcMalloc.ClassSize.{round_up, index, num_move_size, max_bytes}
use mylittle_code_house.TcMalloc.ClassSize.Batch.{num_move_size_bounds}
use mylittle_code_house.TcMalloc.Memory.{Words, Chain, Chain-update, get_next-ok}
use mylittle_code_house.TcMalloc.FreeList
use mylittle_code_house.TcMalloc.FreeList.{FreeList}
use mylittle_code_house.TcMalloc.FreeList.Refine.{Holds}
use mylittle_code_house.TcMalloc.FreeList.Ranges.{push_range-Holds}
use mylittle_code_house.TcMalloc.SpanList
use mylittle_code_house.TcMalloc.State.{State, bind_state}
use mylittle_code_house.TcMalloc.CentralCache.Bucket.{Stocked, Served, fetch_range-Served}
use mylittle_code_house.TcMalloc.ThreadCache.{
  store_list, next_batch, keep_batch, get_batch, allocate,
}
use mylittle_code_house.TcMalloc.ThreadCache.Reuse.{load_list-ok, stored}

-- What becomes of the fetched blocks `start ∷ blocks`, the last of which is `e`.
record Kept (s : State) (c i start e : ℕ) (l : FreeList) (blocks : List ℕ) (r : ℕ × State)
    : Type 0 where
  first : r.0 ≡ start
  held : Holds r.1.words (r.1.caches c i) blocks
  limit : (r.1.caches c i).max_size ≡ l.max_size
  spared : (h : ℕ) (zs : List ℕ) → Fresh e zs → Chain s.words h zs null → Chain r.1.words h zs null
  spans : r.1.spans ≡ s.spans
  central : r.1.central ≡ s.central

module _ (c i : ℕ) where
  -- The first block is returned, and the others become the list.
  keep_batch-Kept :
      (s : State) (l : FreeList) (start : ℕ) (given : List ℕ) (e actual : ℕ)
      → s.caches c i ≡ l
      → Holds s.words l []
      → Chain s.words start (given ++ e ∷ []) null
      → IsDistinct (given ++ e ∷ [])
      → length (given ++ e ∷ []) ≡ actual
      → actual < u64_mod
      → Returns
          (λ (r : ℕ × State).
            (blocks : List ℕ) × (given ++ e ∷ [] ≡ start ∷ blocks) × Kept s c i start e l blocks r)
          (keep_batch c i l (start, e, actual) s)
  unfolding keep_batch store_list
  keep_batch-Kept s l start [] e actual at empty ch d count room =
      rw (← count, ch.0, ==_refl e)
        (returns (
          [],
          refl,
          record {
            first = refl;
            held = rw at empty;
            limit = ap (λ k. k.max_size) at;
            spared = λ h zs f k. k;
            spans = refl;
            central = refl;
          },
        ))
  keep_batch-Kept s l start (g ∷ gs) e actual at empty ch d count room =
      let whole : IsDistinct ((gs ++ e ∷ []) ++ []) = rw (append-nil (gs ++ e ∷ [])) d.1 in
      let many : length (gs ++ e ∷ []) ≢ 0 = omega (arith, length-append gs (e ∷ [])) in
      let others : sub64 actual 1 ≡ length (gs ++ e ∷ []) = omega arith in
      let some_left : (actual == 1) ≡ false = ne→not-== actual 1 (λ h. omega arith) in
      let (r, eq, h) = Returns-value (
        push_range-Holds s.words l [] gs (s.words g) e null empty ch.2 whole
          (omega (arith, ap length (append-nil (gs ++ e ∷ []))))) in
      let f = update s.caches c (update (s.caches c) i r.1) in
      let at' : f c i ≡ r.1 = stored s.caches c i r.1 in
      rw (lt→ltb 0 actual (omega arith), some_left, ch.0, get_next-ok s.words g ch.1, others, eq)
        (returns (
          gs ++ e ∷ [],
          refl,
          record {
            first = refl;
            held = rw at' (subst (Holds r.0 r.1) (append-nil (gs ++ e ∷ [])) h.0);
            limit = ap (λ k. k.max_size) at' ∙ h.1;
            spared = λ q zs out k. rw h.2 (Chain-update s.words q zs null e l.head out k);
            spans = refl;
            central = refl;
          },
        ))

-- What `Allocate` makes of a state in which the span `p` of the bucket has `blocks`.
pub record Refilled (s : State) (c i p size : ℕ) (spans blocks : List ℕ) (r : ℕ × State)
    : Type 0 where
  pub kept : List ℕ
  pub left : List ℕ
  pub split : blocks ≡ (r.0 ∷ kept) ++ left
  pub counted :
      length (r.0 ∷ kept) ≡ min (min (s.caches c i).max_size (num_move_size size)) (length blocks)
  pub held : Holds r.1.words (r.1.caches c i) kept
  pub span_keeps : Chain r.1.words (r.1.spans p).freelist left null
  pub charged : (r.1.spans p).use_count ≡ add64 (s.spans p).use_count (length (r.0 ∷ kept))
  pub bucket : SpanList.Refine.Holds r.1.spans (s.central.lists i) spans
  pub unlocked : r.1.central.locked i ≡ false

module _ (c i : ℕ) where
  still_empty :
      {w w' : Words} (l : FreeList) (size : ℕ) → Holds w l [] → Holds w' (next_batch l size).1 []
  still_empty l size v = record {
    chain = ground (arith, v.chain);
    distinct = tt;
    counted = ground (arith, v.counted);
    small = omega arith;
  }

  -- The batch that the central cache served becomes the block that is returned, and the list; `s`
  -- is the state before the list's limit was raised, and `t` the one that the batch comes from.
  pub keep_batch-Refilled :
      (s t : State) (size : ℕ) (ys : List ℕ) (p : ℕ) (zs blocks : List ℕ) (r : (ℕ × ℕ × ℕ) × State)
      → Holds s.words (s.caches c i) []
      → t.caches ≡ update s.caches c (update (s.caches c) i (next_batch (s.caches c i) size).1)
      → IsDistinct blocks
      → length blocks < u64_mod
      → Served t i ys p zs blocks (next_batch (s.caches c i) size).0 r
      → Returns
          (Refilled (record t { caches = s.caches }) c i p size (ys ++ p ∷ zs) blocks)
          (keep_batch c i (next_batch (s.caches c i) size).1 r.0 r.1)
  keep_batch-Refilled s t size ys p zs blocks r empty caches d room f =
      let grown = (next_batch (s.caches c i) size).1 in
      let taken = f.given ++ r.0.1 ∷ [] in
      let parts : IsDistinct (taken ++ f.left) = subst IsDistinct f.split d in
      let at : r.1.caches c i ≡ grown =
        ap (λ g. g c i) (f.caches ∙ caches) ∙ stored s.caches c i grown in
      mono
        (keep_batch-Kept c i r.1 grown r.0.0 f.given r.0.1 r.0.2 at
          (still_empty (s.caches c i) size empty) f.handed (IsDistinct-left taken f.left parts)
          f.taken (omega (arith, f.counted)))
        λ q (others, e, k).
          let e' : taken ≡ q.0 ∷ others = rw k.first e in
          let all : length (q.0 ∷ others) ≡ r.0.2 = ap length (sym e') ∙ f.taken in
          record {
            kept = others;
            left = f.left;
            split = f.split ∙ ap (λ z. z ++ f.left) e';
            counted = all ∙ f.counted;
            held = k.held;
            span_keeps = rw k.spans (
                k.spared (r.1.spans p).freelist f.left (Fresh-last_right f.given r.0.1 f.left parts)
                  f.kept);
            charged = rw (k.spans, all) f.charged;
            bucket = rw k.spans f.bucket;
            unlocked = rw k.central f.unlocked;
          }

module _ (c i : ℕ) (cache : c ≢ null) where
  get_batch-Refilled :
      (fuel size : ℕ) (s : State) (ys : List ℕ) (p : ℕ) (zs : List ℕ) (x : ℕ) (xs : List ℕ)
      → index size ≡ ok i
      → 0 < size
      → size < max_bytes
      → Holds s.words (s.caches c i) []
      → 0 < (s.caches c i).max_size
      → s.central.locked i ≡ false
      → Stocked s i ys p zs
      → p ≢ null
      → (s.spans p).freelist ≡ x
      → Chain s.words x (x ∷ xs) null
      → IsDistinct (x ∷ xs)
      → length (x ∷ xs) < u64_mod
      → length ys < fuel
      → Returns (Refilled s c i p size (ys ++ p ∷ zs) (x ∷ xs)) (get_batch fuel c size i s)
  unfolding get_batch store_list
  get_batch-Refilled fuel size s ys p zs x xs idx positive small empty limit free v ne first ch d
        room enough =
      let batch = (next_batch (s.caches c i) size).0 in
      let grown = (next_batch (s.caches c i) size).1 in
      let s' : State = record s { caches = update s.caches c (update (s.caches c) i grown) } in
      let stocked : Stocked s' i ys p zs = record {
        exists = v.exists;
        spans = v.spans;
        used_up = v.used_up;
      } in
      let bounds = num_move_size_bounds size positive in
      rw (lt→ltb size max_bytes small, load_list-ok c i cache v.exists s)
        (bind_state _
          (fetch_range-Served fuel batch size i s' ys p zs x xs idx free stocked ne first ch d room
            (omega (arith, bounds)) (omega (arith, bounds)) enough)
          λ r f. keep_batch-Refilled c i s s' size ys p zs (x ∷ xs) r empty refl d room f)

  -- Allocate of at most 256 KB, below it when rounded and then positive, by a thread with a cache
  -- whose list of that class is empty with a positive limit, under the conditions of FetchRangObj
  -- for the bucket of that class, returns the first free block of the first span that has one.
  -- The batch has as many blocks as the limit and NumMoveSize allow or the span has; those behind
  -- the first become the list of the thread, the span keeps the others in order, its use count
  -- grows by the size of the batch modulo 2^64, and the bucket is as it was and unlocked.
  pub allocate-Refilled :
      (fuel size : ℕ) (s : State) (ys : List ℕ) (p : ℕ) (zs : List ℕ) (x : ℕ) (xs : List ℕ)
      → index (round_up size) ≡ ok i
      → 0 < round_up size
      → size ≤ max_bytes
      → round_up size < max_bytes
      → Holds s.words (s.caches c i) []
      → 0 < (s.caches c i).max_size
      → s.central.locked i ≡ false
      → Stocked s i ys p zs
      → p ≢ null
      → (s.spans p).freelist ≡ x
      → Chain s.words x (x ∷ xs) null
      → IsDistinct (x ∷ xs)
      → length (x ∷ xs) < u64_mod
      → length ys < fuel
      → Returns (Refilled s c i p (round_up size) (ys ++ p ∷ zs) (x ∷ xs)) (allocate fuel c size s)
  unfolding allocate FreeList.is_empty
  allocate-Refilled fuel size s ys p zs x xs idx positive small rounded empty limit free v ne first
        ch d room enough =
      rw
        (
          le→leb size max_bytes small,
          idx,
          lt→ltb (round_up size) max_bytes rounded,
          load_list-ok c i cache v.exists s,
          empty.chain,
        )
        (get_batch-Refilled fuel (round_up size) s ys p zs x xs idx positive rounded empty limit
          free v ne first ch d room enough)
