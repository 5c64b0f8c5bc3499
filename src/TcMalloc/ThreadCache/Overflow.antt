-- ===== src/TcMalloc/ThreadCache/Overflow.antt =====
-- `Deallocate` that fills a list: `ListTooLong` gives it back to the central cache.
use mylittle_code_house.Base.{
  ℕ, ◌+◌, ◌/◌, ◌<◌, ◌≡◌, ◌≢◌, sym, ap, subst, ◌∙◌, arith, false, true, some, ok, Returns, mono,
  Returns-value, List, [], ◌∷◌, ◌++◌, length, u64_mod, null, update, All, Fresh, ne→not-==, lt→ltb,
  le→leb, leb, unsnoc,
}
use mylittle_code_house.TcMalloc.ClassSize.{round_up, index, max_bytes, max_listnode}
use mylittle_code_house.TcMalloc.Memory.{Words, Chain, Chain-update}
use mylittle_code_house.TcMalloc.FreeList.{FreeList, pop_range}
use mylittle_code_house.TcMalloc.FreeList.Refine.{Holds, push-Holds}
use mylittle_code_house.TcMalloc.FreeList.Ranges.{pop_range-Holds}
use mylittle_code_house.TcMalloc.State.{State}
use mylittle_code_house.TcMalloc.CentralCache.GiveBack.{pushed_on, release_back-GivenBack}
use mylittle_code_house.TcMalloc.ThreadCache.{store_list, deallocate, list_too_long}
use mylittle_code_house.TcMalloc.ThreadCache.Reuse.{load_list-ok, stored}

-- `PopRang` of a whole list that is not empty; it writes to one of its blocks only.
record PoppedAll (w : Words) (l : FreeList) (xs : List ℕ) (r : Words × FreeList × ℕ × ℕ)
    : Type 0 where
  empty : r.1.head ≡ null
  none_left : r.1.size ≡ 0
  limit : r.1.max_size ≡ l.max_size
  chain : Chain r.0 r.2 xs null
  spared :
      (h : ℕ) (zs : List ℕ) → All (λ x. Fresh x zs) xs → Chain w h zs null → Chain r.0 h zs null

Fresh-of_last :
    (ys : List ℕ) (e : ℕ) (zs : List ℕ) → All (λ x. Fresh x zs) (ys ++ e ∷ []) → Fresh e zs
Fresh-of_last [] e zs a = a.0
Fresh-of_last (y ∷ ys) e zs a = Fresh-of_last ys e zs a.1

pop_range-PoppedAll :
    (w : Words) (l : FreeList) (x : ℕ) (xs : List ℕ) (n : ℕ)
    → Holds w l (x ∷ xs)
    → length (x ∷ xs) ≡ n
    → Returns (PoppedAll w l (x ∷ xs)) (pop_range w l n)
pop_range-PoppedAll w l x xs n v full =
    let (ys, e, eq) = unsnoc x xs in
    let many : n ≡ length (ys ++ e ∷ []) = sym full ∙ ap length eq in
    rw (many, eq)
      (mono (pop_range-Holds w l ys e (subst (Holds w l) eq v)) λ r p. record {
        empty = p.0.chain;
        none_left = p.0.counted;
        limit = p.3;
        chain = p.1;
        spared =
            λ h zs out c. rw p.4 (Chain-update w h zs null e null (Fresh-of_last ys e zs out) c);
      })

-- What `Deallocate` makes of a state when the list is handed back to the span `p`.
pub record Flushed (s : State) (c i p k : ℕ) (blocks : List ℕ) (r : (Unit {0}) × State)
    : Type 0 where
  pub emptied : Holds r.1.words (r.1.caches c i) []
  pub limit : (r.1.caches c i).max_size ≡ (s.caches c i).max_size
  pub held : Chain r.1.words (r.1.spans p).freelist blocks null
  pub used : (r.1.spans p).use_count + k ≡ (s.spans p).use_count
  pub others : (q : ℕ) → q ≢ p → r.1.spans q ≡ s.spans q
  pub locks : (j : ℕ) → r.1.central.locked j ≡ s.central.locked j
  pub pages_free : r.1.pages.locked ≡ false

module _ (c i : ℕ) (cache : c ≢ null) (bucket : i < max_listnode) where
  -- When Deallocate of a block, not null and not in the list, brings a well-formed list of the
  -- thread to its limit, with the size below 256 KB and its class one that exists, every block of
  -- the list and the freed one on pages entered for one span that is not null, that has more
  -- blocks in use than that and below 2^64, and whose chain of free blocks is apart from them,
  -- with the bucket and the page cache unlocked, fewer than 2^64 blocks and more fuel than
  -- blocks, the whole list goes back: the list of the thread is empty under the same limit, the
  -- span holds the blocks in reverse order in front of those it had, its use count falls by their
  -- number, the other spans are as before, and the locks are free as before.
  pub deallocate-Flushed :
      (fuel p b size : ℕ) (s : State) (xs ys : List ℕ)
      → index (round_up size) ≡ ok i
      → size < max_bytes
      → b ≢ null
      → Holds s.words (s.caches c i) xs
      → Fresh b xs
      → length (b ∷ xs) ≡ (s.caches c i).max_size
      → length (b ∷ xs) < u64_mod
      → s.central.locked i ≡ false
      → s.pages.locked ≡ false
      → p ≢ null
      → All (λ x. s.pages.span_map (x / 8192) ≡ some p) (b ∷ xs)
      → Chain s.words (s.spans p).freelist ys null
      → All (λ x. Fresh x ys) (b ∷ xs)
      → length (b ∷ xs) < (s.spans p).use_count
      → (s.spans p).use_count < u64_mod
      → length (b ∷ xs) < fuel
      → Returns
          (Flushed s c i p (length (b ∷ xs)) (pushed_on (b ∷ xs) ys))
          (deallocate fuel c b size s)
  unfolding deallocate store_list list_too_long
  deallocate-Flushed fuel p b size s xs ys idx small ne v out full room unlocked free ne' own held
        apart used count enough =
      let (r, e, h) =
        Returns-value (push-Holds s.words (s.caches c i) xs b v ne out (omega arith)) in
      let s1 : State = record s {
        words = r.0;
        caches = update s.caches c (update (s.caches c) i r.1);
      } in
      let at : s1.caches c i ≡ r.1 = stored s.caches c i r.1 in
      let long : leb r.1.max_size r.1.size ≡ true = le→leb _ _ (omega (arith, h.1, h.0.counted)) in
      let (q, e', g) =
        Returns-value (pop_range-PoppedAll r.0 r.1 b xs r.1.max_size h.0 (full ∙ sym h.1)) in
      let s2 : State = record s1 {
        words = q.0;
        caches = update s1.caches c (update (s1.caches c) i q.1);
      } in
      let at' : s2.caches c i ≡ q.1 = stored s1.caches c i q.1 in
      let kept : Chain q.0 (s.spans p).freelist ys null = g.spared (s.spans p).freelist ys apart (
        rw h.2
          (Chain-update s.words (s.spans p).freelist ys null b (s.caches c i).head apart.0 held)) in
      rw
        (
          ne→not-== b null ne,
          lt→ltb size max_bytes small,
          idx,
          load_list-ok c i cache bucket s,
          e,
          long,
          load_list-ok c i cache bucket s1,
          at,
          e',
        )
        (mono
          (release_back-GivenBack fuel i p q.2 (round_up size) s2 (b ∷ xs) ys idx unlocked ne' free
            g.chain h.0.distinct own kept apart used count enough)
          λ t v.
            let now : t.1.caches c i ≡ q.1 = ap (λ f. f c i) v.caches ∙ at' in
            record {
              emptied = rw now (record {
                chain = g.empty;
                distinct = tt;
                counted = g.none_left;
                small = omega arith;
              });
              limit = ap (λ l. l.max_size) now ∙ g.limit ∙ h.1;
              held = v.held;
              used = v.used;
              others = v.others;
              locks = v.central;
              pages_free = v.pages_free;
            })
