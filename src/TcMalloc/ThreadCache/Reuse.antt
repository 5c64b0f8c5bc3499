-- ===== src/TcMalloc/ThreadCache/Reuse.antt =====
-- `Deallocate` and then `Allocate` by the same thread, for one size class.
use mylittle_code_house.Base.{
  ℕ, ◌+◌, ◌≤◌, ◌<◌, ◌≡◌, ◌≢◌, refl, arith, false, ok, Returns, returns, mono, Returns-value, List,
  ◌∷◌, length, u64_mod, null, update, subst, sym, Fresh, ne→not-==, le→leb, lt→ltb, lt→not-leb, leb,
}
use mylittle_code_house.TcMalloc.ClassSize.{round_up, index, max_bytes, max_listnode}
use mylittle_code_house.TcMalloc.FreeList
use mylittle_code_house.TcMalloc.FreeList.{FreeList}
use mylittle_code_house.TcMalloc.FreeList.Refine.{Holds, push-Holds, pop-Holds}
use mylittle_code_house.TcMalloc.State.{State, and_then, bind_state}
use mylittle_code_house.TcMalloc.ThreadCache.{load_list, store_list, allocate, deallocate}

pub stored : (f : ℕ → ℕ → FreeList) (c i : ℕ) (l : FreeList) → update f c (update (f c) i l) c i ≡ l
stored f c i l = ground arith

module _ (c i : ℕ) (cache : c ≢ null) (bucket : i < max_listnode) where
  pub load_list-ok : (s : State) → load_list c i s ≡ ok (s.caches c i, s)
  unfolding load_list
  load_list-ok s = rw (ne→not-== c null cache, lt→ltb i max_listnode bucket)

  -- `Deallocate` that stays below the limit pushes the block on its list.
  deallocate-short :
      (fuel p size : ℕ) (s : State) (xs : List ℕ)
      → index (round_up size) ≡ ok i
      → size < max_bytes
      → p ≢ null
      → Holds s.words (s.caches c i) xs
      → Fresh p xs
      → length xs + 1 < (s.caches c i).max_size
      → (s.caches c i).max_size < u64_mod
      → Returns
          (λ (r : (Unit {0}) × State). Holds r.1.words (r.1.caches c i) (p ∷ xs))
          (deallocate fuel c p size s)
  unfolding deallocate store_list
  deallocate-short fuel p size s xs idx small ne v out below limit =
      let (r, e, h) =
        Returns-value (push-Holds s.words (s.caches c i) xs p v ne out (omega arith)) in
      let short : leb r.1.max_size r.1.size ≡ false =
        lt→not-leb _ _ (omega (arith, h.1, h.0.counted)) in
      rw (ne→not-== p null ne, lt→ltb size max_bytes small, idx, load_list-ok s, e, short)
        (returns (subst (λ l. Holds r.0 l (p ∷ xs)) (sym (stored s.caches c i r.1)) h.0))

  -- `Allocate` from a list that holds a block takes the first.
  allocate-first :
      (fuel size : ℕ) (s : State) (x : ℕ) (xs : List ℕ)
      → index (round_up size) ≡ ok i
      → size ≤ max_bytes
      → round_up size < max_bytes
      → Holds s.words (s.caches c i) (x ∷ xs)
      → Returns
          (λ (r : ℕ × State).
            (r.0 ≡ x) × Holds r.1.words (r.1.caches c i) xs × (r.1.words ≡ s.words))
          (allocate fuel c size s)
  unfolding allocate store_list FreeList.is_empty
  allocate-first fuel size s x xs idx small rounded v =
      let (r, e, h) = Returns-value (pop-Holds s.words (s.caches c i) x xs v) in
      let ne : (s.caches c i).head ≢ null = ground (arith, v.chain) in
      rw
        (
          le→leb size max_bytes small,
          idx,
          lt→ltb (round_up size) max_bytes rounded,
          load_list-ok s,
          ne→not-== (s.caches c i).head null ne,
          e,
        )
        (returns (h.0, subst (λ l. Holds s.words l xs) (sym (stored s.caches c i r.1)) h.1, refl))

  -- A thread with a cache frees a block that is not null and not in its list, of a size below 256
  -- KB, also when rounded, that has a bucket; its list is well formed and stays below the limit.
  -- If it then allocates a size of at most 256 KB that rounds to the same size, it gets that
  -- block back, with its list as before.
  pub allocate-deallocate :
      (fuel p size size' : ℕ) (s : State) (xs : List ℕ)
      → index (round_up size) ≡ ok i
      → round_up size' ≡ round_up size
      → size < max_bytes
      → size' ≤ max_bytes
      → round_up size < max_bytes
      → p ≢ null
      → Holds s.words (s.caches c i) xs
      → Fresh p xs
      → length xs + 1 < (s.caches c i).max_size
      → (s.caches c i).max_size < u64_mod
      → Returns
          (λ (r : ℕ × State). (r.0 ≡ p) × Holds r.1.words (r.1.caches c i) xs)
          (and_then (deallocate fuel c p size s) λ _. allocate fuel c size')
  allocate-deallocate fuel p size size' s xs idx same small small' rounded ne v out below limit =
      bind_state _ (deallocate-short fuel p size s xs idx small ne v out below limit) λ r h.
        mono (allocate-first fuel size' r.1 p xs (rw same idx) small' (omega (arith, same)) h)
          λ q g. (g.0, g.1)
