-- ===== src/RingQueue/Pop.antt =====
-- The three steps of `*out = rq_[cstep_++]; cstep_ %= capacity_;`.
use mylittle_code_house.Base.{
  ℕ, ◌+◌, ◌%◌, ◌<◌, ◌≡◌, refl, ap, [], ◌∷◌, ◌++◌, arith, length, length-snoc, update,
}
use mylittle_code_house.RingQueue.{take_out, bump_cstep, wrap_cstep}
use mylittle_code_house.Base.Counting.{total, share-le-total}
use mylittle_code_house.RingQueue.Threads.{
  Pc, pop_locked, pop_bumped, pop_fetched, pop_read, Shared, on_queue,
}
use mylittle_code_house.RingQueue.Invariant.{
  in_pop, unread, bumped_push, bumped_pop, push_index, pop_index, fetched_pop, Inv, Ring-read,
}
use mylittle_code_house.RingQueue.Sums.{Sums, pop_parts, Kept-same, Kept-own, flag-le}

module _ {A : Type 0} where
  pub advance_pop-Inv :
      (junk : A) {n : ℕ} {pc : ℕ → Pc A} (m : Shared A) (i : ℕ)
      → pc i ≡ pop_locked
      → i < n
      → Inv n m pc
      → Sums n pc i pop_locked (pop_bumped m.queue.cstep)
      → Inv n (on_queue m (bump_cstep junk m.queue)) (update pc i (pop_bumped m.queue.cstep))
  unfolding bump_cstep
  advance_pop-Inv junk {n} {pc} m i e lt v s =
      let one = flag-le m.queue.cmutex in
      let before = pop_parts n pc in
      let after = pop_parts n (update pc i (pop_bumped m.queue.cstep)) in
      let alone : total bumped_pop n (update pc i (pop_bumped m.queue.cstep)) ≡ 1 =
        omega (arith, v.popping, s, one, after, share-le-total in_pop n pc i pop_locked lt e) in
      record {
        occupied = omega (arith, v.occupied, s);
        vacant = omega (arith, v.vacant, s);
        pushing = omega (arith, v.pushing, s);
        popping = omega (arith, v.popping, s);
        tail = omega (arith, v.tail, v.occupied, s);
        head = omega (arith, v.head, s, alone, one, v.popping, after);
        drained = omega (arith, v.drained, s);
        tail_kept =
            Kept-same bumped_push push_index n pc i (pop_bumped m.queue.cstep) m.queue.pstep refl
              v.tail_kept;
        head_kept =
            Kept-own bumped_pop pop_index n pc i (pop_bumped m.queue.cstep) (m.queue.cstep + 1) lt
              alone (λ _. refl);
        ring = v.ring;
      }

  pub fetch-Inv :
      (junk : A) {n : ℕ} {pc : ℕ → Pc A} (m : Shared A) (i : ℕ) (c : ℕ)
      → pc i ≡ (pop_bumped c)
      → i < n
      → Inv n m pc
      → Sums n pc i (pop_bumped c) (pop_fetched (take_out junk m.queue c))
      → Inv n
          (record m { read = m.read ++ take_out junk m.queue c ∷ [] })
          (update pc i (pop_fetched (take_out junk m.queue c)))
  unfolding take_out
  fetch-Inv junk {n} {pc} m i c e lt v s =
      let one = flag-le m.queue.cmutex in
      let before = pop_parts n pc in
      let after = pop_parts n (update pc i (pop_fetched (take_out junk m.queue c))) in
      let free = share-le-total unread n pc i (pop_bumped c) lt e in
      let long = length-snoc m.read (take_out junk m.queue c) in
      let mine = share-le-total bumped_pop n pc i (pop_bumped c) lt e in
      let held : bumped_pop (pc i) ≡ 1 = rw e refl in
      let kept : c + 1 ≡ m.queue.cstep = omega (arith, v.head_kept i lt held, ap pop_index e) in
      let at : c ≡ length m.read % 5 = omega (arith, kept, v.head, v.popping, one, before, mine) in
      record {
        occupied = omega (arith, v.occupied, s, long);
        vacant = omega (arith, v.vacant, s, long);
        pushing = omega (arith, v.pushing, s);
        popping = omega (arith, v.popping, s);
        tail = omega (arith, v.tail, v.occupied, s, long);
        head = omega (arith, v.head, s, one, v.popping, before, mine, long);
        drained = omega (arith, v.drained, s, long);
        tail_kept =
            Kept-same bumped_push push_index n pc i (pop_fetched (take_out junk m.queue c))
              m.queue.pstep refl v.tail_kept;
        head_kept =
            Kept-same bumped_pop pop_index n pc i (pop_fetched (take_out junk m.queue c))
              m.queue.cstep refl v.head_kept;
        ring =
            Ring-read junk m.queue.rq m.queue.capacity c m.written m.read
              (omega (arith, free, v.occupied)) at v.ring;
      }

  pub wrap_pop-Inv :
      (junk : A) {n : ℕ} {pc : ℕ → Pc A} (m : Shared A) (i : ℕ) (x : A)
      → pc i ≡ (pop_fetched x)
      → i < n
      → Inv n m pc
      → Sums n pc i (pop_fetched x) (pop_read x)
      → Inv n (on_queue m (wrap_cstep junk m.queue)) (update pc i (pop_read x))
  unfolding wrap_cstep
  wrap_pop-Inv junk {n} {pc} m i x e lt v s =
      let one = flag-le m.queue.cmutex in
      let before = pop_parts n pc in
      let after = pop_parts n (update pc i (pop_read x)) in
      let mine = share-le-total fetched_pop n pc i (pop_fetched x) lt e in
      let some_in = v.drained in
      let alone : total bumped_pop n (update pc i (pop_read x)) ≡ 0 =
        omega (arith, v.popping, s, one, before, mine) in
      record {
        occupied = omega (arith, v.occupied, s);
        vacant = omega (arith, v.vacant, s);
        pushing = omega (arith, v.pushing, s);
        popping = omega (arith, v.popping, s);
        tail = omega (arith, v.tail, v.occupied, s);
        head =
            rw (v.ring.five)
              (omega (arith, v.head, v.popping, v.occupied, s, one, before, mine, some_in));
        drained = omega (arith, v.drained, s);
        tail_kept =
            Kept-same bumped_push push_index n pc i (pop_read x) m.queue.pstep refl v.tail_kept;
        head_kept =
            Kept-own bumped_pop pop_index n pc i (pop_read x) (m.queue.cstep % m.queue.capacity) lt
              alone (λ b. absurd (omega (arith, b)));
        ring = v.ring;
      }
