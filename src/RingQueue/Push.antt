-- ===== src/RingQueue/Push.antt =====
-- The three steps of `rq_[pstep_++] = in; pstep_ %= capacity_;`.
use mylittle_code_house.Base.{
  ℕ, ◌+◌, ◌%◌, ◌<◌, ◌≡◌, refl, ap, [], ◌∷◌, ◌++◌, arith, length, length-snoc, update,
}
use mylittle_code_house.RingQueue.{put, bump_pstep, wrap_pstep}
use mylittle_code_house.Base.Counting.{total, share-le-total}
use mylittle_code_house.RingQueue.Threads.{
  Pc, push_locked, push_bumped, push_stored, push_written, Shared, on_queue,
}
use mylittle_code_house.RingQueue.Invariant.{
  in_push, unread, unwritten, bumped_push, bumped_pop, push_index, pop_index, stored_push, Inv,
  Ring-write,
}
use mylittle_code_house.RingQueue.Sums.{Sums, push_parts, Kept-same, Kept-own, flag-le}

module _ {A : Type 0} where
  pub advance_push-Inv :
      (junk : A) {n : ℕ} {pc : ℕ → Pc A} (m : Shared A) (i : ℕ) (x : A)
      → pc i ≡ (push_locked x)
      → i < n
      → Inv n m pc
      → Sums n pc i (push_locked x) (push_bumped x m.queue.pstep)
      → Inv n (on_queue m (bump_pstep junk m.queue)) (update pc i (push_bumped x m.queue.pstep))
  unfolding bump_pstep
  advance_push-Inv junk {n} {pc} m i x e lt v s =
      let one = flag-le m.queue.pmutex in
      let before = push_parts n pc in
      let after = push_parts n (update pc i (push_bumped x m.queue.pstep)) in
      let alone : total bumped_push n (update pc i (push_bumped x m.queue.pstep)) ≡ 1 =
        omega
          (arith, v.pushing, s, one, after, share-le-total in_push n pc i (push_locked x) lt e) in
      record {
        occupied = omega (arith, v.occupied, s);
        vacant = omega (arith, v.vacant, s);
        pushing = omega (arith, v.pushing, s);
        popping = omega (arith, v.popping, s);
        tail = omega (arith, v.tail, s, alone, one, v.pushing, after);
        head = omega (arith, v.head, v.occupied, s);
        drained = omega (arith, v.drained, s);
        tail_kept =
            Kept-own bumped_push push_index n pc i (push_bumped x m.queue.pstep) (m.queue.pstep + 1)
              lt alone (λ _. refl);
        head_kept =
            Kept-same bumped_pop pop_index n pc i (push_bumped x m.queue.pstep) m.queue.cstep refl
              v.head_kept;
        ring = v.ring;
      }

  pub write-Inv :
      (junk : A) {n : ℕ} {pc : ℕ → Pc A} (m : Shared A) (i : ℕ) (x : A) (p : ℕ)
      → pc i ≡ (push_bumped x p)
      → i < n
      → Inv n m pc
      → Sums n pc i (push_bumped x p) push_stored
      → Inv n
          (record m { queue = put junk m.queue p x; written = m.written ++ x ∷ [] })
          (update pc i push_stored)
  unfolding put
  write-Inv junk {n} {pc} m i x p e lt v s =
      let one = flag-le m.queue.pmutex in
      let before = push_parts n pc in
      let after = push_parts n (update pc i push_stored) in
      let free = share-le-total unwritten n pc i (push_bumped x p) lt e in
      let long = length-snoc m.written x in
      let mine = share-le-total bumped_push n pc i (push_bumped x p) lt e in
      let held : bumped_push (pc i) ≡ 1 = rw e refl in
      let kept : p + 1 ≡ m.queue.pstep = omega (arith, v.tail_kept i lt held, ap push_index e) in
      let at : p ≡ length m.written % 5 =
        omega (arith, kept, v.tail, v.pushing, one, before, mine) in
      record {
        occupied = omega (arith, v.occupied, s, long);
        vacant = omega (arith, v.vacant, s, long);
        pushing = omega (arith, v.pushing, s);
        popping = omega (arith, v.popping, s);
        tail = omega (arith, v.tail, s, one, v.pushing, before, mine, long);
        head = omega (arith, v.head, v.occupied, s, long);
        drained = omega (arith, v.drained, s, long);
        tail_kept =
            Kept-same bumped_push push_index n pc i push_stored m.queue.pstep refl v.tail_kept;
        head_kept =
            Kept-same bumped_pop pop_index n pc i push_stored m.queue.cstep refl v.head_kept;
        ring =
            Ring-write m.queue.rq m.queue.capacity p m.written m.read x
              (omega (arith, free, v.vacant)) at v.ring (omega (arith, v.occupied));
      }

  pub wrap_push-Inv :
      (junk : A) {n : ℕ} {pc : ℕ → Pc A} (m : Shared A) (i : ℕ)
      → pc i ≡ push_stored
      → i < n
      → Inv n m pc
      → Sums n pc i push_stored push_written
      → Inv n (on_queue m (wrap_pstep junk m.queue)) (update pc i push_written)
  unfolding wrap_pstep
  wrap_push-Inv junk {n} {pc} m i e lt v s =
      let one = flag-le m.queue.pmutex in
      let before = push_parts n pc in
      let after = push_parts n (update pc i push_written) in
      let mine = share-le-total stored_push n pc i push_stored lt e in
      let some_in = share-le-total unread n pc i push_stored lt e in
      let alone : total bumped_push n (update pc i push_written) ≡ 0 =
        omega (arith, v.pushing, s, one, before, mine) in
      record {
        occupied = omega (arith, v.occupied, s);
        vacant = omega (arith, v.vacant, s);
        pushing = omega (arith, v.pushing, s);
        popping = omega (arith, v.popping, s);
        tail =
            rw (v.ring.five)
              (omega (arith, v.tail, v.pushing, v.occupied, s, one, before, mine, some_in));
        head = omega (arith, v.head, v.occupied, s);
        drained = omega (arith, v.drained, s);
        tail_kept =
            Kept-own bumped_push push_index n pc i push_written (m.queue.pstep % m.queue.capacity)
              lt alone (λ b. absurd (omega (arith, b)));
        head_kept =
            Kept-same bumped_pop pop_index n pc i push_written m.queue.cstep refl v.head_kept;
        ring = v.ring;
      }
