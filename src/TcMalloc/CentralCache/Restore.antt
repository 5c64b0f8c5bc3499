-- ===== src/TcMalloc/CentralCache/Restore.antt =====
-- `FetchRangObj` and then `ReleaseBackSpan` of the same blocks.
use mylittle_code_house.Base.{
  ℕ, ◌+◌, ◌/◌, ◌<◌, ◌≡◌, ◌≢◌, sym, ap, subst, ◌∙◌, arith, false, some, ok, Returns, mono, List, [],
  ◌∷◌, ◌++◌, length, null, u64_mod, IsDistinct, IsDistinct-left, IsDistinct-apart, All-left,
  length-append, All,
}
use mylittle_code_house.TcMalloc.ClassSize.{index}
use mylittle_code_house.TcMalloc.Memory.{Chain}
use mylittle_code_house.TcMalloc.State.{State, bind_state, and_then}
use mylittle_code_house.TcMalloc.CentralCache.{fetch_range, release_back}
use mylittle_code_house.TcMalloc.CentralCache.Bucket.{Stocked, fetch_range-Served}
use mylittle_code_house.TcMalloc.SpanList.Refine.{Holds, Holds-same}
use mylittle_code_house.TcMalloc.CentralCache.GiveBack.{pushed_on, release_back-GivenBack}

-- What fetching and giving back leaves: the span's count, its blocks, and the locks.
pub record Restored (s : State) (i p : ℕ) (list : ℕ) (spans blocks : List ℕ)
    (r : (Unit {0}) × State) : Type 0 where
  pub taken : List ℕ
  pub left : List ℕ
  pub split : blocks ≡ taken ++ left
  pub held : Chain r.1.words (r.1.spans p).freelist (pushed_on taken left) null
  pub used : (r.1.spans p).use_count ≡ (s.spans p).use_count
  pub others : (q : ℕ) → q ≢ p → r.1.spans q ≡ s.spans q
  pub bucket : Holds r.1.spans list spans
  pub unlocked : r.1.central.locked i ≡ false
  pub pages_free : r.1.pages.locked ≡ false
  pub caches : r.1.caches ≡ s.caches

-- FetchRangObj followed by ReleaseBackSpan of the same blocks succeeds and restores the use count
-- of the span: under the conditions of the fetch, with the page cache unlocked, the page of each
-- block entered for the span, a block of it in use, no wrap of the use count and more fuel than
-- blocks. The blocks are split in those taken and those left, and the span then holds the taken
-- ones in reverse order in front of those left; the other spans, the bucket and the thread lists
-- are as before, and both locks are free.
pub release_back-fetch_range :
    (fuel batch size i : ℕ) (s : State) (ys : List ℕ) (p : ℕ) (zs : List ℕ) (x : ℕ) (xs : List ℕ)
    → index size ≡ ok i
    → s.central.locked i ≡ false
    → s.pages.locked ≡ false
    → Stocked s i ys p zs
    → p ≢ null
    → (s.spans p).freelist ≡ x
    → Chain s.words x (x ∷ xs) null
    → IsDistinct (x ∷ xs)
    → All (λ b. s.pages.span_map (b / 8192) ≡ some p) (x ∷ xs)
    → 0 < (s.spans p).use_count
    → (s.spans p).use_count + length (x ∷ xs) < u64_mod
    → 0 < batch
    → batch < u64_mod
    → length ys < fuel
    → length (x ∷ xs) < fuel
    → Returns (Restored s i p (s.central.lists i) (ys ++ p ∷ zs) (x ∷ xs)) (
        and_then
          (fetch_range fuel batch size s)
          λ (start, end, actual). release_back fuel start size)
release_back-fetch_range fuel batch size i s ys p zs x xs idx free pages v ne first c d own used
      room positive small enough more =
    bind_state _
      (fetch_range-Served fuel batch size i s ys p zs x xs idx free v ne first c d (omega arith)
        positive small enough)
      λ r f.
        let taken = f.given ++ r.0.1 ∷ [] in
        let parts : IsDistinct (taken ++ f.left) = subst IsDistinct f.split d in
        let lengths : length taken + length f.left ≡ length (x ∷ xs) =
          sym (length-append taken f.left) ∙ ap length (sym f.split) in
        let count : (r.1.spans p).use_count ≡ (s.spans p).use_count + length taken =
          omega (arith, f.charged, f.taken, lengths) in
        mono
          (release_back-GivenBack fuel i p r.0.0 size r.1 taken f.left idx f.unlocked ne
            (ap (λ t. t.locked) f.pages ∙ pages) f.handed (IsDistinct-left taken f.left parts)
            (subst (λ t. All (λ b. t.span_map (b / 8192) ≡ some p) taken) (sym f.pages)
              (All-left (λ b. s.pages.span_map (b / 8192) ≡ some p) taken f.left
                (subst (All (λ b. s.pages.span_map (b / 8192) ≡ some p)) f.split own)))
            f.kept (IsDistinct-apart taken f.left parts) (omega (arith, count))
            (omega (arith, count, lengths)) (omega (arith, lengths, more)))
          λ q g. record {
            taken = taken;
            left = f.left;
            split = f.split;
            held = g.held;
            used = omega (arith, g.used, count);
            others = λ y h. g.others y h ∙ f.others y h;
            bucket =
                Holds-same r.1.spans q.1.spans (s.central.lists i) (ys ++ p ∷ zs) g.links f.bucket;
            unlocked = g.central i ∙ f.unlocked;
            pages_free = g.pages_free;
            caches = g.caches ∙ f.caches;
          }
