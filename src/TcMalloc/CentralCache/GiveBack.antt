-- ===== src/TcMalloc/CentralCache/GiveBack.antt =====
-- `ReleaseBackSpan` for blocks of one span that keeps blocks in use.
use mylittle_code_house.Base.{
  ℕ, zero, suc, ◌+◌, ◌-◌, ◌/◌, ◌<◌, ◌≡◌, ◌≢◌, refl, sym, ap, subst, ◌∙◌, arith, true, false, some,
  ok, Returns, returns, mono, update_self, update_ne, List, [], ◌∷◌, length, null, update, u64_mod,
  sub64, Fresh, IsDistinct, All, ne→not-==,
}
use mylittle_code_house.TcMalloc.ClassSize.{index}
use mylittle_code_house.TcMalloc.Memory.{Chain, Chain-update, get_next-ok, put_next-ok}
use mylittle_code_house.TcMalloc.SpanList
use mylittle_code_house.TcMalloc.SpanList.{Span, Spans}
use mylittle_code_house.TcMalloc.State.{State, unlock_bucket, bind_state}
use mylittle_code_house.TcMalloc.PageCache.{modify}
use mylittle_code_house.TcMalloc.PageCache.Mapping.{load-ok, map_to_span-found}
use mylittle_code_house.TcMalloc.CentralCache.{release_block, release_blocks, release_back}
use mylittle_code_house.TcMalloc.CentralCache.Bucket.{with_bucket, lock_bucket-ok}

-- The blocks `xs`, each pushed in front of `ys`.
abbrev pub pushed_on : List ℕ → List ℕ → List ℕ
pushed_on [] ys = ys
pushed_on (x ∷ xs) ys = pushed_on xs (x ∷ ys)

-- A block given back to its span, which has others in use.
abbrev with_block : State → ℕ → ℕ → State
with_block s p x = record s {
  words = update s.words x (s.spans p).freelist;
  spans =
      update s.spans p
        (record (s.spans p) { freelist = x; use_count = sub64 (s.spans p).use_count 1 });
  pages = record (s.pages) { locked = false };
}

release_block-kept :
    (i p x : ℕ) (s : State)
    → p ≢ null
    → x ≢ null
    → s.pages.locked ≡ false
    → s.pages.span_map (x / 8192) ≡ some p
    → 1 < (s.spans p).use_count
    → (s.spans p).use_count < u64_mod
    → release_block i x s ≡ ok (tt, with_block s p x)
unfolding release_block modify SpanList.modify
release_block-kept i p x s ne block free own used room =
    let left : sub64 (s.spans p).use_count 1 ≢ 0 = omega arith in
    let s' : State = record s { pages = record (s.pages) { locked = false } } in
    rw (
      map_to_span-found s x p free own,
      load-ok s' p ne,
      put_next-ok s.words x (s.spans p).freelist block,
      ne→not-== p null ne,
      ne→not-== (sub64 (s.spans p).use_count 1) 0 left,
    )

-- What is left of a state after the blocks `xs` have gone back to the span `p` that held `ys`.
pub record GivenBack (s : State) (p k : ℕ) (blocks : List ℕ) (r : (Unit {0}) × State) : Type 0 where
  pub held : Chain r.1.words (r.1.spans p).freelist blocks null
  pub used : (r.1.spans p).use_count + k ≡ (s.spans p).use_count
  pub others : (q : ℕ) → q ≢ p → r.1.spans q ≡ s.spans q
  pub links :
      (q : ℕ) → ((r.1.spans q).next ≡ (s.spans q).next) × ((r.1.spans q).prev ≡ (s.spans q).prev)
  pub central : (j : ℕ) → r.1.central.locked j ≡ s.central.locked j
  pub pages_free : r.1.pages.locked ≡ false
  pub caches : r.1.caches ≡ s.caches

Fresh-on :
    (x : ℕ) (xs ys : List ℕ)
    → Fresh x xs
    → All (λ z. Fresh z ys) xs
    → All (λ z. Fresh z (x ∷ ys)) xs
Fresh-on x [] ys f out = tt
Fresh-on x (z ∷ xs) ys f out = ((λ e. f.0 (sym e), out.0), Fresh-on x xs ys f.1 out.1)

-- The loop over the blocks, by induction on their chain.
release_blocks-GivenBack :
    (fuel i p start : ℕ) (s : State) (xs ys : List ℕ)
    → p ≢ null
    → s.pages.locked ≡ false
    → Chain s.words start xs null
    → IsDistinct xs
    → All (λ x. s.pages.span_map (x / 8192) ≡ some p) xs
    → Chain s.words (s.spans p).freelist ys null
    → All (λ x. Fresh x ys) xs
    → length xs < (s.spans p).use_count
    → (s.spans p).use_count < u64_mod
    → length xs < fuel
    → Returns (GivenBack s p (length xs) (pushed_on xs ys)) (release_blocks fuel i start s)
unfolding release_blocks
release_blocks-GivenBack zero i p start s xs ys ne free c d own held out used room enough =
    absurd (omega arith)
release_blocks-GivenBack (suc fuel) i p start s [] ys ne free c d own held out used room enough =
    rw c (
      returns (record {
        held = held;
        used = omega arith;
        others = λ q h. refl;
        links = λ q. (refl, refl);
        central = λ j. refl;
        pages_free = free;
        caches = refl;
      }))
release_blocks-GivenBack (suc fuel) i p start s (x ∷ xs) ys ne free c d own held out used room
      enough =
    let s' = with_block s p x in
    let after : Span = record (s.spans p) {
      freelist = x;
      use_count = sub64 (s.spans p).use_count 1;
    } in
    let at : s'.spans p ≡ after = update_self s.spans p after in
    let count : (s'.spans p).use_count ≡ (s.spans p).use_count - 1 =
      ap (λ sp. sp.use_count) at ∙ omega arith in
    rw
      (
        c.0,
        ne→not-== x null c.1,
        get_next-ok s.words x c.1,
        release_block-kept i p x s ne c.1 free own.0 (omega arith) room,
      )
      (mono
        (release_blocks-GivenBack fuel i p (s.words x) s' xs (x ∷ ys) ne refl
          (Chain-update s.words (s.words x) xs null x (s.spans p).freelist d.0 c.2) d.1 own.1
          (
            ap (λ sp. sp.freelist) at,
            c.1,
            subst (λ h. Chain s'.words h ys null) (sym (update_self s.words x (s.spans p).freelist))
                (Chain-update s.words (s.spans p).freelist ys null x (s.spans p).freelist out.0
                  held),
          )
          (Fresh-on x xs ys d.0 out.1) (omega (arith, count)) (omega (arith, count)) (omega arith))
        λ r v. record {
          held = v.held;
          used = omega (arith, count, v.used);
          others = λ q h. v.others q h ∙ update_ne s.spans p q after (λ e. h (sym e));
          links = λ q. let l = links_of q in ((v.links q).0 ∙ l.0, (v.links q).1 ∙ l.1);
          central = v.central;
          pages_free = v.pages_free;
          caches = v.caches;
        })
  where
    links_of :
        (q : ℕ)
        → (((with_block s p x).spans q).next ≡ (s.spans q).next)
          × (((with_block s p x).spans q).prev ≡ (s.spans q).prev)
    links_of q = ground arith

-- `ReleaseBackSpan` of blocks of one span that keeps a block in use.
pub release_back-GivenBack :
    (fuel i p start size : ℕ) (s : State) (xs ys : List ℕ)
    → index size ≡ ok i
    → s.central.locked i ≡ false
    → p ≢ null
    → s.pages.locked ≡ false
    → Chain s.words start xs null
    → IsDistinct xs
    → All (λ x. s.pages.span_map (x / 8192) ≡ some p) xs
    → Chain s.words (s.spans p).freelist ys null
    → All (λ x. Fresh x ys) xs
    → length xs < (s.spans p).use_count
    → (s.spans p).use_count < u64_mod
    → length xs < fuel
    → Returns (GivenBack s p (length xs) (pushed_on xs ys)) (release_back fuel start size s)
unfolding release_back unlock_bucket
release_back-GivenBack fuel i p start size s xs ys idx unlocked ne free c d own held out used room
      enough =
    rw (idx, lock_bucket-ok i s unlocked)
      (bind_state _
        (release_blocks-GivenBack fuel i p start (with_bucket s i true) xs ys ne free c d own held
          out used room enough)
        λ r v. returns (record {
          held = v.held;
          used = v.used;
          others = v.others;
          links = v.links;
          central = λ j. ground (arith, v.central j);
          pages_free = v.pages_free;
          caches = v.caches;
        }))
