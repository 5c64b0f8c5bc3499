-- ===== src/TcMalloc/CentralCache/Bucket.antt =====
-- `FetchRangObj` on a bucket that has a span with a free block.
use mylittle_code_house.Base.{
  ℕ, Bool, zero, suc, ◌<◌, ◌≡◌, ◌≢◌, refl, sym, ap, subst, arith, true, false, update_self,
  update_ne, some, ok, Returns, returns, Returns-value, mono, List, [], ◌∷◌, ◌++◌, length, null,
  update, u64_mod, add64, min, All, Fresh, IsDistinct, lt→ltb, ne→not-==,
}
use mylittle_code_house.TcMalloc.ClassSize.{index, max_listnode}
use mylittle_code_house.TcMalloc.Memory.{Chain}
use mylittle_code_house.TcMalloc.SpanList
use mylittle_code_house.TcMalloc.SpanList.{Span, Spans}
use mylittle_code_house.TcMalloc.SpanList.Linked.{Linked, first_or}
use mylittle_code_house.TcMalloc.SpanList.Refine.{Holds, Holds-same, begin-ok}
use mylittle_code_house.TcMalloc.State.{State, lock_bucket, unlock_bucket, central_list}
use mylittle_code_house.TcMalloc.PageCache.{modify}
use mylittle_code_house.TcMalloc.PageCache.Mapping.{load-ok}
use mylittle_code_house.TcMalloc.CentralCache.{find_span, get_one_span, hand_out, fetch_range}
use mylittle_code_house.TcMalloc.CentralCache.Fetch.{fetch-Fetched}

abbrev pub with_bucket : State → ℕ → Bool → State
with_bucket s i b = record s {
  central = record (s.central) { locked = update s.central.locked i b };
}

pub lock_bucket-ok :
    (i : ℕ) (s : State)
    → s.central.locked i ≡ false
    → lock_bucket i s ≡ ok (tt, with_bucket s i true)
unfolding lock_bucket
lock_bucket-ok i s free = rw free

pub central_list-ok :
    (i : ℕ) (s : State) → i < max_listnode → central_list i s ≡ ok (s.central.lists i, s)
unfolding central_list
central_list-ok i s h = rw (lt→ltb i max_listnode h)

-- The search passes over the spans with no free block.
find_span-first :
    (fuel : ℕ) (s : State) (a list : ℕ) (ys : List ℕ) (p : ℕ) (zs : List ℕ)
    → length ys < fuel
    → Linked s.spans a (ys ++ p ∷ zs) list
    → Fresh list (ys ++ p ∷ zs)
    → All (λ y. y ≢ null) (ys ++ p ∷ zs)
    → All (λ y. (s.spans y).freelist ≡ null) ys
    → (s.spans p).freelist ≢ null
    → find_span fuel list (first_or (ys ++ p ∷ zs) list) s ≡ ok (some p, s)
unfolding find_span
find_span-first zero s a list ys p zs h l f ne none has = absurd (omega arith)
find_span-first (suc fuel) s a list [] p zs h l f ne none has =
    rw
      (
        ne→not-== p list (λ e. f.0 (sym e)),
        load-ok s p ne.0,
        ne→not-== (s.spans p).freelist null has,
      )
      refl
find_span-first (suc fuel) s a list (y ∷ ys) p zs h l f ne none has =
    let next : (s.spans y).next ≡ first_or (ys ++ p ∷ zs) list = follows ys l.2 in
    rw (ne→not-== y list (λ e. f.0 (sym e)), load-ok s y ne.0, none.0, next)
      (find_span-first fuel s y list ys p zs (omega arith) l.2 f.1 ne.1 none.1 has)
  where
    follows :
        (xs : List ℕ)
        → Linked s.spans y (xs ++ p ∷ zs) list
        → (s.spans y).next ≡ first_or (xs ++ p ∷ zs) list
    follows [] k = k.0
    follows (x ∷ xs) k = k.0

-- A bucket whose first span with a free block is `p`.
pub record Stocked (s : State) (i : ℕ) (ys : List ℕ) (p : ℕ) (zs : List ℕ) : Type 0 where
  pub exists : i < max_listnode
  pub spans : Holds s.spans (s.central.lists i) (ys ++ p ∷ zs)
  pub used_up : All (λ y. (s.spans y).freelist ≡ null) ys

get_one_span-Stocked :
    (fuel i size : ℕ) (s : State) (ys : List ℕ) (p : ℕ) (zs : List ℕ)
    → Stocked s i ys p zs
    → (s.spans p).freelist ≢ null
    → length ys < fuel
    → get_one_span fuel i size s ≡ ok (p, s)
unfolding get_one_span
get_one_span-Stocked fuel i size s ys p zs v has enough =
    rw
      (
        central_list-ok i s v.exists,
        begin-ok s.spans (s.central.lists i) (ys ++ p ∷ zs) v.spans,
        find_span-first fuel s (s.central.lists i) (s.central.lists i) ys p zs enough v.spans.linked
            v.spans.distinct.0 v.spans.not_null.1 v.used_up has,
      )
      refl

-- What `FetchRangObj` makes of a state whose first span `p` with free blocks has `blocks`.
pub record Served (s : State) (i : ℕ) (ys : List ℕ) (p : ℕ) (zs blocks : List ℕ) (batch : ℕ)
    (r : (ℕ × ℕ × ℕ) × State) : Type 0 where
  pub given : List ℕ
  pub left : List ℕ
  pub split : blocks ≡ (given ++ r.0.1 ∷ []) ++ left
  pub counted : r.0.2 ≡ min batch (length blocks)
  pub taken : length (given ++ r.0.1 ∷ []) ≡ r.0.2
  pub handed : Chain r.1.words r.0.0 (given ++ r.0.1 ∷ []) null
  pub kept : Chain r.1.words (r.1.spans p).freelist left null
  pub charged : (r.1.spans p).use_count ≡ add64 (s.spans p).use_count r.0.2
  pub others : (q : ℕ) → q ≢ p → r.1.spans q ≡ s.spans q
  pub bucket : Holds r.1.spans (s.central.lists i) (ys ++ p ∷ zs)
  pub unlocked : r.1.central.locked i ≡ false
  pub caches : r.1.caches ≡ s.caches
  pub pages : r.1.pages ≡ s.pages
  pub written : r.1.words ≡ update s.words r.0.1 null

-- The blocks of a span that is not null and holds a chain of distinct blocks ended by null.
pub hand_out-Served :
    (batch i : ℕ) (s : State) (ys : List ℕ) (p : ℕ) (zs : List ℕ) (x : ℕ) (xs : List ℕ)
    → Holds s.spans (s.central.lists i) (ys ++ p ∷ zs)
    → p ≢ null
    → (s.spans p).freelist ≡ x
    → Chain s.words x (x ∷ xs) null
    → IsDistinct (x ∷ xs)
    → length (x ∷ xs) < u64_mod
    → 0 < batch
    → batch < u64_mod
    → Returns (Served s i ys p zs (x ∷ xs) batch) (hand_out batch i p s)
unfolding hand_out modify SpanList.modify unlock_bucket
hand_out-Served batch i s ys p zs x xs v ne first c d room positive small =
    let has : (s.spans p).freelist ≢ null = rw first c.1 in
    let (r, e, f) = Returns-value (fetch-Fetched s.words x xs batch c d room positive small) in
    let after : Span = record (s.spans p) {
      freelist = r.2;
      use_count = add64 (s.spans p).use_count r.3;
    } in
    rw (ne→not-== p null ne, load-ok s p ne, ne→not-== (s.spans p).freelist null has, first, e)
      (returns (record {
        given = f.given;
        left = f.left;
        split = f.split;
        counted = f.counted;
        taken = f.taken;
        handed = f.handed;
        kept =
            subst (λ h. Chain r.0 h f.left null)
              (sym (ap (λ sp. sp.freelist) (update_self s.spans p after))) f.kept;
        charged = ap (λ sp. sp.use_count) (update_self s.spans p after);
        others = λ q h. update_ne s.spans p q after (λ e. h (sym e));
        bucket =
            Holds-same s.spans (update s.spans p after) (s.central.lists i) (ys ++ p ∷ zs)
              (λ y. ground arith) v;
        unlocked = update_self s.central.locked i false;
        caches = refl;
        pages = refl;
        written = f.written;
      }))

-- FetchRangObj of a positive batch, for a size class whose bucket is unlocked and whose first
-- span with a free block is not null and holds a chain of distinct blocks ended by null, with the
-- spans before it empty, the batch and the number of blocks below 2^64, and more fuel than spans
-- before it, hands out the first blocks of that span, as many as the batch asks for or all there
-- are, as a chain ended by null, leaves it the others in order, adds their number to its use
-- count modulo 2^64, changes no other span and no thread list, writes only the last block handed
-- out, and leaves the bucket as it was and unlocked.
pub fetch_range-Served :
    (fuel batch size i : ℕ) (s : State) (ys : List ℕ) (p : ℕ) (zs : List ℕ) (x : ℕ) (xs : List ℕ)
    → index size ≡ ok i
    → s.central.locked i ≡ false
    → Stocked s i ys p zs
    → p ≢ null
    → (s.spans p).freelist ≡ x
    → Chain s.words x (x ∷ xs) null
    → IsDistinct (x ∷ xs)
    → length (x ∷ xs) < u64_mod
    → 0 < batch
    → batch < u64_mod
    → length ys < fuel
    → Returns (Served s i ys p zs (x ∷ xs) batch) (fetch_range fuel batch size s)
unfolding fetch_range
fetch_range-Served fuel batch size i s ys p zs x xs idx free v ne first c d room positive small
      enough =
    let s' = with_bucket s i true in
    let stocked : Stocked s' i ys p zs = record {
      exists = v.exists;
      spans = v.spans;
      used_up = v.used_up;
    } in
    let has : (s.spans p).freelist ≢ null = rw first c.1 in
    rw
      (idx, lock_bucket-ok i s free, get_one_span-Stocked fuel i size s' ys p zs stocked has enough)
      (mono (hand_out-Served batch i s' ys p zs x xs v.spans ne first c d room positive small)
        λ r f. record {
          given = f.given;
          left = f.left;
          split = f.split;
          counted = f.counted;
          taken = f.taken;
          handed = f.handed;
          kept = f.kept;
          charged = f.charged;
          others = f.others;
          bucket = f.bucket;
          unlocked = f.unlocked;
          caches = f.caches;
          pages = f.pages;
          written = f.written;
        })
