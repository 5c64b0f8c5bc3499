-- ===== src/TcMalloc/State.antt =====
-- The allocator's state, and the code as functions that pass it on.
use mylittle_code_house.Base.{
  ℕ, ◌*◌, Bool, true, false, Option, some, Result, ok, err, Returns, returns, Error, assert_failed,
  deadlock, out_of_bounds, ltb, if◌then◌else◌, update, arith, ◌≡◌,
}
use mylittle_code_house.TcMalloc.ClassSize.{npages, max_listnode}
use mylittle_code_house.TcMalloc.Memory.{Words}
use mylittle_code_house.TcMalloc.FreeList.{FreeList, fresh_list}
use mylittle_code_house.TcMalloc.SpanList.{Spans, fresh_span}
use mylittle_code_house.TcMalloc.Os.{Os}
use mylittle_code_house.TcMalloc.ObjectPool.{Pool, Cells}

-- `PageCache`: the heads of `_spanList`, `_spanMap`, `_objPool` and `_pageMtx`.
pub record Pages : Type 0 where
  pub lists : ℕ → ℕ
  pub span_map : ℕ → Option ℕ
  pub pool : Pool
  pub locked : Bool

-- `CentralCache`: the heads of `_freelists`, and each list's `_mtx`.
pub record Central : Type 0 where
  pub lists : ℕ → ℕ
  pub locked : ℕ → Bool

-- `caches` holds the `ThreadCache` objects by address, `tls` the `pTLSthreadcahe` of each thread.
-- `fresh` stands for the library's `new`: its k-th call returns `fresh k`.
pub record State : Type 0 where
  pub words : Words
  pub spans : Spans
  pub os : Os
  pub pages : Pages
  pub central : Central
  pub caches : ℕ → ℕ → FreeList
  pub tls : ℕ → ℕ
  pub tls_pool : Pool
  pub fresh : ℕ → ℕ
  pub news : ℕ

abbrev pub M : Type 0 → Type 0
M A = State → Result (A × State)

abbrev pub pure : {A : Type 0} → A → M A
pure a s = ok (a, s)

abbrev pub fail : {A : Type 0} → Error → M A
fail e s = err e

abbrev pub and_then : {A B : Type 0} → Result (A × State) → (A → M B) → Result (B × State)
and_then (ok (a, s)) f = f a s
and_then (err e) f = err e

infixl 5 ◌>>=◌ ◌>>◌
abbrev pub ◌>>=◌ : {A B : Type 0} → M A → (A → M B) → M B
◌>>=◌ m f s = and_then (m s) f

abbrev pub ◌>>◌ : {B : Type 0} → M (Unit {0}) → M B → M B
m >> k = m >>= λ _. k

abbrev pub assert : Bool → M (Unit {0})
assert true = pure tt
assert false = fail assert_failed

-- The rule for a run of two parts.
pub bind_state :
    {A B : Type 0} {P : A × State → Type 0} {Q : B × State → Type 0} {r : Result (A × State)}
    (k : A → M B)
    → Returns P r
    → ((x : A × State) → P x → Returns Q (k x.0 x.1))
    → Returns Q (and_then r k)
bind_state k (returns p) next = next _ p

abbrev pub get : M State
get s = ok (s, s)

-- Parts of the state, read and written by the operations on them.
abbrev on_value : {A : Type 0} → Result A → State → Result (A × State)
on_value (ok a) s = ok (a, s)
on_value (err e) s = err e

abbrev on_spans_result : Result Spans → State → Result ((Unit {0}) × State)
on_spans_result (ok sp) s = ok (tt, record s { spans = sp })
on_spans_result (err e) s = err e

abbrev on_words_result : Result Words → State → Result ((Unit {0}) × State)
on_words_result (ok w) s = ok (tt, record s { words = w })
on_words_result (err e) s = err e

abbrev pub reading : {A : Type 0} → (State → Result A) → M A
reading f s = on_value (f s) s

abbrev pub on_spans : (Spans → Result Spans) → M (Unit {0})
on_spans f s = on_spans_result (f s.spans) s

abbrev pub on_words : (Words → Result Words) → M (Unit {0})
on_words f s = on_words_result (f s.words) s

abbrev pub set_page : Pages → M (Unit {0})
set_page p s = ok (tt, record s { pages = p })

-- `_pageMtx.lock()` and `unlock()`: a lock that is held is waited for in vain.
unfoldable pub lock_pages : M (Unit {0})
lock_pages s =
    if s.pages.locked
    then err deadlock
    else ok (tt, record s { pages = record (s.pages) { locked = true } })

unfoldable pub unlock_pages : M (Unit {0})
unlock_pages s = ok (tt, record s { pages = record (s.pages) { locked = false } })

-- The same for the lock of a bucket of the central cache.
unfoldable pub lock_bucket : ℕ → M (Unit {0})
lock_bucket i s =
    if s.central.locked i
    then err deadlock
    else ok
        (tt, record s { central = record (s.central) { locked = update s.central.locked i true } })

unfoldable pub unlock_bucket : ℕ → M (Unit {0})
unlock_bucket i s =
    ok (tt, record s { central = record (s.central) { locked = update s.central.locked i false } })

-- `_spanMap[id] = p`
unfoldable pub map_page : ℕ → ℕ → M (Unit {0})
map_page id p s =
    ok
      (tt, record s { pages = record (s.pages) { span_map = update s.pages.span_map id (some p) } })

-- `_spanList[k]` of the page cache, and the central cache's list of a bucket.
unfoldable pub page_list : ℕ → M ℕ
page_list k s = if ltb k npages then ok (s.pages.lists k, s) else err out_of_bounds

unfoldable pub central_list : ℕ → M ℕ
central_list i s = if ltb i max_listnode then ok (s.central.lists i, s) else err out_of_bounds

pub peek-poke_span : (sp : Spans) (p v : ℕ) → (update sp p (record (sp p) { id = v }) p).id ≡ v
peek-poke_span sp p v = ground arith

pub peek-poke_cache :
    (c : ℕ → ℕ → FreeList) (p v : ℕ)
    → (update c p (update (c p) 0 (record (c p 0) { head = v })) p 0).head ≡ v
peek-poke_cache c p v = ground arith

-- `_objPool` of the page cache pools `Span`s, whose first word is `_id`; a `Span` has 64 bytes.
abbrev pub span_cells : Cells Spans
span_cells = record {
  peek = λ sp p. (sp p).id;
  poke = λ sp p v. update sp p (record (sp p) { id = v });
  construct = λ sp p. update sp p fresh_span;
  size_of = 64;
  peek-poke = peek-poke_span;
}

-- `TLSPool` pools `ThreadCache`s, arrays of 208 `FreeList`s of 24 bytes; the first word of one is
-- the `_freelist` of its first list.
abbrev pub cache_cells : Cells (ℕ → ℕ → FreeList)
cache_cells = record {
  peek = λ c p. (c p 0).head;
  poke = λ c p v. update c p (update (c p) 0 (record (c p 0) { head = v }));
  construct = λ c p. update c p (λ _. fresh_list);
  size_of = 208 * 24;
  peek-poke = peek-poke_cache;
}
