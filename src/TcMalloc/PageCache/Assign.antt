-- ===== src/TcMalloc/PageCache/Assign.antt =====
-- Assignments to members of a span, and a new span object of the page cache.
use mylittle_code_house.Base.{
  ℕ, ◌+◌, ◌≤◌, ◌<◌, ◌≡◌, ◌≢◌, ◌==◌, refl, sym, true, ok, Returns, returns, null, update,
  update_self, update_ne, ne→not-==, le→not-ltb, add64, sub64, u64_mod,
}
use mylittle_code_house.TcMalloc.SpanList
use mylittle_code_house.TcMalloc.SpanList.{Span, fresh_span}
use mylittle_code_house.TcMalloc.ObjectPool
use mylittle_code_house.TcMalloc.State.{State}
use mylittle_code_house.TcMalloc.PageCache.{modify, pool_new}

pub modify-ok :
    (s : State) (p : ℕ) (f : SpanList.Span → SpanList.Span)
    → p ≢ null
    → modify p f s ≡ ok (tt, record s { spans = update s.spans p (f (s.spans p)) })
unfolding modify SpanList.modify
modify-ok s p f h = rw (ne→not-== p null h)

-- What an assignment to members of the span `x` leaves.
pub record Assigned (s : State) (x : ℕ) (f : Span → Span) (r : (Unit {0}) × State) : Type 0 where
  pub at : r.1.spans x ≡ f (s.spans x)
  pub others : (y : ℕ) → y ≢ x → r.1.spans y ≡ s.spans y
  pub words : r.1.words ≡ s.words
  pub os : r.1.os ≡ s.os
  pub pages : r.1.pages ≡ s.pages
  pub central : r.1.central ≡ s.central
  pub caches : r.1.caches ≡ s.caches

pub modify-Assigned :
    (s : State) (x : ℕ) (f : Span → Span) → x ≢ null → Returns (Assigned s x f) (modify x f s)
modify-Assigned s x f ne = rw (modify-ok s x f ne) (
    returns (record {
      at = update_self s.spans x (f (s.spans x));
      others = λ y h. update_ne s.spans x y (f (s.spans x)) (λ e. h (sym e));
      words = refl;
      os = refl;
      pages = refl;
      central = refl;
      caches = refl;
    }))

-- The pool has a piece of its chunk left, and nothing to recycle.
pub record Ready (s : State) : Type 0 where
  pub unused : s.pages.pool.freelist ≡ null
  pub enough : 64 ≤ s.pages.pool.remain
  pub somewhere : s.pages.pool.memory ≢ null
  pub inside : s.pages.pool.memory + s.pages.pool.remain < u64_mod

-- The new span object is the next piece of the chunk.
abbrev pub pool_made : State → State
pool_made s = record s {
  spans = update s.spans s.pages.pool.memory fresh_span;
  pages = record (s.pages) {
    pool = record (s.pages.pool) {
      memory = add64 s.pages.pool.memory 64;
      remain = sub64 s.pages.pool.remain 64;
    };
  };
}

pub pool_new-ok : (s : State) → Ready s → pool_new s ≡ ok (s.pages.pool.memory, pool_made s)
unfolding pool_new ObjectPool.new ObjectPool.refill
pool_new-ok s v =
    let none_free : (s.pages.pool.freelist == null) ≡ true = rw v.unused refl in
    rw (none_free, le→not-ltb s.pages.pool.remain 64 v.enough) refl
