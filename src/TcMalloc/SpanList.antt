-- ===== src/TcMalloc/SpanList.antt =====
-- `Span` and `SpanList` of TCmalloc/TCmallocSRC/Common.hpp: circular doubly linked lists of spans.
pub mod Linked
pub mod Refine
mod Tests
use mylittle_code_house.Base.{
  ℕ, Bool, false, not, Result, ok, err, segfault, assert, ◌>>=◌, ◌>>◌, ◌==◌, if◌then◌else◌, null,
  update,
}

pub record Span : Type 0 where
  pub id : ℕ
  pub n : ℕ
  pub next : ℕ
  pub prev : ℕ
  pub use_count : ℕ
  pub freelist : ℕ
  pub is_use : Bool
  pub obj_size : ℕ

abbrev pub fresh_span : Span
fresh_span = record {
  id = 0;
  n = 0;
  next = null;
  prev = null;
  use_count = 0;
  freelist = null;
  is_use = false;
  obj_size = 0;
}

-- The span objects, by address.
abbrev pub Spans : Type 0
Spans = ℕ → Span

-- `*p`: a fault at the null pointer.
unfoldable pub load : Spans → ℕ → Result Span
load sp p = if p == null then err segfault else ok (sp p)

unfoldable pub modify : Spans → ℕ → (Span → Span) → Result Spans
modify sp p f = if p == null then err segfault else ok (update sp p (f (sp p)))

abbrev pub with_next : ℕ → Span → Span
with_next q s = record s { next = q }

abbrev pub with_prev : ℕ → Span → Span
with_prev q s = record s { prev = q }

-- The constructor, for the `_head` that `new Span` returned.
unfoldable pub init : Spans → ℕ → Spans
init sp head = update sp head (record fresh_span { next = head; prev = head })

-- A list is named by its `_head`, which is also its `End()`.
unfoldable pub begin : Spans → ℕ → Result ℕ
begin sp list = do head ← load sp list; ok head.next

unfoldable pub is_empty : Spans → ℕ → Result Bool
is_empty sp list = do first ← begin sp list; ok (first == list)

unfoldable pub insert : Spans → ℕ → ℕ → Result Spans
insert sp pos new_span = do
  assert (not (pos == null))
  assert (not (new_span == null))
  at ← load sp pos
  sp ← modify sp at.prev (with_next new_span)
  sp ← modify sp new_span (with_next pos)
  sp ← modify sp new_span (with_prev at.prev)
  modify sp pos (with_prev new_span)

unfoldable pub push_front : Spans → ℕ → ℕ → Result Spans
push_front sp list new_span = do first ← begin sp list; insert sp first new_span

unfoldable pub erase : Spans → ℕ → Result Spans
erase sp pos = do
  assert (not (pos == null))
  at ← load sp pos
  sp ← modify sp at.prev (with_next at.next)
  modify sp at.next (with_prev at.prev)

unfoldable pub pop_front : Spans → ℕ → Result (ℕ × Spans)
pop_front sp list = do first ← begin sp list; sp ← erase sp first; ok (first, sp)
