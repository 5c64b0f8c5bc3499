-- ===== src/TcMalloc/SpanList/Refine.antt =====
-- A `SpanList` read as a list of spans, for `PushFront`, `Erase` and `PopFront`.
use mylittle_code_house.Base.{
  All-left, ap, ◌∙◌, ℕ, ◌≡◌, ◌≢◌, refl, sym, arith, ok, Returns, returns, bind, List, [], ◌∷◌, ◌++◌,
  null, update, All, Fresh, IsDistinct, ◌==◌,
}
use mylittle_code_house.TcMalloc.SpanList.{
  Span, Spans, load, modify, begin, is_empty, insert, push_front, erase, pop_front,
}
use mylittle_code_house.TcMalloc.SpanList.Linked.{
  Linked, Linked-around, Linked-unlink, Linked-insert, joined, inserted, last_or, first_or,
  SameBody, joined-SameBody, inserted-SameBody, joined-apart, inserted-apart, Fresh-first_or,
  Fresh-last, Linked-same,
}

-- The list with head `list` holds the spans `xs`, first to last.
pub record Holds (sp : Spans) (list : ℕ) (xs : List ℕ) : Type 0 where
  pub linked : Linked sp list xs list
  pub distinct : IsDistinct (list ∷ xs)
  pub not_null : All (λ p. p ≢ null) (list ∷ xs)

load-ok : (sp : Spans) (p : ℕ) → p ≢ null → load sp p ≡ ok (sp p)
unfolding load
load-ok sp p h = ground arith

modify-ok :
    (sp : Spans) (p : ℕ) (f : Span → Span) → p ≢ null → modify sp p f ≡ ok (update sp p (f (sp p)))
unfolding modify
modify-ok sp p f h = ground arith

insert-ok :
    (sp : Spans) (pos x a : ℕ)
    → pos ≢ null
    → x ≢ null
    → a ≢ null
    → (sp pos).prev ≡ a
    → insert sp pos x ≡ ok (inserted sp a x pos)
unfolding insert load modify inserted
insert-ok sp pos x a h k m e = ground arith

erase-ok :
    (sp : Spans) (pos a b : ℕ)
    → pos ≢ null
    → a ≢ null
    → b ≢ null
    → (sp pos).prev ≡ a
    → (sp pos).next ≡ b
    → erase sp pos ≡ ok (joined sp a b)
unfolding erase load modify joined
erase-ok sp pos a b h k m e f = ground arith

pub begin-ok :
    (sp : Spans) (list : ℕ) (xs : List ℕ) → Holds sp list xs → begin sp list ≡ ok (first_or xs list)
unfolding begin
begin-ok sp list [] v = rw (load-ok sp list v.not_null.0, v.linked.0)
begin-ok sp list (x ∷ xs) v = rw (load-ok sp list v.not_null.0, v.linked.0)

All-last_or : (P : ℕ → Type 0) (p : ℕ) (xs : List ℕ) → All P (p ∷ xs) → P (last_or p xs)
All-last_or P p [] h = h.0
All-last_or P p (x ∷ xs) h = All-last_or P x xs h.1

All-first_or : (P : ℕ → Type 0) (xs : List ℕ) (q : ℕ) → All P (q ∷ xs) → P (first_or xs q)
All-first_or P [] q h = h.0
All-first_or P (x ∷ xs) q h = h.1.0

pub All-drop :
    (P : ℕ → Type 0) (ys : List ℕ) (x : ℕ) (zs : List ℕ) → All P (ys ++ x ∷ zs) → All P (ys ++ zs)
All-drop P [] x zs h = h.1
All-drop P (y ∷ ys) x zs h = (h.0, All-drop P ys x zs h.1)

pub All-right : (P : ℕ → Type 0) (ys zs : List ℕ) → All P (ys ++ zs) → All P zs
All-right P [] zs h = h
All-right P (y ∷ ys) zs h = All-right P ys zs h.1

IsDistinct-drop :
    (ys : List ℕ) (x : ℕ) (zs : List ℕ) → IsDistinct (ys ++ x ∷ zs) → IsDistinct (ys ++ zs)
IsDistinct-drop [] x zs d = d.1
IsDistinct-drop (y ∷ ys) x zs d = (All-drop _ ys x zs d.0, IsDistinct-drop ys x zs d.1)

-- Every span that is not among `xs` is as before.
abbrev pub SameOutside : List ℕ → Spans → Spans → Type 0
SameOutside xs sp sp' = (y : ℕ) → Fresh y xs → sp' y ≡ sp y

abbrev pub Keeps : List ℕ → Spans → Spans → Type 0
Keeps xs sp sp' = SameBody sp sp' × SameOutside xs sp sp'

-- `Empty()` tells whether the list holds no span.
pub is_empty-Holds :
    (sp : Spans) (list : ℕ) (xs : List ℕ)
    → Holds sp list xs
    → is_empty sp list ≡ ok (first_or xs list == list)
unfolding is_empty
is_empty-Holds sp list xs v = rw (begin-ok sp list xs v)

-- PushFront of a span that is not null and not in the list puts it at the front of the list; it
-- writes only links, and only of the spans of this list.
pub push_front-Holds :
    (sp : Spans) (list : ℕ) (xs : List ℕ) (x : ℕ)
    → Holds sp list xs
    → x ≢ null
    → Fresh x (list ∷ xs)
    → Returns
        (λ (sp' : Spans). Holds sp' list (x ∷ xs) × Keeps (list ∷ x ∷ xs) sp sp')
        (push_front sp list x)
unfolding push_front
push_front-Holds sp list xs x v ne f =
    let pos = first_or xs list in
    let pos_ne = All-first_or _ xs list v.not_null in
    let before : (sp pos).prev ≡ list = first_prev xs v.linked in
    rw (begin-ok sp list xs v, insert-ok sp pos x list pos_ne ne v.not_null.0 before)
      (returns (
        record {
          linked = Linked-insert sp list xs list x v.linked v.distinct v.distinct.0 f f.0;
          distinct = ((λ e. f.0 (sym e), v.distinct.0), (f.1, v.distinct.1));
          not_null = (v.not_null.0, (ne, v.not_null.1));
        },
        (
          inserted-SameBody sp list x pos,
          λ y g.
              inserted-apart sp list x pos y (λ e. g.0 (sym e)) (λ e. g.1.0 (sym e))
                (Fresh-first_or y xs list g.1.1 g.0),
        ),
      ))
  where
    first_prev : (ys : List ℕ) → Linked sp list ys list → (sp (first_or ys list)).prev ≡ list
    first_prev [] l = l.1
    first_prev (y ∷ ys) l = l.1

-- Erase of a span of the list takes that span out and keeps the others in order; it writes only
-- links, and only of the other spans of this list.
pub erase-Holds :
    (sp : Spans) (list : ℕ) (ys : List ℕ) (x : ℕ) (zs : List ℕ)
    → Holds sp list (ys ++ x ∷ zs)
    → Returns
        (λ (sp' : Spans). Holds sp' list (ys ++ zs) × Keeps (list ∷ ys ++ zs) sp sp')
        (erase sp x)
unfolding erase
erase-Holds sp list ys x zs v =
    let around = Linked-around sp list ys x zs list v.linked in
    let a_ne = All-last_or _ list ys (v.not_null.0, All-left _ ys _ v.not_null.1) in
    let b_ne = All-first_or _ zs list (v.not_null.0, (All-right _ ys _ v.not_null.1).1) in
    rw
      (erase-ok sp x (last_or list ys) (first_or zs list) (All-right _ ys _ v.not_null.1).0 a_ne
        b_ne around.0 around.1)
      (returns (
        record {
          linked = Linked-unlink sp list ys x zs list v.linked v.distinct v.distinct.0;
          distinct = (All-drop _ ys x zs v.distinct.0, IsDistinct-drop ys x zs v.distinct.1);
          not_null = (v.not_null.0, All-drop _ ys x zs v.not_null.1);
        },
        (
          joined-SameBody sp (last_or list ys) (first_or zs list),
          λ y g.
              joined-apart sp (last_or list ys) (first_or zs list) y
                (Fresh-last y list ys (g.0, All-left _ ys zs g.1))
                (Fresh-first_or y zs list (All-right _ ys zs g.1) g.0),
        ),
      ))

-- PopFront of a list that is not empty returns its first span and leaves the others in order; it
-- writes only links, and only of the spans that stay.
pub pop_front-Holds :
    (sp : Spans) (list x : ℕ) (xs : List ℕ)
    → Holds sp list (x ∷ xs)
    → Returns
        (λ (r : ℕ × Spans). (r.0 ≡ x) × Holds r.1 list xs × Keeps (list ∷ xs) sp r.1)
        (pop_front sp list)
unfolding pop_front
pop_front-Holds sp list x xs v =
    rw (begin-ok sp list (x ∷ xs) v)
      (bind (erase-Holds sp list [] x xs v) λ sp' p. returns (refl, p.0, p.1))

-- A store with the same links holds the same lists.
pub Holds-same :
    (sp sp' : Spans) (list : ℕ) (xs : List ℕ)
    → ((y : ℕ) → ((sp' y).next ≡ (sp y).next) × ((sp' y).prev ≡ (sp y).prev))
    → Holds sp list xs
    → Holds sp' list xs
Holds-same sp sp' list xs h v = record {
  linked = Linked-same sp sp' list xs list h v.linked;
  distinct = v.distinct;
  not_null = v.not_null;
}

-- A store that leaves the spans of a list alone holds that list.
pub Holds-apart :
    (sp sp' : Spans) (list : ℕ) (xs : List ℕ)
    → All (λ y. sp' y ≡ sp y) (list ∷ xs)
    → Holds sp list xs
    → Holds sp' list xs
Holds-apart sp sp' list xs same v = record {
  linked = stretch list xs list same same.0 v.linked;
  distinct = v.distinct;
  not_null = v.not_null;
}
  where
    stretch :
        (p : ℕ) (ys : List ℕ) (q : ℕ)
        → All (λ y. sp' y ≡ sp y) (p ∷ ys)
        → sp' q ≡ sp q
        → Linked sp p ys q
        → Linked sp' p ys q
    stretch p [] q a e l = (ap (λ t. t.next) a.0 ∙ l.0, ap (λ t. t.prev) e ∙ l.1)
    stretch p (y ∷ ys) q a e l =
        (ap (λ t. t.next) a.0 ∙ l.0, ap (λ t. t.prev) a.1.0 ∙ l.1, stretch y ys q a.1 e l.2)
