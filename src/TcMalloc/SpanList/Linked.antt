-- ===== src/TcMalloc/SpanList/Linked.antt =====
-- Doubly linked stretches of spans, and what an insertion or a removal does to them.
use mylittle_code_house.Base.{
  ℕ, ◌≡◌, ◌≢◌, sym, arith, List, [], ◌∷◌, ◌++◌, update, All, Fresh, IsDistinct, ◌∙◌,
}
use mylittle_code_house.TcMalloc.SpanList.{Spans, with_next, with_prev}

-- From `p` the `next` pointers lead through `xs` to `q`, and the `prev` pointers back.
abbrev pub Linked : Spans → ℕ → List ℕ → ℕ → Type 0
Linked sp p [] q = ((sp p).next ≡ q) × ((sp q).prev ≡ p)
Linked sp p (x ∷ xs) q = ((sp p).next ≡ x) × ((sp x).prev ≡ p) × Linked sp x xs q

pub Linked-frame :
    (sp sp' : Spans) (p : ℕ) (xs : List ℕ) (q : ℕ)
    → Linked sp p xs q
    → All (λ y. (sp' y).next ≡ (sp y).next) (p ∷ xs)
    → All (λ y. (sp' y).prev ≡ (sp y).prev) (xs ++ q ∷ [])
    → Linked sp' p xs q
Linked-frame sp sp' p [] q l same_next same_prev = ground arith
Linked-frame sp sp' p (x ∷ xs) q l same_next same_prev =
    (ground arith, ground arith, Linked-frame sp sp' x xs q l.2 same_next.1 same_prev.1)

pub All-of_Fresh :
    (P : ℕ → Type 0) (a b : ℕ) (xs : List ℕ)
    → ((y : ℕ) → a ≢ y → b ≢ y → P y)
    → Fresh a xs
    → Fresh b xs
    → All P xs
All-of_Fresh P a b [] h f g = tt
All-of_Fresh P a b (x ∷ xs) h f g = (h x f.0 g.0, All-of_Fresh P a b xs h f.1 g.1)

pub Fresh-snoc : (a : ℕ) (xs : List ℕ) (q : ℕ) → Fresh a xs → a ≢ q → Fresh a (xs ++ q ∷ [])
Fresh-snoc a [] q f h = (h, tt)
Fresh-snoc a (x ∷ xs) q f h = (f.0, Fresh-snoc a xs q f.1 h)

-- The span before the end of a stretch, and the one after its start.
abbrev pub last_or : ℕ → List ℕ → ℕ
last_or p [] = p
last_or p (x ∷ xs) = last_or x xs

abbrev pub first_or : List ℕ → ℕ → ℕ
first_or [] q = q
first_or (x ∷ xs) q = x

pub Linked-around :
    (sp : Spans) (p : ℕ) (ys : List ℕ) (x : ℕ) (zs : List ℕ) (q : ℕ)
    → Linked sp p (ys ++ x ∷ zs) q
    → ((sp x).prev ≡ last_or p ys) × ((sp x).next ≡ first_or zs q)
Linked-around sp p [] x [] q l = (l.1, l.2.0)
Linked-around sp p [] x (z ∷ zs) q l = (l.1, l.2.0)
Linked-around sp p (y ∷ ys) x zs q l = Linked-around sp y ys x zs q l.2

-- The store after `a` and `b` have been made neighbours.
unfoldable pub joined : Spans → ℕ → ℕ → Spans
joined sp a b = let sp' = update sp a (with_next b (sp a)) in update sp' b (with_prev a (sp' b))

pub next-joined : (sp : Spans) (a b y : ℕ) → a ≢ y → (joined sp a b y).next ≡ (sp y).next
unfolding joined
next-joined sp a b y h = ground arith

pub prev-joined : (sp : Spans) (a b y : ℕ) → b ≢ y → (joined sp a b y).prev ≡ (sp y).prev
unfolding joined
prev-joined sp a b y h = ground arith

pub joined_ends :
    (sp : Spans) (a b : ℕ) → ((joined sp a b a).next ≡ b) × ((joined sp a b b).prev ≡ a)
unfolding joined
joined_ends sp a b = ground arith

Fresh-last_or : (a y : ℕ) (ys zs : List ℕ) → Fresh a ((y ∷ ys) ++ zs) → a ≢ last_or y ys
Fresh-last_or a y [] zs f = f.0
Fresh-last_or a y (z ∷ ys) zs f = Fresh-last_or a z ys zs f.1

first_or-ne :
    (y : ℕ) (ys : List ℕ) (x : ℕ) (zs : List ℕ) (q : ℕ)
    → Fresh y (ys ++ x ∷ zs)
    → q ≢ y
    → first_or zs q ≢ y
first_or-ne y [] x [] q f h = h
first_or-ne y [] x (z ∷ zs) q f h = λ e. f.1.0 (sym e)
first_or-ne y (w ∷ ys) x zs q f h = first_or-ne y ys x zs q f.1 h

-- Joining the neighbours of a span takes it out of the stretch.
pub Linked-unlink :
    (sp : Spans) (p : ℕ) (ys : List ℕ) (x : ℕ) (zs : List ℕ) (q : ℕ)
    → Linked sp p (ys ++ x ∷ zs) q
    → IsDistinct (p ∷ ys ++ x ∷ zs)
    → Fresh q (ys ++ x ∷ zs)
    → Linked (joined sp (last_or p ys) (first_or zs q)) p (ys ++ zs) q
Linked-unlink sp p [] x [] q l d f = joined_ends sp p q
Linked-unlink sp p [] x (z ∷ zs) q l d f =
    let ends = joined_ends sp p z in
    (
      ends.0,
      ends.1,
      Linked-frame sp (joined sp p z) z zs q l.2.2
          (All-of_Fresh _ p p (z ∷ zs) (λ y h _. next-joined sp p z y h) d.0.1 d.0.1)
          (All-of_Fresh _ z z (zs ++ q ∷ []) (λ y h _. prev-joined sp p z y h)
            (Fresh-snoc z zs q d.1.1.0 (λ e. f.1.0 (sym e)))
            (Fresh-snoc z zs q d.1.1.0 (λ e. f.1.0 (sym e)))),
    )
Linked-unlink sp p (y ∷ ys) x zs q l d f =
    let a = last_or y ys in
    let b = first_or zs q in
    let a_ne : a ≢ p = λ e. Fresh-last_or p y ys (x ∷ zs) d.0 (sym e) in
    let b_ne = first_or-ne y ys x zs q d.1.0 f.0 in
    (
      next-joined sp a b p a_ne ∙ l.0,
      prev-joined sp a b y b_ne ∙ l.1,
      Linked-unlink sp y ys x zs q l.2 d.1 f.1,
    )

-- The store after the four writes of `Insert`.
unfoldable pub inserted : Spans → ℕ → ℕ → ℕ → Spans
inserted sp a new_span pos =
    let sp1 = update sp a (with_next new_span (sp a)) in
    let sp2 = update sp1 new_span (with_next pos (sp1 new_span)) in
    let sp3 = update sp2 new_span (with_prev a (sp2 new_span)) in
    update sp3 pos (with_prev new_span (sp3 pos))

next-inserted :
    (sp : Spans) (a x pos y : ℕ) → a ≢ y → x ≢ y → (inserted sp a x pos y).next ≡ (sp y).next
unfolding inserted
next-inserted sp a x pos y h k = ground arith

prev-inserted :
    (sp : Spans) (a x pos y : ℕ) → pos ≢ y → x ≢ y → (inserted sp a x pos y).prev ≡ (sp y).prev
unfolding inserted
prev-inserted sp a x pos y h k = ground arith

inserted_ends :
    (sp : Spans) (a x pos : ℕ)
    → a ≢ x
    → pos ≢ x
    → ((inserted sp a x pos a).next ≡ x)
      × ((inserted sp a x pos x).prev ≡ a)
      × ((inserted sp a x pos x).next ≡ pos)
      × ((inserted sp a x pos pos).prev ≡ x)
unfolding inserted
inserted_ends sp a x pos h k = (ground arith, ground arith, ground arith, ground arith)

-- `Insert` before the first span of a stretch puts the new span in front.
pub Linked-insert :
    (sp : Spans) (p : ℕ) (xs : List ℕ) (q x : ℕ)
    → Linked sp p xs q
    → IsDistinct (p ∷ xs)
    → Fresh q xs
    → Fresh x (p ∷ xs)
    → x ≢ q
    → Linked (inserted sp p x (first_or xs q)) p (x ∷ xs) q
Linked-insert sp p [] q x l d f g h =
    let ends = inserted_ends sp p x q (λ e. g.0 (sym e)) (λ e. h (sym e)) in
    (ends.0, ends.1, (ends.2, ends.3))
Linked-insert sp p (y ∷ ys) q x l d f g h =
    let ends = inserted_ends sp p x y (λ e. g.0 (sym e)) (λ e. g.1.0 (sym e)) in
    (
      ends.0,
      ends.1,
      (
        ends.2,
        ends.3,
        Linked-frame sp (inserted sp p x y) y ys q l.2
            (All-of_Fresh _ p x (y ∷ ys) (λ z k m. next-inserted sp p x y z k m) d.0 g.1)
            (All-of_Fresh _ y x (ys ++ q ∷ []) (λ z k m. prev-inserted sp p x y z k m)
              (Fresh-snoc y ys q d.1.0 (λ e. f.0 (sym e))) (Fresh-snoc x ys q g.1.1 h)),
      ),
    )

-- All that is not a link is as before.
abbrev pub SameBody : Spans → Spans → Type 0
SameBody sp sp' =
    (y : ℕ)
    → ((sp' y).id ≡ (sp y).id)
      × ((sp' y).n ≡ (sp y).n)
      × ((sp' y).use_count ≡ (sp y).use_count)
      × ((sp' y).freelist ≡ (sp y).freelist)
      × ((sp' y).is_use ≡ (sp y).is_use)
      × ((sp' y).obj_size ≡ (sp y).obj_size)

pub joined-SameBody : (sp : Spans) (a b : ℕ) → SameBody sp (joined sp a b)
unfolding joined
joined-SameBody sp a b y = ground arith

pub inserted-SameBody : (sp : Spans) (a x pos : ℕ) → SameBody sp (inserted sp a x pos)
unfolding inserted
inserted-SameBody sp a x pos y = ground arith

pub joined-apart : (sp : Spans) (a b y : ℕ) → a ≢ y → b ≢ y → joined sp a b y ≡ sp y
unfolding joined
joined-apart sp a b y h k = ground arith

pub inserted-apart :
    (sp : Spans) (a x pos y : ℕ) → a ≢ y → x ≢ y → pos ≢ y → inserted sp a x pos y ≡ sp y
unfolding inserted
inserted-apart sp a x pos y h k m = ground arith

-- The neighbours of a stretch lie in it or at its ends.
pub Fresh-first_or : (y : ℕ) (xs : List ℕ) (q : ℕ) → Fresh y xs → y ≢ q → first_or xs q ≢ y
Fresh-first_or y [] q f h = λ e. h (sym e)
Fresh-first_or y (x ∷ xs) q f h = λ e. f.0 (sym e)

pub Fresh-last : (y p : ℕ) (xs : List ℕ) → Fresh y (p ∷ xs) → last_or p xs ≢ y
Fresh-last y p [] f = λ e. f.0 (sym e)
Fresh-last y p (x ∷ xs) f = Fresh-last y x xs f.1

pub Linked-same :
    (sp sp' : Spans) (p : ℕ) (xs : List ℕ) (q : ℕ)
    → ((y : ℕ) → ((sp' y).next ≡ (sp y).next) × ((sp' y).prev ≡ (sp y).prev))
    → Linked sp p xs q
    → Linked sp' p xs q
Linked-same sp sp' p [] q h l = ((h p).0 ∙ l.0, (h q).1 ∙ l.1)
Linked-same sp sp' p (x ∷ xs) q h l =
    ((h p).0 ∙ l.0, (h x).1 ∙ l.1, Linked-same sp sp' x xs q h l.2)
