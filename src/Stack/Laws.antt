-- ===== src/Stack/Laws.antt =====
-- The array read as a stack of integers.
use mylittle_code_house.Base.{
  ℕ, zero, suc, ◌+◌, ◌-◌, ◌≤◌, ◌<◌, ◌≡◌, refl, sym, ap, ◌⊎◌, inl, inr, dec_lt, ltb, lt→ltb,
  ne→not-==, ◌==◌, ◌∙◌, arith, true, false, List, [], ◌∷◌, length, get_elem?, get_or, set, ok, err,
  segfault, some, Returns, returns, length-set, get_elem?-set_self, get_elem?-set_ne,
  get_elem?-eq-get_or, ◌>>=◌,
}
use mylittle_code_house.Base.Int.{ℤ}
use mylittle_code_house.Stack.{Stack, init, push, pop, top, size}

-- The stack holds the integers `xs`, the topmost first.
abbrev pub Stacked : List ℤ → ℕ → List ℤ → Type 0
Stacked cells zero xs = xs ≡ []
Stacked cells (suc n) [] = ⊥
Stacked cells (suc n) (x ∷ xs) = (get_elem? cells n ≡ some x) × Stacked cells n xs

pub record Holds (s : Stack) (xs : List ℤ) : Type 0 where
  pub four : s.capacity ≡ 4
  pub room : length s.cells ≡ 4
  pub within : s.top ≤ 4
  pub stacked : Stacked s.cells s.top xs

Stacked-set :
    (cells : List ℤ) (n i : ℕ) (x : ℤ) (xs : List ℤ)
    → n ≤ i
    → Stacked cells n xs
    → Stacked (set cells i x) n xs
Stacked-set cells zero i x xs h k = k
Stacked-set cells (suc n) i x [] h k = k
Stacked-set cells (suc n) i x (y ∷ ys) h k =
    (get_elem?-set_ne cells i n x (omega arith) ∙ k.0, Stacked-set cells n i x ys (omega arith) k.1)

length-Stacked : (cells : List ℤ) (n : ℕ) (xs : List ℤ) → Stacked cells n xs → length xs ≡ n
length-Stacked cells zero xs h = ap length h
length-Stacked cells (suc n) [] h = absurd h
length-Stacked cells (suc n) (x ∷ xs) h = omega (arith, length-Stacked cells n xs h.1)

-- A stack that `StackInit` has made is empty.
pub init-Holds : (junk : ℤ) → Holds (init junk) []
unfolding init
init-Holds junk = record { four = refl; room = refl; within = omega arith; stacked = refl }

pushed :
    (s : Stack) (xs : List ℤ) (x : ℤ)
    → Holds s xs
    → s.top < 4
    → Holds (record s { cells = set s.cells s.top x; top = s.top + 1 }) (x ∷ xs)
pushed s xs x v room =
    let e : s.top + 1 ≡ suc s.top = omega arith in
    let stacked' : Stacked (set s.cells s.top x) (s.top + 1) (x ∷ xs) = rw e (
      get_elem?-set_self s.cells s.top x (omega (arith, v.room)),
      Stacked-set s.cells s.top s.top x xs (omega arith) v.stacked,
    ) in
    record {
      four = v.four;
      room = length-set s.cells s.top x ∙ v.room;
      within = omega arith;
      stacked = stacked';
    }

-- On a stack of the capacity that StackInit gives, StackPush puts the value on top while fewer
-- than four are on it, and with four on it faults in the call of realloc.
pub push_four :
    (s : Stack) (xs : List ℤ) (x : ℤ)
    → Holds s xs
    → ((length xs < 4) × Returns (λ (t : Stack). Holds t (x ∷ xs)) (push s x))
      ⊎ ((length xs ≡ 4) × (push s x ≡ err segfault))
unfolding push
push_four s xs x v =
    let n = length-Stacked s.cells s.top xs v.stacked in
    elim (dec_lt s.top 4) [
      | yes room ↦
          let free : (s.top == s.capacity) ≡ false = ground (arith, v.four, room) in
          inl (omega (arith, n), rw free (returns (pushed s xs x v room)))
      | no full ↦ inr (omega (arith, n, v.within), ground (arith, v.four, v.within, full))
    ]

-- On a stack of the capacity that StackInit gives, with fewer than four values, StackTop after
-- StackPush is the value pushed, and StackPop after StackPush gives the stack back with its size.
pub pop-push :
    (junk : ℤ) (s : Stack) (xs : List ℤ) (x : ℤ)
    → Holds s xs
    → length xs < 4
    → ((push s x >>= top junk) ≡ ok x)
      × Returns (λ (t : Stack). Holds t xs × (size t ≡ length xs)) (push s x >>= pop)
unfolding push pop top size
pop-push junk s xs x v room =
    let n = length-Stacked s.cells s.top xs v.stacked in
    let free : (s.top == s.capacity) ≡ false = ground (arith, v.four, n, room) in
    let busy : ltb 0 (s.top + 1) ≡ true = lt→ltb 0 (s.top + 1) (omega arith) in
    let not_zero : (s.top + 1 == 0) ≡ false = ne→not-== (s.top + 1) 0 (omega arith) in
    let back : s.top + 1 - 1 ≡ s.top = omega arith in
    let cells' = set s.cells s.top x in
    let got : get_or cells' s.top junk ≡ x = some-eq (
      sym
        (get_elem?-eq-get_or cells' s.top junk (omega (arith, v.room, length-set s.cells s.top x)))
      ∙ get_elem?-set_self s.cells s.top x (omega (arith, v.room))) in
    rw (free, busy, not_zero, back)
      (
        ap ok got,
        returns (
          record {
            four = v.four;
            room = length-set s.cells s.top x ∙ v.room;
            within = v.within;
            stacked = Stacked-set s.cells s.top s.top x xs (omega arith) v.stacked;
          },
          sym n,
        ),
      )
  where
    some-eq : {a b : ℤ} → some a ≡ some b → a ≡ b
    some-eq h = cc h
