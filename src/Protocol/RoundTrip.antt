-- ===== src/Protocol/RoundTrip.antt =====
-- `DeSerialize` on what `Serialize` writes and on other texts.
use mylittle_code_house.Base.{
  ℕ, suc, ◌+◌, ◌<◌, ◌≡◌, ◌≢◌, ◌⊎◌, inl, inr, ℕ_discrete, refl, ap, ◌∙◌, arith, none, some, List, [],
  ◌∷◌, ◌++◌, append_assoc, length, length-append, take, drop, get_or, All, le→not-ltb,
}
use mylittle_code_house.Base.Int.{ℤ, pos, negsuc}
use mylittle_code_house.Calculator.{Request}
use mylittle_code_house.Protocol.{
  space, to_string, atoi, find, rfind, serialize, rejected, no_return, de_serialize,
}
use mylittle_code_house.Protocol.Decimal.{IsDigit, All-IsDigit-decimal, atoi-to_string}

abbrev pub NoSpace : List ℕ → Type 0
NoSpace xs = All (λ c. c ≢ space) xs

NoSpace-digits : (xs : List ℕ) → All IsDigit xs → NoSpace xs
NoSpace-digits [] h = tt
NoSpace-digits (c ∷ cs) h = (omega (arith, h.0), NoSpace-digits cs h.1)

NoSpace-to_string : (z : ℤ) → NoSpace (to_string z)
unfolding to_string
NoSpace-to_string (pos n) = NoSpace-digits _ (All-IsDigit-decimal (suc n) n)
NoSpace-to_string (negsuc n) =
    (omega arith, NoSpace-digits _ (All-IsDigit-decimal (suc (suc n)) (suc n)))

find_first : (xs ys : List ℕ) → NoSpace xs → find (xs ++ space ∷ ys) ≡ some (length xs)
unfolding find
find_first [] ys h = refl
find_first (c ∷ cs) ys h = ground (arith, find_first cs ys)

find-none : (xs : List ℕ) → NoSpace xs → find xs ≡ none
unfolding find
find-none [] h = refl
find-none (c ∷ cs) h = ground (arith, find-none cs)

rfind-none : (xs : List ℕ) → NoSpace xs → rfind xs ≡ none
unfolding rfind
rfind-none [] h = refl
rfind-none (c ∷ cs) h = ground (arith, rfind-none cs)

rfind_last : (xs ys : List ℕ) → NoSpace ys → rfind (xs ++ space ∷ ys) ≡ some (length xs)
unfolding rfind
rfind_last [] ys h = ground (arith, rfind-none ys)
rfind_last (c ∷ cs) ys h = ground (arith, rfind_last cs ys)

take-append : (xs ys : List ℕ) → take (length xs) (xs ++ ys) ≡ xs
take-append [] ys = refl
take-append (x ∷ xs) ys = ap (◌∷◌ x) (take-append xs ys)

drop-append : (xs ys : List ℕ) (y : ℕ) → drop (length xs + 1) (xs ++ y ∷ ys) ≡ ys
drop-append [] ys y = refl
drop-append (x ∷ xs) ys y =
    let e : suc (length xs) + 1 ≡ suc (length xs + 1) = omega arith in rw e (drop-append xs ys y)

get_or-append : (xs ys : List ℕ) (y z d : ℕ) → get_or (xs ++ y ∷ z ∷ ys) (length xs + 1) d ≡ z
get_or-append [] ys y z d = refl
get_or-append (x ∷ xs) ys y z d =
    let e : suc (length xs) + 1 ≡ suc (length xs + 1) = omega arith in
    rw e (get_or-append xs ys y z d)

-- A text has no space, or a first and a last one.
Spaces : List ℕ → Type 0
Spaces text =
    (NoSpace text × (find text ≡ none))
    ⊎ ((left : ℕ) × (right : ℕ) × (find text ≡ some left)
        × (rfind text ≡ some right)
        × (left < length text))

spaces : (text : List ℕ) → Spaces text
unfolding Spaces find rfind
spaces [] = inl (tt, refl)
spaces (c ∷ cs) = elim (ℕ_discrete c space) [
  | yes e ↦ elim (spaces cs) [
    | inl (clear, f) ↦ inr (0, 0, ground arith, ground (arith, rfind-none cs clear), omega arith)
    | inr (left, right, f, r, lt) ↦ inr (0, suc right, ground arith, ground arith, omega arith)
  ]
  | no ne ↦ elim (spaces cs) [
    | inl (clear, f) ↦ inl ((ne, clear), ground arith)
    | inr (left, right, f, r, lt) ↦
        inr (suc left, suc right, ground arith, ground arith, omega arith)
  ]
]

-- `DeSerialize` of a text with a space.
de_serialize_parts :
    (old : Request) (text : List ℕ) (left right : ℕ)
    → find text ≡ some left
    → rfind text ≡ some right
    → left < length text
    → de_serialize old text ≡ (
      record {
        x = atoi (take left text);
        y = atoi (drop (right + 1) text);
        op = get_or text (left + 1) 0;
      },
      no_return,
    )
unfolding de_serialize
de_serialize_parts old text left right f r lt =
    let inside = le→not-ltb (length text) (left + 1) (omega arith) in ground (arith, inside)

-- The text of a request, bracketed for its first space and for its last.
serialize_left :
    (req : Request) → serialize req ≡ to_string req.x ++ space ∷ req.op ∷ space ∷ to_string req.y
unfolding serialize
serialize_left req = simp append_assoc

serialize_right :
    (req : Request)
    → serialize req ≡ (to_string req.x ++ space ∷ req.op ∷ []) ++ space ∷ to_string req.y
unfolding serialize
serialize_right req = simp append_assoc

-- DeSerialize of the text that Serialize has made of a request sets both numbers and the operator
-- to those of the request, whatever the object held before, and ends without a return.
pub de_serialize-serialize :
    (old req : Request) → de_serialize old (serialize req) ≡ (req, no_return)
unfolding de_serialize
de_serialize-serialize old req =
    let xs = to_string req.x in
    let ys = to_string req.y in
    let left = find_first xs (req.op ∷ space ∷ ys) (NoSpace-to_string req.x) in
    let right = rfind_last (xs ++ space ∷ req.op ∷ []) ys (NoSpace-to_string req.y) in
    let first : find (serialize req) ≡ some (length xs) = rw (serialize_left req) left in
    let last : rfind (serialize req) ≡ some (length (xs ++ space ∷ req.op ∷ [])) =
      rw (serialize_right req) right in
    let x_read : atoi (take (length xs) (serialize req)) ≡ req.x =
      rw (serialize_left req, take-append xs (space ∷ req.op ∷ space ∷ ys))
        (atoi-to_string req.x) in
    let y_read : atoi (drop (length (xs ++ space ∷ req.op ∷ []) + 1) (serialize req)) ≡ req.y =
      rw (serialize_right req, drop-append (xs ++ space ∷ req.op ∷ []) ys space)
        (atoi-to_string req.y) in
    let op_read : get_or (serialize req) (length xs + 1) 0 ≡ req.op =
      rw (serialize_left req) (get_or-append xs (space ∷ ys) space req.op 0) in
    let inside : length xs < length (serialize req) =
      rw (serialize_left req) (omega (arith, length-append xs (space ∷ req.op ∷ space ∷ ys))) in
    de_serialize_parts old (serialize req) (length xs) (length (xs ++ space ∷ req.op ∷ [])) first
      last inside
    ∙ rw (x_read, y_read, op_read) refl

-- DeSerialize of any text either finds no space in it, returns false and changes nothing, or
-- reads the numbers before the first and behind the last space and the character behind the
-- first, and ends without a return.
pub de_serialize_rejects :
    (old : Request) (text : List ℕ)
    → (NoSpace text × (de_serialize old text ≡ (old, rejected)))
      ⊎ ((left : ℕ) × (right : ℕ) × (find text ≡ some left)
          × (rfind text ≡ some right)
          × (de_serialize old text ≡ (
            record {
              x = atoi (take left text);
              y = atoi (drop (right + 1) text);
              op = get_or text (left + 1) 0;
            },
            no_return,
          )))
unfolding Spaces
de_serialize_rejects old text = elim (spaces text) [
  | inl (clear, f) ↦ inl (clear, unfold de_serialize in ground (arith, f))
  | inr (left, right, f, r, lt) ↦
      inr (left, right, f, r, de_serialize_parts old text left right f r lt)
]
