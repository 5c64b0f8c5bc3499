-- ===== src/Shell/Words.antt =====
-- A line made of words.
use mylittle_code_house.Base.{
  ℕ, zero, suc, ◌+◌, ◌≤◌, ◌<◌, ◌≡◌, ◌≢◌, ◌⊎◌, inl, inr, refl, sym, ap, ◌∙◌, arith, Option, none,
  some, List, [], ◌∷◌, ◌++◌, length, set, All, ok, err, out_of_bounds, ne→not-==, dec_lt,
  Bool-cases, append-nil, replicate, segfault, append_assoc, length-append, if◌then◌else◌,
}
use mylittle_code_house.Shell.{
  Argv, Action, nothing, chdir, exec, sep, token, strtok, chop, fill, parse, same, args, command,
  round,
}

-- A word has a first letter, and no separator.
abbrev pub IsWord : List ℕ → Type 0
IsWord [] = ⊥
IsWord (c ∷ cs) = (c ≢ sep) × All (λ d. d ≢ sep) cs

-- The words of a command, one space between them.
abbrev pub join : List (List ℕ) → List ℕ
join [] = []
join (w ∷ []) = w
join (w ∷ v ∷ ws) = w ++ sep ∷ join (v ∷ ws)

-- What the words of a command ask for.
abbrev pub meaning : List ℕ → List (List ℕ) → Action
meaning w [] = if same w (b'c' ∷ b'd' ∷ []) then nothing else exec (w ∷ [])
meaning w (v ∷ ws) = if same w (b'c' ∷ b'd' ∷ []) then chdir v else exec (w ∷ v ∷ ws)

strtok-nil : strtok [] ≡ none
unfolding strtok
strtok-nil = refl

strtok-blank : (k : ℕ) → strtok (replicate k sep) ≡ none
unfolding strtok
strtok-blank zero = refl
strtok-blank (suc k) = rw (strtok-blank k)

token-end : (w : List ℕ) → All (λ d. d ≢ sep) w → token w ≡ (w, [])
unfolding token
token-end [] a = refl
token-end (c ∷ cs) a = rw (ne→not-== c sep a.0, token-end cs a.1)

token-sep : (w r : List ℕ) → All (λ d. d ≢ sep) w → token (w ++ sep ∷ r) ≡ (w, r)
unfolding token
token-sep [] r a = refl
token-sep (c ∷ cs) r a = rw (ne→not-== c sep a.0, token-sep cs r a.1)

strtok-join :
    (w : List ℕ) (ws : List (List ℕ)) → IsWord w → strtok (join (w ∷ ws)) ≡ some (w, join ws)
unfolding strtok
strtok-join [] ws a = absurd a
strtok-join (c ∷ cs) [] a = rw (ne→not-== c sep a.0, token-end (c ∷ cs) a)
strtok-join (c ∷ cs) (v ∷ ws) a = rw (ne→not-== c sep a.0, token-sep (c ∷ cs) (join (v ∷ ws)) a)

-- The first places hold `pre`, the others are as they were.
abbrev pub places : List (List ℕ) → Argv → Argv
places [] rest = rest
places (t ∷ ts) rest = some t ∷ places ts rest

set-places :
    (pre : List (List ℕ)) (o v : Option (List ℕ)) (rest : Argv)
    → set (places pre (o ∷ rest)) (length pre) v ≡ places pre (v ∷ rest)
set-places [] o v rest = refl
set-places (t ∷ pre) o v rest = ap (◌∷◌ (some t)) (set-places pre o v rest)

places-snoc :
    (pre : List (List ℕ)) (t : List ℕ) (rest : Argv)
    → places pre (some t ∷ rest) ≡ places (pre ++ t ∷ []) rest
places-snoc [] t rest = refl
places-snoc (u ∷ pre) t rest = ap (◌∷◌ (some u)) (places-snoc pre t rest)

args-places : (ts : List (List ℕ)) (rest : Argv) → args (places ts (none ∷ rest)) ≡ ts
unfolding args
args-places [] rest = refl
args-places (t ∷ ts) rest = ap (◌∷◌ t) (args-places ts rest)

-- The loop stores the words and the null pointer, if there is room for them.
fill-join :
    (k : ℕ) (pre : List (List ℕ)) (stale : Argv) (ws : List (List ℕ))
    → length stale ≡ k
    → length ws < k
    → All IsWord ws
    → (rest : Argv) × (fill k (places pre stale) (length pre) (join ws)
        ≡ ok (places (pre ++ ws) (none ∷ rest)))
unfolding fill
fill-join k pre [] ws size room a = absurd (omega arith)
fill-join zero pre (o ∷ stale) ws size room a = absurd (omega arith)
fill-join (suc k) pre (o ∷ stale) [] size room a = (
  stale,
  rw (fill, strtok-nil)
      (ap ok
        (set-places pre o none stale ∙ ap (λ p. places p (none ∷ stale)) (sym (append-nil pre)))),
)
fill-join (suc k) pre (o ∷ stale) (w ∷ ws) size room a =
    let (rest, e) = fill-join k (pre ++ w ∷ []) stale ws (omega arith) (omega arith) a.1 in
    let next : length (pre ++ w ∷ []) ≡ length pre + 1 = length-append pre (w ∷ []) in
    (
      rest,
      rw
          (
            fill,
            strtok-join w ws a.0,
            set-places pre o (some w) stale,
            places-snoc pre w stale,
            ← next,
            e,
          )
          (ap (λ p. ok (places p (none ∷ rest))) (append_assoc pre (w ∷ []) ws)),
    )

-- Without room for the words and the null pointer, the loop leaves the array.
fill-overrun :
    (k index : ℕ) (argv : Argv) (ws : List (List ℕ))
    → k ≤ length ws
    → All IsWord ws
    → fill k argv index (join ws) ≡ err out_of_bounds
unfolding fill
fill-overrun zero index argv ws h a = refl
fill-overrun (suc k) index argv [] h a = absurd (omega arith)
fill-overrun (suc k) index argv (w ∷ ws) h a =
    rw (fill, strtok-join w ws a.0)
      (fill-overrun k (index + 1) (set argv index (some w)) ws (omega arith) a.1)

chop-last : (t : List ℕ) (c : ℕ) → chop (t ++ c ∷ []) ≡ ok t
unfolding chop
chop-last [] c = refl
chop-last (d ∷ []) c = refl
chop-last (d ∷ e ∷ t) c = rw (chop-last (e ∷ t) c)

command-places :
    (w : List ℕ) (ws : List (List ℕ)) (rest : Argv)
    → command (places (w ∷ ws) (none ∷ rest)) ≡ ok (meaning w ws)
unfolding command
command-places w [] rest = elim (Bool-cases (same w (b'c' ∷ b'd' ∷ []))) [
  | inl e ↦ rw e
  | inr e ↦ rw (e, args-places (w ∷ []) rest)
]
command-places w (v ∷ ws) rest = elim (Bool-cases (same w (b'c' ∷ b'd' ∷ []))) [
  | inl e ↦ rw e
  | inr e ↦ rw (e, args-places (w ∷ v ∷ ws) rest)
]

-- For a line of words with one space between them and one character at its end, and an array of
-- 32 places, either there are at most 31 words and the shell leaves the array with the words and
-- a null pointer behind them, and does with them what they mean: for cd it changes to the
-- directory named or does nothing, for any other command it runs it with all the words; or there
-- are 32 words or more, and it writes outside the array.
pub round-join :
    (argv : Argv) (w : List ℕ) (ws : List (List ℕ)) (c : ℕ)
    → length argv ≡ 32
    → All IsWord (w ∷ ws)
    → ((length ws < 31)
        × (rest : Argv) × (round argv (join (w ∷ ws) ++ c ∷ [])
            ≡ ok (places (w ∷ ws) (none ∷ rest), meaning w ws)))
      ⊎ ((31 ≤ length ws) × (round argv (join (w ∷ ws) ++ c ∷ []) ≡ err out_of_bounds))
unfolding round parse
round-join [] w ws c size a = absurd (omega arith)
round-join (o ∷ stale) w ws c size a = elim (dec_lt (length ws) 31) [
  | yes room ↦
      let (rest, e) = fill-join 31 (w ∷ []) stale ws (omega arith) room a.1 in
      inl (
        room,
        rest,
        rw (chop-last (join (w ∷ ws)) c, parse, strtok-join w ws a.0, e, command-places w ws rest),
      )
  | no full ↦ inr (
    omega arith,
    rw (
      chop-last (join (w ∷ ws)) c,
      parse,
      strtok-join w ws a.0,
      fill-overrun 31 1 (some w ∷ stale) ws (omega arith) a.1,
    ),
  )
]

-- A line of spaces leaves no first token, and the comparison with `cd` faults.
pub round-blank :
    (argv : Argv) (c : ℕ) (k : ℕ)
    → length argv ≡ 32
    → round argv (replicate k sep ++ c ∷ []) ≡ err segfault
unfolding round parse fill command
round-blank [] c k size = absurd (omega arith)
round-blank (o ∷ stale) c k size =
    rw (chop-last (replicate k sep) c, parse, strtok-blank k, fill, strtok-nil, command)
