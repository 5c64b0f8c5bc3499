-- ===== src/Net/Buffers.antt =====
-- A `char` array that bytes are read into, and the C string in it.
use mylittle_code_house.Base.{
  ℕ, ◌<◌, ◌≡◌, refl, arith, Result, ok, err, out_of_bounds, ◌>>=◌, ◌==◌, if◌then◌else◌, List, [],
  ◌∷◌, ◌++◌, length, drop, set,
}

-- `strlen(buff)` and the output of `buff`: the characters before the first null character. Without
-- one the code reads on behind the array.
unfoldable pub c_string : List ℕ → Result (List ℕ)
c_string [] = err out_of_bounds
c_string (c ∷ cs) = let rest = c_string cs in if c == 0 then ok [] else (do t ← rest; ok (c ∷ t))

-- `read(fd, buff, ...)` of the bytes `bs`
abbrev pub fill : List ℕ → List ℕ → List ℕ
fill bs buff = bs ++ drop (length bs) buff

-- and `buff[s] = 0`
unfoldable pub store : List ℕ → List ℕ → List ℕ
store bs buff = set (fill bs buff) (length bs) 0

-- The characters of a message up to its first null character.
abbrev pub text : List ℕ → List ℕ
text [] = []
text (c ∷ cs) = if c == 0 then [] else c ∷ text cs

pub c_string-store :
    (bs buff : List ℕ) → length bs < length buff → c_string (store bs buff) ≡ ok (text bs)
unfolding c_string store
c_string-store [] [] h = absurd (omega arith)
c_string-store [] (b ∷ buff) h = refl
c_string-store (c ∷ cs) [] h = absurd (omega arith)
c_string-store (c ∷ cs) (b ∷ buff) h = ground (arith, c_string-store cs buff (omega arith))

pub length-store :
    (bs buff : List ℕ) → length bs < length buff → length (store bs buff) ≡ length buff
unfolding store
length-store [] [] h = refl
length-store [] (b ∷ buff) h = refl
length-store (c ∷ cs) [] h = absurd (omega arith)
length-store (c ∷ cs) (b ∷ buff) h = omega (arith, length-store cs buff (omega arith))
