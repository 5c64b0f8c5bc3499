-- ===== src/Net/Fifo/Readers.antt =====
-- What one reader prints.
use mylittle_code_house.Base.{
  ℕ, zero, suc, ◌≤◌, ◌<◌, ◌≡◌, refl, arith, true, ok, List, [], ◌∷◌, ◌++◌, length, All, replicate,
}
use mylittle_code_house.Net.{Received, bytes, failed, c_string, fill, text}
use mylittle_code_house.Net.Fifo.{Line, says, end_of_file, read_error, get_message}

-- A chunk as `read(fd, buffer, 127)` gives it.
abbrev pub IsChunk : List ℕ → Type 0
IsChunk bs = (1 ≤ length bs) × (length bs ≤ 127)

abbrev pub chunks : List (List ℕ) → List Received
chunks [] = []
chunks (bs ∷ rest) = bytes bs ∷ chunks rest

abbrev pub printed : List (List ℕ) → List Line
printed [] = []
printed (bs ∷ rest) = says (text bs) ∷ printed rest

c_string-zeros :
    (bs : List ℕ) (n : ℕ) → length bs < n → c_string (fill bs (replicate n 0)) ≡ ok (text bs)
unfolding c_string
c_string-zeros bs zero h = absurd (omega arith)
c_string-zeros [] (suc n) h = refl
c_string-zeros (c ∷ cs) (suc n) h = ground (arith, c_string-zeros cs n (omega arith))

-- For reads of 1 to 127 bytes each, followed by the end of the file or by an error, GetMessage
-- prints the text of each in order, then the end or the error, and returns, whatever would be
-- read later.
pub get_message-printed :
    (reads : List (List ℕ)) (later : List Received)
    → All IsChunk reads
    → (get_message (chunks reads ++ bytes [] ∷ later)
        ≡ ok (printed reads ++ end_of_file ∷ [], true))
      × (get_message (chunks reads ++ failed ∷ later) ≡ ok (printed reads ++ read_error ∷ [], true))
unfolding get_message
get_message-printed [] later h = (refl, refl)
get_message-printed ([] ∷ reads) later h = absurd (omega (arith, h.0.0))
get_message-printed ((b ∷ bs) ∷ reads) later h =
    let (ended, broken) = get_message-printed reads later h.1 in
    rw (c_string-zeros (b ∷ bs) 128 (omega (arith, h.0.1)), ended, broken) (refl, refl)
