-- ===== src/Net/Tcp/Service.antt =====
-- One connection: what is printed, and what the client gets back.
use mylittle_code_house.Base.{
  ℕ, ◌≤◌, ◌<◌, ◌≡◌, refl, arith, ok, some, none, List, [], ◌∷◌, ◌++◌, length, All, replicate, zero,
  suc,
}
use mylittle_code_house.Net.{
  Peer, Received, bytes, failed, c_string, store, text, c_string-store, length-store,
}
use mylittle_code_house.Net.Tcp.{Line, says, shut_down, read_error, serviceread}

-- A result of `read(sock, buff, 1023)` that is not the end of the stream.
abbrev pub Continues : Received → Type 0
Continues (bytes bs) = (1 ≤ length bs) × (length bs ≤ 1023)
Continues failed = Unit

abbrev pub line_of : Peer → Received → Line
line_of client (bytes bs) = says client (text bs)
line_of client failed = read_error

abbrev pub lines_of : Peer → List Received → List Line
lines_of client [] = []
lines_of client (r ∷ rs) = line_of client r ∷ lines_of client rs

-- The text of the last message, or what the array held before.
abbrev pub last_text : List ℕ → List Received → List ℕ
last_text t [] = t
last_text t (bytes bs ∷ rs) = last_text (text bs) rs
last_text t (failed ∷ rs) = last_text t rs

-- For calls of read that each give 1 to 1023 bytes or an error, up to the end of the stream, and
-- an array of 1024 bytes with a null character in it, serviceread prints the text of each message
-- and each error in order, and the end, and writes back the text of the last message alone, or
-- what the array held if there was none.
pub serviceread-last_text :
    (client : Peer) (buff t : List ℕ) (reads later : List Received)
    → length buff ≡ 1024
    → c_string buff ≡ ok t
    → All Continues reads
    → serviceread client buff (reads ++ bytes [] ∷ later)
      ≡ ok (lines_of client reads ++ shut_down client ∷ [], some (last_text t reads))
unfolding serviceread
serviceread-last_text client buff t [] later size held h = rw held refl
serviceread-last_text client buff t (bytes [] ∷ reads) later size held h =
    absurd (omega (arith, h.0.0))
serviceread-last_text client buff t (bytes (b ∷ bs) ∷ reads) later size held h =
    let short : length (b ∷ bs) < length buff = omega (arith, h.0.1) in
    let next =
      serviceread-last_text client (store (b ∷ bs) buff) (text (b ∷ bs)) reads later
        (omega (arith, length-store (b ∷ bs) buff short)) (c_string-store (b ∷ bs) buff short)
        h.1 in
    rw (c_string-store (b ∷ bs) buff short, next) refl
serviceread-last_text client buff t (failed ∷ reads) later size held h =
    rw (serviceread-last_text client buff t reads later size held h.1) refl

-- As long as read fails, serviceread prints the error and reads again.
pub serviceread-failed :
    (client : Peer) (buff : List ℕ) (n : ℕ)
    → serviceread client buff (replicate n failed) ≡ ok (replicate n read_error, none)
unfolding serviceread
serviceread-failed client buff zero = refl
serviceread-failed client buff (suc n) = rw (serviceread-failed client buff n) refl
