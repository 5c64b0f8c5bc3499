-- ===== src/Net/Fifo.antt =====
-- fifo/server.cxx and client.cxx: the calls that write lines to a named pipe, and what a
-- process that reads it prints.
pub mod Readers
mod Tests
use mylittle_code_house.Base.{
  ℕ, zero, suc, Bool, true, false, ltb, if◌then◌else◌, Result, ok, ◌>>=◌, List, [], ◌∷◌, ◌++◌,
  length, replicate, ◌≡◌, ◌<◌, ◌≤◌, Fresh,
}
use mylittle_code_house.Base.Int.{ℤ, pos, negsuc, ltb_ℤ}
use mylittle_code_house.Net.{Received, bytes, failed, c_string, fill}

-- `#define SIZE 128`
abbrev pub size : ℕ
size = 128

pub data Line : Type 0 where
  says : List ℕ → Line
  end_of_file : Line
  read_error : Line

-- `GetMessage`, for the results of `read`: its output, and whether it has returned.
unfoldable pub get_message : List Received → Result (List Line × Bool)
get_message [] = ok ([], false)
get_message (bytes [] ∷ reads) = ok (end_of_file ∷ [], true)
get_message (bytes (b ∷ bs) ∷ reads) =
    let rest = get_message reads in
    do
      message ← c_string (fill (b ∷ bs) (replicate size 0))
      (lines, returned) ← rest
      ok (says message ∷ lines, returned)
get_message (failed ∷ reads) = ok (read_error ∷ [], true)

-- The calls that `main` of the server makes, and how it ends, for the results of `mkfifo` and
-- `open`.
pub data Call : Type 0 where
  mkfifo open_pipe fork wait close_pipe unlink : Call
  exit : ℕ → Call

unfoldable pub server : ℤ → ℤ → List Call
server made fd = elim made [
  | pos zero ↦
      mkfifo
      ∷ open_pipe
      ∷ (if ltb_ℤ fd (pos 0)
          then exit 2 ∷ []
          else replicate 3 fork ++ replicate 3 wait ++ close_pipe ∷ unlink ∷ exit 0 ∷ [])
  | pos (suc n) ↦ mkfifo ∷ exit 1 ∷ []
  | negsuc n ↦ mkfifo ∷ exit 1 ∷ []
]

-- `main` of the client, for the result of `open` and the lines that `getline` has given so far: one
-- `write` of the line's bytes each. The loop does not end, so its `close` is not reached.
pub data ClientCall : Type 0 where
  open_to_write : ClientCall
  write : List ℕ → ClientCall
  exit_client : ℕ → ClientCall

unfoldable pub write_lines : List (List ℕ) → List ClientCall
write_lines [] = []
write_lines (line ∷ lines) = write line ∷ write_lines lines

unfoldable pub client : ℤ → List (List ℕ) → List ClientCall
client fd lines =
    open_to_write ∷ (if ltb_ℤ fd (pos 0) then exit_client 1 ∷ [] else write_lines lines)
