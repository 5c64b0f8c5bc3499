-- ===== src/ProcessPool.antt =====
-- ProcessPool/Task.hpp and ProcessPool.c++: a parent that sends the numbers of tasks through pipes
-- to its child processes.
pub mod Dispatch
mod Tests
use mylittle_code_house.Base.{
  ℕ, zero, suc, ◌+◌, ◌-◌, ◌*◌, ◌/◌, ◌%◌, ◌^◌, Bool, true, false, ◌&&◌, ltb, leb, ◌==◌,
  if◌then◌else◌, Option, none, some, List, [], ◌∷◌, ◌++◌, length, get_elem?, take, drop, update,
  Result, ok, err, out_of_bounds, deadlock, assert, min, ◌>>=◌, ◌>>◌,
}
use mylittle_code_house.Base.Int.{ℤ, pos, negsuc}

-- The functions of Task.hpp; each prints a line.
pub data Task : Type 0 where
  read_my_sql execule_url cal save : Task

-- `callbacks`, and `desc`, which tells by number what a task does: here the task itself.
pub record Tables : Type 0 where
  pub callbacks : List Task
  pub desc : ℕ → Option Task

-- `desc.insert({callbacks.size(), ...}); callbacks.push_back(...)`
abbrev pub add_task : Tables → Task → Tables
add_task t f = record {
  callbacks = t.callbacks ++ f ∷ [];
  desc = elim (t.desc (length t.callbacks)) [
    | none ↦ update t.desc (length t.callbacks) (some f)
    | some _ ↦ t.desc
  ];
}

unfoldable pub load : Tables → Tables
load t = add_task (add_task (add_task (add_task t read_my_sql) execule_url) cal) save

-- The tables of a process that has called `load`.
unfoldable pub loaded : Tables
unfolding load
loaded = load (record { callbacks = []; desc = λ _. none })

unfoldable pub handler_size : Tables → ℕ
handler_size t = length t.callbacks

-- A pipe: the bytes in it, and whether its write end is open.
pub record Pipe : Type 0 where
  pub bytes : List ℕ
  pub is_open : Bool

-- A `uint32_t` in memory, lowest byte first, and back; the `int` that it is converted to.
unfoldable pub to_bytes : ℕ → List ℕ
to_bytes c = c % 256 ∷ c / 256 % 256 ∷ c / 2 ^ 16 % 256 ∷ c / 2 ^ 24 % 256 ∷ []

abbrev pub from_bytes : List ℕ → ℕ
from_bytes [] = 0
from_bytes (b ∷ bs) = b + 256 * from_bytes bs

abbrev pub to_int : ℕ → ℤ
to_int c = if ltb c (2 ^ 31) then pos c else negsuc (2 ^ 32 - c - 1)

-- `read(waitFd, &command, 4)`: up to four bytes, none at the end of the file. On an empty pipe that
-- is open it waits.
unfoldable pub read_word : Pipe → Result (List ℕ × Pipe)
read_word p =
    if length p.bytes == 0 && p.is_open
    then err deadlock
    else ok (take 4 p.bytes, record p { bytes = drop 4 p.bytes })

-- The command, `quit`, and the pipe.
unfoldable pub wait_command : Pipe → Result (ℤ × Bool × Pipe)
wait_command p = do
  (bytes, p) ← read_word p
  if length bytes == 0
      then ok (negsuc 0, true, p)
      else (do assert (length bytes == 4); ok (to_int (from_bytes bytes), false, p))

-- What a child does in a round of its loop.
pub data Event : Type 0 where
  ran : Task → Event
  illegal : ℤ → Event

-- `callbacks[command]()` if the command is legal. `quit` is not looked at.
unfoldable pub handle : Tables → ℤ → Result Event
handle t (pos c) =
    if ltb c (handler_size t)
    then (elim (get_elem? t.callbacks c) [ none ↦ err out_of_bounds | some f ↦ ok (ran f) ])
    else ok (illegal (pos c))
handle t (negsuc c) = ok (illegal (negsuc c))

unfoldable pub child_round : Tables → Pipe → Result (Event × Pipe)
child_round t p = do (command, quit, p) ← wait_command p; e ← handle t command; ok (e, p)

-- The events of `k` rounds.
unfoldable pub child_rounds : ℕ → Tables → Pipe → Result (List Event × Pipe)
child_rounds zero t p = ok ([], p)
child_rounds (suc k) t p = do (e, p) ← child_round t p; (es, p) ← child_rounds k t p; ok (e ∷ es, p)

-- `write(fd, &command, sizeof(command))`
unfoldable pub send_and_wakeup : Pipe → ℕ → Pipe
send_and_wakeup p command = record p { bytes = p.bytes ++ to_bytes command }

-- A round of the parent's loop with the numbers that `rand` returns: the pipe of the chosen slot
-- gets the chosen command.
unfoldable pub parent_round : Tables → ℕ → ℕ → ℕ → (ℕ → Pipe) → ℕ → Pipe
parent_round t slots first second pipes =
    let choice = second % slots in
    update pipes choice (send_and_wakeup (pipes choice) (first % handler_size t))

-- The parent's loop over the pairs of numbers that `rand` returns.
unfoldable pub parent_rounds : Tables → ℕ → List (ℕ × ℕ) → (ℕ → Pipe) → ℕ → Pipe
parent_rounds t slots [] pipes = pipes
parent_rounds t slots ((first, second) ∷ rest) pipes =
    parent_rounds t slots rest (parent_round t slots first second pipes)
