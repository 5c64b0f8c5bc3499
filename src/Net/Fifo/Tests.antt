-- ===== src/Net/Fifo/Tests.antt =====
-- A line of two bytes, written and read.
use mylittle_code_house.Base.{◌≡◌, refl, arith, true, ok, [], ◌∷◌}
use mylittle_code_house.Base.Int.{pos, negsuc}
use mylittle_code_house.Net.{bytes, failed}
use mylittle_code_house.Net.Fifo.{
  says, end_of_file, read_error, get_message, mkfifo, exit, server, client, write_lines,
  open_to_write, write,
}
use mylittle_code_house.Net.Fifo.Readers.{get_message-printed}

get_message-printed_example :
    (get_message (bytes (104 ∷ 105 ∷ []) ∷ bytes [] ∷ [])
      ≡ ok (says (104 ∷ 105 ∷ []) ∷ end_of_file ∷ [], true))
    × (get_message (bytes (104 ∷ 105 ∷ []) ∷ failed ∷ [])
        ≡ ok (says (104 ∷ 105 ∷ []) ∷ read_error ∷ [], true))
get_message-printed_example =
    get_message-printed ((104 ∷ 105 ∷ []) ∷ []) [] ((omega arith, omega arith), tt)

server_in_use : server (negsuc 0) (pos 3) ≡ mkfifo ∷ exit 1 ∷ []
unfolding server
server_in_use = refl

client_line : client (pos 3) ((104 ∷ 105 ∷ []) ∷ []) ≡ open_to_write ∷ write (104 ∷ 105 ∷ []) ∷ []
unfolding client write_lines
client_line = refl
