-- ===== src/Net/Udp/Tests.antt =====
-- A text from one peer, and an empty datagram from another.
use mylittle_code_house.Base.{ℕ, ◌≡◌, refl, arith, ok, [], ◌∷◌, List, replicate}
use mylittle_code_house.Net.{Peer, bytes, failed, c_string}
use mylittle_code_house.Net.Udp.{prints, sends, serve, client, sends_line, prints_echo}
use mylittle_code_house.Net.Udp.Echo.{serve-actions_of}

abbrev first_peer : Peer
first_peer = record { ip = b'1' ∷ []; port = 80 }

abbrev second_peer : Peer
second_peer = record { ip = b'2' ∷ []; port = 80 }

abbrev empty_buffer : List ℕ
empty_buffer = replicate 1024 0

nothing_held : c_string empty_buffer ≡ ok []
unfolding c_string
nothing_held = refl

serve-actions_of_example :
    serve empty_buffer ((bytes (104 ∷ 105 ∷ []), first_peer) ∷ (bytes [], second_peer) ∷ [])
    ≡ ok (
        prints first_peer (104 ∷ 105 ∷ [])
        ∷ sends (104 ∷ 105 ∷ []) first_peer
        ∷ sends (104 ∷ 105 ∷ []) second_peer
        ∷ [])
serve-actions_of_example =
    serve-actions_of empty_buffer []
      ((bytes (104 ∷ 105 ∷ []), first_peer) ∷ (bytes [], second_peer) ∷ []) refl nothing_held
      (omega arith, (omega arith, tt))

client_run :
    client ((104 ∷ [], bytes (104 ∷ [])) ∷ (105 ∷ [], failed) ∷ [])
    ≡ sends_line (104 ∷ []) ∷ prints_echo ∷ sends_line (105 ∷ []) ∷ []
unfolding client
client_run = refl
