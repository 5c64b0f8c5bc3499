-- ===== src/Net/Udp.antt =====
-- UDP通讯/udp_server.hpp and udp_client.cc: a server that sends back what it receives.
pub mod Echo
mod Tests
use mylittle_code_house.Base.{ℕ, ltb, if◌then◌else◌, Result, ok, ◌>>=◌, List, [], ◌∷◌, ◌++◌, length}
use mylittle_code_house.Base.Int.{ℤ, pos, ltb_ℤ}
use mylittle_code_house.Net.{address_of, Peer, Received, bytes, failed, c_string, store}

-- The output of a message, and a datagram that is sent.
pub data Action : Type 0 where
  prints : Peer → List ℕ → Action
  sends : List ℕ → Peer → Action

-- The loop of `start`, for the results of `recvfrom`. A call that fails leaves `peer` as it was,
-- which is not initialised: the event then carries what stands there.
unfoldable pub serve : List ℕ → List (Received × Peer) → Result (List Action)
serve buff [] = ok []
serve buff ((bytes [], peer) ∷ events) =
    let rest = serve buff events in
    do reply ← c_string buff; actions ← rest; ok (sends reply peer ∷ actions)
serve buff ((bytes (b ∷ bs), peer) ∷ events) =
    let rest = serve (store (b ∷ bs) buff) events in
    do
      message ← c_string (store (b ∷ bs) buff)
      actions ← rest
      ok (prints peer message ∷ sends message peer ∷ actions)
serve buff ((failed, peer) ∷ events) =
    let rest = serve buff events in
    do reply ← c_string buff; actions ← rest; ok (sends reply peer ∷ actions)

-- `Init` and the start of `start`, for the results of `socket` and `bind`.
pub data Started : Type 0 where
  exited : ℕ → Started
  bound : ℤ → ℕ → ℕ → Started

unfoldable pub init : ℤ → Started → Started
init sock next = if ltb_ℤ sock (pos 0) then exited 2 else next

module _ (htons : ℕ → ℕ) (inet_addr : List ℕ → ℕ) where
  unfoldable pub bind_server : List ℕ → ℕ → ℤ → ℤ → Started
  bind_server ip port sock result =
      if ltb_ℤ result (pos 0) then exited 2 else bound sock (address_of inet_addr ip) (htons port)

-- The loop of the client: it sends each line, waits for an answer, and tells that there was one.
pub data ClientAction : Type 0 where
  sends_line : List ℕ → ClientAction
  prints_echo : ClientAction

abbrev pub after_answer : Received → List ClientAction
after_answer (bytes []) = []
after_answer (bytes (b ∷ bs)) = prints_echo ∷ []
after_answer failed = []

unfoldable pub client : List (List ℕ × Received) → List ClientAction
client [] = []
client ((message, answer) ∷ rounds) = sends_line message ∷ after_answer answer ++ client rounds
