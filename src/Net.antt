-- ===== src/Net.antt =====
-- What the programs over sockets and pipes share: bytes that a call receives, and the `char` array
-- that they are read into. The results of system calls are arguments, one list item for each call.
mod Buffers
pub mod Tcp
pub mod Udp
pub mod Cal
pub mod Fifo
unfoldable pub use Buffers.*
use mylittle_code_house.Base.{ℕ, List, [], ◌∷◌}

-- Address and port of the other side.
pub record Peer : Type 0 where
  pub ip : List ℕ
  pub port : ℕ

-- `read` and `recvfrom`: some bytes, no byte where they return 0, or -1.
pub data Received : Type 0 where
  bytes : List ℕ → Received
  failed : Received

-- The address that a server binds: `INADDR_ANY` if it was given no text, which `inet_addr` converts.
abbrev any_address : ℕ
any_address = 0

abbrev pub address_of : (List ℕ → ℕ) → List ℕ → ℕ
address_of inet_addr [] = any_address
address_of inet_addr (c ∷ cs) = inet_addr (c ∷ cs)
