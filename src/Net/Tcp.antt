-- ===== src/Net/Tcp.antt =====
-- TCP通信/tcp_server.hpp: a server with one child process for each connection.
pub mod Service
pub mod Accepts
mod Tests
use mylittle_code_house.Base.{
  ℕ, Bool, false, true, ◌==◌, if◌then◌else◌, Result, ok, ◌>>=◌, Option, none, some, List, [], ◌∷◌,
  ◌++◌,
}
use mylittle_code_house.Base.Int.{ℤ, pos, ltb_ℤ}
use mylittle_code_house.Net.{address_of, Peer, Received, bytes, failed, c_string, store}

pub data Line : Type 0 where
  says : Peer → List ℕ → Line
  shut_down : Peer → Line
  read_error : Line

-- `serviceread`, for the results of its calls of `read`: its output, and what it writes back, if it
-- gets that far. `buff` is what the array holds.
unfoldable pub serviceread : Peer → List ℕ → List Received → Result (List Line × Option (List ℕ))
serviceread client buff [] = ok ([], none)
serviceread client buff (bytes [] ∷ reads) = do
  last ← c_string buff
  ok (shut_down client ∷ [], some last)
serviceread client buff (bytes (b ∷ bs) ∷ reads) =
    let rest = serviceread client (store (b ∷ bs) buff) reads in
    do
      message ← c_string (store (b ∷ bs) buff)
      (lines, written) ← rest
      ok (says client message ∷ lines, written)
serviceread client buff (failed ∷ reads) =
    let rest = serviceread client buff reads in
    do (lines, written) ← rest; ok (read_error ∷ lines, written)

-- The calls of `InitServer`, and how it ends.
pub data Call : Type 0 where
  socket_call : Call
  bind_call : ℤ → ℕ → ℕ → Call
  listen_call : ℤ → ℕ → Call

pub data Started : Type 0 where
  exited : ℕ → Started
  listening : ℤ → Started

abbrev backlog : ℕ
backlog = 20

module _ (htons : ℕ → ℕ) (inet_addr : List ℕ → ℕ) where
  -- For the results of `socket`, `bind` and `listen`.
  unfoldable pub init_server : List ℕ → ℕ → ℤ → ℤ → ℤ → List Call × Started
  init_server ip port sock bound listened =
      let socket = socket_call ∷ [] in
      let bind = socket ++ bind_call sock (address_of inet_addr ip) (htons port) ∷ [] in
      if ltb_ℤ sock (pos 0)
      then (socket, exited 2)
      else if ltb_ℤ bound (pos 0)
      then (bind, exited 2)
      else (
        bind ++ listen_call sock backlog ∷ [],
        if ltb_ℤ listened (pos 0) then exited 3 else listening sock,
      )

-- `accept` and, for a connection, `fork`, which may fail.
pub data Arrival : Type 0 where
  refused : Arrival
  accepted : ℕ → Peer → Bool → Arrival

-- A child in `serviceread`, with the descriptors that it has open.
pub record Child : Type 0 where
  pub conn : ℕ
  pub client : Peer
  pub fds : List ℕ

pub record Server : Type 0 where
  pub fds : List ℕ
  pub children : List Child

-- `close(fd)`
abbrev pub close : ℕ → List ℕ → List ℕ
close fd [] = []
close fd (x ∷ xs) = if fd == x then xs else x ∷ close fd xs

abbrev pub fork_child : ℕ → ℕ → Peer → Bool → Server → List Child
fork_child listensock fd client false s = s.children
fork_child listensock fd client true s =
    s.children ++ record { conn = fd; client = client; fds = close listensock (fd ∷ s.fds) } ∷ []

-- `start`, for as many rounds as there are arrivals.
unfoldable pub start : ℕ → List Arrival → Server → Server
start listensock [] s = s
start listensock (refused ∷ arrivals) s = start listensock arrivals s
start listensock (accepted fd client forked ∷ arrivals) s =
    start listensock arrivals
      (record { fds = close fd (fd ∷ s.fds); children = fork_child listensock fd client forked s })
