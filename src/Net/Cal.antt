-- ===== src/Net/Cal.antt =====
-- The sockets of the network calculator: Sock.hpp of 网络计算机NetCal and of its copy under
-- VSCodeProject, and 网络计算机NetCal/CalServer.hpp.
pub mod Connections
mod Tests
use mylittle_code_house.Base.{
  ℕ, zero, suc, Bool, true, false, if◌then◌else◌, Option, none, some, List, [], ◌∷◌, ◌++◌,
}
use mylittle_code_house.Base.Int.{ℤ, pos, negsuc, ltb_ℤ}
use mylittle_code_house.Net.{Peer}

-- An operation of `Sock` goes on with a value, or ends the process.
pub data Ends (A : Type 0) : Type 0 where
  exits : ℕ → Ends A
  goes_on : A → Ends A

-- `Socket`: its test `listen < 0` compares the function `listen`, whose address is not below 0,
-- and not the descriptor `fd` that `socket` returned.
unfoldable pub socket : ℤ → Ends ℤ
socket fd = goes_on fd

-- `Bind` and `Listen`, for the result of the call.
unfoldable pub bind : ℤ → Ends (Unit {0})
bind result = if ltb_ℤ result (pos 0) then exits 3 else goes_on tt

unfoldable pub listen : ℤ → Ends (Unit {0})
listen result = if ltb_ℤ result (pos 0) then exits 4 else goes_on tt

-- `Connect`
unfoldable pub connect : ℤ → Bool
connect result = if ltb_ℤ result (pos 0) then false else true

-- `Accpet`: the descriptor or -1, and the client's address where there is one.
pub data Arrival : Type 0 where
  refused : Arrival
  accepted : ℕ → Peer → Arrival

unfoldable pub accept : Arrival → ℤ × Option Peer
accept refused = (negsuc 0, none)
accept (accepted fd client) = (pos fd, some client)

-- `TcpServer`, with the descriptors that its process has open, the `ThreadData` of the threads that
-- it created, and the functions that were called, each with its socket. `F` are the functions.
pub record TcpServer (F : Type 0) : Type 0 where
  pub listen_sock : ℤ
  pub funcv : List F
  pub fds : List ℕ
  pub threads : List ℕ
  pub called : List (F × ℕ)

-- The constructor, for the results of `socket`, `bind` and `listen`.
unfoldable pub tcp_server : ℤ → (ℤ → ℤ) → (ℤ → ℤ) → Ends ℤ
tcp_server fd bound listened = elim (socket fd) [
  | exits code ↦ exits code
  | goes_on sock ↦ elim (bind (bound sock)) [
    | exits code ↦ exits code
    | goes_on _ ↦ elim (listen (listened sock)) [
      | exits code ↦ exits code
      | goes_on _ ↦ goes_on sock
    ]
  ]
]

module _ {F : Type 0} where
  unfoldable pub bind_server : F → TcpServer F → TcpServer F
  bind_server func s = record s { funcv = s.funcv ++ func ∷ [] }

  -- `Excute`: calls every function on the socket.
  abbrev pub call_each : List F → ℕ → List (F × ℕ)
  call_each [] sock = []
  call_each (f ∷ fs) sock = (f, sock) ∷ call_each fs sock

  unfoldable pub excute : ℕ → TcpServer F → TcpServer F
  excute sock s = record s { called = s.called ++ call_each s.funcv sock }

  -- `ThreadRoutine` converts its argument and does nothing with it.
  unfoldable pub thread_routine : ℕ → TcpServer F → TcpServer F
  thread_routine td s = s

  -- `Start`, for as many rounds as there are arrivals; a thread runs when it is created.
  unfoldable pub start : List Arrival → TcpServer F → TcpServer F
  start [] s = s
  start (refused ∷ arrivals) s = start arrivals s
  start (accepted fd client ∷ arrivals) s =
      start arrivals
        (thread_routine fd (record s { fds = fd ∷ s.fds; threads = s.threads ++ fd ∷ [] }))
