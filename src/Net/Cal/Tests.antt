-- ===== src/Net/Cal/Tests.antt =====
-- Two connections, and two functions.
use mylittle_code_house.Base.{ℕ, ◌≡◌, refl, List, [], ◌∷◌}
use mylittle_code_house.Base.Int.{pos, negsuc}
use mylittle_code_house.Net.{Peer}
use mylittle_code_house.Net.Cal.{
  exits, Arrival, refused, accepted, TcpServer, tcp_server, socket, bind, listen, excute, start,
}
use mylittle_code_house.Net.Cal.Connections.{
  Idle, start-Idle, bind_all, excute-bind_all, tcp_server-failed,
}

abbrev someone : Peer
someone = record { ip = b'7' ∷ []; port = 80 }

abbrev fresh_server : TcpServer ℕ
fresh_server = record { listen_sock = pos 3; funcv = []; fds = 3 ∷ []; threads = []; called = [] }

abbrev two_arrivals : List Arrival
two_arrivals = accepted 4 someone ∷ refused ∷ accepted 5 someone ∷ []

two_connections : Idle fresh_server two_arrivals (start two_arrivals fresh_server)
two_connections = start-Idle two_arrivals fresh_server

both_called : (excute 4 (bind_all (70 ∷ 71 ∷ []) fresh_server)).called ≡ (70, 4) ∷ (71, 4) ∷ []
both_called = excute-bind_all (70 ∷ 71 ∷ []) 4 fresh_server

no_socket : tcp_server (negsuc 0) (λ _. negsuc 0) (λ _. pos 0) ≡ exits 3
no_socket = tcp_server-failed 0 (λ _. negsuc 0) (λ _. pos 0) refl

tcp_server_run : tcp_server (pos 3) (λ _. pos 0) (λ _. negsuc 0) ≡ exits 4
unfolding tcp_server socket bind listen
tcp_server_run = refl
