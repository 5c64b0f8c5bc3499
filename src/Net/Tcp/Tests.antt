-- ===== src/Net/Tcp/Tests.antt =====
-- One client that sends a text and hangs up, and two connections of which one gets no child.
use mylittle_code_house.Base.{
  ℕ, ◌≡◌, refl, arith, true, false, ok, none, some, [], ◌∷◌, List, replicate,
}
use mylittle_code_house.Net.{Peer, bytes, failed, c_string}
use mylittle_code_house.Net.Tcp.{
  says, shut_down, read_error, serviceread, Arrival, accepted, refused, Server, start,
}
use mylittle_code_house.Net.Tcp.Service.{serviceread-last_text, serviceread-failed}
use mylittle_code_house.Net.Tcp.Accepts.{Accepted, start-Accepted}

abbrev someone : Peer
someone = record { ip = b'7' ∷ []; port = 80 }

abbrev empty_buffer : List ℕ
empty_buffer = replicate 1024 0

nothing_held : c_string empty_buffer ≡ ok []
unfolding c_string
nothing_held = refl

serviceread-last_text_example :
    serviceread someone empty_buffer (bytes (104 ∷ 105 ∷ []) ∷ failed ∷ bytes [] ∷ [])
    ≡ ok
        (says someone (104 ∷ 105 ∷ []) ∷ read_error ∷ shut_down someone ∷ [], some (104 ∷ 105 ∷ []))
serviceread-last_text_example =
    serviceread-last_text someone empty_buffer [] (bytes (104 ∷ 105 ∷ []) ∷ failed ∷ []) [] refl
      nothing_held ((omega arith, omega arith), (tt, tt))

failing_reads :
    serviceread someone empty_buffer (failed ∷ failed ∷ [])
    ≡ ok (read_error ∷ read_error ∷ [], none)
failing_reads = serviceread-failed someone empty_buffer 2

abbrev fresh_server : Server
fresh_server = record { fds = 3 ∷ 0 ∷ 1 ∷ 2 ∷ []; children = [] }

abbrev two_arrivals : List Arrival
two_arrivals = accepted 4 someone true ∷ refused ∷ accepted 4 someone false ∷ []

start-Accepted_example : Accepted 3 fresh_server two_arrivals (start 3 two_arrivals fresh_server)
start-Accepted_example =
    start-Accepted 3 (0 ∷ 1 ∷ 2 ∷ []) fresh_server two_arrivals refl
      (
        (omega arith, (omega arith, (omega arith, tt))),
        ((omega arith, (omega arith, tt)), ((omega arith, tt), (tt, tt))),
      )
      tt
      (
        (omega arith, (omega arith, (omega arith, (omega arith, tt)))),
        (tt, ((omega arith, (omega arith, (omega arith, (omega arith, tt)))), tt)),
      )
