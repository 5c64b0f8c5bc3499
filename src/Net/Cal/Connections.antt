-- ===== src/Net/Cal/Connections.antt =====
-- What the server makes of its connections.
use mylittle_code_house.Base.{
  ℕ, ◌+◌, ◌≡◌, refl, sym, ap, ◌∙◌, arith, List, [], ◌∷◌, ◌++◌, append-nil, append_assoc, length,
}
use mylittle_code_house.Base.Int.{ℤ, negsuc}
use mylittle_code_house.Net.Cal.{
  exits, tcp_server, socket, bind, Arrival, refused, accepted, TcpServer, bind_server, call_each,
  excute, thread_routine, start,
}

abbrev pub connections : List Arrival → List ℕ
connections [] = []
connections (refused ∷ arrivals) = connections arrivals
connections (accepted fd client ∷ arrivals) = fd ∷ connections arrivals

-- Every connection has its thread and its open descriptor, and no function was called.
pub record Idle {F : Type 0} (s : TcpServer F) (arrivals : List Arrival) (r : TcpServer F)
    : Type 0 where
  pub threads : r.threads ≡ s.threads ++ connections arrivals
  pub held : length r.fds ≡ length s.fds + length (connections arrivals)
  pub silent : r.called ≡ s.called
  pub funcv : r.funcv ≡ s.funcv

module _ {F : Type 0} where
  -- Whatever connections come in, each gets a thread, keeps its descriptor open, and no function of
  -- the server is called.
  pub start-Idle : (arrivals : List Arrival) (s : TcpServer F) → Idle s arrivals (start arrivals s)
  unfolding start thread_routine
  start-Idle [] s = record {
    threads = sym (append-nil s.threads);
    held = omega arith;
    silent = refl;
    funcv = refl;
  }
  start-Idle (refused ∷ arrivals) s =
      let v = start-Idle arrivals s in
      record { threads = v.threads; held = v.held; silent = v.silent; funcv = v.funcv }
  start-Idle (accepted fd client ∷ arrivals) s =
      let v = start-Idle arrivals (record s { fds = fd ∷ s.fds; threads = s.threads ++ fd ∷ [] }) in
      record {
        threads = v.threads ∙ append_assoc s.threads (fd ∷ []) (connections arrivals);
        held = omega (arith, v.held);
        silent = v.silent;
        funcv = v.funcv;
      }

  -- `BindServer` of one function after the other.
  abbrev pub bind_all : List F → TcpServer F → TcpServer F
  bind_all [] s = s
  bind_all (f ∷ fs) s = bind_all fs (bind_server f s)

  call_each-append :
      (fs gs : List F) (sock : ℕ)
      → call_each (fs ++ gs) sock ≡ call_each fs sock ++ call_each gs sock
  call_each-append [] gs sock = refl
  call_each-append (f ∷ fs) gs sock = rw (call_each-append fs gs sock) refl

  -- Excute calls the functions that BindServer was given, in that order, behind those bound before.
  pub excute-bind_all :
      (fs : List F) (sock : ℕ) (s : TcpServer F)
      → (excute sock (bind_all fs s)).called ≡ s.called ++ call_each (s.funcv ++ fs) sock
  unfolding excute bind_server
  excute-bind_all [] sock s = rw (append-nil s.funcv) refl
  excute-bind_all (f ∷ fs) sock s =
      excute-bind_all fs sock (bind_server f s)
      ∙ ap (λ gs. s.called ++ call_each gs sock) (append_assoc s.funcv (f ∷ []) fs)

-- When socket has failed, and bind fails on what it returned, the process ends with code 3.
pub tcp_server-failed :
    (n : ℕ) (bound listened : ℤ → ℤ)
    → bound (negsuc n) ≡ negsuc 0
    → tcp_server (negsuc n) bound listened ≡ exits 3
unfolding tcp_server socket bind
tcp_server-failed n bound listened h = rw (tcp_server, bind, h) refl
