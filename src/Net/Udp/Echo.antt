-- ===== src/Net/Udp/Echo.antt =====
-- What the server sends, and to whom.
use mylittle_code_house.Base.{ℕ, ◌≤◌, ◌<◌, ◌≡◌, refl, arith, ok, List, [], ◌∷◌, length, All}
use mylittle_code_house.Net.{
  Peer, Received, bytes, failed, c_string, store, text, c_string-store, length-store,
}
use mylittle_code_house.Net.Udp.{Action, prints, sends, serve}

-- At most 1023 bytes fit.
abbrev pub Fits : Received × Peer → Type 0
Fits (bytes bs, peer) = length bs ≤ 1023
Fits (failed, peer) = Unit

-- The server as a function of texts: it keeps the last one, and answers an empty datagram or an
-- error with it.
abbrev pub actions_of : List ℕ → List (Received × Peer) → List Action
actions_of t [] = []
actions_of t ((bytes [], peer) ∷ events) = sends t peer ∷ actions_of t events
actions_of t ((bytes (b ∷ bs), peer) ∷ events) =
    prints peer (text (b ∷ bs)) ∷ sends (text (b ∷ bs)) peer ∷ actions_of (text (b ∷ bs)) events
actions_of t ((failed, peer) ∷ events) = sends t peer ∷ actions_of t events

-- With an array of 1024 bytes that holds a text, and for datagrams of at most 1023 bytes and
-- errors in any order, the server does what a server over texts does: a datagram that is not
-- empty is printed and its text sent back to its sender and kept, and an empty one, or an error,
-- is answered with the text kept last, whoever sent that.
pub serve-actions_of :
    (buff t : List ℕ) (events : List (Received × Peer))
    → length buff ≡ 1024
    → c_string buff ≡ ok t
    → All Fits events
    → serve buff events ≡ ok (actions_of t events)
unfolding serve
serve-actions_of buff t [] size held h = refl
serve-actions_of buff t ((bytes [], peer) ∷ events) size held h =
    rw (held, serve-actions_of buff t events size held h.1) refl
serve-actions_of buff t ((bytes (b ∷ bs), peer) ∷ events) size held h =
    let short : length (b ∷ bs) < length buff = omega (arith, h.0) in
    let stored = c_string-store (b ∷ bs) buff short in
    rw
      (
        stored,
        serve-actions_of (store (b ∷ bs) buff) (text (b ∷ bs)) events
            (omega (arith, length-store (b ∷ bs) buff short)) stored h.1,
      )
      refl
serve-actions_of buff t ((failed, peer) ∷ events) size held h =
    rw (held, serve-actions_of buff t events size held h.1) refl
