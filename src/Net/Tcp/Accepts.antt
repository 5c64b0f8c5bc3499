-- ===== src/Net/Tcp/Accepts.antt =====
-- The accepting process: its descriptors, and its children.
use mylittle_code_house.Base.{
  ℕ, ◌≡◌, ◌≢◌, refl, sym, ap, subst, ◌∙◌, arith, true, false, List, [], ◌∷◌, ◌++◌, append-nil,
  append_assoc, ne→not-==, ==_refl, Fresh, IsDistinct, All, All-append, ◌==◌, Bool-cases, inl, inr,
}
use mylittle_code_house.Net.{Peer}
use mylittle_code_house.Net.Tcp.{Arrival, refused, accepted, Child, Server, close, start}

-- `accept` returns a descriptor that is not in use.
abbrev pub Unused : List ℕ → Arrival → Type 0
Unused fds refused = Unit
Unused fds (accepted fd client forked) = Fresh fd fds

-- A child that serves its own connection and has the listening socket closed.
pub record Serves (listensock : ℕ) (c : Child) : Type 0 where
  pub others : List ℕ
  pub own : c.fds ≡ c.conn ∷ others
  pub closed : Fresh listensock c.fds

-- The connections that got a child, in order.
abbrev pub served : List Arrival → List (ℕ × Peer)
served [] = []
served (refused ∷ arrivals) = served arrivals
served (accepted fd client true ∷ arrivals) = (fd, client) ∷ served arrivals
served (accepted fd client false ∷ arrivals) = served arrivals

abbrev pub serving : List Child → List (ℕ × Peer)
serving [] = []
serving (c ∷ cs) = (c.conn, c.client) ∷ serving cs

serving-append : (cs ds : List Child) → serving (cs ++ ds) ≡ serving cs ++ serving ds
serving-append [] ds = refl
serving-append (c ∷ cs) ds = rw (serving-append cs ds) refl

Fresh-close : (l : ℕ) (fds : List ℕ) → IsDistinct fds → Fresh l (close l fds)
Fresh-close l [] d = tt
Fresh-close l (x ∷ xs) d = elim (Bool-cases (l == x)) [
  | inl e ↦ let same : l ≡ x = ground (arith, e) in rw (e, same) d.0
  | inr e ↦ let other : l ≢ x = ground (arith, e) in rw e (other, Fresh-close l xs d.1)
]

close_new : (fd : ℕ) (fds : List ℕ) → close fd (fd ∷ fds) ≡ fds
close_new fd fds = rw (==_refl fd) refl

close_other : (l fd : ℕ) (fds : List ℕ) → l ≢ fd → close l (fd ∷ fds) ≡ fd ∷ close l fds
close_other l fd fds h = rw (ne→not-== l fd h) refl

-- What a sequence of connections leaves: the parent's descriptors arrivals they were.
pub record Accepted (l : ℕ) (s : Server) (arrivals : List Arrival) (r : Server) : Type 0 where
  pub fds : r.fds ≡ s.fds
  pub children : serving r.children ≡ serving s.children ++ served arrivals
  pub isolated : All (Serves l) r.children

-- When accept gives only descriptors that are not in use, after any sequence of connections,
-- refused ones and failed forks included, the accepting process has exactly the descriptors open
-- that it began with, the connections that got a child are served in order, and each child has
-- its own connection and not the listening socket.
pub start-Accepted :
    (l : ℕ) (others : List ℕ) (s : Server) (arrivals : List Arrival)
    → s.fds ≡ l ∷ others
    → IsDistinct s.fds
    → All (Serves l) s.children
    → All (Unused s.fds) arrivals
    → Accepted l s arrivals (start l arrivals s)
unfolding start
start-Accepted l others s [] has d c u = record {
  fds = refl;
  children = sym (append-nil (serving s.children));
  isolated = c;
}
start-Accepted l others s (refused ∷ arrivals) has d c u =
    let next = start-Accepted l others s arrivals has d c u.1 in
    record { fds = next.fds; children = next.children; isolated = next.isolated }
start-Accepted l others s (accepted fd client false ∷ arrivals) has d c u =
    let next = start-Accepted l others s arrivals has d c u.1 in
    rw (close_new fd s.fds)
      (record { fds = next.fds; children = next.children; isolated = next.isolated })
start-Accepted l others s (accepted fd client true ∷ arrivals) has d c u =
    let apart : l ≢ fd = λ e. (subst (Fresh fd) has u.0).0 (sym e) in
    let child : Child = record { conn = fd; client = client; fds = close l (fd ∷ s.fds) } in
    let child-Serves : Serves l child = record {
      others = close l s.fds;
      own = close_other l fd s.fds apart;
      closed = rw (close_other l fd s.fds apart) (apart, Fresh-close l s.fds d);
    } in
    let s' : Server = record { fds = s.fds; children = s.children ++ child ∷ [] } in
    let next =
      start-Accepted l others s' arrivals has d
        (All-append (Serves l) s.children (child ∷ []) c (child-Serves, tt)) u.1 in
    rw (close_new fd s.fds) (record {
      fds = next.fds;
      children =
          next.children
          ∙ ap (λ cs. cs ++ served arrivals) (serving-append s.children (child ∷ []))
          ∙ append_assoc (serving s.children) ((fd, client) ∷ []) (served arrivals);
      isolated = next.isolated;
    })
