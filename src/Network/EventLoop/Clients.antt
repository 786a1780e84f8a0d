-- ===== src/Network/EventLoop/Clients.antt =====
-- The clients of a server, and the sockets that it waits on.
use p2p_file_share.Base.{
  ℕ, ◌≤◌, ◌≡◌, refl, ◌==◌, true, false, ◌||◌, List, [], ◌∷◌, ◌++◌, if◌then◌else◌, arith, Text, ltb,
  length, length-append, any, Checked, ok, throws, Exception, network_error, would_block,
  connection_closed, inl, inr, Bool-cases,
}
use p2p_file_share.Network.EventLoop.{
  EventLoop, Handled, kept, closed, raised, has_fd, clear, erase_client, admit_client, drop_client,
  catch_error, serve_client, Input, request, message, serve_input, serve_requests,
}

abbrev pub Distinct : List ℕ → Type 0
Distinct [] = Unit
Distinct (f ∷ fds) = (has_fd fds f ≡ false) × Distinct fds

has_fd-append : (fds : List ℕ) (g x : ℕ) → has_fd (fds ++ g ∷ []) x ≡ (has_fd fds x || g == x)
unfolding has_fd any
has_fd-append [] g x = ground arith
has_fd-append (f ∷ fds) g x = ground (arith, has_fd-append fds g x)

has_fd-clear :
    (fd x : ℕ) (fds : List ℕ) → has_fd (clear fd fds) x ≡ (if fd == x then false else has_fd fds x)
unfolding has_fd any clear
has_fd-clear fd x [] = ground arith
has_fd-clear fd x (f ∷ fds) = ground (arith, has_fd-clear fd x fds)

has_fd-same : (fds : List ℕ) (f g : ℕ) → f ≡ g → has_fd fds f ≡ has_fd fds g
has_fd-same fds f g e = rw e

has_fd-erase_client :
    (fd x : ℕ) (fds : List ℕ)
    → Distinct fds
    → has_fd (erase_client fd fds) x ≡ (if fd == x then false else has_fd fds x)
unfolding has_fd any erase_client
has_fd-erase_client fd x [] d = ground arith
has_fd-erase_client fd x (f ∷ fds) d =
    ground (arith, d.0, has_fd-same fds f x, has_fd-erase_client fd x fds d.1)

length-erase_client : (fd : ℕ) (fds : List ℕ) → length (erase_client fd fds) ≤ length fds
unfolding erase_client
length-erase_client fd [] = omega arith
length-erase_client fd (f ∷ fds) = ground (arith, length-erase_client fd fds)

Distinct-erase_client : (fd : ℕ) (fds : List ℕ) → Distinct fds → Distinct (erase_client fd fds)
unfolding erase_client
Distinct-erase_client fd [] d = tt
Distinct-erase_client fd (f ∷ fds) d = elim (Bool-cases (f == fd)) [
  | inl e ↦ rw e (d.1)
  | inr e ↦
      rw e (ground (arith, d.0, has_fd-erase_client fd f fds d.1), Distinct-erase_client fd fds d.1)
]

Distinct-append :
    (fd : ℕ) (fds : List ℕ) → Distinct fds → has_fd fds fd ≡ false → Distinct (fds ++ fd ∷ [])
unfolding has_fd any
Distinct-append fd [] d h = (refl, tt)
Distinct-append fd (f ∷ fds) d h =
    (ground (arith, has_fd-append fds fd f, d.0, h), Distinct-append fd fds d.1 (ground (arith, h)))

-- There are at most so many clients, no descriptor stands twice or is the server's own, and the
-- sockets waited on are the server's own and the clients'.
pub record IsLoop (max_connections own : ℕ) (loop : EventLoop) : Type 0 where
  pub bounded : length loop.clients ≤ max_connections
  pub distinct : Distinct loop.clients
  pub apart : has_fd loop.clients own ≡ false
  pub tracked : (x : ℕ) → has_fd loop.active x ≡ (own == x || has_fd loop.clients x)

module _ (max_connections own : ℕ) where
  drop_client-IsLoop :
      (fd : ℕ) (loop : EventLoop)
      → IsLoop max_connections own loop
      → has_fd loop.clients fd ≡ true
      → IsLoop max_connections own (drop_client fd loop)
  unfolding drop_client
  drop_client-IsLoop fd loop v h = record {
    bounded = omega (arith, v.bounded, length-erase_client fd loop.clients);
    distinct = Distinct-erase_client fd loop.clients v.distinct;
    apart = ground (arith, v.apart, has_fd-erase_client fd own loop.clients v.distinct);
    tracked = λ x. ground (
      arith,
      v.apart,
      h,
      has_fd-same loop.clients fd own,
      v.tracked x,
      has_fd-clear fd x loop.active,
      has_fd-erase_client fd x loop.clients v.distinct,
    );
  }

  catch_error-IsLoop :
      (fd : ℕ) (e : Exception) (loop : EventLoop)
      → IsLoop max_connections own loop
      → has_fd loop.clients fd ≡ true
      → IsLoop max_connections own (catch_error fd e loop).0
  unfolding catch_error
  catch_error-IsLoop fd would_block loop v h = v
  catch_error-IsLoop fd connection_closed loop v h = drop_client-IsLoop fd loop v h
  catch_error-IsLoop fd network_error loop v h = drop_client-IsLoop fd loop v h
  catch_error-IsLoop fd e loop v h = v

  admit_client-IsLoop :
      (fd : ℕ) (loop : EventLoop)
      → IsLoop max_connections own loop
      → has_fd loop.active fd ≡ false
      → IsLoop max_connections own (admit_client max_connections (ok fd) loop).0
  unfolding admit_client
  admit_client-IsLoop fd loop v h = elim (Bool-cases (ltb (length loop.clients) max_connections)) [
    | inr full ↦ rw full v
    | inl room ↦
        let out : has_fd loop.clients fd ≡ false = ground (arith, v.tracked fd) in
        rw (room, h)
          (record {
            bounded = ground (arith, room, length-append loop.clients (fd ∷ []));
            distinct = Distinct-append fd loop.clients v.distinct out;
            apart = ground (arith, v.apart, has_fd-append loop.clients fd own, v.tracked fd);
            tracked = λ x. ground (
              arith,
              v.tracked x,
              has_fd-append loop.clients fd x,
              has_fd-append loop.active fd x,
            );
          })
  ]

  serve_client-IsLoop :
      (fd : ℕ) (received : Checked Text) (on_data : Text → Handled) (loop : EventLoop)
      → IsLoop max_connections own loop
      → IsLoop max_connections own (serve_client fd received on_data loop).0
  unfolding serve_client
  serve_client-IsLoop fd received on_data loop v = elim (Bool-cases (has_fd loop.clients fd)) [
    | inr e ↦ rw (serve_client, e) v
    | inl e ↦ known received e
  ]
    where
      by_handled :
          (h : Handled)
          → has_fd loop.clients fd ≡ true
          → IsLoop max_connections own
              (elim h as (λ _. EventLoop × Checked (Unit {0})) [
                | kept ↦ (loop, ok tt)
                | closed ↦ (drop_client fd loop, ok tt)
                | raised e ↦ catch_error fd e loop
              ]).0
      by_handled kept e = v
      by_handled closed e = drop_client-IsLoop fd loop v e
      by_handled (raised x) e = catch_error-IsLoop fd x loop v e

      known :
          (c : Checked Text)
          → has_fd loop.clients fd ≡ true
          → IsLoop max_connections own (serve_client fd c on_data loop).0
      known (throws x) e = rw (serve_client, e) (catch_error-IsLoop fd x loop v e)
      known (ok []) e = rw (serve_client, e) v
      known (ok (a ∷ text)) e = rw (serve_client, e) (by_handled (on_data (a ∷ text)) e)

  -- The loop goes on or stops.
  step :
      (i : Input) (inputs : List Input) (loop : EventLoop)
      → IsLoop max_connections own (serve_input max_connections i loop).0
      → IsLoop max_connections own
          (serve_requests max_connections inputs (serve_input max_connections i loop).0).0
      → IsLoop max_connections own (serve_requests max_connections (i ∷ inputs) loop).0
  unfolding serve_requests
  step i inputs loop now later = ended (serve_input max_connections i loop).1
    where
      ended :
          (c : Checked (Unit {0}))
          → IsLoop max_connections own
              (elim c as (λ _. EventLoop × Checked (Unit {0})) [
                | throws e ↦ ((serve_input max_connections i loop).0, throws e)
                | ok _ ↦
                    serve_requests max_connections inputs (serve_input max_connections i loop).0
              ]).0
      ended (throws e) = now
      ended (ok u) = later

  -- Each accepted descriptor is not among the sockets waited on when it comes, as it is not open.
  abbrev pub IsFresh : List Input → EventLoop → Type 0
  IsFresh [] loop = Unit
  IsFresh (request (ok fd) ∷ inputs) loop =
      (has_fd loop.active fd ≡ false)
      × IsFresh inputs (serve_input max_connections (request (ok fd)) loop).0
  IsFresh (i ∷ inputs) loop = IsFresh inputs (serve_input max_connections i loop).0

  -- Whatever the sockets and the callbacks do, if each accepted descriptor is new: a server that keeps
  -- at most so many clients, none of them twice, and waits on its own socket and on theirs and no other
  -- goes on to do so.
  pub serve_requests-IsLoop :
      (inputs : List Input) (loop : EventLoop)
      → IsLoop max_connections own loop
      → IsFresh inputs loop
      → IsLoop max_connections own (serve_requests max_connections inputs loop).0
  unfolding serve_input
  serve_requests-IsLoop [] loop v f = unfold serve_requests in v
  serve_requests-IsLoop (request (throws e) ∷ inputs) loop v f = unfold serve_requests in v
  serve_requests-IsLoop (request (ok fd) ∷ inputs) loop v f =
      let now = admit_client-IsLoop fd loop v f.0 in
      step (request (ok fd)) inputs loop now (serve_requests-IsLoop inputs _ now f.1)
  serve_requests-IsLoop (message fd received on_data ∷ inputs) loop v f =
      let now = serve_client-IsLoop fd received on_data loop v in
      step (message fd received on_data) inputs loop now (serve_requests-IsLoop inputs _ now f)
