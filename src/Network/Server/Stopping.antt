-- ===== src/Network/Server/Stopping.antt =====
-- What the sockets of a server hold once it has stopped.
use p2p_file_share.Base.{
  ℕ, ◌≡◌, refl, ap, ◌∙◌, ◌==◌, ◌&&◌, ◌||◌, Bool, false, Bool-cases, Option-cases, inl, inr, Option,
  none, some, List, [], ◌∷◌, if◌then◌else◌, arith, any, not,
}
use p2p_file_share.Network.Sockets.{Process, close_held, close_fd, disconnect}
use p2p_file_share.Network.Sockets.Ownership.{fd_at, fd_at-set_object, IsOwned, disconnect-IsOwned}
use p2p_file_share.Network.Server.{TcpServer, disconnect_all, stop}

fd_at-close_held : (x : Option ℕ) (p : Process) (b : ℕ) → fd_at (close_held x p) b ≡ fd_at p b
unfolding close_fd
fd_at-close_held none p b = refl
fd_at-close_held (some fd) p b = elim (Bool-cases (p.is_open fd)) [
  | inl e ↦ rw (close_fd, e) refl
  | inr e ↦ rw (close_fd, e) refl
]

fd_at-disconnect :
    (a b : ℕ) (p : Process) → fd_at (disconnect a p) b ≡ (if a == b then none else fd_at p b)
unfolding disconnect
fd_at-disconnect a b p = elim (Option-cases (p.object a)) [
  | inl e ↦ rw (disconnect, e) (ground (arith, e))
  | inr (s, e) ↦
      rw (disconnect, e)
        (fd_at-set_object a b (some (record s { socket_fd = none })) (close_held s.socket_fd p)
          ∙ ap (λ x. if a == b then none else x) (fd_at-close_held s.socket_fd p b))
]

-- Whether an address is among some.
abbrev pub among : ℕ → List ℕ → Bool
among b sockets = any (λ a. a == b) sockets

fd_at-disconnect_all :
    (sockets : List ℕ) (b : ℕ) (p : Process)
    → fd_at (disconnect_all sockets p) b ≡ (if among b sockets then none else fd_at p b)
unfolding disconnect_all any
fd_at-disconnect_all [] b p = refl
fd_at-disconnect_all (a ∷ sockets) b p =
    fd_at-disconnect_all sockets b (disconnect a p) ∙ ground (arith, fd_at-disconnect a b p)

-- Whether a descriptor is the one that an object holds, if it holds one.
abbrev pub holds : Option ℕ → ℕ → Bool
holds none fd = false
holds (some g) fd = g == fd

-- Whether one of some sockets holds a descriptor.
abbrev pub held_among : Process → ℕ → List ℕ → Bool
held_among p fd sockets = any (λ a. holds (fd_at p a) fd) sockets

is_open-close_held :
    (x : Option ℕ) (p : Process) (fd : ℕ)
    → (close_held x p).is_open fd ≡ (p.is_open fd && not (holds x fd))
unfolding close_fd
is_open-close_held none p fd = ground arith
is_open-close_held (some g) p fd = elim (Bool-cases (p.is_open g)) [
  | inl e ↦ rw (close_fd, e) (ground arith)
  | inr e ↦ rw (close_fd, e) (ground (arith, e))
]

is_open-disconnect :
    (a : ℕ) (p : Process) (fd : ℕ)
    → (disconnect a p).is_open fd ≡ (p.is_open fd && not (holds (fd_at p a) fd))
unfolding disconnect
is_open-disconnect a p fd = elim (Option-cases (p.object a)) [
  | inl e ↦ rw (disconnect, e) (ground arith)
  | inr (s, e) ↦ rw (disconnect, e) (is_open-close_held s.socket_fd p fd)
]

-- Once a socket is disconnected, the others hold what they held.
held_among-disconnect :
    (a : ℕ) (p : Process) (fd : ℕ) (sockets : List ℕ)
    → (holds (fd_at p a) fd || held_among (disconnect a p) fd sockets)
      ≡ (holds (fd_at p a) fd || held_among p fd sockets)
unfolding any
held_among-disconnect a p fd [] = refl
held_among-disconnect a p fd (b ∷ sockets) =
    let rest = held_among-disconnect a p fd sockets in
    elim (Bool-cases (a == b)) [
      | inl e ↦ rw (any, fd_at-disconnect a b p, e) (ground (arith, e, rest))
      | inr e ↦ rw (any, fd_at-disconnect a b p, e) (ground (arith, rest))
    ]

is_open-disconnect_all :
    (sockets : List ℕ) (p : Process) (fd : ℕ)
    → (disconnect_all sockets p).is_open fd ≡ (p.is_open fd && not (held_among p fd sockets))
unfolding disconnect_all any
is_open-disconnect_all [] p fd = ground arith
is_open-disconnect_all (a ∷ sockets) p fd =
    is_open-disconnect_all sockets (disconnect a p) fd
    ∙ ground (arith, is_open-disconnect a p fd, held_among-disconnect a p fd sockets)

disconnect_all-IsOwned :
    (sockets : List ℕ) (p : Process) → IsOwned p → IsOwned (disconnect_all sockets p)
unfolding disconnect_all
disconnect_all-IsOwned [] p w = w
disconnect_all-IsOwned (a ∷ sockets) p w =
    disconnect_all-IsOwned sockets (disconnect a p) (disconnect-IsOwned a p w)

stop-IsOwned : (sv : TcpServer) (p : Process) → IsOwned p → IsOwned (stop sv p).1
unfolding stop disconnect_all
stop-IsOwned sv p w = elim (Bool-cases sv.running) [
  | inl e ↦ rw e (disconnect_all-IsOwned (sv.socket ∷ sv.clients) p w)
  | inr e ↦ rw e w
]

stop_twice :
    (sv : TcpServer) (p : Process)
    → ((stop sv p).0.running ≡ false) × (stop (stop sv p).0 (stop sv p).1 ≡ stop sv p)
unfolding stop
stop_twice sv p = elim (Bool-cases sv.running) [
  | inl e ↦ simp e (refl, refl)
  | inr e ↦ simp e (refl, refl)
]

-- For a process whose sockets own their descriptors: a server that runs and stops has taken the
-- descriptors from its own socket and from those of its clients, and from no other, and of the
-- descriptors that were open it has closed those that they held, and no other; one that does not run
-- leaves every socket and every descriptor as it is. Either way the sockets own their descriptors, so
-- that none was closed that was not open, the server does not run, and stopping it again changes nothing.
pub stop_lem :
    (sv : TcpServer) (p : Process) (a fd : ℕ)
    → IsOwned p
    → (fd_at (stop sv p).1 a
        ≡ (if sv.running && (sv.socket == a || among a sv.clients) then none else fd_at p a))
      × ((stop sv p).1.is_open fd
          ≡ (p.is_open fd && not (sv.running && held_among p fd (sv.socket ∷ sv.clients))))
      × IsOwned (stop sv p).1
      × ((stop sv p).0.running ≡ false)
      × (stop (stop sv p).0 (stop sv p).1 ≡ stop sv p)
unfolding stop disconnect_all
stop_lem sv p a fd w = elim (Bool-cases sv.running) [
  | inl e ↦ (
    rw e (fd_at-disconnect_all (sv.socket ∷ sv.clients) a p ∙ unfold any in (ground arith)),
    rw e (is_open-disconnect_all (sv.socket ∷ sv.clients) p fd ∙ ground arith),
    stop-IsOwned sv p w,
    (stop_twice sv p).0,
    (stop_twice sv p).1,
  )
  | inr e ↦ (
    rw e refl,
    rw e (ground arith),
    stop-IsOwned sv p w,
    (stop_twice sv p).0,
    (stop_twice sv p).1,
  )
]
