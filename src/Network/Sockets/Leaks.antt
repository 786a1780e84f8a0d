-- ===== src/Network/Sockets/Leaks.antt =====
-- Descriptors that are open and that no object holds.
use p2p_file_share.Base.{
  ℕ, ◌≡◌, ◌≢◌, refl, ap, ◌==◌, true, false, Bool-cases, inl, inr, Option, none, some, Option-cases,
  arith, Checked, ok, throws,
}
use p2p_file_share.Network.Socket.{Errno, unset, no_data}
use p2p_file_share.Network.Sockets.{
  TcpSocket, Process, Opened, descriptor, unopened, SocketAddress, set_object, open_fd, close_fd,
  close_held, fresh_socket, moved_from, construct, destroy, move_into, disconnect, accepted_as,
  accept,
}
use p2p_file_share.Network.Sockets.Ownership.{
  fd_of, fd_at, fd_at-set_object, IsOwned, IsNew, Step, constructs, destroys, moves, disconnects,
  accepts, Reaches, here, next,
}

pub record IsLeaked (fd : ℕ) (p : Process) : Type 0 where
  pub still_open : p.is_open fd ≡ true
  pub unheld : (a : ℕ) → fd_at p a ≢ some fd

-- An object takes another descriptor, which was not open.
give-IsLeaked :
    (fd a g : ℕ) (s : TcpSocket) (p : Process)
    → s.socket_fd ≡ some g
    → p.is_open g ≡ false
    → IsLeaked fd p
    → IsLeaked fd (set_object a (some s) (open_fd g p))
give-IsLeaked fd a g s p e closed w = record {
  still_open = ground (arith, w.still_open);
  unheld = λ b h.
      ground (arith, e, closed, w.still_open, w.unheld b, h, fd_at-set_object a b (some s) p);
}

drop-IsLeaked :
    (fd a : ℕ) (o : Option TcpSocket) (p : Process)
    → fd_of o ≡ none
    → IsLeaked fd p
    → IsLeaked fd (set_object a o p)
drop-IsLeaked fd a o p e w = record {
  still_open = w.still_open;
  unheld = λ b h. ground (arith, e, w.unheld b, h, fd_at-set_object a b o p);
}

close-IsLeaked :
    (fd a : ℕ) (o : Option TcpSocket) (x : Option ℕ) (p : Process)
    → fd_of o ≡ none
    → fd_at p a ≡ x
    → IsLeaked fd p
    → IsLeaked fd (set_object a o (close_held x p))
unfolding close_fd
close-IsLeaked fd a o none p e k w = drop-IsLeaked fd a o p e w
close-IsLeaked fd a o (some g) p e k w = elim (Bool-cases (p.is_open g)) [
  | inl f ↦
      rw (close_fd, f)
        (record {
          still_open = ground (arith, w.still_open, w.unheld a, k);
          unheld = λ b h. ground (arith, e, w.unheld b, h, fd_at-set_object a b o p);
        })
  | inr f ↦
      rw (close_fd, f)
        (record {
          still_open = w.still_open;
          unheld = λ b h. ground (arith, e, w.unheld b, h, fd_at-set_object a b o p);
        })
]

pass-IsLeaked :
    (fd a src : ℕ) (s t : TcpSocket) (p : Process)
    → p.object src ≡ some s
    → t.socket_fd ≡ none
    → IsLeaked fd p
    → IsLeaked fd (set_object src (some t) (set_object a (some s) p))
pass-IsLeaked fd a src s t p e n w =
    let q = set_object a (some s) p in
    record {
      still_open = w.still_open;
      unheld = λ b h. ground (
        arith,
        e,
        n,
        w.unheld b,
        w.unheld src,
        h,
        fd_at-set_object src b (some t) q,
        fd_at-set_object a b (some s) p,
      );
    }

construct-IsLeaked :
    (fd : ℕ) (made : Opened) (a : ℕ) (p : Process)
    → IsNew made p
    → IsLeaked fd p
    → IsLeaked fd (construct made a p).0
unfolding construct
construct-IsLeaked fd (descriptor g) a p n w =
    give-IsLeaked fd a g (fresh_socket (some g)) p refl n w
construct-IsLeaked fd (unopened unset) a p n w =
    drop-IsLeaked fd a (some (fresh_socket none)) p refl w
construct-IsLeaked fd (unopened e) a p n w = w

destroy-IsLeaked : (fd a : ℕ) (p : Process) → IsLeaked fd p → IsLeaked fd (destroy a p)
unfolding destroy
destroy-IsLeaked fd a p w = elim (Option-cases (p.object a)) [
  | inl e ↦ rw (destroy, e) w
  | inr (s, e) ↦ rw (destroy, e) (close-IsLeaked fd a none s.socket_fd p refl (ap fd_of e) w)
]

disconnect-IsLeaked : (fd a : ℕ) (p : Process) → IsLeaked fd p → IsLeaked fd (disconnect a p)
unfolding disconnect
disconnect-IsLeaked fd a p w = elim (Option-cases (p.object a)) [
  | inl e ↦ rw (disconnect, e) w
  | inr (s, e) ↦
      rw (disconnect, e)
        (close-IsLeaked fd a (some (record s { socket_fd = none })) s.socket_fd p refl (ap fd_of e)
          w)
]

move_into-IsLeaked : (fd a src : ℕ) (p : Process) → IsLeaked fd p → IsLeaked fd (move_into a src p)
unfolding move_into
move_into-IsLeaked fd a src p w = elim (Option-cases (p.object src)) [
  | inl e ↦ rw (move_into, e) w
  | inr (s, e) ↦ elim (Bool-cases (a == src)) [
    | inl same ↦ rw (move_into, e, same) (pass-IsLeaked fd a src s (moved_from s) p e refl w)
    | inr apart ↦ rw (move_into, e, apart, e) (pass-IsLeaked fd a src s (moved_from s) p e refl w)
  ]
]

-- The object at `a`, whose descriptor is replaced, may hold the one that is leaked.
pub record IsCovered (fd a : ℕ) (p : Process) : Type 0 where
  pub still_open : p.is_open fd ≡ true
  pub unheld : (b : ℕ) → (a == b) ≡ false → fd_at p b ≢ some fd

cover-give :
    (fd a g : ℕ) (s : TcpSocket) (p : Process)
    → s.socket_fd ≡ some g
    → p.is_open g ≡ false
    → IsCovered fd a p
    → IsLeaked fd (set_object a (some s) (open_fd g p))
cover-give fd a g s p e closed w = record {
  still_open = ground (arith, w.still_open);
  unheld = λ b h.
      ground (arith, e, closed, w.still_open, w.unheld b, h, fd_at-set_object a b (some s) p);
}

cover-drop :
    (fd a : ℕ) (o : Option TcpSocket) (p : Process)
    → fd_of o ≡ none
    → IsCovered fd a p
    → IsLeaked fd (set_object a o p)
cover-drop fd a o p e w = record {
  still_open = w.still_open;
  unheld = λ b h. ground (arith, e, w.unheld b, h, fd_at-set_object a b o p);
}

accepted_as-IsLeaked :
    (fd : ℕ) (accepted : Opened) (peer : SocketAddress) (a : ℕ) (p : Process)
    → IsNew accepted p
    → IsCovered fd a p
    → IsLeaked fd (accepted_as accepted peer a p).0
unfolding accepted_as
accepted_as-IsLeaked fd (descriptor g) peer a p n w =
    cover-give fd a g (record (fresh_socket (some g)) { peer_address = peer }) p refl n w
accepted_as-IsLeaked fd (unopened e) peer a p n w =
    let s = record (fresh_socket none) { peer_address = peer } in
    let q : IsLeaked fd (set_object a (some s) p) = cover-drop fd a (some s) p refl w in
    by_error e q (destroy-IsLeaked fd a (set_object a (some s) p) q)
  where
    by_error :
        (e : Errno)
        → IsLeaked fd (set_object a (some (record (fresh_socket none) { peer_address = peer })) p)
        → IsLeaked fd
            (destroy a (set_object a (some (record (fresh_socket none) { peer_address = peer })) p))
        → IsLeaked fd (accepted_as (unopened e) peer a p).0
    by_error unset q d = q
    by_error no_data q d = d
    by_error _ q d = d

covered : (fd a : ℕ) (p : Process) → IsLeaked fd p → IsCovered fd a p
covered fd a p w = record { still_open = w.still_open; unheld = λ b e. w.unheld b }

accept-IsLeaked :
    (fd : ℕ) (made accepted : Opened) (peer : SocketAddress) (a : ℕ) (p : Process)
    → IsNew made p
    → IsNew accepted (construct made a p).0
    → IsLeaked fd p
    → IsLeaked fd (accept made accepted peer a p).0
unfolding accept
accept-IsLeaked fd made accepted peer a p n m w =
    let x = construct-IsLeaked fd made a p n w in
    by_result (construct made a p).1 x (
      accepted_as-IsLeaked fd accepted peer a (construct made a p).0 m
        (covered fd a (construct made a p).0 x))
  where
    by_result :
        (r : Checked (Unit {0}))
        → IsLeaked fd (construct made a p).0
        → IsLeaked fd (accepted_as accepted peer a (construct made a p).0).0
        → IsLeaked fd
            (elim r as (λ _. Process × Checked (Unit {0})) [
              | throws e ↦ ((construct made a p).0, throws e)
              | ok _ ↦ accepted_as accepted peer a (construct made a p).0
            ]).0
    by_result (throws e) x y = x
    by_result (ok _) x y = y

Step-IsLeaked : (fd : ℕ) {p q : Process} → Step p q → IsLeaked fd p → IsLeaked fd q
Step-IsLeaked fd (constructs made a p free n) w = construct-IsLeaked fd made a p n w
Step-IsLeaked fd (destroys a p) w = destroy-IsLeaked fd a p w
Step-IsLeaked fd (moves a src p) w = move_into-IsLeaked fd a src p w
Step-IsLeaked fd (disconnects a p) w = disconnect-IsLeaked fd a p w
Step-IsLeaked fd (accepts made accepted peer a p free n m) w =
    accept-IsLeaked fd made accepted peer a p n m w

Reaches-IsLeaked : (fd : ℕ) {p q : Process} → Reaches p q → IsLeaked fd p → IsLeaked fd q
Reaches-IsLeaked fd here w = w
Reaches-IsLeaked fd (next r s) w = Step-IsLeaked fd s (Reaches-IsLeaked fd r w)

made-IsCovered :
    (fd a : ℕ) (p : Process)
    → p.is_open fd ≡ false
    → IsOwned p
    → IsCovered fd a (construct (descriptor fd) a p).0
unfolding construct
made-IsCovered fd a p n w = record {
  still_open = ground arith;
  unheld = λ b apart h.
      ground
        (arith, apart, n, w.held b fd, h, fd_at-set_object a b (some (fresh_socket (some fd))) p);
}

-- Whatever comes of a call of accept, the descriptor of the socket that it makes first stays open as long
-- as the process runs, and no object ever holds it again, if each descriptor that the system gives was
-- not open.
pub accept_leaks :
    (fd a : ℕ) (accepted : Opened) (peer : SocketAddress) (p q : Process)
    → IsOwned p
    → p.is_open fd ≡ false
    → IsNew accepted (construct (descriptor fd) a p).0
    → Reaches (accept (descriptor fd) accepted peer a p).0 q
    → IsLeaked fd q
unfolding accept construct
accept_leaks fd a accepted peer p q w n m r = Reaches-IsLeaked fd r (
    accepted_as-IsLeaked fd accepted peer a (construct (descriptor fd) a p).0 m
      (made-IsCovered fd a p n w))
