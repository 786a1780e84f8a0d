-- ===== src/Network/Sockets/Ownership.antt =====
-- Which object holds which descriptor.
use p2p_file_share.Base.{
  ℕ, ◌≡◌, refl, ap, ◌==◌, true, false, Bool-cases, inl, inr, Option, none, some, Option-cases,
  if◌then◌else◌, arith, Checked, ok, throws,
}
use p2p_file_share.Network.Socket.{Errno, unset, no_data}
use p2p_file_share.Network.Sockets.{
  TcpSocket, Process, Opened, descriptor, unopened, SocketAddress, set_object, open_fd, close_fd,
  close_held, fresh_socket, moved_from, construct, destroy, move_into, disconnect, accepted_as,
  accept,
}

abbrev pub fd_of : Option TcpSocket → Option ℕ
fd_of none = none
fd_of (some s) = s.socket_fd

abbrev pub fd_at : Process → ℕ → Option ℕ
fd_at p a = fd_of (p.object a)

-- A descriptor that an object holds is open and no other object holds it, and none was closed twice.
pub record IsOwned (p : Process) : Type 0 where
  pub held : (a fd : ℕ) → fd_at p a ≡ some fd → p.is_open fd ≡ true
  pub alone : (a b fd : ℕ) → fd_at p a ≡ some fd → fd_at p b ≡ some fd → a ≡ b
  pub closed_once : p.bad_closes ≡ 0

pub fd_at-set_object :
    (a b : ℕ) (o : Option TcpSocket) (p : Process)
    → fd_at (set_object a o p) b ≡ (if a == b then fd_of o else fd_at p b)
fd_at-set_object a b o p = elim (Bool-cases (a == b)) [ inl e ↦ rw e refl | inr e ↦ rw e refl ]

-- An object gets a descriptor that was not open.
give-IsOwned :
    (a fd : ℕ) (s : TcpSocket) (p : Process)
    → s.socket_fd ≡ some fd
    → p.is_open fd ≡ false
    → IsOwned p
    → IsOwned (set_object a (some s) (open_fd fd p))
give-IsOwned a fd s p e closed w = record {
  held = λ b g h. ground (arith, e, closed, w.held b g, h, fd_at-set_object a b (some s) p);
  alone = λ b c g h k. ground (
    arith,
    e,
    closed,
    w.held b g,
    w.held c g,
    w.alone b c g,
    h,
    k,
    fd_at-set_object a b (some s) p,
    fd_at-set_object a c (some s) p,
  );
  closed_once = w.closed_once;
}

-- An object holds none any more, whether its descriptor is closed or not.
drop-IsOwned :
    (a : ℕ) (o : Option TcpSocket) (p : Process)
    → fd_of o ≡ none
    → IsOwned p
    → IsOwned (set_object a o p)
drop-IsOwned a o p e w = record {
  held = λ b g h. ground (arith, e, w.held b g, h, fd_at-set_object a b o p);
  alone = λ b c g h k.
      ground (arith, e, w.alone b c g, h, k, fd_at-set_object a b o p, fd_at-set_object a c o p);
  closed_once = w.closed_once;
}

close-IsOwned :
    (a : ℕ) (o : Option TcpSocket) (x : Option ℕ) (p : Process)
    → fd_of o ≡ none
    → fd_at p a ≡ x
    → IsOwned p
    → IsOwned (set_object a o (close_held x p))
unfolding close_fd
close-IsOwned a o none p e k w = drop-IsOwned a o p e w
close-IsOwned a o (some fd) p e k w =
    rw (close_fd, w.held a fd k)
      (record {
        held = λ b g h.
            ground (arith, e, k, w.held b g, w.alone a b fd k, h, fd_at-set_object a b o p);
        alone = λ b c g h l.
            ground
              (arith, e, w.alone b c g, h, l, fd_at-set_object a b o p, fd_at-set_object a c o p);
        closed_once = w.closed_once;
      })

-- A descriptor passes from one object to another.
pass-IsOwned :
    (a src : ℕ) (s t : TcpSocket) (p : Process)
    → p.object src ≡ some s
    → t.socket_fd ≡ none
    → IsOwned p
    → IsOwned (set_object src (some t) (set_object a (some s) p))
pass-IsOwned a src s t p e n w =
    let q = set_object a (some s) p in
    record {
      held = λ b g h. ground (
        arith,
        e,
        n,
        w.held b g,
        w.held src g,
        h,
        fd_at-set_object src b (some t) q,
        fd_at-set_object a b (some s) p,
      );
      alone = λ b c g h l. ground (
        arith,
        e,
        n,
        w.alone b c g,
        w.alone src b g,
        w.alone src c g,
        h,
        l,
        fd_at-set_object src b (some t) q,
        fd_at-set_object a b (some s) p,
        fd_at-set_object src c (some t) q,
        fd_at-set_object a c (some s) p,
      );
      closed_once = w.closed_once;
    }

-- A descriptor that the system gives was not open.
abbrev pub IsNew : Opened → Process → Type 0
IsNew (descriptor fd) p = p.is_open fd ≡ false
IsNew (unopened e) p = Unit

-- What the program does with its sockets. New objects stand at addresses with none; a move may go to an
-- address with an object, also to the one that it comes from.
pub data Step : Process → Process → Type 0 where
  constructs :
      (made : Opened) (a : ℕ) (p : Process)
      → p.object a ≡ none
      → IsNew made p
      → Step p (construct made a p).0
  destroys : (a : ℕ) (p : Process) → Step p (destroy a p)
  moves : (a src : ℕ) (p : Process) → Step p (move_into a src p)
  disconnects : (a : ℕ) (p : Process) → Step p (disconnect a p)
  accepts :
      (made accepted : Opened) (peer : SocketAddress) (a : ℕ) (p : Process)
      → p.object a ≡ none
      → IsNew made p
      → IsNew accepted (construct made a p).0
      → Step p (accept made accepted peer a p).0

pub data Reaches (p : Process) : Process → Type 0 where
  here : Reaches p p
  next : {q r : Process} → Reaches p q → Step q r → Reaches p r

construct-IsOwned :
    (made : Opened) (a : ℕ) (p : Process)
    → IsNew made p
    → IsOwned p
    → IsOwned (construct made a p).0
unfolding construct
construct-IsOwned (descriptor fd) a p n w = give-IsOwned a fd (fresh_socket (some fd)) p refl n w
construct-IsOwned (unopened unset) a p n w = drop-IsOwned a (some (fresh_socket none)) p refl w
construct-IsOwned (unopened e) a p n w = w

destroy-IsOwned : (a : ℕ) (p : Process) → IsOwned p → IsOwned (destroy a p)
unfolding destroy
destroy-IsOwned a p w = elim (Option-cases (p.object a)) [
  | inl e ↦ rw (destroy, e) w
  | inr (s, e) ↦ rw (destroy, e) (close-IsOwned a none s.socket_fd p refl (ap fd_of e) w)
]

pub disconnect-IsOwned : (a : ℕ) (p : Process) → IsOwned p → IsOwned (disconnect a p)
unfolding disconnect
disconnect-IsOwned a p w = elim (Option-cases (p.object a)) [
  | inl e ↦ rw (disconnect, e) w
  | inr (s, e) ↦
      rw (disconnect, e)
        (close-IsOwned a (some (record s { socket_fd = none })) s.socket_fd p refl (ap fd_of e) w)
]

move_into-IsOwned : (a src : ℕ) (p : Process) → IsOwned p → IsOwned (move_into a src p)
unfolding move_into
move_into-IsOwned a src p w = elim (Option-cases (p.object src)) [
  | inl e ↦ rw (move_into, e) w
  | inr (s, e) ↦ elim (Bool-cases (a == src)) [
    | inl same ↦ rw (move_into, e, same) (pass-IsOwned a src s (moved_from s) p e refl w)
    | inr apart ↦ rw (move_into, e, apart, e) (pass-IsOwned a src s (moved_from s) p e refl w)
  ]
]

accepted_as-IsOwned :
    (accepted : Opened) (peer : SocketAddress) (a : ℕ) (p : Process)
    → IsNew accepted p
    → IsOwned p
    → IsOwned (accepted_as accepted peer a p).0
unfolding accepted_as
accepted_as-IsOwned (descriptor fd) peer a p n w =
    give-IsOwned a fd (record (fresh_socket (some fd)) { peer_address = peer }) p refl n w
accepted_as-IsOwned (unopened e) peer a p n w =
    let s = record (fresh_socket none) { peer_address = peer } in
    let q : IsOwned (set_object a (some s) p) = drop-IsOwned a (some s) p refl w in
    by_error e q (destroy-IsOwned a (set_object a (some s) p) q)
  where
    by_error :
        (e : Errno)
        → IsOwned (set_object a (some (record (fresh_socket none) { peer_address = peer })) p)
        → IsOwned
            (destroy a (set_object a (some (record (fresh_socket none) { peer_address = peer })) p))
        → IsOwned (accepted_as (unopened e) peer a p).0
    by_error unset q d = q
    by_error no_data q d = d
    by_error _ q d = d

accept-IsOwned :
    (made accepted : Opened) (peer : SocketAddress) (a : ℕ) (p : Process)
    → IsNew made p
    → IsNew accepted (construct made a p).0
    → IsOwned p
    → IsOwned (accept made accepted peer a p).0
unfolding accept
accept-IsOwned made accepted peer a p n m w =
    let made_owned = construct-IsOwned made a p n w in
    by_result (construct made a p).1 made_owned
      (accepted_as-IsOwned accepted peer a (construct made a p).0 m made_owned)
  where
    by_result :
        (r : Checked (Unit {0}))
        → IsOwned (construct made a p).0
        → IsOwned (accepted_as accepted peer a (construct made a p).0).0
        → IsOwned
            (elim r as (λ _. Process × Checked (Unit {0})) [
              | throws e ↦ ((construct made a p).0, throws e)
              | ok _ ↦ accepted_as accepted peer a (construct made a p).0
            ]).0
    by_result (throws e) x y = x
    by_result (ok _) x y = y

Step-IsOwned : {p q : Process} → Step p q → IsOwned p → IsOwned q
Step-IsOwned (constructs made a p free n) w = construct-IsOwned made a p n w
Step-IsOwned (destroys a p) w = destroy-IsOwned a p w
Step-IsOwned (moves a src p) w = move_into-IsOwned a src p w
Step-IsOwned (disconnects a p) w = disconnect-IsOwned a p w
Step-IsOwned (accepts made accepted peer a p free n m) w =
    accept-IsOwned made accepted peer a p n m w

-- However sockets are made, moved, accepted, disconnected and destroyed, if each descriptor that the
-- system gives was not open: the descriptor of an object is open, no two objects have the same, and none
-- is closed that is not open.
pub Reaches-IsOwned : {p q : Process} → Reaches p q → IsOwned p → IsOwned q
Reaches-IsOwned here w = w
Reaches-IsOwned (next r s) w = Step-IsOwned s (Reaches-IsOwned r w)
