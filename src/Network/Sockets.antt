-- ===== src/Network/Sockets.antt =====
-- src/network/tcp_socket.cpp and tcp_socket.hpp: the objects of TCPSocket and the descriptors they hold.
-- Objects are known by their addresses. What a system call gives is an argument of the function that
-- makes the call.
pub mod Ownership
pub mod Leaks
use p2p_file_share.Base.{
  ℕ, ◌+◌, ◌-◌, ◌/◌, ◌%◌, ◌==◌, Bool, true, false, not, Option, none, some, if◌then◌else◌, Text,
  is_empty, Checked, ok, throws, network_error, would_block,
}
use p2p_file_share.Network.Socket.{Errno, unset, no_data, connect_error}

-- struct sockaddr_in, with the port in network order
pub record SocketAddress : Type 0 where
  pub family : ℕ
  pub address : ℕ
  pub port : ℕ

abbrev pub no_address : SocketAddress
no_address = record { family = 0; address = 0; port = 0 }

-- PF_INET
abbrev pub pf_inet : ℕ
pf_inet = 2

-- A descriptor of -1 is `none`.
pub record TcpSocket : Type 0 where
  pub socket_fd : Option ℕ
  pub local_address : SocketAddress
  pub peer_address : SocketAddress

-- The process: its objects, its open descriptors, and how often it has closed one that was not open.
pub record Process : Type 0 where
  pub object : ℕ → Option TcpSocket
  pub is_open : ℕ → Bool
  pub bad_closes : ℕ

-- A descriptor from `::socket` or `::accept`, or -1 and `errno`.
pub data Opened : Type 0 where
  descriptor : ℕ → Opened
  unopened : Errno → Opened

abbrev pub set_object : ℕ → Option TcpSocket → Process → Process
set_object a o p = record p { object = λ b. if a == b then o else p.object b }

abbrev pub open_fd : ℕ → Process → Process
open_fd fd p = record p { is_open = λ f. if fd == f then true else p.is_open f }

unfoldable pub close_fd : ℕ → Process → Process
close_fd fd p =
    if p.is_open fd
    then record p { is_open = λ f. if fd == f then false else p.is_open f }
    else record p { bad_closes = p.bad_closes + 1 }

abbrev pub close_held : Option ℕ → Process → Process
close_held none p = p
close_held (some fd) p = close_fd fd p

abbrev fresh_socket : Option ℕ → TcpSocket
fresh_socket fd = record {
  socket_fd = fd;
  local_address = record no_address { family = pf_inet };
  peer_address = no_address;
}

-- TCPSocket()
unfoldable pub construct : Opened → ℕ → Process → Process × Checked (Unit {0})
construct (descriptor fd) a p = (set_object a (some (fresh_socket (some fd))) (open_fd fd p), ok tt)
construct (unopened unset) a p = (set_object a (some (fresh_socket none)) p, ok tt)
construct (unopened e) a p = (p, throws network_error)

-- ~TCPSocket()
unfoldable pub destroy : ℕ → Process → Process
unfolding close_fd
destroy a p = elim (p.object a) [ none ↦ p | some s ↦ set_object a none (close_held s.socket_fd p) ]

abbrev pub moved_from : TcpSocket → TcpSocket
moved_from s = record { socket_fd = none; local_address = no_address; peer_address = no_address }

-- TCPSocket(TCPSocket &&src) into a new object, and operator=(TCPSocket &&src), which may be called with
-- the object itself: both write the target first, then the source.
unfoldable pub move_into : ℕ → ℕ → Process → Process
move_into a src p = elim (p.object src) [
  | none ↦ p
  | some s ↦
      let p' = set_object a (some s) p in
      elim (p'.object src) [ none ↦ p' | some s' ↦ set_object src (some (moved_from s')) p' ]
]

unfoldable pub disconnect : ℕ → Process → Process
unfolding close_fd
disconnect a p = elim (p.object a) [
  | none ↦ p
  | some s ↦ set_object a (some (record s { socket_fd = none })) (close_held s.socket_fd p)
]

-- What the call of `::accept` makes of the object at `a`. An exception destroys the object.
unfoldable pub accepted_as : Opened → SocketAddress → ℕ → Process → Process × Checked (Unit {0})
unfolding destroy
accepted_as (descriptor fd) peer a p = (
  set_object a (some (record (fresh_socket (some fd)) { peer_address = peer })) (open_fd fd p),
  ok tt,
)
accepted_as (unopened e) peer a p =
    let q = set_object a (some (record (fresh_socket none) { peer_address = peer })) p in
    elim e [
      | unset ↦ (q, ok tt)
      | no_data ↦ (destroy a q, throws would_block)
      | _ ↦ (destroy a q, throws network_error)
    ]

-- accept: a socket is made at `a`, and then its descriptor is replaced by what `::accept` gives.
unfoldable pub accept : Opened → Opened → SocketAddress → ℕ → Process → Process × Checked (Unit {0})
unfolding construct accepted_as
accept made accepted peer a p =
    let p' = (construct made a p).0 in
    elim (construct made a p).1 [
      | throws e ↦ (p', throws e)
      | ok _ ↦ accepted_as accepted peer a p'
    ]
