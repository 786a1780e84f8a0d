-- ===== src/Network/Address.antt =====
-- src/network/tcp_socket.cpp: bind, listen, connect, the addresses, and the flags of a socket. A call of
-- the system fails with an `errno`, or does not. inet_aton, inet_addr, inet_ntoa, htons and ntohs are
-- arguments.
use p2p_file_share.Base.{
  ℕ, ◌+◌, ◌-◌, ◌/◌, ◌%◌, ◌≡◌, refl, ◌==◌, Bool, true, false, Bool-cases, inl, inr, Option, none,
  some, if◌then◌else◌, arith, Text, is_empty, Checked, ok, throws, network_error,
}
use p2p_file_share.Network.Socket.{Errno, unset, connect_error}
use p2p_file_share.Network.Sockets.{SocketAddress, pf_inet, TcpSocket}

-- The errors of bind, getsockname and listen.
abbrev call_error : Option Errno → Checked Bool
call_error none = ok true
call_error (some unset) = ok true
call_error (some e) = throws network_error

-- The library's functions on addresses.
pub record Inet : Type 0 where
  pub inet_aton : Text → Option ℕ
  pub inet_addr : Text → ℕ
  pub inet_ntoa : ℕ → Text
  pub htons : ℕ → ℕ
  pub ntohs : ℕ → ℕ

-- INADDR_ANY is 0. An address that is not one leaves the port as it was.
unfoldable pub bind_address : Inet → Text → ℕ → TcpSocket → Checked TcpSocket
bind_address net ip port s =
    let bound = λ (a : ℕ). record s {
      local_address = record s.local_address { address = a; port = net.htons port };
    } in
    if is_empty ip
    then ok (bound 0)
    else elim (net.inet_aton ip) [ none ↦ throws network_error | some a ↦ ok (bound a) ]

-- What `::bind` comes to, and what `::getsockname` writes and comes to.
unfoldable pub bind :
    Inet
    → Text
    → ℕ
    → Option Errno
    → SocketAddress
    → Option Errno
    → TcpSocket
    → TcpSocket × Checked Bool
unfolding bind_address
bind net ip port bound name named s = elim (bind_address net ip port s) [
  | throws e ↦ (s, throws e)
  | ok s' ↦ elim (call_error bound) [
    | throws e ↦ (s', throws e)
    | ok _ ↦ (record s' { local_address = name }, call_error named)
  ]
]

unfoldable pub listen : Option Errno → Checked Bool
listen listened = call_error listened

unfoldable pub connect : Inet → Text → ℕ → Option Errno → TcpSocket → TcpSocket × Checked Bool
unfolding connect_error
connect net ip port connected s = (
  record s {
    peer_address = record { family = pf_inet; address = net.inet_addr ip; port = net.htons port };
  },
  elim connected [ none ↦ ok true | some e ↦ connect_error e ],
)

unfoldable pub get_peer_ip : Inet → TcpSocket → Text
get_peer_ip net s = net.inet_ntoa s.peer_address.address

unfoldable pub get_peer_port : Inet → TcpSocket → ℕ
get_peer_port net s = net.ntohs s.peer_address.port

unfoldable pub get_local_ip : Inet → TcpSocket → Text
get_local_ip net s = net.inet_ntoa s.local_address.address

unfoldable pub get_local_port : Inet → TcpSocket → ℕ
get_local_port net s = net.ntohs s.local_address.port

-- O_NONBLOCK is one bit of the flags.
abbrev pub o_nonblock : ℕ
o_nonblock = 2048

abbrev pub has_nonblock : ℕ → Bool
has_nonblock flags = (flags / o_nonblock) % 2 == 1

unfoldable pub nonblock_flags : Bool → ℕ → ℕ
nonblock_flags non_blocking flags =
    if non_blocking
    then if has_nonblock flags then flags else flags + o_nonblock
    else if has_nonblock flags
    then flags - o_nonblock
    else flags

-- What F_GETFL gives, and whether F_SETFL takes the new flags: the flags afterwards, and the result.
unfoldable pub set_non_blocking : Option ℕ → Bool → Bool → Option ℕ × Bool
unfolding nonblock_flags
set_non_blocking none taken non_blocking = (none, false)
set_non_blocking (some flags) taken non_blocking =
    (some (if taken then nonblock_flags non_blocking flags else flags), taken)

-- The flags that are written have the bit as it was asked for, and no other bit is changed.
pub nonblock_flags_lem :
    (non_blocking : Bool) (flags : ℕ)
    → (has_nonblock (nonblock_flags non_blocking flags) ≡ non_blocking)
      × (nonblock_flags non_blocking flags % o_nonblock ≡ flags % o_nonblock)
      × (nonblock_flags non_blocking flags / 4096 ≡ flags / 4096)
unfolding nonblock_flags
nonblock_flags_lem true flags = elim (Bool-cases (has_nonblock flags)) [
  | inl e ↦ rw e (e, refl, refl)
  | inr e ↦ rw e (ground (arith, e), ground (arith, e), ground (arith, e))
]
nonblock_flags_lem false flags = elim (Bool-cases (has_nonblock flags)) [
  | inl e ↦ rw e (ground (arith, e), ground (arith, e), ground (arith, e))
  | inr e ↦ rw e (e, refl, refl)
]
