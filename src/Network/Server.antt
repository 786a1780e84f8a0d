-- ===== src/Network/Server.antt =====
-- src/network/tcp_server.cpp: the start and the stop of a server.
pub mod Stopping
use p2p_file_share.Base.{ℕ, Bool, true, false, List, [], ◌∷◌, if◌then◌else◌, Checked, ok, throws}
use p2p_file_share.Network.EventLoop.{capped}
use p2p_file_share.Network.Sockets.{Process, disconnect, destroy}

-- The server's own socket and those of its clients are known by their addresses.
pub record TcpServer : Type 0 where
  pub socket : ℕ
  pub running : Bool
  pub max_connections : ℕ
  pub clients : List ℕ

unfoldable pub new_server : ℕ → ℕ → TcpServer
unfolding capped
new_server socket max_connections = record {
  socket = socket;
  running = false;
  max_connections = capped max_connections;
  clients = [];
}

-- What bind and listen come to.
unfoldable pub start : Checked Bool → Checked Bool → TcpServer → TcpServer × Checked Bool
start (throws e) listened sv = (sv, throws e)
start (ok false) listened sv = (sv, ok false)
start (ok true) (throws e) sv = (sv, throws e)
start (ok true) (ok false) sv = (sv, ok false)
start (ok true) (ok true) sv = (record sv { running = true }, ok true)

unfoldable pub disconnect_all : List ℕ → Process → Process
disconnect_all [] p = p
disconnect_all (a ∷ sockets) p = disconnect_all sockets (disconnect a p)

-- The thread has ended once it is joined.
unfoldable pub stop : TcpServer → Process → TcpServer × Process
unfolding disconnect_all
stop sv p =
    if sv.running
    then (record sv { running = false }, disconnect_all sv.clients (disconnect sv.socket p))
    else (sv, p)

-- ~TCPServer(), and what it holds: the socket, and the clients, each held by nothing else.
unfoldable pub destroy_all : List ℕ → Process → Process
destroy_all [] p = p
destroy_all (a ∷ sockets) p = destroy_all sockets (destroy a p)

unfoldable pub destroy_server : TcpServer → Process → Process
unfolding stop destroy_all
destroy_server sv p = destroy sv.socket (destroy_all sv.clients (stop sv p).1)
