-- ===== src/Network/EventLoop.antt =====
-- src/network/tcp_server.cpp: the constructor and the loop over the sockets with input.
pub mod Clients
use p2p_file_share.Base.{
  ℕ, ◌-◌, ◌==◌, Bool, true, false, not, ◌&&◌, ◌||◌, List, [], ◌∷◌, ◌++◌, if◌then◌else◌, Text, leb,
  ltb, is_empty, length, any, Checked, ok, throws, Exception, network_error, would_block,
  connection_closed,
}

abbrev pub hard_connection_limit : ℕ
hard_connection_limit = 256

unfoldable pub capped : ℕ → ℕ
capped n = if leb hard_connection_limit n then hard_connection_limit - 1 else n

-- The calls of `onConnect` and `onDisconnect`.
pub data Notice : Type 0 where
  connected : ℕ → Notice
  disconnected : ℕ → Notice

-- The sets `active_fd_set`, with the server's own socket, and `clients`, each as descriptors.
pub record EventLoop : Type 0 where
  pub active : List ℕ
  pub clients : List ℕ
  pub notices : List Notice

-- What `onData` does with a text: it returns, having disconnected the client or not, or it throws,
-- the client still connected.
pub data Handled : Type 0 where
  kept : Handled
  closed : Handled
  raised : Exception → Handled

unfoldable pub has_fd : List ℕ → ℕ → Bool
unfolding any
has_fd fds fd = any (λ f. f == fd) fds

-- FD_CLR
unfoldable pub clear : ℕ → List ℕ → List ℕ
clear fd [] = []
clear fd (f ∷ fds) = let rest = clear fd fds in if f == fd then rest else f ∷ rest

-- clients.erase(it), at the first client with the descriptor
unfoldable pub erase_client : ℕ → List ℕ → List ℕ
erase_client fd [] = []
erase_client fd (f ∷ fds) = if f == fd then fds else f ∷ erase_client fd fds

-- A connection request: what `accept` gives, and whether there is room.
unfoldable pub admit_client : ℕ → Checked ℕ → EventLoop → EventLoop × Checked (Unit {0})
admit_client max_connections (throws e) loop = (loop, throws e)
admit_client max_connections (ok fd) loop =
    if ltb (length loop.clients) max_connections
    then (
      record {
        active = if has_fd loop.active fd then loop.active else loop.active ++ fd ∷ [];
        clients = loop.clients ++ fd ∷ [];
        notices = loop.notices ++ connected fd ∷ [];
      },
      ok tt,
    )
    else (loop, ok tt)

unfoldable pub drop_client : ℕ → EventLoop → EventLoop
unfolding clear erase_client
drop_client fd loop = record {
  active = clear fd loop.active;
  clients = erase_client fd loop.clients;
  notices = loop.notices ++ disconnected fd ∷ [];
}

-- The catch clauses, for what leaves receive_data or onData.
unfoldable pub catch_error : ℕ → Exception → EventLoop → EventLoop × Checked (Unit {0})
unfolding drop_client
catch_error fd would_block loop = (loop, ok tt)
catch_error fd connection_closed loop = (drop_client fd loop, ok tt)
catch_error fd network_error loop = (drop_client fd loop, ok tt)
catch_error fd e loop = (loop, throws e)

-- Input on a connection: what receive_data gives, and what onData does with a text.
unfoldable pub serve_client :
    ℕ → Checked Text → (Text → Handled) → EventLoop → EventLoop × Checked (Unit {0})
unfolding catch_error has_fd
serve_client fd received on_data loop =
    if not (has_fd loop.clients fd) then (loop, ok tt) else elim received [
      | throws e ↦ catch_error fd e loop
      | ok text ↦ if is_empty text then (loop, ok tt) else elim (on_data text) [
        | kept ↦ (loop, ok tt)
        | closed ↦ (drop_client fd loop, ok tt)
        | raised e ↦ catch_error fd e loop
      ]
    ]

-- A socket with input, and what the calls on it come to.
pub data Input : Type 0 where
  request : Checked ℕ → Input
  message : ℕ → Checked Text → (Text → Handled) → Input

unfoldable pub serve_input : ℕ → Input → EventLoop → EventLoop × Checked (Unit {0})
unfolding admit_client serve_client
serve_input max_connections (request accepted) loop = admit_client max_connections accepted loop
serve_input max_connections (message fd received on_data) loop =
    serve_client fd received on_data loop

-- serveRequests over the sockets with input, one after another, until an exception leaves it.
unfoldable pub serve_requests : ℕ → List Input → EventLoop → EventLoop × Checked (Unit {0})
unfolding serve_input
serve_requests max_connections [] loop = (loop, ok tt)
serve_requests max_connections (i ∷ inputs) loop =
    let rest = serve_requests max_connections inputs (serve_input max_connections i loop).0 in
    elim (serve_input max_connections i loop).1 [
      | throws e ↦ ((serve_input max_connections i loop).0, throws e)
      | ok _ ↦ rest
    ]
