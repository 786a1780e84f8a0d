-- ===== src/Tests/SocketRuns.antt =====
-- Runs of the objects and the descriptors of sockets.
use p2p_file_share.Base.{
  ◌≡◌, refl, not, true, false, ◌||◌, ◌&&◌, ◌==◌, if◌then◌else◌, none, [], ◌∷◌,
}
use p2p_file_share.Network.Sockets.{Process, descriptor, no_address, construct, accept}
use p2p_file_share.Network.Sockets.Ownership.{
  fd_at, IsOwned, Step, constructs, Reaches, here, next, Reaches-IsOwned,
}
use p2p_file_share.Network.Sockets.Leaks.{IsLeaked, accept_leaks}
use p2p_file_share.Network.Server.{TcpServer, stop}
use p2p_file_share.Network.Server.Stopping.{among, held_among, stop_lem}

-- A process without sockets.
abbrev empty : Process
empty = record { object = λ a. none; is_open = λ fd. false; bad_closes = 0 }

empty-IsOwned : IsOwned empty
empty-IsOwned = record { held = λ a fd h. cc; alone = λ a b fd h k. cc; closed_once = refl }

abbrev listening : Process
listening = (construct (descriptor 3) 100 empty).0

made : Step empty listening
made = constructs (descriptor 3) 100 empty refl refl

made-Reaches : Reaches empty listening
made-Reaches = next here made

Reaches-IsOwned_example : IsOwned listening
Reaches-IsOwned_example = Reaches-IsOwned made-Reaches empty-IsOwned

accept_leaks_example : IsLeaked 4 (accept (descriptor 4) (descriptor 5) no_address 200 listening).0
accept_leaks_example =
    accept_leaks 4 200 (descriptor 5) no_address listening
      (accept (descriptor 4) (descriptor 5) no_address 200 listening).0 Reaches-IsOwned_example
      (unfold construct in refl) (unfold construct in refl) here

abbrev server : TcpServer
server = record { socket = 100; running = true; max_connections = 2; clients = 200 ∷ [] }

stop_lem_example :
    (fd_at (stop server listening).1 100 ≡ (
      if server.running && (server.socket == 100 || among 100 server.clients)
      then none
      else fd_at listening 100))
    × ((stop server listening).1.is_open 3 ≡ (
        listening.is_open 3
        && not (server.running && held_among listening 3 (server.socket ∷ server.clients))))
    × IsOwned (stop server listening).1
    × ((stop server listening).0.running ≡ false)
    × (stop (stop server listening).0 (stop server listening).1 ≡ stop server listening)
stop_lem_example = stop_lem server listening 100 3 Reaches-IsOwned_example
