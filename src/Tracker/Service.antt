-- ===== src/Tracker/Service.antt =====
-- src/tracker/tracker.cpp: the thread that serves the clients, which is serveRequests of
-- src/network/tcp_server.cpp with process_data as its `onData`.
pub mod Survival
pub mod Rounds
use p2p_file_share.Base.{
  ℕ, Bool, true, false, Option, none, some, List, [], ◌∷◌, if◌then◌else◌, Text, is_empty, Checked,
  ok, throws, network_error,
}
use p2p_file_share.Models.Endpoint.{Endpoint}
use p2p_file_share.Models.Transaction.{Request, tracker_request, Transaction}
use p2p_file_share.Network.EventLoop.{
  EventLoop, Handled, kept, closed, raised, has_fd, Input, request, message, serve_input,
}
use p2p_file_share.Tracker.ParseRequest.{parse_request}
use p2p_file_share.Tracker.ProcessRequest.{Connection}
use p2p_file_share.Tracker.Server.{Server, Setting, process_data}

-- A call of select that fails, or a socket with input: a connection request and what `accept` gives, or a
-- text on a connection, with what receive_data gives and what else the connection does.
pub data Arrival : Type 0 where
  select_fails : Arrival
  connects : Checked ℕ → Arrival
  sends : ℕ → Connection → Checked Text → Arrival

-- The thread's own state and the tracker's.
pub record Service : Type 0 where
  pub event_loop : EventLoop
  pub server : Server

abbrev pub is_tracker : Request → Bool
is_tracker (tracker_request r) = true
is_tracker _ = false

abbrev pub parsed : Checked Transaction → (Request → Bool) → Bool
parsed (ok t) test = test t.request
parsed (throws e) test = false

-- The text behind the mirror flag.
abbrev pub unflagged : Text → Text
unflagged [] = []
unflagged (flag ∷ text) = text

-- A tracker's request ends in client->disconnect().
unfoldable pub handle : ℕ → Text → Checked (List (Endpoint × Text)) → Handled
handle unset text (throws e) = raised e
handle unset text (ok mirrored) =
    if parsed (parse_request unset (unflagged text)) is_tracker then closed else kept

unfoldable pub on_data : Setting → ℕ → Connection → Server → Text → Handled
unfolding handle
on_data g unset c sv text = handle unset text (process_data g unset c text sv).1

-- The text that onData is called with, if it is called.
unfoldable pub heard : EventLoop → ℕ → Checked Text → Option Text
heard loop fd (throws e) = none
heard loop fd (ok text) =
    if has_fd loop.clients fd then if is_empty text then none else some text else none

-- What onData leaves of the tracker's state.
unfoldable pub after_data : Setting → ℕ → Connection → Server → Option Text → Server
after_data g unset c sv none = sv
after_data g unset c sv (some text) = (process_data g unset c text sv).0

unfoldable pub serve : Setting → ℕ → ℕ → Arrival → Service → Service × Checked (Unit {0})
unfolding heard after_data on_data
serve g unset max_connections select_fails s = (s, throws network_error)
serve g unset max_connections (connects accepted) s =
    let (loop, r) = serve_input max_connections (request accepted) s.event_loop in
    (record s { event_loop = loop }, r)
serve g unset max_connections (sends fd c received) s =
    let (loop, r) =
      serve_input max_connections (message fd received (on_data g unset c s.server)) s.event_loop in
    (
      record {
        event_loop = loop;
        server = after_data g unset c s.server (heard s.event_loop fd received);
      },
      r,
    )

-- The sockets with input, one after another, until an exception leaves the thread.
unfoldable pub serve_all : Setting → ℕ → ℕ → List Arrival → Service → Service × Checked (Unit {0})
unfolding serve
serve_all g unset max_connections [] s = (s, ok tt)
serve_all g unset max_connections (a ∷ arrivals) s =
    let (s', r) = serve g unset max_connections a s in
    let rest = serve_all g unset max_connections arrivals s' in
    elim r [ throws e ↦ (s', throws e) | ok _ ↦ rest ]
