-- ===== src/Client/Program.antt =====
-- src/client/client.cpp: the client's own thread. `std::cin` is a stream with all the text that the
-- console will give.
pub mod Commands
pub mod Endings
pub mod Main
use p2p_file_share.Base.{
  ℕ, ◌==◌, Bool, true, false, ◌||◌, Option, none, some, List, [], ◌∷◌, if◌then◌else◌, Text, lit,
  text_eq, is_empty, Checked, ok, throws, Exception, invalid_argument, connection_closed,
  null_pointer,
}
use p2p_file_share.Stream.{Stream, skip_space}
use p2p_file_share.Models.Endpoint.{Endpoint, generate_id, from_string}
use p2p_file_share.Common.Ending.{Ending, exit, aborts, undefined, unfinished}
use p2p_file_share.Common.TrackerInfo.{Loaded, loaded, exits, overruns, load_tracker_info}
use p2p_file_share.Client.FilesDb
use p2p_file_share.Client.PeerDb
use p2p_file_share.Client.FileIo.{Disk}
use p2p_file_share.Client.Downloads.{idle, pause_downloads}
use p2p_file_share.Client.ProcessInput.{Environment, Client, Reaction, process_input}

-- `connect` is what the connection to each tracker comes to.
unfoldable pub connect_to_tracker : (Endpoint → Checked Bool) → List Endpoint → Checked Bool
connect_to_tracker connect [] = ok false
connect_to_tracker connect (t ∷ trackers) =
    let rest = connect_to_tracker connect trackers in
    elim (connect t) [
      | ok true ↦ ok true
      | ok false ↦ rest
      | throws connection_closed ↦ rest
      | throws e ↦ throws e
    ]

-- The text up to the first newline, and what stands behind the newline, if there is one.
unfoldable pub take_line : Text → Text
take_line [] = []
take_line (c ∷ s) = let rest = take_line s in if c == 10 then [] else c ∷ rest

unfoldable pub drop_line : Text → Option Text
drop_line [] = none
drop_line (c ∷ s) = let rest = drop_line s in if c == 10 then some s else rest

-- std::getline(std::cin >> std::ws, input): at the end of the console `input` stays empty.
unfoldable pub get_line : Text → Text × Stream
unfolding take_line drop_line
get_line text = if is_empty text then ([], record { rest = []; eof = true; fail = true }) else (
  take_line text,
  elim (drop_line text) [
    | none ↦ record { rest = []; eof = true; fail = false }
    | some rest ↦ record { rest = rest; eof = false; fail = false }
  ],
)

-- The input of one round: peek() gives EOF where nothing is left, and once a state bit is set.
unfoldable pub next_input : Stream → Text × Stream
unfolding get_line
next_input s =
    if s.eof || s.fail
    then ([], record s { fail = true })
    else if is_empty s.rest
    then ([], record { rest = []; eof = true; fail = false })
    else get_line (skip_space s.rest)

-- What one round meets: what the program does not implement, the disk, what a connection to each tracker
-- comes to, what the other threads have done to the client before, and the exception that left one of
-- them, if one did: it ends the process.
pub record Round : Type 0 where
  pub environment : Environment
  pub disk : Disk
  pub connect : Endpoint → Checked Bool
  pub meanwhile : Client → Client
  pub uncaught : Option Exception

-- Where the loop stands: `quit` was read, exit(1) is called, an exception leaves, one of another thread
-- ends the process, or it goes on.
pub data Status : Type 0 where
  quits : Status
  gives_up : Status
  leaves : Exception → Status
  terminated : Exception → Status
  running : Status

-- The try block: a closed connection is followed by a new one.
unfoldable pub react : (Endpoint → Checked Bool) → List Endpoint → Checked (Text × Bool) → Status
unfolding connect_to_tracker
react connect trackers (ok r) = running
react connect trackers (throws connection_closed) = elim (connect_to_tracker connect trackers) [
  | ok true ↦ running
  | ok false ↦ gives_up
  | throws e ↦ leaves e
]
react connect trackers (throws e) = leaves e

-- What the loop is given.
pub record Setting : Type 0 where
  pub trackers : List Endpoint
  pub client_endpoint : Endpoint
  pub my_id : ℕ

-- A round behind the reading.
unfoldable pub run_round : Setting → Round → Text → Client → Client × Status
unfolding react
run_round g round input c =
    let (c', r) =
      process_input round.environment g.my_id g.client_endpoint round.disk input
        (round.meanwhile c) in
    elim round.uncaught [
      | some e ↦ (round.meanwhile c, terminated e)
      | none ↦ (c', react round.connect g.trackers r)
    ]

unfoldable pub go_on : Client × Status → (Client → Client × Status) → Client × Status
go_on (c, running) next = next c
go_on (c, status) next = (c, status)

-- The loop, over the given rounds: where they are used up it is still running.
unfoldable pub loop : Setting → List Round → Stream → Client → Client × Status
unfolding run_round go_on next_input
loop g [] console c = (c, running)
loop g (round ∷ rounds) console c =
    let (input, console') = next_input console in
    let rest = go_on (run_round g round input c) (loop g rounds console') in
    if text_eq input (lit "quit") then (c, quits) else rest

-- The downloads stop once the loop has ended.
unfoldable pub shut_down : Client × Status → Client × Status
shut_down (c, quits) = (record c { manager = (pause_downloads c.manager).0 }, quits)
shut_down (c, status) = (c, status)

-- The last try block of main. A null pointer is no exception.
unfoldable pub catch_all : Status → Ending
catch_all quits = exit 0
catch_all gives_up = exit 1
catch_all (leaves null_pointer) = aborts null_pointer
catch_all (leaves e) = exit 1
catch_all (terminated e) = aborts e
catch_all running = unfinished

-- What surrounds the process: the library's hash, the files, what the buffer for the tracker file
-- holds, what the first connection and the start of the server come to, and the rounds.
pub record World : Type 0 where
  pub hash : Text → ℕ
  pub files : Text → Option (Option Text)
  pub buffer : Text
  pub connect : Endpoint → Checked Bool
  pub started : Checked Bool
  pub rounds : List Round

abbrev pub new_client : Client
new_client = record { my_files = FilesDb.empty; peer_db = PeerDb.empty; manager = idle }

-- main and its parts give the client at the end as well; where there is none yet it is the new one.
abbrev pub stopped : Ending → Client × Ending
stopped ending = (new_client, ending)

unfoldable pub finish : Client × Status → Client × Ending
unfolding shut_down catch_all
finish p = let (c, status) = shut_down p in (c, catch_all status)

-- The loop of main's try block, with its server.
unfoldable pub run_client : World → Setting → Stream → Client × Ending
unfolding loop finish catch_all
run_client world g console = elim world.started [
  | throws e ↦ stopped (catch_all (leaves e))
  | ok _ ↦ finish (loop g world.rounds console new_client)
]

-- main behind the loading of the tracker file.
unfoldable pub connect_client : World → Endpoint → Stream → Option Loaded → Client × Ending
unfolding run_client connect_to_tracker
connect_client world endpoint console none = stopped unfinished
connect_client world endpoint console (some exits) = stopped (exit 1)
connect_client world endpoint console (some overruns) = stopped undefined
connect_client world endpoint console (some (loaded trackers)) =
    elim (connect_to_tracker world.connect trackers) [
      | throws e ↦ stopped (aborts e)
      | ok false ↦ stopped (exit 1)
      | ok true ↦
          run_client world
            (record {
              trackers = trackers;
              client_endpoint = endpoint;
              my_id = generate_id world.hash endpoint;
            })
            console
    ]

-- main, with the arguments behind the name of the program.
unfoldable pub main : World → List Text → Stream → Client × Ending
unfolding connect_client
main world (endpoint ∷ file_path ∷ []) console = elim (from_string endpoint) [
  | throws invalid_argument ↦ stopped (exit 1)
  | throws e ↦ stopped (aborts e)
  | ok client_endpoint ↦
      connect_client world client_endpoint console
        (load_tracker_info (world.files file_path) world.buffer)
]
main world _ console = stopped (exit 1)
