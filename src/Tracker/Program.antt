-- ===== src/Tracker/Program.antt =====
-- src/tracker/tracker.cpp: the tracker's own thread. `std::cin` is a stream with all the text that the
-- console will give.
pub mod Console
pub mod Main
use p2p_file_share.Base.{
  ℕ, zero, suc, ◌-◌, ◌==◌, Bool, true, false, not, ◌&&◌, ◌||◌, Option, none, some, List, [], ◌∷◌,
  if◌then◌else◌, Text, lit, text_eq, is_empty, Checked, ok, throws, out_of_range,
}
use p2p_file_share.Stream.{Stream, IntValue, get_word, stoi}
use p2p_file_share.Models.Endpoint.{Endpoint, generate_id}
use p2p_file_share.Common.Ending.{Ending, exit, aborts, undefined, unfinished}
use p2p_file_share.Common.TrackerInfo.{Loaded, loaded, exits, overruns, load_tracker_info}
use p2p_file_share.Network.EventLoop.{capped}
use p2p_file_share.Tracker.State.{initial}
use p2p_file_share.Tracker.Service.{Arrival, Service, serve_all}
use p2p_file_share.Tracker.Server.{Server, Setting, Peer, sync_with_online_trackers}

-- std::cin.ignore(n, '\n'), with whether the end of the console is met.
unfoldable pub ignore : ℕ → Text → Text × Bool
ignore zero s = (s, false)
ignore (suc n) [] = ([], true)
ignore (suc n) (c ∷ s) = let rest = ignore n s in if c == 10 then (s, false) else rest

-- The input of one round of the loop. peek() gives EOF where nothing is left, and once a state bit is
-- set; the call of ignore does nothing once a state bit is set.
unfoldable pub next_input : Stream → Text × Stream
unfolding ignore
next_input s =
    let (input, s') = get_word [] s in
    let (rest, eof) = ignore 1000 s'.rest in
    if s.eof || s.fail
    then ([], record s { fail = true })
    else if is_empty s.rest
    then ([], record { rest = []; eof = true; fail = false })
    else if s'.eof || s'.fail
    then (input, record s' { fail = true })
    else (input, record { rest = rest; eof = eof; fail = false })

-- TCPServer server(2)
abbrev pub max_connections : ℕ
max_connections = capped 2

-- What the thread of the server does between two rounds of the loop, if the server runs.
unfoldable pub serve_between :
    Bool → Setting → ℕ → List Arrival → Service → Service × Checked (Unit {0})
serve_between false g unset arrivals s = (s, ok tt)
serve_between true g unset arrivals s = serve_all g unset max_connections arrivals s

-- The loop, over what arrives before each round: where the rounds are used up it still runs. An exception
-- of the server's thread ends the process.
unfoldable pub loop : Bool → Setting → ℕ → List (List Arrival) → Stream → Service → Service × Ending
unfolding next_input serve_between
loop running g unset [] console s = (s, unfinished)
loop running g unset (arrivals ∷ rounds) console s =
    let (s', r) = serve_between running g unset arrivals s in
    let (input, console') = next_input console in
    let rest = loop running g unset rounds console' s' in
    elim r [
      | throws e ↦ (s', aborts e)
      | ok _ ↦ if text_eq input (lit "quit") then (s', exit 0) else rest
    ]

-- What surrounds the process: the library's hash, the files, what the buffer for the tracker file and
-- variables with no initialiser hold, how the other trackers behave, the descriptor of the server's socket,
-- what the start of the server comes to, and what arrives at its sockets before each round.
pub record World : Type 0 where
  pub hash : Text → ℕ
  pub files : Text → Option (Option Text)
  pub buffer : Text
  pub unset : ℕ
  pub peer : Endpoint → Peer
  pub socket : ℕ
  pub started : Checked Bool
  pub rounds : List (List Arrival)

abbrev pub new_server : Server
new_server = record { state = initial; successful_transactions = [] }

-- A service that has no client yet.
abbrev pub new_service : World → Server → Service
new_service world server = record {
  event_loop = record { active = world.socket ∷ []; clients = []; notices = [] };
  server = server;
}

-- Before the server is made, the process ends with no client and no transaction.
abbrev pub stopped : World → Ending → Service × Ending
stopped world ending = (new_service world new_server, ending)

-- trackers.at(n)
unfoldable pub tracker_at : ℕ → List Endpoint → Option Endpoint
tracker_at n [] = none
tracker_at zero (t ∷ trackers) = some t
tracker_at (suc n) (t ∷ trackers) = tracker_at n trackers

-- The last try block of main. What server.stop() does to the sockets is not in the service.
unfoldable pub run_tracker : World → Setting → Server → Stream → Service × Ending
unfolding loop
run_tracker world g server console = elim world.started [
  | throws e ↦ (new_service world server, exit 1)
  | ok running ↦ loop running g world.unset world.rounds console (new_service world server)
]

-- The synchronisation, which no try block surrounds.
unfoldable pub sync_tracker : World → Endpoint → List Endpoint → Stream → Service × Ending
unfolding run_tracker
sync_tracker world own trackers console =
    let g : Setting = record {
      hash = world.hash;
      my_id = generate_id world.hash own;
      trackers = trackers;
    } in
    let (server, r) = sync_with_online_trackers g world.peer trackers new_server in
    elim r [
      | throws e ↦ (new_service world server, aborts e)
      | ok _ ↦ run_tracker world g server console
    ]

-- main behind the loading of the tracker file.
unfoldable pub start_tracker : World → ℕ → Stream → Option Loaded → Service × Ending
unfolding tracker_at sync_tracker
start_tracker world n console none = stopped world unfinished
start_tracker world n console (some exits) = stopped world (exit 1)
start_tracker world n console (some overruns) = stopped world undefined
start_tracker world n console (some (loaded trackers)) = elim (tracker_at (n - 1) trackers) [
  | none ↦ stopped world (aborts out_of_range)
  | some own ↦ sync_tracker world own trackers console
]

abbrev pub is_tracker_number : IntValue → Bool
is_tracker_number n = not n.negative && ((n.size == 1) || (n.size == 2))

-- main, with the arguments behind the name of the program.
unfoldable pub main : World → List Text → Stream → Service × Ending
unfolding start_tracker
main world (file_path ∷ tracker_no ∷ []) console = elim (stoi tracker_no) [
  | throws e ↦ stopped world (aborts e)
  | ok n ↦
      if is_tracker_number n
      then start_tracker world n.size console
          (load_tracker_info (world.files file_path) world.buffer)
      else stopped world (exit 1)
]
main world _ console = stopped world (exit 1)
