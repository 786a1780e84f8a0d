-- ===== src/Tests/TrackerProgramRuns.antt =====
-- Runs of the tracker's program and of the thread that serves the clients.
use p2p_file_share.Base.{
  ◌≡◌, refl, true, false, some, List, [], ◌∷◌, ◌++◌, if◌then◌else◌, arith, ltb, Text, lit, text_eq,
  lookup, insert, find_if, any, length, drop, ok, throws, would_block, out_of_range,
}
use p2p_file_share.Stream.{
  of_text, sentry, skip_space, take_word, drop_word, get_word, get_size, read_sign, read_digits,
  stoi, remainder, to_string as number_to_string, print_digits,
}
use p2p_file_share.Models.Endpoint
use p2p_file_share.Models.Endpoint.{Endpoint, generate_id}
use p2p_file_share.Models.Group
use p2p_file_share.Models.Group.{Group}
use p2p_file_share.Models.User
use p2p_file_share.Models.User.{Shared, User}
use p2p_file_share.Common.Ending.{exit, unfinished}
use p2p_file_share.Common.TrackerInfo.Lines.{entry, print_info}
use p2p_file_share.Network.EventLoop.{has_fd, serve_input, serve_client, catch_error}
use p2p_file_share.Tracker.GroupDb
use p2p_file_share.Tracker.State.{State}
use p2p_file_share.Tracker.ParseRequest.{parse_request, request_of_word}
use p2p_file_share.Tracker.ProcessRequest.{Connection, reliable, dispatch, process_request}
use p2p_file_share.Tracker.FileRequests.{
  process_file_request, member_action, file_action, upload_action, catch_invalid,
}
use p2p_file_share.Tracker.Server.{Setting, sync_with_online_trackers, process_data, record_outcome}
use p2p_file_share.Tracker.Program.{World, new_server, new_service, max_connections, main}
use p2p_file_share.Tracker.Program.Main as Main
use p2p_file_share.Tracker.Program.Console.{
  Line, AreOther, IsLine, print_line, print_lines, first_arrivals,
}
use p2p_file_share.Tracker.Program.Main.{IsGiven, main_serves_until_quit}
use p2p_file_share.Tracker.Service.{
  Arrival, connects, sends, Service, serve, serve_all, heard, after_data,
}
use p2p_file_share.Tracker.Service.Survival.{AreArrivals, any_uploads, Survives, serve_all_lem}

abbrev own : Endpoint
own = record { ip = lit "10.0.0.1"; port = 80 }

abbrev buffer : Text
buffer = lit "............" ++ 0 ∷ []

-- A client connects, logs in as no user, and then its answer cannot be sent.
abbrev stuck : Connection
stuck = record reliable { send_data = λ text. throws would_block }

abbrev arrivals : List Arrival
arrivals =
    connects (ok 4)
    ∷ sends 4 reliable (ok (lit "17 login ann pw"))
    ∷ sends 4 stuck (ok (lit "1"))
    ∷ []

arrivals-AreArrivals : AreArrivals arrivals
arrivals-AreArrivals = (
  tt,
  (
    (record { sending = λ text. tt; receiving = tt }, tt),
    ((record { sending = λ text. tt; receiving = tt }, tt), tt),
  ),
)

abbrev world : World
world = record {
  hash = λ t. 0;
  files = λ path. some (some (print_info (own ∷ [])));
  buffer = buffer;
  unset = 0;
  peer = λ e. record { connects = ok false; rounds = [] };
  started = ok true;
  rounds = [] ∷ arrivals ∷ [];
  socket = 3;
}

file_code : Unit {0}
unfolding entry print_info number_to_string print_digits drop text_eq
file_code = tt

world-IsGiven : IsGiven world (lit "trackers.txt") (own ∷ [])
world-IsGiven = record {
  behind = [];
  info = (
    record {
      ip_word = (refl, (refl, (refl, (refl, (refl, (refl, (refl, (refl, tt))))))));
      ip_bytes = (refl, (refl, (refl, (refl, (refl, (refl, (refl, (refl, tt))))))));
      port_fits = omega arith;
    },
    tt,
  );
  small = unfold file_code in omega arith;
  ends = unfold file_code in refl;
  file = refl;
}

abbrev waiting : List Line
waiting = record { word = lit "hi"; tail = lit " x" } ∷ []

waiting-AreOther : AreOther waiting
unfolding text_eq
waiting-AreOther = (
  record {
    is_line = record {
      is_word = (refl, (refl, tt));
      ended = refl;
      unbroken = (refl, (refl, tt));
      short = omega arith;
    };
    no_quit = refl;
  },
  tt,
)

quit_now : IsLine (record { word = lit "quit"; tail = [] })
quit_now = record {
  is_word = (refl, (refl, (refl, (refl, tt))));
  ended = tt;
  unbroken = tt;
  short = omega arith;
}

abbrev setting : Setting
setting = record { hash = λ t. 0; my_id = 0; trackers = own ∷ [] }

abbrev starting : Service
starting = record {
  event_loop = record { active = 3 ∷ []; clients = []; notices = [] };
  server = new_server;
}

serve_all_lem_example :
    Survives (any_uploads 0 arrivals) (serve_all setting 0 2 arrivals starting).1
serve_all_lem_example = serve_all_lem setting 0 2 arrivals starting arrivals-AreArrivals

-- All of the code that an upload goes through.
service_code : Unit {0}
unfolding first_arrivals serve_all serve heard after_data has_fd serve_input serve_client
    catch_error process_data record_outcome process_request dispatch parse_request request_of_word
    process_file_request member_action file_action upload_action catch_invalid sentry skip_space
    take_word drop_word get_word get_size read_sign read_digits stoi remainder text_eq lookup insert
    find_if any GroupDb.get_group Group.has_member User.contains Endpoint.from_string
    Endpoint.split_colon Endpoint.to_uint16
service_code = tt

synced :
    sync_with_online_trackers (Main.setting world (own ∷ []) own) world.peer (own ∷ []) new_server
    ≡ (new_server, ok false)
unfolding sync_with_online_trackers generate_id
synced = refl

main_serves_until_quit_example :
    main world
      (lit "trackers.txt" ∷ number_to_string 1 ∷ [])
      (of_text (print_lines waiting (print_line (record { word = lit "quit"; tail = [] }) [])))
    ≡ (
      (serve_all
          (Main.setting world (own ∷ []) own)
          0
          max_connections
          (first_arrivals 2 world.rounds)
          (new_service world new_server)).0,
      if ltb (length waiting) 2 then exit 0 else unfinished,
    )
main_serves_until_quit_example =
    main_serves_until_quit world (lit "trackers.txt") [] [] own false new_server waiting [] []
      (omega arith) world-IsGiven synced refl waiting-AreOther quit_now
      (unfold first_arrivals in arrivals-AreArrivals) (unfold service_code in refl)

abbrev ann : Shared User
ann = record { address = 0; value = record { username = lit "ann"; password = lit "pw" } }

abbrev sharing : State
sharing = record {
  group_db = record {
    groups =
        (
          lit "g",
          record { group_id = lit "g"; owner = ann; users = []; join_requests = []; files = [] },
        )
        ∷ [];
  };
  logged_in_users = (7, ann) ∷ [];
  user_db = record { users = (lit "ann", ann) ∷ [] };
  next_address = 1;
}

-- A member's upload that ends behind the endpoint.
upload_ends_service :
    (serve_all setting 0 2 (sends 4 reliable (ok (lit "17 upload_file g a:80")) ∷ []) (record {
      event_loop = record { active = 3 ∷ 4 ∷ []; clients = 4 ∷ []; notices = [] };
      server = record new_server { state = sharing };
    })).1
    ≡ throws out_of_range
unfolding service_code
upload_ends_service = refl
