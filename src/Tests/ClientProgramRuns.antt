-- ===== src/Tests/ClientProgramRuns.antt =====
-- Runs of the client's program and of the reading of the tracker file.
use p2p_file_share.Base.{
  ◌≡◌, refl, ◌≢◌, true, inl, none, some, List, [], ◌∷◌, ◌++◌, arith, Text, lit, text_eq, drop, ok,
  throws, connection_closed,
}
use p2p_file_share.Stream.{of_text, to_string as number_to_string, print_digits}
use p2p_file_share.Models.Endpoint
use p2p_file_share.Models.Endpoint.{Endpoint}
use p2p_file_share.Common.TrackerInfo.{loaded, overruns, load_tracker_info}
use p2p_file_share.Common.TrackerInfo.Lines.{AreInfo, entry, print_info}
use p2p_file_share.Common.TrackerInfo.Reading.{
  load_tracker_info-print_info, load_tracker_info-entry, load_tracker_info_ends,
}
use p2p_file_share.Client.ProcessInput.{Environment}
use p2p_file_share.Client.Program.{Round, Setting, World, new_client, running, loop}
use p2p_file_share.Client.Program.Commands.{Typed}
use p2p_file_share.Client.Program.Endings.{Survives, all_meanwhile, loop-AreBlank, loop-Survives}

abbrev tracker : Endpoint
tracker = record { ip = lit "10.0.0.1"; port = 80 }

abbrev infos : List Endpoint
infos = tracker ∷ []

-- What the buffer holds before the file is read: no 0 before the thirteenth byte.
abbrev buffer : Text
buffer = lit "............" ++ 0 ∷ 7 ∷ []

file_code : Unit {0}
unfolding entry print_info number_to_string print_digits drop text_eq
file_code = tt

infos-AreInfo : AreInfo infos
infos-AreInfo = (
  record {
    ip_word = (refl, (refl, (refl, (refl, (refl, (refl, (refl, (refl, tt))))))));
    ip_bytes = (refl, (refl, (refl, (refl, (refl, (refl, (refl, (refl, tt))))))));
    port_fits = omega arith;
  },
  tt,
)

load_tracker_info-print_info_example :
    load_tracker_info (some (some (print_info infos))) buffer ≡ some (loaded infos)
load_tracker_info-print_info_example =
    load_tracker_info-print_info infos buffer (7 ∷ []) infos-AreInfo
      (unfold file_code in omega arith) (unfold file_code in refl)

-- The same file without its last newline.
load_tracker_info-entry_example :
    load_tracker_info (some (some (print_info [] ++ entry tracker))) (lit "..........." ++ 0 ∷ [])
    ≡ some overruns
load_tracker_info-entry_example =
    load_tracker_info-entry [] tracker (lit "..........." ++ 0 ∷ []) [] tt infos-AreInfo.0
      (unfold file_code in omega arith) (unfold file_code in refl)

load_tracker_info_ends_example : load_tracker_info (some (some (lit "10.0.0.1 80"))) (0 ∷ []) ≢ none
load_tracker_info_ends_example =
    load_tracker_info_ends (some (some (lit "10.0.0.1 80"))) (0 ∷ []) (omega arith)

-- A tracker that answers each request, and one that has gone.
abbrev answering : Environment
answering = record {
  sha1 = λ t. [];
  hash = λ t. 0;
  exchange = λ request. ok (lit "done");
  fresh = 0;
  unset = 0;
}

abbrev gone : Environment
gone = record answering { exchange = λ request. throws connection_closed }

abbrev round : Round
round = record {
  environment = answering;
  disk = record { files = []; can_write = λ path. true };
  connect = λ t. ok true;
  meanwhile = λ c. c;
  uncaught = none;
}

abbrev lost : Round
lost = record round { environment = gone }

abbrev setting : Setting
setting = record { trackers = infos; client_endpoint = tracker; my_id = 0 }

abbrev commands : List Typed
commands =
    record { round = round; blanks = lit "\n "; line = lit "logout" }
    ∷ record { round = lost; blanks = []; line = lit "help" }
    ∷ []

abbrev world : World
world = record {
  hash = λ t. 0;
  files = λ path. some (some (print_info infos));
  buffer = buffer;
  connect = λ t. ok true;
  started = ok true;
  rounds = round ∷ lost ∷ round ∷ [];
}

loop-Survives_example :
    Survives (loop setting (lost ∷ round ∷ []) (of_text (lit "list_groups\n")) new_client).1
loop-Survives_example =
    loop-Survives setting (lost ∷ round ∷ []) (of_text (lit "list_groups\n")) new_client
      (((λ request. tt), inl refl, refl), (((λ request. tt), inl refl, refl), tt))

loop-AreBlank_example :
    loop setting (round ∷ lost ∷ []) (of_text (lit " \n")) new_client
    ≡ (all_meanwhile (round ∷ lost ∷ []) new_client, running)
loop-AreBlank_example =
    loop-AreBlank setting (round ∷ lost ∷ []) (lit " \n") new_client (refl, (refl, tt))
      (((λ request. tt), inl refl, refl), (((λ request. tt), inl refl, refl), tt))
