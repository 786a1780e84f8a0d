-- ===== src/Tests/ExchangeRuns.antt =====
-- Runs of the client and the tracker together.
use p2p_file_share.Base.{true, find_if, refl, [], ◌∷◌, arith, lit, text_eq, lookup, any}
use p2p_file_share.Models.Endpoint.{Endpoint}
use p2p_file_share.Models.FileInfo.{FileInfo}
use p2p_file_share.Models.FileInfo.Pieces.{concat}
use p2p_file_share.Models.FileInfo.RoundTrip.{IsPrintable}
use p2p_file_share.Models.File.{File}
use p2p_file_share.Models.File.RoundTrip.{IsSeeder}
use p2p_file_share.Models.Group.{Group, has_member}
use p2p_file_share.Models.User.{Shared, User, contains}
use p2p_file_share.Client.FileIo.{Disk}
use p2p_file_share.Client.ProcessInput.{Environment, upload_request}
use p2p_file_share.Tracker.GroupDb.{get_group}
use p2p_file_share.Tracker.State.{State}
use p2p_file_share.Tracker.FileRequests.{find_name}
use p2p_file_share.Tracker.ProcessRequest.{reliable}
use p2p_file_share.Tracker.Server.{Server, Setting, process_data}
use p2p_file_share.Exchange.Entries.{IsEntered}
use p2p_file_share.Exchange.Uploads.{upload_arrives}
use p2p_file_share.Exchange.Downloads.{answer}

abbrev seeder : Endpoint
seeder = record { ip = lit "10.0.0.1"; port = 80 }

seeder-IsSeeder : IsSeeder seeder
seeder-IsSeeder = record {
  ip_word = (refl, (refl, (refl, (refl, (refl, (refl, (refl, (refl, tt))))))));
  ip_no_colon = (refl, (refl, (refl, (refl, (refl, (refl, (refl, (refl, tt))))))));
  port_fits = omega arith;
}

abbrev info : FileInfo
info = record { name = lit "f"; size = 3; pieces = lit "0102" ∷ lit "03" ∷ []; hash = lit "010203" }

info-IsPrintable : IsPrintable info
unfolding concat
info-IsPrintable = record {
  name_word = (refl, tt);
  size_fits = omega arith;
  piece_words = ((refl, (refl, (refl, (refl, tt)))), ((refl, (refl, tt)), tt));
  hash_concat = refl;
}

abbrev ann : Shared User
ann = record { address = 0; value = record { username = lit "ann"; password = lit "pw" } }

abbrev group : Group
group = record { group_id = lit "g"; owner = ann; users = []; join_requests = []; files = [] }

abbrev sharing : State
sharing = record {
  group_db = record { groups = (lit "g", group) ∷ [] };
  logged_in_users = (7, ann) ∷ [];
  user_db = record { users = (lit "ann", ann) ∷ [] };
  next_address = 1;
}

abbrev server : Server
server = record { state = sharing; successful_transactions = [] }

abbrev setting : Setting
setting = record { hash = λ t. 0; my_id = 0; trackers = [] }

exchange_code : Unit {0}
unfolding find_name find_if lookup text_eq get_group has_member contains any
exchange_code = tt

upload_arrives_example :
    IsEntered
      (lit "g")
      seeder
      info
      group
      (lit "h")
      sharing
      (process_data setting 0 reliable (upload_request 7 seeder (lit "g") info) server).0.state
upload_arrives_example =
    upload_arrives (lit "g") seeder info (refl, tt) seeder-IsSeeder info-IsPrintable setting 0 7
      reliable ann group server (lit "h") (omega arith) (unfold exchange_code in refl)
      (unfold exchange_code in refl) (unfold exchange_code in refl) (unfold exchange_code in refl)

-- The same group once it has the file.
abbrev file : Shared File
file = record {
  address = 1;
  value = record { seeders = seeder ∷ []; file_info = info; group_id = lit "g" };
}

abbrev stocked : Group
stocked = record group { files = file ∷ [] }

abbrev offering : State
offering = record sharing { group_db = record { groups = (lit "g", stocked) ∷ [] } }

abbrev environment : Environment
environment = record {
  sha1 = λ t. [];
  hash = λ t. 0;
  exchange = λ request. answer 0 offering request;
  fresh = 5;
  unset = 0;
}

abbrev disk : Disk
disk = record { files = []; can_write = λ path. true }
