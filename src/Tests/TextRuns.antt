-- ===== src/Tests/TextRuns.antt =====
-- Endpoints, files and their texts.
use p2p_file_share.Base.{◌≡◌, refl, [], ◌∷◌, lit, ok, arith}
use p2p_file_share.Models.Endpoint.{Endpoint}
use p2p_file_share.Models.FileInfo.{FileInfo}
use p2p_file_share.Models.FileInfo.Pieces.{concat}
use p2p_file_share.Models.FileInfo.RoundTrip.{IsPrintable}
use p2p_file_share.Models.File
use p2p_file_share.Models.File.{File}
use p2p_file_share.Models.File.RoundTrip.{IsSendable, file_round_trip}

abbrev seeder : Endpoint
seeder = record { ip = lit "10.0.0.7"; port = 8080 }

abbrev info : FileInfo
info = record {
  name = lit "a.txt";
  size = 600000;
  pieces = lit "aa" ∷ lit "bb" ∷ [];
  hash = lit "aabb";
}

abbrev file : File
file = record { seeders = seeder ∷ seeder ∷ []; file_info = info; group_id = lit "pdfs" }

info-IsPrintable : IsPrintable info
unfolding concat
info-IsPrintable = record {
  name_word = ground arith;
  size_fits = omega arith;
  piece_words = ground arith;
  hash_concat = refl;
}

file-IsSendable : IsSendable file
file-IsSendable = record {
  seeder_words = (
    record { ip_word = ground arith; ip_no_colon = ground arith; port_fits = omega arith },
    (record { ip_word = ground arith; ip_no_colon = ground arith; port_fits = omega arith }, tt),
  );
  count_fits = omega arith;
  group_word = ground arith;
  info = info-IsPrintable;
}

file_round_trip_example : File.from_string 5 (File.to_string file) ≡ ok file
file_round_trip_example = file_round_trip file file-IsSendable 5
