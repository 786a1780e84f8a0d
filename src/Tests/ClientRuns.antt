-- ===== src/Tests/ClientRuns.antt =====
-- Runs of the client.
use p2p_file_share.Base.{
  ◌+◌, ◌≤◌, ◌≡◌, refl, [], ◌∷◌, ◌⊎◌, Text, lit, ok, throws, arith, true, false, none, inl, inr,
  if◌then◌else◌, text_eq, lookup, insert, any, connection_closed, ◌⊕◌, take, drop,
}
use p2p_file_share.Stream.{
  get_word, take_word, drop_word, get_int, sentry, skip_space, read_sign, read_digits,
}
use p2p_file_share.Models.FileInfo.{FileInfo, block_size}
use p2p_file_share.Client.Hash.{get_sha1, hex_bytes}
use p2p_file_share.Client.PartFile.{
  PartFile, has, put, without, put_all, new_partfile, is_complete, has_piece, mark_downloaded,
}
use p2p_file_share.Client.PartFile.Progress.{IsPart, new_partfile-IsPart, mark_downloaded_lem}
use p2p_file_share.Client.FilesDb.{FilesDb, file_id_eq, get_partfile, has_piece as holds_piece}
use p2p_file_share.Client.ProcessRequest.{process_request, send_piece}
use p2p_file_share.Client.ProcessRequest.Answers.{honest_client_answers}
use p2p_file_share.Client.Downloads.Exchange.{Holds, piece_travels}
use p2p_file_share.Client.PeerDb.{Peer, PeerDb, get_peers, holds}
use p2p_file_share.Client.FileIo.{
  Disk, read_piece_from_file, write_piece_to_file, is_piece_valid, get_piece_index, overlay,
  write_at, write_bytes, seek, get_file_info, read_blocks, hash_blocks, join, basename,
  basename_from, index_from,
}
use p2p_file_share.Client.FileIo.WriteRead.{read-write_same, read-write_other}
use p2p_file_share.Client.Downloads.{
  Network, ask_peer, ask_peers, take_answer, keep_piece, substr_2, download_piece, piece_request,
}
use p2p_file_share.Client.Downloads.Validity.{download_keeps_valid}

-- All of the code that a run goes through.
client_code : Unit {0}
unfolding get_int sentry skip_space read_sign read_digits get_sha1 hex_bytes has put without put_all
    new_partfile is_complete has_piece mark_downloaded file_id_eq get_peers holds
    read_piece_from_file write_piece_to_file is_piece_valid get_piece_index take drop overlay
    write_at write_bytes seek get_file_info read_blocks hash_blocks join basename basename_from
    index_from get_word take_word drop_word process_request send_piece get_partfile holds_piece
    ask_peer ask_peers take_answer keep_piece substr_2 download_piece piece_request text_eq lookup
    insert any
client_code = tt

abbrev info : FileInfo
info = record { name = lit "f"; size = 3; pieces = lit "0102" ∷ lit "03" ∷ []; hash = lit "010203" }

abbrev part : PartFile
part = record {
  group_id = lit "g";
  file_info = info;
  piece_count = 2;
  file_path = lit "out";
  downloaded_pieces = [];
  remaining_pieces = lit "0102" ∷ lit "03" ∷ [];
}

part-IsPart : IsPart part
unfolding client_code
part-IsPart = new_partfile-IsPart (lit "g") info (lit "out") false

mark_downloaded_lem_example : has_piece (mark_downloaded (lit "03") part).0 (lit "03") ≡ true
unfolding client_code
mark_downloaded_lem_example = (mark_downloaded_lem (lit "03") part part-IsPart).1 (lit "03")

abbrev disk : Disk
disk = record { files = (lit "out", 1 ∷ 2 ∷ 3 ∷ 4 ∷ []) ∷ []; can_write = λ path. true }

abbrev disk' : Disk
disk' = record { files = (lit "out", 1 ∷ 2 ∷ 9 ∷ 8 ∷ []) ∷ []; can_write = λ path. true }

second_block : write_piece_to_file (lit "out") 1 2 (9 ∷ 8 ∷ []) disk ≡ ok disk'
unfolding client_code
second_block = refl

read-write_same_example : read_piece_from_file (lit "out") 1 2 disk' ≡ ok (9 ∷ 8 ∷ [])
read-write_same_example =
    read-write_same (lit "out") (9 ∷ 8 ∷ []) 1 2 disk disk' (omega arith) (omega arith) second_block
      (inl refl)

first_before : (seek 1 2 + 2 ≤ seek 0 2) ⊎ ((seek 0 2 + 2 ≤ seek 1 2) × (seek 0 2 + 2 ≤ 4))
unfolding client_code
first_before = inr (omega arith)

read-write_other_example :
    read_piece_from_file (lit "out") 0 2 disk' ≡ read_piece_from_file (lit "out") 0 2 disk
read-write_other_example =
    read-write_other (lit "out") (9 ∷ 8 ∷ []) 1 2 disk disk' (omega arith) (omega arith)
      second_block 0 (1 ∷ 2 ∷ 3 ∷ 4 ∷ []) (unfold client_code in refl) first_before

-- A digest that is the bytes themselves.
abbrev net : Network
net = record {
  sha1 = λ t. t;
  ask = λ e request.
      if text_eq e.ip (lit "b") then ok (lit "1 " ⊕ 1 ∷ 2 ∷ []) else throws connection_closed;
  unset = record { negative = false; size = 7 };
}

abbrev peer_at : Text → Peer
peer_at ip = record {
  id = 0;
  endpoint = record { ip = ip; port = 80 };
  files = record { group_id = lit "g"; file_name = lit "010203" } ∷ [];
}

abbrev peers : PeerDb
peers = record { peers = (1, peer_at (lit "a")) ∷ (2, peer_at (lit "b")) ∷ [] }

abbrev blank : Disk
blank = record { files = []; can_write = λ path. true }

abbrev first_kept : Disk
first_kept = record { files = (lit "out", 1 ∷ 2 ∷ []) ∷ []; can_write = λ path. true }

first_round :
    download_piece net peers (lit "0102") part blank
    ≡ ok ((mark_downloaded (lit "0102") part).0, first_kept)
unfolding client_code
first_round = refl

download_keeps_valid_example :
    (((mark_downloaded (lit "0102") part).0 ≡ part) × (first_kept ≡ blank))
    ⊎ ((bytes : Text) × (is_piece_valid net.sha1 (lit "0102") bytes ≡ true)
        × (write_piece_to_file
              (lit "out")
              (get_piece_index info (lit "0102"))
              block_size
              bytes
              blank
            ≡ ok first_kept)
        × ((mark_downloaded (lit "0102") part).0 ≡ (mark_downloaded (lit "0102") part).0))
download_keeps_valid_example =
    download_keeps_valid net (lit "0102") part blank peers (mark_downloaded (lit "0102") part).0
      first_kept first_round

-- A client with the two bytes of "srv/f" in its group "g", and one that downloads them.
abbrev shared_info : FileInfo
shared_info = record { name = lit "f"; size = 2; pieces = lit "0102" ∷ []; hash = lit "0102" }

abbrev theirs : Disk
theirs = record { files = (lit "srv/f", 1 ∷ 2 ∷ []) ∷ []; can_write = λ path. false }

abbrev uploaded : PartFile
uploaded = record {
  group_id = lit "g";
  file_info = shared_info;
  piece_count = 1;
  file_path = lit "srv/f";
  downloaded_pieces = lit "0102" ∷ [];
  remaining_pieces = [];
}

abbrev wanted : PartFile
wanted = record {
  group_id = lit "g";
  file_info = shared_info;
  piece_count = 1;
  file_path = lit "out";
  downloaded_pieces = [];
  remaining_pieces = lit "0102" ∷ [];
}

abbrev their_files : FilesDb
their_files = record { files = (record { group_id = lit "g"; file_name = lit "f" }, uploaded) ∷ [] }

abbrev served : Network
served = record {
  sha1 = λ t. t;
  ask = λ e request.
      if text_eq e.ip (lit "b")
      then process_request request their_files theirs
      else throws connection_closed;
  unset = record { negative = false; size = 0 };
}

theirs-Holds : Holds (λ t. t) uploaded wanted (lit "0102") (1 ∷ 2 ∷ []) their_files theirs
unfolding client_code
theirs-Holds = record {
  stored = refl;
  fits = omega arith;
  made = refl;
  listed = refl;
  has_it = refl;
  of_file = refl;
}

served_answer :
    served.ask (peer_at (lit "b")).endpoint (piece_request wanted (lit "0102"))
    ≡ process_request (piece_request wanted (lit "0102")) their_files theirs
unfolding client_code
served_answer = refl

served_first_fails : ask_peer served (peer_at (lit "a")) (lit "0102") wanted blank ≡ ok none
unfolding client_code
served_first_fails = refl

piece_travels_example :
    (bytes : Text) × (disk' : Disk) × (ask_peers served
        (peer_at (lit "a") ∷ peer_at (lit "b") ∷ [])
        (lit "0102")
        wanted
        blank
      ≡ ok ((mark_downloaded (lit "0102") wanted).0, disk'))
    × (is_piece_valid served.sha1 (lit "0102") bytes ≡ true)
    × (write_piece_to_file
          (lit "out")
          (get_piece_index shared_info (lit "0102"))
          block_size
          bytes
          blank
        ≡ ok disk')
piece_travels_example =
    piece_travels served uploaded wanted (lit "0102") (1 ∷ 2 ∷ []) their_files theirs blank
      (peer_at (lit "b")) (peer_at (lit "a") ∷ []) [] theirs-Holds served_answer (refl, tt)
      (refl, tt) (ground arith) refl (served_first_fails, tt)

honest_client_answers_example :
    (bytes : Text) × (process_request (piece_request wanted (lit "0102")) their_files theirs
      ≡ ok (lit "1 " ⊕ bytes))
    × (is_piece_valid (λ t. t) (lit "0102") bytes ≡ true)
honest_client_answers_example =
    honest_client_answers (λ t. t) uploaded wanted (lit "0102") (1 ∷ 2 ∷ []) their_files theirs
      theirs-Holds.stored theirs-Holds.fits theirs-Holds.made theirs-Holds.listed
      theirs-Holds.has_it theirs-Holds.of_file (refl, tt) (refl, tt) (ground arith)
