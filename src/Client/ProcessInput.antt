-- ===== src/Client/ProcessInput.antt =====
-- src/client/process_input.cpp: one line of the user's input.
pub mod Throws
pub mod Begins
use p2p_file_share.Base.{
  ℕ, Bool, true, false, ◌==◌, not, ◌&&◌, none, some, List, [], ◌∷◌, ◌⊕◌, if◌then◌else◌, Text, lit,
  text_eq, is_empty, Checked, ok, throws, ◌>>=◌,
}
use p2p_file_share.Stream.{
  IntValue, Stream, of_text, get_word, get_int, remainder, to_string as number_to_string,
}
use p2p_file_share.Models.Endpoint
use p2p_file_share.Models.Endpoint.{Endpoint, generate_id}
use p2p_file_share.Models.FileInfo
use p2p_file_share.Models.FileInfo.{FileInfo}
use p2p_file_share.Models.File
use p2p_file_share.Models.File.{File}
use p2p_file_share.Models.User.{Shared}
use p2p_file_share.Client.FilesDb.{FilesDb, add_partfile}
use p2p_file_share.Client.PeerDb.{PeerDb, add_peer, add_file}
use p2p_file_share.Client.FileIo.{Disk, get_file_info}
use p2p_file_share.Client.Downloads.{Manager, enqueue_download, start_downloads, list_downloads}

-- What the program does not implement: the two hashes, the tracker's answer to a text that is sent to
-- it, the address of the next object, and what a variable with no initialiser holds.
pub record Environment : Type 0 where
  pub sha1 : Text → List ℕ
  pub hash : Text → ℕ
  pub exchange : Text → Checked Text
  pub fresh : ℕ
  pub unset : ℕ

-- The client's databases and downloads.
pub record Client : Type 0 where
  pub my_files : FilesDb
  pub peer_db : PeerDb
  pub manager : Manager

-- What a line leads to: the client afterwards, and what is printed with the result of the function.
abbrev pub Reaction : Type 0
Reaction = Client × Checked (Text × Bool)

-- A text goes to the tracker, and the answer is printed.
unfoldable pub ask_tracker : Environment → Text → Checked (Text × Bool)
ask_tracker env request = env.exchange request >>= λ response. ok (response, true)

unfoldable pub upload_request : ℕ → Endpoint → Text → FileInfo → Text
upload_request my_id client_endpoint group_id file_info =
    lit "1"
    ⊕ number_to_string my_id
    ⊕ lit " "
    ⊕ lit "upload_file"
    ⊕ lit " "
    ⊕ group_id
    ⊕ lit " "
    ⊕ Endpoint.to_string client_endpoint
    ⊕ lit " "
    ⊕ FileInfo.to_string file_info

unfoldable pub upload : Environment → ℕ → Endpoint → Disk → Stream → Client → Reaction
unfolding ask_tracker upload_request
upload env my_id client_endpoint disk s c =
    let (file_path, s1) = get_word [] s in
    let (group_id, s2) = get_word [] s1 in
    elim (get_file_info env.sha1 file_path disk) [
      | none ↦ (c, ok ([], false))
      | some file_info ↦ (
        record c { my_files = (add_partfile group_id file_info file_path true c.my_files).0 },
        ask_tracker env (upload_request my_id client_endpoint group_id file_info),
      )
    ]

-- The loop over the seeders.
unfoldable pub add_seeders : (Text → ℕ) → File → List Endpoint → PeerDb → PeerDb
add_seeders hash file [] db = db
add_seeders hash file (seeder ∷ seeders) db =
    let id = generate_id hash seeder in
    let known = (add_peer id seeder db).0 in
    add_seeders hash file seeders
      (add_file id (record { group_id = file.group_id; file_name = file.file_info.hash }) known).0

abbrev is_one : IntValue → Bool
is_one n = not n.negative && (n.size == 1)

unfoldable pub begin_download : Environment → File → Text → Disk → Client → Client × Bool
unfolding add_seeders
begin_download env file destination_path disk c =
    let info : Shared FileInfo = record { address = env.fresh; value = file.file_info } in
    let (manager, my_files, enqueued) =
      enqueue_download file.group_id info destination_path disk c.manager c.my_files in
    (
      record {
        my_files = my_files;
        peer_db = add_seeders env.hash file file.seeders c.peer_db;
        manager = (start_downloads manager).0;
      },
      enqueued,
    )

abbrev pub show_bool : Bool → Text
show_bool true = lit "true"
show_bool false = lit "false"

-- The tracker's answer to a download request.
unfoldable pub read_answer : Environment → Text → Text → Disk → Client → Reaction
unfolding begin_download
read_answer env response destination_path disk c =
    let (file_found, s) = get_int (record { negative = false; size = 0 }) (of_text response) in
    if s.fail
    then (c, ok (response, true))
    else if is_one file_found
    then elim (remainder s >>= File.from_string env.unset) [
      | throws e ↦ (c, throws e)
      | ok file ↦
          let (c', enqueued) = begin_download env file destination_path disk c in
          (c', ok (show_bool enqueued, true))
    ]
    else (c, remainder s >>= λ text. ok (text, true))

unfoldable pub download : Environment → ℕ → Disk → Stream → Client → Reaction
unfolding read_answer
download env my_id disk s c =
    let (group_id, s1) = get_word [] s in
    let (file_name, s2) = get_word [] s1 in
    let (destination_path, s3) = get_word [] s2 in
    let request =
      lit "1"
      ⊕ number_to_string my_id
      ⊕ lit " "
      ⊕ lit "download_file"
      ⊕ lit " "
      ⊕ group_id
      ⊕ lit " "
      ⊕ file_name in
    if is_empty destination_path then (c, ok ([], false)) else elim (env.exchange request) [
      | throws e ↦ (c, throws e)
      | ok response ↦ read_answer env response destination_path disk c
    ]

unfoldable pub process_input : Environment → ℕ → Endpoint → Disk → Text → Client → Reaction
unfolding upload download ask_tracker
process_input env my_id client_endpoint disk input c =
    let (command, s) = get_word [] (of_text input) in
    if text_eq command (lit "upload_file")
    then upload env my_id client_endpoint disk s c
    else if text_eq command (lit "download_file")
    then download env my_id disk s c
    else if text_eq command (lit "show_downloads")
    then (c, ok (list_downloads c.manager, true))
    else (c, ask_tracker env (lit "1" ⊕ number_to_string my_id ⊕ lit " " ⊕ input))
