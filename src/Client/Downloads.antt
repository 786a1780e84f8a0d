-- ===== src/Client/Downloads.antt =====
-- src/client/downloadmanager.hpp and downloadmanager.cpp
pub mod Validity
pub mod Exchange
use p2p_file_share.Base.{
  ℕ, zero, suc, ◌==◌, Bool, true, false, not, ◌&&◌, ◌||◌, Option, none, some, List, [], ◌∷◌, ◌++◌,
  ◌⊕◌, if◌then◌else◌, Text, lit, text_eq, is_empty, length, any, find_if, Checked, ok, throws,
  connection_closed, out_of_range, ◌>>=◌,
}
use p2p_file_share.Stream.{IntValue, of_text, get_int, to_string as number_to_string}
use p2p_file_share.Models.Endpoint.{Endpoint}
use p2p_file_share.Models.FileInfo.{FileInfo, block_size}
use p2p_file_share.Models.User.{Shared}
use p2p_file_share.Client.PartFile.{PartFile, new_partfile, is_complete, mark_downloaded}
use p2p_file_share.Client.FilesDb.{FilesDb, FileId, add_partfile}
use p2p_file_share.Client.PeerDb.{Peer, PeerDb, get_peers}
use p2p_file_share.Client.FileIo.{
  Disk, read_file, is_piece_valid, get_piece_index, write_piece_to_file,
}

-- A file in the queue: its PartFile, and the address of the FileInfo that it was made from.
pub record Download : Type 0 where
  pub part : PartFile
  pub info_address : ℕ

-- `downloads` is a deque. `finished` holds the calls of `on_download_complete`, oldest first.
pub record Manager : Type 0 where
  pub downloads : List Download
  pub running : Bool
  pub finished : List (Text × Text)

abbrev pub idle : Manager
idle = record { downloads = []; running = false; finished = [] }

-- What the program does not implement, as it is during one walk over the queue: the digest, and what a
-- peer answers to a request, over connecting, sending and receiving. `unset` is what the variable
-- `status`, which has no initialiser, holds.
pub record Network : Type 0 where
  pub sha1 : Text → List ℕ
  pub ask : Endpoint → Text → Checked Text
  pub unset : IntValue

-- response.substr(2)
unfoldable pub substr_2 : Text → Checked Text
substr_2 (a ∷ b ∷ rest) = ok rest
substr_2 _ = throws out_of_range

abbrev pub is_one : IntValue → Bool
is_one n = not n.negative && (n.size == 1)

unfoldable pub piece_request : PartFile → Text → Text
piece_request p piece = lit "get " ⊕ p.group_id ⊕ lit " " ⊕ p.file_info.name ⊕ lit " " ⊕ piece

-- A valid piece goes to the disk and is marked; `none` means that the next peer is asked.
unfoldable pub keep_piece :
    Network → Text → Text → PartFile → Disk → Checked (Option (PartFile × Disk))
keep_piece net piece piece_data p disk =
    if not (is_piece_valid net.sha1 piece piece_data)
    then ok none
    else write_piece_to_file p.file_path (get_piece_index p.file_info piece) block_size piece_data
        disk
      >>= λ disk'. ok (some ((mark_downloaded piece p).0, disk'))

unfoldable pub take_answer :
    Network → Text → Text → PartFile → Disk → Checked (Option (PartFile × Disk))
unfolding substr_2 keep_piece
take_answer net piece response p disk =
    let (status, s) = get_int net.unset (of_text response) in
    if is_one status
    then (substr_2 response >>= λ piece_data. keep_piece net piece piece_data p disk)
    else ok none

-- The body of the loop over the peers. Only a closed connection is caught.
unfoldable pub ask_peer :
    Network → Peer → Text → PartFile → Disk → Checked (Option (PartFile × Disk))
unfolding take_answer piece_request
ask_peer net peer piece p disk = elim (net.ask peer.endpoint (piece_request p piece)) [
  | throws connection_closed ↦ ok none
  | throws e ↦ throws e
  | ok response ↦ take_answer net piece response p disk
]

unfoldable pub ask_peers : Network → List Peer → Text → PartFile → Disk → Checked (PartFile × Disk)
unfolding ask_peer
ask_peers net [] piece p disk = ok (p, disk)
ask_peers net (peer ∷ peers) piece p disk =
    let rest = ask_peers net peers piece p disk in
    elim (ask_peer net peer piece p disk) [
      | throws e ↦ throws e
      | ok none ↦ rest
      | ok (some done) ↦ ok done
    ]

-- The peers are looked up under the hash of the file.
unfoldable pub download_piece :
    Network → PeerDb → Text → PartFile → Disk → Checked (PartFile × Disk)
unfolding ask_peers
download_piece net peer_db piece p disk =
    ask_peers net
      (get_peers (record { group_id = p.group_id; file_name = p.file_info.hash }) peer_db) piece p
      disk

-- One walk over the queue: each file that is not complete gets its first missing piece, and is
-- reported when that completes it. The third part is the files reported.
unfoldable pub download_first : Network → PeerDb → PartFile → Disk → Checked (PartFile × Disk)
download_first net peer_db p disk = elim p.remaining_pieces [
  | [] ↦ ok (p, disk)
  | piece ∷ _ ↦ download_piece net peer_db piece p disk
]

unfoldable pub walk :
    Network → PeerDb → List Download → Disk → Checked (List Download × Disk × List (Text × Text))
unfolding download_first
walk net peer_db [] disk = ok ([], disk, [])
walk net peer_db (d ∷ ds) disk = download_first net peer_db d.part disk >>= λ now.
    walk net peer_db ds now.1 >>= λ later. ok (
      record d { part = now.0 } ∷ later.0,
      later.1,
      (if not (is_complete d.part) && is_complete now.0
          then (now.0.group_id, now.0.file_info.name) ∷ later.2
          else later.2),
    )

-- The thread: one walk for each network in the list, as long as `running` stays set; it ends early on
-- an empty queue.
unfoldable pub download_thread : List Network → PeerDb → Manager → Disk → Checked (Manager × Disk)
unfolding walk
download_thread [] peer_db m disk = ok (m, disk)
download_thread (net ∷ nets) peer_db m disk =
    if is_empty m.downloads
    then ok (m, disk)
    else walk net peer_db m.downloads disk >>= λ r.
        download_thread nets peer_db (record m { downloads = r.0; finished = m.finished ++ r.2 })
          r.1

abbrev queued : Text → ℕ → Download → Bool
queued group_id address d = text_eq d.part.group_id group_id && (d.info_address == address)

-- `info` is the pointer to the FileInfo.
unfoldable pub enqueue_download :
    Text → Shared FileInfo → Text → Disk → Manager → FilesDb → Manager × FilesDb × Bool
enqueue_download group_id info output_file_path disk m files_db =
    let part = new_partfile group_id info.value output_file_path false in
    let download : Download = record { part = part; info_address = info.address } in
    let m' = record m { downloads = m.downloads ++ download ∷ [] } in
    elim (read_file output_file_path disk) [
      | some _ ↦ (m, files_db, false)
      | none ↦
          if is_empty m.downloads
          then (m', files_db, true)
          else if any (queued group_id info.address) m.downloads
          then (m, files_db, false)
          else (m', (add_partfile group_id info.value output_file_path false files_db).0, true)
    ]

-- The result of the search is dropped.
unfoldable pub dequeue_download : Text → Text → Manager → Manager × Bool
dequeue_download group_id file_name m =
    let found =
      find_if
        (λ (d : Download).
          text_eq d.part.group_id group_id && text_eq d.part.file_info.name file_name)
        m.downloads in
    (m, false)

unfoldable pub start_downloads : Manager → Manager × Bool
start_downloads m = if m.running then (m, false) else (record m { running = true }, true)

unfoldable pub pause_downloads : Manager → Manager × Bool
pause_downloads m = if not m.running then (m, false) else (record m { running = false }, true)

unfoldable pub print_download : Download → Text
print_download d =
    (if is_complete d.part then lit "[C]" else lit "[D]")
    ⊕ lit " "
    ⊕ d.part.group_id
    ⊕ lit " "
    ⊕ d.part.file_info.name
    ⊕ lit " "
    ⊕ number_to_string (length d.part.downloaded_pieces)
    ⊕ lit "/"
    ⊕ number_to_string d.part.piece_count

unfoldable pub print_downloads : List Download → Text
unfolding print_download
print_downloads [] = []
print_downloads (d ∷ ds) = print_download d ⊕ lit "\n" ⊕ print_downloads ds

unfoldable pub list_downloads : Manager → Text
unfolding print_downloads
list_downloads m =
    if is_empty m.downloads then lit "Nothing to show\n" else print_downloads m.downloads
