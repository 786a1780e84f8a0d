-- ===== src/Client/Downloads/Exchange.antt =====
-- A piece on its way from a client that uploaded the file to a client that downloads it.
use p2p_file_share.Base.{◌^◌, ◌<◌, ◌≡◌, refl, ◌∙◌, true, some, List, ◌∷◌, ◌++◌, Text, length, ok, ℕ}
use p2p_file_share.Stream.Words.{IsWord}
use p2p_file_share.Models.FileInfo.{block_size}
use p2p_file_share.Client.PartFile.{PartFile, has, has_piece, mark_downloaded}
use p2p_file_share.Client.FilesDb.{FilesDb, find}
use p2p_file_share.Client.PeerDb.{Peer}
use p2p_file_share.Client.FileIo.{
  Disk, read_file, get_file_info, get_piece_index, is_piece_valid, write_piece_to_file,
}
use p2p_file_share.Client.ProcessRequest.{process_request}
use p2p_file_share.Client.ProcessRequest.Answers.{honest_client_answers}
use p2p_file_share.Client.Downloads.{Network, piece_request, ask_peers}
use p2p_file_share.Client.Downloads.Validity.{AllFail, download_from_honest_peer}

can_write-write_piece_to_file :
    (path bytes : Text) (index size : ℕ) (disk : Disk)
    → disk.can_write path ≡ true
    → (disk' : Disk) × (write_piece_to_file path index size bytes disk ≡ ok disk')
unfolding write_piece_to_file
can_write-write_piece_to_file path bytes index size disk h = rw h (_, refl)

-- What a client holds that uploaded a file: its content on the disk, in a file that fits an off_t,
-- the PartFile made from it under the downloader's name of the file, and the piece.
pub record Holds (sha1 : Text → List ℕ) (p q : PartFile) (piece content : Text) (db : FilesDb)
    (disk : Disk) : Type 0 where
  pub stored : read_file p.file_path disk ≡ some content
  pub fits : length content < 2 ^ 63
  pub made : get_file_info sha1 p.file_path disk ≡ some p.file_info
  pub listed : find (record { group_id = q.group_id; file_name = q.file_info.name }) db ≡ some p
  pub has_it : has_piece p piece ≡ true
  pub of_file : has p.file_info.pieces piece ≡ true

-- A piece travels from a client that holds it, in a file that fits an off_t, to one that downloads the
-- file and can write it, when its request and the whole answer get through the network, the peers that
-- are asked before give nothing and raise no exception but a closed connection, and group, name and piece
-- have no blanks: bytes with the digest of the piece are written at its place, and the piece is marked.
pub piece_travels :
    (net : Network) (p q : PartFile) (piece content : Text) (db : FilesDb) (theirs ours : Disk)
    (peer : Peer) (before after : List Peer)
    → Holds net.sha1 p q piece content db theirs
    → net.ask peer.endpoint (piece_request q piece)
      ≡ process_request (piece_request q piece) db theirs
    → IsWord q.group_id
    → IsWord q.file_info.name
    → IsWord piece
    → ours.can_write q.file_path ≡ true
    → AllFail net piece q ours before
    → (bytes : Text) × (disk' : Disk) × (ask_peers net (before ++ peer ∷ after) piece q ours
        ≡ ok ((mark_downloaded piece q).0, disk'))
      × (is_piece_valid net.sha1 piece bytes ≡ true)
      × (write_piece_to_file q.file_path (get_piece_index q.file_info piece) block_size bytes ours
          ≡ ok disk')
piece_travels net p q piece content db theirs ours peer before after h asks g n w room fail =
    let (bytes, sent, valid) =
      honest_client_answers net.sha1 p q piece content db theirs h.stored h.fits h.made h.listed
        h.has_it h.of_file g n w in
    let (disk', written) =
      can_write-write_piece_to_file q.file_path bytes (get_piece_index q.file_info piece) block_size
        ours room in
    (
      bytes,
      disk',
      download_from_honest_peer net piece q ours peer bytes disk' (asks ∙ sent) valid written before
          after fail,
      valid,
      written,
    )
