-- ===== src/Client/ProcessRequest.antt =====
-- src/client/process_request.cpp: a peer asks for a piece. The result is the text that goes back.
pub mod Answers
use p2p_file_share.Base.{
  Bool, true, false, not, [], ◌∷◌, ◌⊕◌, if◌then◌else◌, Text, lit, text_eq, Checked, ok, throws,
  ◌>>=◌,
}
use p2p_file_share.Stream.{of_text, get_word}
use p2p_file_share.Models.FileInfo.{block_size}
use p2p_file_share.Client.FilesDb.{FilesDb, FileId, has_piece, get_partfile}
use p2p_file_share.Client.FileIo.{Disk, get_piece_index, read_piece_from_file}

-- The branch for a piece that the client has.
unfoldable pub send_piece : FileId → Text → FilesDb → Disk → Checked Text
send_piece key piece my_files disk = get_partfile key my_files >>= λ part_file.
    read_piece_from_file part_file.file_path (get_piece_index part_file.file_info piece) block_size
      disk
    >>= λ piece_data. ok (lit "1 " ⊕ piece_data)

unfoldable pub process_request : Text → FilesDb → Disk → Checked Text
unfolding send_piece
process_request request my_files disk =
    let (command, s) = get_word [] (of_text request) in
    let (group_id, s1) = get_word [] s in
    let (file_name, s2) = get_word [] s1 in
    let (piece, s3) = get_word [] s2 in
    let key : FileId = record { group_id = group_id; file_name = file_name } in
    if text_eq command (lit "get")
    then if not (has_piece key piece my_files)
      then ok (lit "0 Piece not found")
      else send_piece key piece my_files disk
    else ok (lit "0 Invalid command")
