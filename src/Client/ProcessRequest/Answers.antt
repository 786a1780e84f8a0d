-- ===== src/Client/ProcessRequest/Answers.antt =====
-- What a client that uploaded a file answers to the requests that a download sends.
use p2p_file_share.Base.{
  ℕ, suc, ◌*◌, ◌^◌, ◌<◌, ◌≡◌, refl, ap, sym, ◌∙◌, true, some, [], ◌∷◌, ◌⊕◌, arith, append-nil, Text,
  lit, text_eq, text_eq_refl, length, ok, List, ◌>>=◌, take, drop,
}
use p2p_file_share.Stream.{of_text, get_word}
use p2p_file_share.Stream.Words.{IsWord, after_word, get_word_lem, get_word-space}
use p2p_file_share.Models.FileInfo.{block_size}
use p2p_file_share.Client.PartFile
use p2p_file_share.Client.PartFile.{PartFile, has}
use p2p_file_share.Client.FilesDb.{FilesDb, FileId, find, has_piece, get_partfile}
use p2p_file_share.Client.FileIo.{
  Disk, read_file, get_file_info, get_piece_index, read_piece_from_file, is_piece_valid,
  hash_blocks, read_blocks,
}
use p2p_file_share.Client.FileIo.Blocks.{IsBlock, index-IsBlock, seek-small, pieces-get_file_info}
use p2p_file_share.Client.Downloads.{piece_request}
use p2p_file_share.Client.ProcessRequest.{process_request, send_piece}

module _ (group name piece : Text) (g : IsWord group) (n : IsWord name) (w : IsWord piece) where
  abbrev pub after_group : Text
  after_group = 32 ∷ name ⊕ 32 ∷ piece

  word_get :
      get_word [] (of_text (lit "get " ⊕ group ⊕ after_group))
      ≡ (lit "get", after_word (32 ∷ group ⊕ after_group))
  word_get = get_word_lem [] (lit "get") (32 ∷ group ⊕ after_group) (ground arith) refl

  word_group : get_word [] (after_word (32 ∷ group ⊕ after_group)) ≡ (group, after_word after_group)
  word_group = get_word-space 32 [] group after_group refl g refl

  word_name : get_word [] (after_word after_group) ≡ (name, after_word (32 ∷ piece))
  word_name = get_word-space 32 [] name (32 ∷ piece) refl n refl

  word_piece : get_word [] (after_word (32 ∷ piece)) ≡ (piece, after_word [])
  word_piece =
      ap (λ t. get_word [] (after_word (32 ∷ t))) (sym (append-nil piece))
      ∙ get_word-space 32 [] piece [] refl w tt

  -- A request for a piece that the client has is answered with the piece.
  request_for_piece :
      (db : FilesDb) (disk : Disk)
      → has_piece (record { group_id = group; file_name = name }) piece db ≡ true
      → process_request (lit "get " ⊕ group ⊕ after_group) db disk
        ≡ send_piece (record { group_id = group; file_name = name }) piece db disk
  unfolding process_request text_eq
  request_for_piece db disk h = rw (word_get, word_group, word_name, word_piece, h)

-- The read of a block of the file.
send_block :
    (sha1 : Text → List ℕ) (key : FileId) (piece content : Text) (db : FilesDb) (disk : Disk)
    (p : PartFile)
    → find key db ≡ some p
    → read_file p.file_path disk ≡ some content
    → length content < 2 ^ 63
    → IsBlock sha1 block_size content piece 0 (get_piece_index p.file_info piece)
    → (bytes : Text) × (send_piece key piece db disk ≡ ok (lit "1 " ⊕ bytes))
      × (is_piece_valid sha1 piece bytes ≡ true)
unfolding send_piece get_partfile read_piece_from_file is_piece_valid
send_block sha1 key piece content db disk p f r small (j, e, bound, digest) =
    let index : get_piece_index p.file_info piece ≡ j = omega arith in
    let found : get_partfile key db ≡ ok p = unfold get_partfile in (rw (f, get_partfile)) in
    let place = seek-small j block_size (omega arith) in
    let block : read_piece_from_file p.file_path (get_piece_index p.file_info piece) block_size disk
        ≡ ok (take block_size (drop (j * block_size) content)) =
      rw (r, read_piece_from_file, index, place) in
    (
      take block_size (drop (j * block_size) content),
      rw (found, send_piece) (ap (λ c. c >>= λ bytes. ok (lit "1 " ⊕ bytes)) block),
      rw digest (text_eq_refl piece),
    )

-- A client whose PartFile of a file that fits an off_t was made from its content on the disk answers
-- the request of a download for a piece that it has, all words without blanks, with bytes of the
-- digest of the piece.
pub honest_client_answers :
    (sha1 : Text → List ℕ) (p q : PartFile) (piece content : Text) (db : FilesDb) (disk : Disk)
    → read_file p.file_path disk ≡ some content
    → length content < 2 ^ 63
    → get_file_info sha1 p.file_path disk ≡ some p.file_info
    → find (record { group_id = q.group_id; file_name = q.file_info.name }) db ≡ some p
    → PartFile.has_piece p piece ≡ true
    → has p.file_info.pieces piece ≡ true
    → IsWord q.group_id
    → IsWord q.file_info.name
    → IsWord piece
    → (bytes : Text) × (process_request (piece_request q piece) db disk ≡ ok (lit "1 " ⊕ bytes))
      × (is_piece_valid sha1 piece bytes ≡ true)
unfolding get_piece_index has_piece piece_request
honest_client_answers sha1 p q piece content db disk r small made f have known g n w =
    let key : FileId = record { group_id = q.group_id; file_name = q.file_info.name } in
    let pieces : p.file_info.pieces
        ≡ hash_blocks sha1 (read_blocks block_size (suc (length content)) content) =
      pieces-get_file_info sha1 p.file_path content disk p.file_info r made in
    let block =
      index-IsBlock sha1 block_size (suc (length content)) content piece 0 (rw pieces at known) in
    let (bytes, sent, valid) =
      send_block sha1 key piece content db disk p f r small (rw (get_piece_index, pieces) block) in
    (
      bytes,
      request_for_piece q.group_id q.file_info.name piece g n w db disk (rw (has_piece, f) have)
          ∙ sent,
      valid,
    )
