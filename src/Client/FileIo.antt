-- ===== src/Client/FileIo.antt =====
-- src/client/file_io.cpp over a disk of files. Reads and writes of an open file complete.
pub mod WriteRead
pub mod Blocks
use p2p_file_share.Base.{
  ℕ, zero, suc, ◌+◌, ◌-◌, ◌*◌, ◌%◌, ◌^◌, Bool, true, false, Option, none, some, List, [], ◌∷◌, ◌++◌,
  ◌==◌, ltb, if◌then◌else◌, Text, text_eq, is_empty, length, lookup, insert, any, Checked, ok,
  throws, runtime_error, take, drop, take-all, take-drop, length-take, length-take_le, length-drop,
  drop-nil, drop-drop,
}
use p2p_file_share.Models.FileInfo.{FileInfo, block_size}
use p2p_file_share.Client.Hash.{get_sha1}

-- The content of each file, and the paths that can be opened for writing.
pub record Disk : Type 0 where
  pub files : List (Text × Text)
  pub can_write : Text → Bool

abbrev pub read_file : Text → Disk → Option Text
read_file path disk = lookup text_eq path disk.files

-- basename of <cstring>: what follows the last slash.
unfoldable pub basename_from : Text → Text → Text
basename_from since [] = since
basename_from since (c ∷ s) = basename_from (if c == b'/' then [] else since ++ c ∷ []) s

unfoldable pub basename : Text → Text
unfolding basename_from
basename path = basename_from [] path

-- The reads of one file, block after block, until a read gives nothing. Each but the last takes a byte
-- or more, so the length of the content is fuel enough.
unfoldable pub read_blocks : ℕ → ℕ → Text → List Text
read_blocks size zero content = []
read_blocks size (suc fuel) content =
    let more = read_blocks size fuel (drop size content) in
    if is_empty (take size content) then [] else take size content ∷ more

unfoldable pub hash_blocks : (Text → List ℕ) → List Text → List Text
hash_blocks sha1 [] = []
hash_blocks sha1 (block ∷ blocks) = get_sha1 sha1 block ∷ hash_blocks sha1 blocks

unfoldable pub join : List Text → Text
join [] = []
join (piece ∷ pieces) = piece ++ join pieces

-- nullptr, for a file that cannot be opened, is `none`.
unfoldable pub get_file_info : (Text → List ℕ) → Text → Disk → Option FileInfo
unfolding read_blocks hash_blocks join
get_file_info sha1 file_path disk = elim (read_file file_path disk) [
  | none ↦ none
  | some content ↦
      let pieces = hash_blocks sha1 (read_blocks block_size (suc (length content)) content) in
      some (record {
        name = basename file_path;
        size = length content;
        pieces = pieces;
        hash = join pieces;
      })
]

-- The loop over the pieces, from the index `i` on. -1 as a size_t where no piece is equal.
unfoldable pub index_from : ℕ → List Text → Text → ℕ
index_from i [] piece = 2 ^ 64 - 1
index_from i (p ∷ ps) piece = if text_eq p piece then i else index_from (i + 1) ps piece

unfoldable pub get_piece_index : FileInfo → Text → ℕ
unfolding index_from
get_piece_index file_info piece = index_from 0 file_info.pieces piece

unfoldable pub is_piece_valid : (Text → List ℕ) → Text → Text → Bool
is_piece_valid sha1 hash content = text_eq hash (get_sha1 sha1 content)

-- Where `lseek(fd, block_index * block_size, SEEK_SET)` leaves the file's position: the product is a
-- size_t, and as an off_t below 0 it is refused, so that the position stays 0.
unfoldable pub seek : ℕ → ℕ → ℕ
seek index size = let offset = (index * size) % 2 ^ 64 in if ltb offset (2 ^ 63) then offset else 0

unfoldable pub read_piece_from_file : Text → ℕ → ℕ → Disk → Checked Text
unfolding seek
read_piece_from_file path index size disk = elim (read_file path disk) [
  | none ↦ throws runtime_error
  | some content ↦ ok (take size (drop (seek index size) content))
]

-- What a write at the head of the bytes leaves.
unfoldable pub overlay : Text → Text → Text
overlay [] old = old
overlay (d ∷ ds) [] = d ∷ ds
overlay (d ∷ ds) (x ∷ xs) = d ∷ overlay ds xs

-- A write of some bytes at an offset; a gap behind the end of the file reads as zeros.
unfoldable pub write_at : ℕ → Text → Text → Text
unfolding overlay
write_at zero new old = overlay new old
write_at (suc n) new [] = 0 ∷ write_at n new []
write_at (suc n) new (x ∷ xs) = x ∷ write_at n new xs

-- write: no bytes leave the file as it is.
unfoldable pub write_bytes : ℕ → Text → Text → Text
unfolding write_at
write_bytes offset new old = if is_empty new then old else write_at offset new old

abbrev pub content_or_empty : Option Text → Text
content_or_empty none = []
content_or_empty (some content) = content

unfoldable pub write_piece_to_file : Text → ℕ → ℕ → Text → Disk → Checked Disk
unfolding seek write_bytes
write_piece_to_file path index size new disk =
    if disk.can_write path
    then ok (record disk {
      files =
          insert text_eq path
            (write_bytes (seek index size) new (content_or_empty (read_file path disk))) disk.files;
    })
    else throws runtime_error
