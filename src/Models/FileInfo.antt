-- ===== src/Models/FileInfo.antt =====
-- src/models/fileinfo.hpp
pub mod Pieces
pub mod RoundTrip
use p2p_file_share.Base.{
  ℕ, zero, suc, ◌*◌, Bool, true, false, not, List, [], ◌∷◌, ◌++◌, ◌⊕◌, if◌then◌else◌, Text, lit,
  text_eq, length,
}
use p2p_file_share.Stream.{Stream, of_text, get_word, get_size, to_string as number_to_string}

-- 512KB
abbrev pub block_size : ℕ
block_size = 512 * 1024

pub record FileInfo : Type 0 where
  pub name : Text
  -- size_t
  pub size : ℕ
  pub pieces : List Text
  pub hash : Text

-- operator==
unfoldable pub file_info_eq : FileInfo → FileInfo → Bool
file_info_eq lhs rhs = text_eq lhs.name rhs.name

unfoldable pub print_pieces : List Text → Text
print_pieces [] = lit "\n"
print_pieces (piece ∷ pieces) = piece ⊕ lit " " ⊕ print_pieces pieces

unfoldable pub to_string : FileInfo → Text
unfolding print_pieces
to_string f =
    lit "File: "
    ⊕ f.name
    ⊕ lit "\t"
    ⊕ lit "Size: "
    ⊕ number_to_string f.size
    ⊕ lit " bytes\t"
    ⊕ lit "Pieces: "
    ⊕ print_pieces f.pieces

-- while (ss >> piece): the pieces, and the hash that they add up to. Each round but the last takes a
-- byte or more, so the length of the text is fuel enough.
unfoldable pub read_pieces : ℕ → Stream → Text → List Text → Text → List Text × Text
read_pieces zero s old pieces hash = (pieces, hash)
read_pieces (suc fuel) s old pieces hash =
    let (piece, s') = get_word old s in
    let more = read_pieces fuel s' piece (pieces ++ piece ∷ []) (hash ++ piece) in
    if s'.fail then (pieces, hash) else more

-- `unset` is what the variable `size`, which has no initialiser, holds.
unfoldable pub from_string : ℕ → Text → FileInfo
unfolding read_pieces
from_string unset str =
    let (temp, s) = get_word [] (of_text str) in
    let (name, s) = get_word [] s in
    let (temp, s) = get_word temp s in
    let (size, s) = get_size unset s in
    let (temp, s) = get_word temp s in
    let (temp, s) = get_word temp s in
    let (pieces, hash) = read_pieces (suc (length str)) s [] [] [] in
    record { name = name; size = size; pieces = pieces; hash = hash }
