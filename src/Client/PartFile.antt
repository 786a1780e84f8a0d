-- ===== src/Client/PartFile.antt =====
-- src/client/partfile.hpp and partfile.cpp
pub mod Progress
use p2p_file_share.Base.{
  ℕ, Bool, true, false, ◌&&◌, List, [], ◌∷◌, ◌++◌, if◌then◌else◌, Text, text_eq, is_empty, length,
  any,
}
use p2p_file_share.Models.FileInfo.{FileInfo, file_info_eq}

-- `std::unordered_set<std::string>`: find, insert and erase
unfoldable pub has : List Text → Text → Bool
unfolding any
has set x = any (λ y. text_eq y x) set

unfoldable pub put : List Text → Text → List Text
put set x = if has set x then set else set ++ x ∷ []

unfoldable pub without : List Text → Text → List Text
without [] x = []
without (y ∷ set) x = let rest = without set x in if text_eq y x then rest else y ∷ rest

pub record PartFile : Type 0 where
  pub group_id : Text
  pub file_info : FileInfo
  pub piece_count : ℕ
  pub file_path : Text
  pub downloaded_pieces : List Text
  pub remaining_pieces : List Text

-- The loops of the constructor.
unfoldable pub put_all : List Text → List Text → List Text
unfolding put
put_all set [] = set
put_all set (piece ∷ pieces) = put_all (put set piece) pieces

unfoldable pub new_partfile : Text → FileInfo → Text → Bool → PartFile
unfolding put_all
new_partfile group_id file_info file_path all_downloaded = record {
  group_id = group_id;
  file_info = file_info;
  piece_count = length file_info.pieces;
  file_path = file_path;
  downloaded_pieces = if all_downloaded then put_all [] file_info.pieces else [];
  remaining_pieces = if all_downloaded then [] else put_all [] file_info.pieces;
}

unfoldable pub is_complete : PartFile → Bool
is_complete p = is_empty p.remaining_pieces

unfoldable pub has_piece : PartFile → Text → Bool
has_piece p piece = has p.downloaded_pieces piece

unfoldable pub mark_downloaded : Text → PartFile → PartFile × Bool
mark_downloaded piece p = if has p.downloaded_pieces piece then (p, false) else (
  record p {
    downloaded_pieces = put p.downloaded_pieces piece;
    remaining_pieces = without p.remaining_pieces piece;
  },
  true,
)

-- operator==
unfoldable pub partfile_eq : PartFile → PartFile → Bool
partfile_eq lhs rhs = text_eq lhs.group_id rhs.group_id && file_info_eq lhs.file_info rhs.file_info
