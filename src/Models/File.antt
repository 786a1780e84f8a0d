-- ===== src/Models/File.antt =====
-- src/models/file.hpp
pub mod RoundTrip
use p2p_file_share.Base.{
  ℕ, zero, suc, Bool, ◌&&◌, List, [], ◌∷◌, ◌++◌, ◌⊕◌, Text, lit, text_eq, length, Checked, ok,
  throws, ◌>>=◌,
}
use p2p_file_share.Stream.{
  Stream, of_text, get_word, get_size, remainder, to_string as number_to_string,
}
use p2p_file_share.Models.Endpoint
use p2p_file_share.Models.Endpoint.{Endpoint}
use p2p_file_share.Models.FileInfo
use p2p_file_share.Models.FileInfo.{FileInfo}

-- `seeders` is a set of pointers, and every seeder that the code inserts is a new object: an insertion
-- never finds its pointer there. The seeders stand in the order in which a walk meets them.
pub record File : Type 0 where
  pub seeders : List Endpoint
  pub file_info : FileInfo
  pub group_id : Text

-- operator==
unfoldable pub file_eq : File → File → Bool
file_eq lhs rhs = text_eq lhs.file_info.hash rhs.file_info.hash && text_eq lhs.group_id rhs.group_id

unfoldable pub print_seeders : List Endpoint → Text → Text
print_seeders [] after = after
print_seeders (seeder ∷ seeders) after =
    Endpoint.to_string seeder ⊕ lit " " ⊕ print_seeders seeders after

unfoldable pub to_string : File → Text
unfolding print_seeders
to_string f =
    number_to_string (length f.seeders)
    ⊕ lit " "
    ⊕ print_seeders f.seeders (f.group_id ⊕ lit " " ⊕ FileInfo.to_string f.file_info)

-- The loop over `seeder_count`, with the stream where it ends.
unfoldable pub read_seeders : ℕ → Stream → List Endpoint → Checked (List Endpoint × Stream)
read_seeders zero s seeders = ok (seeders, s)
read_seeders (suc n) s seeders =
    let (seeder_str, s') = get_word [] s in
    Endpoint.from_string seeder_str >>= λ seeder. read_seeders n s' (seeders ++ seeder ∷ [])

-- `unset` is what the variables with no initialiser hold.
unfoldable pub from_string : ℕ → Text → Checked File
unfolding read_seeders
from_string unset str =
    let (seeder_count, s) = get_size unset (of_text str) in
    read_seeders seeder_count s [] >>= λ found.
    let (group_id, s') = get_word [] found.1 in
    remainder s' >>= λ rest.
    ok (record {
      seeders = found.0;
      file_info = FileInfo.from_string unset rest;
      group_id = group_id;
    })
