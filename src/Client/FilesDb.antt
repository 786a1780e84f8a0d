-- ===== src/Client/FilesDb.antt =====
-- src/client/filesdb.hpp, filesdb.cpp and file_id.hpp. Each method holds the database's mutex from its
-- first line to its return, so the calls of several threads take effect one after another.
use p2p_file_share.Base.{
  Bool, true, false, ◌&&◌, Option, none, some, List, [], ◌⊕◌, Text, lit, text_eq, lookup, insert,
  erase, Checked, ok, throws, invalid_argument,
}
use p2p_file_share.Models.FileInfo.{FileInfo}
use p2p_file_share.Client.PartFile
use p2p_file_share.Client.PartFile.{PartFile, new_partfile}

-- The hash of a file id only decides the order of the table.
pub record FileId : Type 0 where
  pub group_id : Text
  pub file_name : Text

unfoldable pub file_id_eq : FileId → FileId → Bool
file_id_eq lhs rhs = text_eq lhs.group_id rhs.group_id && text_eq lhs.file_name rhs.file_name

unfoldable pub file_id_to_string : FileId → Text
file_id_to_string id = id.group_id ⊕ lit " " ⊕ id.file_name

pub record FilesDb : Type 0 where
  pub files : List (FileId × PartFile)

abbrev pub empty : FilesDb
empty = record { files = [] }

abbrev pub find : FileId → FilesDb → Option PartFile
find key db = lookup file_id_eq key db.files

unfoldable pub add_partfile : Text → FileInfo → Text → Bool → FilesDb → FilesDb × Bool
add_partfile group_id file_info file_path all_downloaded db =
    let key : FileId = record { group_id = group_id; file_name = file_info.name } in
    elim (find key db) [
      | some _ ↦ (db, false)
      | none ↦ (
        record {
          files =
              insert file_id_eq key (new_partfile group_id file_info file_path all_downloaded)
                db.files;
        },
        true,
      )
    ]

unfoldable pub remove_partfile : FileId → FilesDb → FilesDb × Bool
remove_partfile key db = elim (find key db) [
  | none ↦ (db, false)
  | some _ ↦ (record { files = erase file_id_eq key db.files }, true)
]

unfoldable pub get_partfile : FileId → FilesDb → Checked PartFile
get_partfile key db = elim (find key db) [ none ↦ throws invalid_argument | some p ↦ ok p ]

unfoldable pub has_file : FileId → FilesDb → Bool
has_file key db = elim (find key db) [ none ↦ false | some _ ↦ true ]

unfoldable pub has_piece : FileId → Text → FilesDb → Bool
has_piece key piece db = elim (find key db) [ none ↦ false | some p ↦ PartFile.has_piece p piece ]

unfoldable pub is_complete : FileId → FilesDb → Bool
is_complete key db = elim (find key db) [ none ↦ false | some p ↦ PartFile.is_complete p ]

unfoldable pub mark_downloaded : FileId → Text → FilesDb → FilesDb × Bool
mark_downloaded key piece db = elim (find key db) [
  | none ↦ (db, false)
  | some p ↦
      let (p', marked) = PartFile.mark_downloaded piece p in
      (record { files = insert file_id_eq key p' db.files }, marked)
]
