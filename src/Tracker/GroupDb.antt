-- ===== src/Tracker/GroupDb.antt =====
-- src/tracker/groupdb.hpp and groupdb.cpp. The groups are reached through this database only, so a
-- change of a group through its pointer is a `put_group` here.
use p2p_file_share.Base.{
  Bool, true, false, Option, none, some, List, [], map, Text, text_eq, lookup, insert, erase,
}
use p2p_file_share.Models.User.{Shared, User}
use p2p_file_share.Models.Group.{Group, new_group}

pub record GroupDb : Type 0 where
  pub groups : List (Text × Group)

abbrev pub empty : GroupDb
empty = record { groups = [] }

-- nullptr is `none`.
unfoldable pub get_group : Text → GroupDb → Option Group
get_group group_id db = lookup text_eq group_id db.groups

abbrev pub put_group : Text → Group → GroupDb → GroupDb
put_group group_id group db = record { groups = insert text_eq group_id group db.groups }

unfoldable pub create_group : Text → Shared User → GroupDb → GroupDb × Bool
create_group group_id owner db = elim (lookup text_eq group_id db.groups) [
  | some _ ↦ (db, false)
  | none ↦ (put_group group_id (new_group group_id owner) db, true)
]

unfoldable pub delete_group : Text → GroupDb → GroupDb × Bool
delete_group group_id db = elim (lookup text_eq group_id db.groups) [
  | none ↦ (db, false)
  | some _ ↦ (record { groups = erase text_eq group_id db.groups }, true)
]

unfoldable pub get_groups : GroupDb → List Text
get_groups db = map (λ entry. entry.0) db.groups
