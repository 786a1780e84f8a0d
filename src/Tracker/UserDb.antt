-- ===== src/Tracker/UserDb.antt =====
-- src/tracker/userdb.hpp and userdb.cpp
use p2p_file_share.Base.{
  ℕ, Bool, true, false, Option, none, some, List, [], map, Text, text_eq, lookup, insert, erase,
}
use p2p_file_share.Models.User.{Shared, User}

pub record UserDb : Type 0 where
  pub users : List (Text × Shared User)

abbrev pub empty : UserDb
empty = record { users = [] }

-- nullptr is `none`.
unfoldable pub get_user : Text → UserDb → Option (Shared User)
get_user username db = lookup text_eq username db.users

-- `fresh` is the address that the new object gets.
unfoldable pub create_user : ℕ → Text → Text → UserDb → UserDb × Bool
create_user fresh username password db = elim (lookup text_eq username db.users) [
  | some _ ↦ (db, false)
  | none ↦
      let user : Shared User = record {
        address = fresh;
        value = record { username = username; password = password };
      } in
      (record { users = insert text_eq username user db.users }, true)
]

unfoldable pub delete_user : Text → UserDb → UserDb × Bool
delete_user username db = elim (lookup text_eq username db.users) [
  | none ↦ (db, false)
  | some _ ↦ (record { users = erase text_eq username db.users }, true)
]

unfoldable pub get_usernames : UserDb → List Text
get_usernames db = map (λ entry. entry.0) db.users
