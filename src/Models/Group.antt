-- ===== src/Models/Group.antt =====
-- src/models/group.hpp. A method that changes the group returns it beside its result.
pub mod Members
use p2p_file_share.Base.{ℕ, Bool, true, false, ◌||◌, List, [], ◌∷◌, ◌++◌, if◌then◌else◌, not, Text}
use p2p_file_share.Models.User.{Shared, User, same, contains}
use p2p_file_share.Models.File.{File}

pub record Group : Type 0 where
  pub group_id : Text
  pub owner : Shared User
  pub users : List (Shared User)
  pub join_requests : List (Shared User)
  pub files : List (Shared File)

-- The constructor: every set is empty.
unfoldable pub new_group : Text → Shared User → Group
new_group group_id owner = record {
  group_id = group_id;
  owner = owner;
  users = [];
  join_requests = [];
  files = [];
}

-- erase of a `std::unordered_set` of pointers
unfoldable pub without {ℓ} : {A : Type ℓ} → List (Shared A) → Shared A → List (Shared A)
without [] p = []
without (q ∷ qs) p = let rest = without qs p in if same q p then rest else q ∷ rest

unfoldable pub add_user : Group → Shared User → Group × Bool
add_user g user =
    if contains g.users user then (g, false) else (record g { users = g.users ++ user ∷ [] }, true)

unfoldable pub has_member : Group → Shared User → Bool
has_member g user = same user g.owner || contains g.users user

unfoldable pub remove_user : Group → Shared User → Group × Bool
unfolding without
remove_user g user = (record g { users = without g.users user }, contains g.users user)

unfoldable pub add_join_request : Group → Shared User → Group × Bool
add_join_request g user =
    if contains g.join_requests user
    then (g, false)
    else (record g { join_requests = g.join_requests ++ user ∷ [] }, true)

unfoldable pub remove_join_request : Group → Shared User → Group × Bool
unfolding without
remove_join_request g user =
    if not (contains g.join_requests user)
    then (g, false)
    else (record g { join_requests = without g.join_requests user }, true)

unfoldable pub add_file : Group → Shared File → Group × Bool
add_file g file =
    if contains g.files file then (g, false) else (record g { files = g.files ++ file ∷ [] }, true)
