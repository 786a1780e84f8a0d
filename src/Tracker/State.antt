-- ===== src/Tracker/State.antt =====
-- The static variables of src/tracker/process_request.cpp.
use p2p_file_share.Base.{
  ℕ, ◌==◌, Bool, true, false, Option, none, some, List, [], ◌∷◌, ◌⊕◌, Text, lit, lookup,
}
use p2p_file_share.Models.User.{Shared, User}
use p2p_file_share.Models.Transaction.{Result}
use p2p_file_share.Tracker.UserDb
use p2p_file_share.Tracker.UserDb.{UserDb}
use p2p_file_share.Tracker.GroupDb
use p2p_file_share.Tracker.GroupDb.{GroupDb}

-- `next_address` stands for the allocator: no live object has this address or a higher one.
pub record State : Type 0 where
  pub group_db : GroupDb
  pub logged_in_users : List (ℕ × Shared User)
  pub user_db : UserDb
  pub next_address : ℕ

abbrev pub initial : State
initial = record {
  group_db = GroupDb.empty;
  logged_in_users = [];
  user_db = UserDb.empty;
  next_address = 0;
}

-- logged_in_users.at(client), whose `out_of_range` is `none`.
abbrev pub session : ℕ → State → Option (Shared User)
session client s = lookup ◌==◌ client s.logged_in_users

abbrev is_some {ℓ} : {A : Type ℓ} → Option A → Bool
is_some none = false
is_some (some a) = true

unfoldable pub is_logged_in : ℕ → State → Bool
is_logged_in client s = is_some (session client s)

abbrev pub login_required_warning : Text
login_required_warning = lit "You must be logged in to perform this action\n"

abbrev pub failure : Text → Result
failure message = record { success = false; message = message }

abbrev pub success : Text → Result
success message = record { success = true; message = message }

-- The loops that write one name to a line.
unfoldable pub lines : List Text → Text
lines [] = []
lines (name ∷ names) = name ⊕ lit "\n" ⊕ lines names
