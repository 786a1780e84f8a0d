-- ===== src/Tracker/UserRequests.antt =====
-- `process_user_request` of src/tracker/process_request.cpp
use p2p_file_share.Base.{
  ℕ, ◌+◌, ◌==◌, ◌||◌, none, some, [], ◌⊕◌, if◌then◌else◌, Text, lit, is_empty, insert, erase,
}
use p2p_file_share.Stream.{Stream, get_word}
use p2p_file_share.Models.User.{check_password}
use p2p_file_share.Models.Transaction.{UserRequest, Result}
use p2p_file_share.Tracker.UserDb.{create_user, delete_user, get_user, get_usernames}
use p2p_file_share.Tracker.State.{State, session, is_logged_in, failure, success, lines}

abbrev pub user_not_found_warning : Text
user_not_found_warning = lit "User does not exist\n"

abbrev pub empty_name_warning : Text
empty_name_warning = lit "Username or password cannot be empty\n"

-- The branch of CREATE behind its guard.
unfoldable pub create_named : Text → Text → State → State × Result
create_named username password st =
    let (db, created) = create_user st.next_address username password st.user_db in
    if created
    then (
      record st { user_db = db; next_address = st.next_address + 1 },
      success (lit "User created\n"),
    )
    else (st, failure (lit "User already exists\n"))

-- The branch of LOGIN behind its guard.
unfoldable pub login_named : ℕ → Text → Text → State → State × Result
login_named origin username password st = elim (session origin st) [
  | some user ↦ (st, failure (user.value.username ⊕ lit " is already logged in\n"))
  | none ↦ elim (get_user username st.user_db) [
    | none ↦ (st, failure user_not_found_warning)
    | some user ↦
        if check_password user.value password
        then (
          record st { logged_in_users = insert ◌==◌ origin user st.logged_in_users },
          success (lit "Login successful\n"),
        )
        else (st, failure (lit "Login failed\n"))
  ]
]

unfoldable pub delete_named : Text → State → State × Result
delete_named username st =
    let (db, deleted) = delete_user username st.user_db in
    if deleted
    then (record st { user_db = db }, success (lit "User deleted\n"))
    else (st, failure user_not_found_warning)

unfoldable pub process_user_request : ℕ → UserRequest → Stream → State → State × Result
unfolding create_named delete_named login_named
process_user_request origin UserRequest.create s st =
    let (username, s1) = get_word [] s in
    let (password, s2) = get_word [] s1 in
    if is_empty username || is_empty password
    then (st, failure empty_name_warning)
    else create_named username password st
process_user_request origin UserRequest.delete s st =
    let (username, s1) = get_word [] s in delete_named username st
process_user_request origin UserRequest.list s st =
    let response = lines (get_usernames st.user_db) in
    (st, failure (if is_empty response then lit "No users found\n" else response))
process_user_request origin UserRequest.login s st =
    let (username, s1) = get_word [] s in
    let (password, s2) = get_word [] s1 in
    if is_empty username || is_empty password
    then (st, failure empty_name_warning)
    else login_named origin username password st
process_user_request origin UserRequest.logout s st =
    if is_logged_in origin st
    then (
      record st { logged_in_users = erase ◌==◌ origin st.logged_in_users },
      success (lit "Logout successful\n"),
    )
    else (st, failure (lit "Logout failed\n"))
