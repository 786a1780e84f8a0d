-- ===== src/Tracker/GroupRequests.antt =====
-- `process_group_request` of src/tracker/process_request.cpp
use p2p_file_share.Base.{
  ℕ, not, Option, none, some, [], if◌then◌else◌, Text, lit, text_eq, is_empty, find_if, map,
}
use p2p_file_share.Stream.{Stream, get_word}
use p2p_file_share.Models.User.{Shared, User, same}
use p2p_file_share.Models.Group.{
  Group, has_member, add_user, remove_user, add_join_request, remove_join_request,
}
use p2p_file_share.Models.Transaction.{GroupRequest, Result}
use p2p_file_share.Tracker.GroupDb.{get_group, put_group, create_group, get_groups}
use p2p_file_share.Tracker.State.{State, session, login_required_warning, failure, success, lines}

abbrev pub group_missing_warning : Text
group_missing_warning = lit "Group does not exist\n"

abbrev pub store : Text → Group → State → State
store group_id group st = record st { group_db = put_group group_id group st.group_db }

unfoldable pub create_action : Shared User → Text → State → State × Result
create_action user group_id st =
    let (db, created) = create_group group_id user st.group_db in
    if created
    then (record st { group_db = db }, success (lit "Group created\n"))
    else (st, failure (lit "Group already exists\n"))

unfoldable pub join_action : Shared User → Text → State → State × Result
join_action user group_id st = elim (get_group group_id st.group_db) [
  | none ↦ (st, failure (lit "Invalid request\n"))
  | some group ↦
      if not (has_member group user)
      then (store group_id (add_join_request group user).0 st, success (lit "Join request sent\n"))
      else (st, failure (lit "Invalid request\n"))
]

unfoldable pub leave_action : Shared User → Text → State → State × Result
leave_action user group_id st = elim (get_group group_id st.group_db) [
  | none ↦ (st, failure (lit "Invalid request\n"))
  | some group ↦
      let (group', removed) = remove_user group user in
      if removed
      then (store group_id group' st, success (lit "Left group\n"))
      else (st, failure (lit "Invalid request\n"))
]

unfoldable pub list_requests_action : Text → State → State × Result
list_requests_action group_id st = elim (get_group group_id st.group_db) [
  | none ↦ (st, failure group_missing_warning)
  | some group ↦
      let response = lines (map (λ user. user.value.username) group.join_requests) in
      (st, failure (if is_empty response then lit "No pending join_requests\n" else response))
]

-- The loop over the join requests.
unfoldable pub find_request : Text → Group → Option (Shared User)
find_request username group =
    find_if (λ user. text_eq user.value.username username) group.join_requests

-- `add_user`, then `remove_join_request`.
unfoldable pub admit : Group → Shared User → Group
admit group user = (remove_join_request (add_user group user).0 user).0

unfoldable pub accept_action : Shared User → Text → Text → State → State × Result
accept_action user group_id username st = elim (get_group group_id st.group_db) [
  | none ↦ (st, failure group_missing_warning)
  | some group ↦
      if not (same group.owner user)
      then (st, failure (lit "You are not the owner of the group\n"))
      else elim (find_request username group) [
        | none ↦ (st, failure (lit "This user has not sent a request\n"))
        | some request ↦
            (store group_id (admit group request) st, success (lit "Request accepted\n"))
      ]
]

-- The branches that need a login. `GroupRequest::LIST` has returned before them.
unfoldable pub group_action : Shared User → GroupRequest → Text → Stream → State → State × Result
group_action user GroupRequest.create group_id s st = create_action user group_id st
group_action user GroupRequest.join group_id s st = join_action user group_id st
group_action user GroupRequest.leave group_id s st = leave_action user group_id st
group_action user GroupRequest.list_join_requests group_id s st = list_requests_action group_id st
group_action user GroupRequest.accept_join_request group_id s st =
    let (username, s') = get_word [] s in accept_action user group_id username st
group_action user GroupRequest.list group_id s st = (st, failure (lit "Not a group request\n"))

unfoldable pub logged_in_action : ℕ → GroupRequest → Stream → State → State × Result
logged_in_action origin request s st =
    let (group_id, s') = get_word [] s in
    elim (session origin st) [
      | none ↦ (st, failure login_required_warning)
      | some user ↦ group_action user request group_id s' st
    ]

unfoldable pub process_group_request : ℕ → GroupRequest → Stream → State → State × Result
process_group_request origin GroupRequest.list s st =
    let response = lines (get_groups st.group_db) in
    (st, failure (if is_empty response then lit "No groups found\n" else response))
process_group_request origin request s st = logged_in_action origin request s st
