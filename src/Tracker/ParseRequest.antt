-- ===== src/Tracker/ParseRequest.antt =====
-- src/tracker/parse_request.cpp
use p2p_file_share.Base.{
  ℕ, [], if◌then◌else◌, Text, lit, text_eq, Checked, ok, throws, unknown_request, ◌>>=◌,
}
use p2p_file_share.Stream.{of_text, get_word, get_size}
use p2p_file_share.Models.Transaction.{
  UserRequest, GroupRequest, FileRequest, TrackerRequest, Request, user_request, group_request,
  file_request, tracker_request, Transaction, not_yet_processed,
}

-- The chain of tests on the request's word.
unfoldable pub request_of_word : Text → Checked Request
request_of_word word =
    if text_eq word (lit "create_user")
    then ok (user_request UserRequest.create)
    else if text_eq word (lit "delete_user")
    then ok (user_request UserRequest.delete)
    else if text_eq word (lit "list_users")
    then ok (user_request UserRequest.list)
    else if text_eq word (lit "login")
    then ok (user_request UserRequest.login)
    else if text_eq word (lit "logout")
    then ok (user_request UserRequest.logout)
    else if text_eq word (lit "create_group")
    then ok (group_request GroupRequest.create)
    else if text_eq word (lit "join_group")
    then ok (group_request GroupRequest.join)
    else if text_eq word (lit "leave_group")
    then ok (group_request GroupRequest.leave)
    else if text_eq word (lit "list_groups")
    then ok (group_request GroupRequest.list)
    else if text_eq word (lit "list_requests")
    then ok (group_request GroupRequest.list_join_requests)
    else if text_eq word (lit "accept_request")
    then ok (group_request GroupRequest.accept_join_request)
    else if text_eq word (lit "list_files")
    then ok (file_request FileRequest.list)
    else if text_eq word (lit "upload_file")
    then ok (file_request FileRequest.upload)
    else if text_eq word (lit "download_file")
    then ok (file_request FileRequest.download)
    else if text_eq word (lit "sync")
    then ok (tracker_request TrackerRequest.sync)
    else throws unknown_request

-- `unset` is what the variable `id`, which has no initialiser, holds.
unfoldable pub parse_request : ℕ → Text → Checked Transaction
parse_request unset text =
    let (id, s) = get_size unset (of_text text) in
    let (word, s') = get_word [] s in
    request_of_word word >>= λ request.
    ok (record { origin = id; request = request; text = text; outcome = not_yet_processed })
