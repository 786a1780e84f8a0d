-- ===== src/Tracker/FileRequests.antt =====
-- `process_file_request` of src/tracker/process_request.cpp
use p2p_file_share.Base.{
  ℕ, ◌+◌, not, Option, none, some, List, [], ◌∷◌, ◌++◌, ◌⊕◌, if◌then◌else◌, Text, lit, text_eq,
  is_empty, find_if, Checked, ok, throws, invalid_argument, ◌>>=◌,
}
use p2p_file_share.Stream.{Stream, get_word, remainder}
use p2p_file_share.Models.User.{Shared, User}
use p2p_file_share.Models.Endpoint
use p2p_file_share.Models.Endpoint.{Endpoint}
use p2p_file_share.Models.FileInfo
use p2p_file_share.Models.FileInfo.{FileInfo}
use p2p_file_share.Models.File
use p2p_file_share.Models.File.{File, file_eq}
use p2p_file_share.Models.Group.{Group, has_member, add_file}
use p2p_file_share.Models.Transaction.{FileRequest, Result}
use p2p_file_share.Tracker.GroupDb.{get_group}
use p2p_file_share.Tracker.State.{State, session, login_required_warning, failure, success}
use p2p_file_share.Tracker.GroupRequests.{store}

unfoldable pub print_files : List (Shared File) → Text
print_files [] = []
print_files (file ∷ files) = FileInfo.to_string file.value.file_info ⊕ lit "\n" ⊕ print_files files

unfoldable pub list_action : Group → State → State × Result
unfolding print_files
list_action group st =
    let message = print_files group.files in
    (st, failure (if is_empty message then lit "No files found\n" else message))

-- The seeder that a file found in the group gains: the first file that is equal to `file`.
unfoldable pub add_seeder : Endpoint → File → List (Shared File) → List (Shared File)
add_seeder endpoint file [] = []
add_seeder endpoint file (f ∷ fs) =
    if file_eq f.value file
    then record f { value = record f.value { seeders = f.value.seeders ++ endpoint ∷ [] } } ∷ fs
    else f ∷ add_seeder endpoint file fs

unfoldable pub find_file : File → Group → Option (Shared File)
find_file file group = find_if (λ f. file_eq f.value file) group.files

-- UPLOAD once the endpoint and the file are read.
unfoldable pub upload_file : Group → Text → Endpoint → FileInfo → State → State × Result
upload_file group group_id endpoint file_info st =
    let file : File = record {
      seeders = endpoint ∷ [];
      file_info = file_info;
      group_id = group_id;
    } in
    let shared : Shared File = record { address = st.next_address; value = file } in
    elim (find_file file group) [
      | some found ↦ (
        store group_id (record group { files = add_seeder endpoint file group.files }) st,
        failure (lit "File already exists. Added you as a seeder\n"),
      )
      | none ↦ (
        record (store group_id (add_file group shared).0 st) { next_address = st.next_address + 1 },
        success (lit "File uploaded\n"),
      )
    ]

unfoldable pub upload_action : ℕ → Group → Text → Stream → State → Checked (State × Result)
upload_action unset group group_id s st =
    let (endpoint_str, s') = get_word [] s in
    Endpoint.from_string endpoint_str >>= λ endpoint. remainder s' >>= λ rest.
    ok (upload_file group group_id endpoint (FileInfo.from_string unset rest) st)

unfoldable pub find_name : Text → Group → Option (Shared File)
find_name file_name group = find_if (λ f. text_eq f.value.file_info.name file_name) group.files

unfoldable pub download_action : Group → Stream → State → State × Result
download_action group s st =
    let (file_name, s') = get_word [] s in
    elim (find_name file_name group) [
      | some file ↦ (st, success (lit "1 " ⊕ File.to_string file.value ⊕ lit "\n"))
      | none ↦ (st, failure (lit "0 File not found\n"))
    ]

unfoldable pub file_action :
    ℕ → Group → FileRequest → Text → Stream → State → Checked (State × Result)
file_action unset group FileRequest.list group_id s st = ok (list_action group st)
file_action unset group FileRequest.upload group_id s st = upload_action unset group group_id s st
file_action unset group FileRequest.download group_id s st = ok (download_action group s st)

-- catch (std::invalid_argument &): any other exception goes on to the caller.
unfoldable pub catch_invalid : State → Checked (State × Result) → Checked (State × Result)
catch_invalid st (ok r) = ok r
catch_invalid st (throws invalid_argument) = ok (st, failure (lit "Invalid request\n"))
catch_invalid st (throws e) = throws e

unfoldable pub member_action :
    ℕ → Shared User → FileRequest → Stream → State → Checked (State × Result)
member_action unset user request s st =
    let (group_id, s') = get_word [] s in
    elim (get_group group_id st.group_db) [
      | none ↦ ok (st, failure (lit "Group not found\n"))
      | some group ↦
          if not (has_member group user)
          then ok (st, failure (lit "You are not a member of this group\n"))
          else catch_invalid st (file_action unset group request group_id s' st)
    ]

unfoldable pub process_file_request :
    ℕ → ℕ → FileRequest → Stream → State → Checked (State × Result)
process_file_request unset origin request s st = elim (session origin st) [
  | none ↦ ok (st, failure login_required_warning)
  | some user ↦ member_action unset user request s st
]
