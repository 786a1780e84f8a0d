-- ===== src/Models/Transaction.antt =====
-- src/models/transaction.hpp. `RequestType` is declared there and used nowhere.
use p2p_file_share.Base.{ℕ, Bool, false, ◌⊕◌, Text, lit}
use p2p_file_share.Stream.{to_string as number_to_string}

pub data UserRequest : Type 0 where
  create delete list login logout : UserRequest

pub data GroupRequest : Type 0 where
  create join leave list list_join_requests accept_join_request : GroupRequest

pub data FileRequest : Type 0 where
  list upload download : FileRequest

pub data TrackerRequest : Type 0 where
  sync : TrackerRequest

-- The variant.
pub data Request : Type 0 where
  user_request : UserRequest → Request
  group_request : GroupRequest → Request
  file_request : FileRequest → Request
  tracker_request : TrackerRequest → Request

pub record Result : Type 0 where
  pub success : Bool
  pub message : Text

abbrev pub not_yet_processed : Result
not_yet_processed = record { success = false; message = lit "Not yet processed" }

-- The field `data` is `text` here.
pub record Transaction : Type 0 where
  pub origin : ℕ
  pub request : Request
  pub text : Text
  pub outcome : Result

-- static_cast<int>
unfoldable pub user_code : UserRequest → ℕ
user_code UserRequest.create = 0
user_code UserRequest.delete = 1
user_code UserRequest.list = 2
user_code UserRequest.login = 3
user_code UserRequest.logout = 4

unfoldable pub group_code : GroupRequest → ℕ
group_code GroupRequest.create = 0
group_code GroupRequest.join = 1
group_code GroupRequest.leave = 2
group_code GroupRequest.list = 3
group_code GroupRequest.list_join_requests = 4
group_code GroupRequest.accept_join_request = 5

unfoldable pub file_code : FileRequest → ℕ
file_code FileRequest.list = 0
file_code FileRequest.upload = 1
file_code FileRequest.download = 2

unfoldable pub describe_request : Request → Text
unfolding user_code group_code file_code
describe_request (user_request r) = lit "UserRequest " ⊕ number_to_string (user_code r)
describe_request (group_request r) = lit "GroupRequest " ⊕ number_to_string (group_code r)
describe_request (file_request r) = lit "FileRequest " ⊕ number_to_string (file_code r)
describe_request (tracker_request TrackerRequest.sync) = lit "TrackerRequest " ⊕ number_to_string 0

unfoldable pub to_string : Transaction → Text
unfolding describe_request
to_string t =
    describe_request t.request
    ⊕ lit " from "
    ⊕ number_to_string t.origin
    ⊕ lit " with data: "
    ⊕ t.text
