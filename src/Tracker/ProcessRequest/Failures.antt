-- ===== src/Tracker/ProcessRequest/Failures.antt =====
-- A request that is reported as failed changes nothing, but for the upload of a file that the group
-- has already.
use p2p_file_share.Base.{
  ℕ, ◌≡◌, ◌≢◌, refl, false, [], arith, Text, lit, Checked, ok, throws, Option-cases, inl, inr,
  ◌>>=◌, Bool-cases, invalid_argument,
}
use p2p_file_share.Stream.{Stream, get_word, remainder}
use p2p_file_share.Models.Endpoint
use p2p_file_share.Models.Endpoint.{Endpoint}
use p2p_file_share.Models.FileInfo
use p2p_file_share.Models.FileInfo.{FileInfo}
use p2p_file_share.Models.User.{Shared, User}
use p2p_file_share.Models.Group.{Group}
use p2p_file_share.Models.Transaction.{
  UserRequest, GroupRequest, FileRequest, Request, Result, Transaction, user_request, group_request,
  file_request, tracker_request,
}
use mathlib.Core.Path.{subst}
use p2p_file_share.Models.Group.{has_member}
use p2p_file_share.Tracker.GroupDb.{get_group}
use p2p_file_share.Tracker.State.{State, failure, session}
use p2p_file_share.Tracker.UserRequests.{
  create_named, delete_named, login_named, process_user_request,
}
use p2p_file_share.Tracker.GroupRequests.{
  create_action, join_action, leave_action, list_requests_action, accept_action, group_action,
  logged_in_action, process_group_request,
}
use p2p_file_share.Tracker.FileRequests.{
  upload_file, upload_action, list_action, download_action, file_action, catch_invalid,
  member_action, process_file_request,
}
use p2p_file_share.Tracker.ProcessRequest.{dispatch}

-- The failure leaves the state as it was.
abbrev pub Harmless : State → State × Result → Type 0
Harmless st r = r.1.success ≡ false → r.0 ≡ st

create_named-Harmless : (u p : Text) (st : State) → Harmless st (create_named u p st)
unfolding create_named
create_named-Harmless u p st = ground arith

delete_named-Harmless : (u : Text) (st : State) → Harmless st (delete_named u st)
unfolding delete_named
delete_named-Harmless u st = ground arith

login_named-Harmless :
    (origin : ℕ) (u p : Text) (st : State) → Harmless st (login_named origin u p st)
unfolding login_named
login_named-Harmless origin u p st = ground arith

pub user-Harmless :
    (origin : ℕ) (r : UserRequest) (s : Stream) (st : State)
    → Harmless st (process_user_request origin r s st)
unfolding process_user_request
user-Harmless origin UserRequest.create s st =
    ground (arith, create_named-Harmless (get_word [] s).0 (get_word [] (get_word [] s).1).0 st)
user-Harmless origin UserRequest.delete s st = delete_named-Harmless (get_word [] s).0 st
user-Harmless origin UserRequest.list s st = ground arith
user-Harmless origin UserRequest.login s st =
    ground
      (arith, login_named-Harmless origin (get_word [] s).0 (get_word [] (get_word [] s).1).0 st)
user-Harmless origin UserRequest.logout s st = ground arith

create_action-Harmless :
    (user : Shared User) (g : Text) (st : State) → Harmless st (create_action user g st)
unfolding create_action
create_action-Harmless user g st = ground arith

join_action-Harmless :
    (user : Shared User) (g : Text) (st : State) → Harmless st (join_action user g st)
unfolding join_action
join_action-Harmless user g st = ground arith

leave_action-Harmless :
    (user : Shared User) (g : Text) (st : State) → Harmless st (leave_action user g st)
unfolding leave_action
leave_action-Harmless user g st = ground arith

list_requests_action-Harmless : (g : Text) (st : State) → Harmless st (list_requests_action g st)
unfolding list_requests_action
list_requests_action-Harmless g st = ground arith

accept_action-Harmless :
    (user : Shared User) (g u : Text) (st : State) → Harmless st (accept_action user g u st)
unfolding accept_action
accept_action-Harmless user g u st = ground arith

group_action-Harmless :
    (user : Shared User) (r : GroupRequest) (g : Text) (s : Stream) (st : State)
    → Harmless st (group_action user r g s st)
unfolding group_action
group_action-Harmless user GroupRequest.create g s st = create_action-Harmless user g st
group_action-Harmless user GroupRequest.join g s st = join_action-Harmless user g st
group_action-Harmless user GroupRequest.leave g s st = leave_action-Harmless user g st
group_action-Harmless user GroupRequest.list_join_requests g s st =
    list_requests_action-Harmless g st
group_action-Harmless user GroupRequest.accept_join_request g s st =
    accept_action-Harmless user g (get_word [] s).0 st
group_action-Harmless user GroupRequest.list g s st = λ _. refl

logged_in_action-Harmless :
    (origin : ℕ) (r : GroupRequest) (s : Stream) (st : State)
    → Harmless st (logged_in_action origin r s st)
unfolding logged_in_action
logged_in_action-Harmless origin r s st = elim (Option-cases (session origin st)) [
  | inl e ↦ rw (e, logged_in_action) (λ _. refl)
  | inr (user, e) ↦
      rw (e, logged_in_action) (group_action-Harmless user r (get_word [] s).0 (get_word [] s).1 st)
]

pub group-Harmless :
    (origin : ℕ) (r : GroupRequest) (s : Stream) (st : State)
    → Harmless st (process_group_request origin r s st)
unfolding process_group_request
group-Harmless origin GroupRequest.list s st = ground arith
group-Harmless origin _ s st = logged_in_action-Harmless origin _ s st

-- The answer to an upload of a file that the group has.
abbrev pub already_exists : Result
already_exists = failure (lit "File already exists. Added you as a seeder\n")

-- An exception too leaves the state; the one failure that may change it is `already_exists`.
abbrev pub HarmlessBut : State → Checked (State × Result) → Type 0
HarmlessBut st (throws e) = Unit
HarmlessBut st (ok (st', r)) = r.success ≡ false → r ≢ already_exists → st' ≡ st

upload_file-HarmlessBut :
    (group : Group) (g : Text) (e : Endpoint) (f : FileInfo) (st : State)
    → HarmlessBut st (ok (upload_file group g e f st))
unfolding upload_file
upload_file-HarmlessBut group g e f st = ground arith

upload_action-HarmlessBut :
    (unset : ℕ) (group : Group) (g : Text) (s : Stream) (st : State)
    → HarmlessBut st (upload_action unset group g s st)
unfolding upload_action
upload_action-HarmlessBut unset group g s st =
    both (Endpoint.from_string (get_word [] s).0) (remainder (get_word [] s).1)
  where
    both :
        (e : Checked Endpoint) (rest : Checked Text)
        → HarmlessBut st (
            e >>= λ endpoint.
            rest >>= λ text. ok (upload_file group g endpoint (FileInfo.from_string unset text) st))
    both (throws x) rest = tt
    both (ok e) (throws x) = tt
    both (ok e) (ok text) = upload_file-HarmlessBut group g e (FileInfo.from_string unset text) st

file_action-HarmlessBut :
    (unset : ℕ) (group : Group) (r : FileRequest) (g : Text) (s : Stream) (st : State)
    → HarmlessBut st (file_action unset group r g s st)
unfolding file_action
file_action-HarmlessBut unset group FileRequest.list g s st = unfold list_action in (λ _ _. refl)
file_action-HarmlessBut unset group FileRequest.upload g s st =
    upload_action-HarmlessBut unset group g s st
file_action-HarmlessBut unset group FileRequest.download g s st =
    unfold download_action in (ground arith)

catch_invalid-HarmlessBut :
    (st : State) (c : Checked (State × Result))
    → HarmlessBut st c
    → HarmlessBut st (catch_invalid st c)
unfolding catch_invalid
catch_invalid-HarmlessBut st (ok r) h = h
catch_invalid-HarmlessBut st (throws invalid_argument) h = λ _ _. refl
catch_invalid-HarmlessBut st (throws e) h = tt

member_action-HarmlessBut :
    (unset : ℕ) (user : Shared User) (r : FileRequest) (s : Stream) (st : State)
    → HarmlessBut st (member_action unset user r s st)
unfolding member_action
member_action-HarmlessBut unset user r s st =
    elim (Option-cases (get_group (get_word [] s).0 st.group_db)) [
      | inl e ↦ rw (e, member_action) (λ _ _. refl)
      | inr (group, e) ↦ elim (Bool-cases (has_member group user)) [
        | inl m ↦
            rw (e, member_action, m)
              (catch_invalid-HarmlessBut st _
                (file_action-HarmlessBut unset group r (get_word [] s).0 (get_word [] s).1 st))
        | inr m ↦ rw (e, member_action, m) (λ _ _. refl)
      ]
    ]

pub file-HarmlessBut :
    (unset origin : ℕ) (r : FileRequest) (s : Stream) (st : State)
    → HarmlessBut st (process_file_request unset origin r s st)
unfolding process_file_request
file-HarmlessBut unset origin r s st = elim (Option-cases (session origin st)) [
  | inl e ↦ rw (e, process_file_request) (λ _ _. refl)
  | inr (user, e) ↦ rw (e, process_file_request) (member_action-HarmlessBut unset user r s st)
]

dispatch-HarmlessBut :
    (unset : ℕ) (t : Transaction) (st : State) → HarmlessBut st (dispatch unset t st)
unfolding dispatch
dispatch-HarmlessBut unset t st = by_request t.request
  where
    by_request : (r : Request) → HarmlessBut st (dispatch unset (record t { request = r }) st)
    by_request (user_request r) = λ h _. user-Harmless t.origin r _ st h
    by_request (group_request r) = λ h _. group-Harmless t.origin r _ st h
    by_request (file_request r) = file-HarmlessBut unset t.origin r _ st
    by_request (tracker_request r) = λ _ _. refl

-- A request whose result is a failure, other than the upload of a file that the group has, leaves the
-- tracker's databases as they were.
pub failed_request_changes_nothing :
    (unset : ℕ) (t : Transaction) (st st' : State) (r : Result)
    → dispatch unset t st ≡ ok (st', r)
    → r.success ≡ false
    → r ≢ already_exists
    → st' ≡ st
failed_request_changes_nothing unset t st st' r e =
    subst (HarmlessBut st) e (dispatch-HarmlessBut unset t st)
