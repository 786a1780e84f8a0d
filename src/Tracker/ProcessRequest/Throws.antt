-- ===== src/Tracker/ProcessRequest/Throws.antt =====
-- The exceptions that leave process_request.
use p2p_file_share.Base.{
  ℕ, Bool, true, false, some, Option-cases, Bool-cases, OnlyThrows, bind-OnlyThrows,
  OnlyThrows-wider, inl, inr, ◌≡◌, List, [], ◌∷◌, arith, Text, lit, Checked, ok, throws, Exception,
  invalid_argument, out_of_range, unknown_request, network_error, would_block, connection_closed,
}
use p2p_file_share.Stream.{Stream, get_word, get_size, of_text, remainder}
use p2p_file_share.Models.Endpoint
use p2p_file_share.Models.Endpoint.{Endpoint}
use p2p_file_share.Models.Endpoint.Errors.{IsReadError, remainder-throws, from_string-throws}
use p2p_file_share.Models.Group.{Group, has_member}
use p2p_file_share.Models.User.{Shared, User}
use p2p_file_share.Models.Transaction.{
  FileRequest, Request, user_request, group_request, file_request, tracker_request, Transaction,
  Result,
}
use p2p_file_share.Tracker.State.{State, session}
use p2p_file_share.Tracker.GroupDb.{get_group}
use p2p_file_share.Tracker.FileRequests.{
  upload_action, file_action, catch_invalid, member_action, process_file_request,
}
use p2p_file_share.Tracker.ParseRequest.{request_of_word, parse_request}
use p2p_file_share.Tracker.ProcessRequest.{
  Connection, send_transactions, serve_tracker, reply, finish_request, dispatch, process_request,
}

-- The exceptions of a socket.
abbrev pub IsNetworkError : Exception → Type 0
IsNetworkError network_error = Unit
IsNetworkError would_block = Unit
IsNetworkError connection_closed = Unit
IsNetworkError e = ⊥

-- These, and out_of_range where `b` allows it.
abbrev pub IsAllowed : Bool → Exception → Type 0
IsAllowed true out_of_range = Unit
IsAllowed b e = IsNetworkError e

request_of_word-throws :
    (word : Text) → OnlyThrows (λ e. e ≡ unknown_request) (request_of_word word)
unfolding request_of_word
request_of_word-throws word = ground arith

pub parse_request-throws :
    (unset : ℕ) (text : Text) → OnlyThrows (λ e. e ≡ unknown_request) (parse_request unset text)
unfolding parse_request
parse_request-throws unset text =
    let (id, s) = get_size unset (of_text text) in
    let word = (get_word [] s).0 in
    bind-OnlyThrows (λ e. e ≡ unknown_request) (request_of_word word) _
      (request_of_word-throws word) (λ r. tt)

abbrev pub is_upload : Request → Bool
is_upload (file_request FileRequest.upload) = true
is_upload _ = false

catch_invalid-IsAllowed :
    (st : State) (r : Checked (State × Result))
    → OnlyThrows IsReadError r
    → OnlyThrows (IsAllowed true) (catch_invalid st r)
unfolding catch_invalid
catch_invalid-IsAllowed st (ok r) h = tt
catch_invalid-IsAllowed st (throws invalid_argument) h = tt
catch_invalid-IsAllowed st (throws out_of_range) h = tt
catch_invalid-IsAllowed st (throws e) h = elim h [ ]

upload_action-throws :
    (unset : ℕ) (group : Group) (id : Text) (s : Stream) (st : State)
    → OnlyThrows IsReadError (upload_action unset group id s st)
unfolding upload_action
upload_action-throws unset group id s st =
    let (text, s') = get_word [] s in
    bind-OnlyThrows IsReadError (Endpoint.from_string text) _ (from_string-throws text)
      (λ e. bind-OnlyThrows IsReadError (remainder s') _ (remainder-throws s') (λ rest. tt))

file_action-IsAllowed :
    (unset : ℕ) (group : Group) (r : FileRequest) (id : Text) (s : Stream) (st : State)
    → OnlyThrows
        (IsAllowed (is_upload (file_request r)))
        (catch_invalid st (file_action unset group r id s st))
unfolding catch_invalid file_action
file_action-IsAllowed unset group FileRequest.list id s st = tt
file_action-IsAllowed unset group FileRequest.upload id s st =
    catch_invalid-IsAllowed st (upload_action unset group id s st)
      (upload_action-throws unset group id s st)
file_action-IsAllowed unset group FileRequest.download id s st = tt

member_action-IsAllowed :
    (unset : ℕ) (user : Shared User) (r : FileRequest) (s : Stream) (st : State)
    → OnlyThrows (IsAllowed (is_upload (file_request r))) (member_action unset user r s st)
unfolding member_action
member_action-IsAllowed unset user r s st =
    let (id, s') = get_word [] s in
    elim (Option-cases (get_group id st.group_db)) [
      | inl e ↦ rw (member_action, e) tt
      | inr (group, e) ↦ elim (Bool-cases (has_member group user)) [
        | inl k ↦ rw (member_action, e, k) (file_action-IsAllowed unset group r id s' st)
        | inr k ↦ rw (member_action, e, k) tt
      ]
    ]

file_request-IsAllowed :
    (unset origin : ℕ) (r : FileRequest) (s : Stream) (st : State)
    → OnlyThrows (IsAllowed (is_upload (file_request r))) (process_file_request unset origin r s st)
unfolding process_file_request
file_request-IsAllowed unset origin r s st = elim (Option-cases (session origin st)) [
  | inl e ↦ rw (process_file_request, e) tt
  | inr (user, e) ↦ rw (process_file_request, e) (member_action-IsAllowed unset user r s st)
]

dispatch-IsAllowed :
    (unset : ℕ) (t : Transaction) (r : Request) (st : State)
    → OnlyThrows (IsAllowed (is_upload r)) (dispatch unset (record t { request = r }) st)
unfolding dispatch
dispatch-IsAllowed unset t (user_request r) st = tt
dispatch-IsAllowed unset t (group_request r) st = tt
dispatch-IsAllowed unset t (file_request r) st = file_request-IsAllowed unset t.origin r _ st
dispatch-IsAllowed unset t (tracker_request r) st = tt

-- A connection on which nothing is thrown but a socket's errors.
pub record IsConnection (c : Connection) : Type 0 where
  pub sending : (text : Text) → OnlyThrows IsNetworkError (c.send_data text)
  pub receiving : OnlyThrows IsNetworkError c.receive_data

send_transactions-throws :
    (c : Connection) (ts : List Transaction)
    → IsConnection c
    → OnlyThrows IsNetworkError (send_transactions c ts)
unfolding send_transactions
send_transactions-throws c [] h = h.sending (lit "done")
send_transactions-throws c (t ∷ ts) h =
    bind-OnlyThrows IsNetworkError (c.send_data t.text) _ (h.sending t.text) (λ _.
      bind-OnlyThrows IsNetworkError c.receive_data _ h.receiving
        (λ _. send_transactions-throws c ts h))

network-IsAllowed : (b : Bool) (e : Exception) → IsNetworkError e → IsAllowed b e
network-IsAllowed true network_error h = tt
network-IsAllowed true would_block h = tt
network-IsAllowed true connection_closed h = tt
network-IsAllowed true e h = elim h [ ]
network-IsAllowed false e h = h

allow {ℓ} :
    (b : Bool) {A : Type ℓ} (r : Checked A)
    → OnlyThrows IsNetworkError r
    → OnlyThrows (IsAllowed b) r
allow b r h = OnlyThrows-wider IsNetworkError (IsAllowed b) r (network-IsAllowed b) h

reply-throws :
    (do_mirror : Bool) (c : Connection) (message : Text)
    → IsConnection c
    → OnlyThrows IsNetworkError (reply do_mirror (some c) message)
unfolding reply
reply-throws true c m h = h.sending m
reply-throws false c m h = tt

finish_request-IsAllowed :
    (b : Bool) (c : Connection) (do_mirror : Bool) (t : Transaction) (st : State)
    (r : Checked (State × Result))
    → IsConnection c
    → OnlyThrows (IsAllowed b) r
    → OnlyThrows (IsAllowed b) (finish_request (some c) do_mirror t st r).1
unfolding finish_request
finish_request-IsAllowed b c do_mirror t st (throws e) h k = k
finish_request-IsAllowed b c do_mirror t st (ok (st', result)) h k =
    bind-OnlyThrows (IsAllowed b) (reply do_mirror (some c) result.message) _
      (allow b _ (reply-throws do_mirror c result.message h)) (λ _. tt)

pub process_request-IsAllowed :
    (unset : ℕ) (own : List Transaction) (c : Connection) (do_mirror : Bool) (t : Transaction)
    (r : Request) (st : State)
    → IsConnection c
    → OnlyThrows
        (IsAllowed (is_upload r))
        (process_request unset own (some c) do_mirror (record t { request = r }) st).1
unfolding process_request serve_tracker
process_request-IsAllowed unset own c do_mirror t (tracker_request r) st h = allow false _ (
    bind-OnlyThrows IsNetworkError (send_transactions c own) _ (send_transactions-throws c own h)
      (λ _. tt))
process_request-IsAllowed unset own c do_mirror t (user_request r) st h =
    finish_request-IsAllowed false c do_mirror (record t { request = user_request r }) st _ h
      (dispatch-IsAllowed unset t (user_request r) st)
process_request-IsAllowed unset own c do_mirror t (group_request r) st h =
    finish_request-IsAllowed false c do_mirror (record t { request = group_request r }) st _ h
      (dispatch-IsAllowed unset t (group_request r) st)
process_request-IsAllowed unset own c do_mirror t (file_request r) st h =
    finish_request-IsAllowed (is_upload (file_request r)) c do_mirror
      (record t { request = file_request r }) st _ h
      (dispatch-IsAllowed unset t (file_request r) st)
