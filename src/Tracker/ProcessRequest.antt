-- ===== src/Tracker/ProcessRequest.antt =====
-- `process_request` of src/tracker/process_request.cpp
pub mod Failures
pub mod Membership
pub mod Admission
pub mod Sessions
pub mod Throws
use p2p_file_share.Base.{
  ℕ, Bool, true, false, Option, none, some, List, [], ◌∷◌, if◌then◌else◌, Text, lit, Checked, ok,
  throws, null_pointer, ◌>>=◌,
}
use p2p_file_share.Stream.{Stream, of_text, get_word, get_size}
use p2p_file_share.Models.Transaction.{
  Request, user_request, group_request, file_request, tracker_request, TrackerRequest, Result,
  Transaction, not_yet_processed,
}
use p2p_file_share.Tracker.State.{State}
use p2p_file_share.Tracker.UserRequests.{process_user_request}
use p2p_file_share.Tracker.GroupRequests.{process_group_request}
use p2p_file_share.Tracker.FileRequests.{process_file_request}

-- What a socket does during one call: each send goes out or throws, and so does each receipt.
pub record Connection : Type 0 where
  pub send_data : Text → Checked (Unit {0})
  pub receive_data : Checked Text

-- A connection that delivers.
abbrev pub reliable : Connection
reliable = record { send_data = λ _. ok tt; receive_data = ok (lit "next") }

-- The stream behind the id and the word of the request, which are read again and dropped.
unfoldable pub arguments : ℕ → Text → Stream
arguments unset text =
    let (_id, s) = get_size unset (of_text text) in let (_request, s') = get_word [] s in s'

-- The handler of a request that is not a tracker's.
unfoldable pub dispatch : ℕ → Transaction → State → Checked (State × Result)
unfolding arguments
dispatch unset t st = elim t.request [
  | user_request r ↦ ok (process_user_request t.origin r (arguments unset t.text) st)
  | group_request r ↦ ok (process_group_request t.origin r (arguments unset t.text) st)
  | file_request r ↦ process_file_request unset t.origin r (arguments unset t.text) st
  | tracker_request r ↦ ok (st, not_yet_processed)
]

-- The loop of SYNC: each successful transaction, and an answer awaited, then "done".
unfoldable pub send_transactions : Connection → List Transaction → Checked (Unit {0})
send_transactions c [] = c.send_data (lit "done")
send_transactions c (t ∷ ts) =
    c.send_data t.text >>= λ _. c.receive_data >>= λ _. send_transactions c ts

-- A null pointer for the client is `none`.
unfoldable pub serve_tracker : Option Connection → List Transaction → Checked (Unit {0})
unfolding send_transactions
serve_tracker none ts = throws null_pointer
serve_tracker (some c) ts = send_transactions c ts

unfoldable pub reply : Bool → Option Connection → Text → Checked (Unit {0})
reply false client message = ok tt
reply true none message = throws null_pointer
reply true (some c) message = c.send_data message

-- The end of `process_request`: the outcome and the answer, unless the handler threw.
unfoldable pub finish_request :
    Option Connection
    → Bool
    → Transaction
    → State
    → Checked (State × Result)
    → State × Checked Transaction
finish_request client do_mirror t st (throws e) = (st, throws e)
finish_request client do_mirror t st (ok (st', result)) =
    (st', reply do_mirror client result.message >>= λ _. ok (record t { outcome = result }))

-- The new state, and the transaction with its outcome unless an exception leaves the function. A
-- tracker's request is never mirrored or answered with a message.
unfoldable pub process_request :
    ℕ
    → List Transaction
    → Option Connection
    → Bool
    → Transaction
    → State
    → State × Checked Transaction
unfolding finish_request
process_request unset record_so_far client do_mirror t st = elim t.request [
  | tracker_request r ↦ (
    st,
    serve_tracker client record_so_far >>= λ _. ok (record t { outcome = not_yet_processed }),
  )
  | _ ↦ finish_request client do_mirror t st (dispatch unset t st)
]
