-- ===== src/Tracker/Server.antt =====
-- `mirror`, `process_data` and `sync_with_online_trackers` of src/tracker/tracker.cpp, and
-- src/tracker/transactionsrecord.hpp and transactionsrecord.cpp.
pub mod Replay
pub mod Sync
pub mod Gaps
use p2p_file_share.Base.{
  ℕ, Bool, true, false, ◌||◌, ◌==◌, Option, none, some, List, [], ◌∷◌, ◌++◌, ◌⊕◌, if◌then◌else◌,
  Text, lit, text_eq, is_empty, Checked, ok, throws, unknown_request, out_of_range,
  connection_closed, ◌>>=◌,
}
use p2p_file_share.Models.Endpoint.{Endpoint, generate_id}
use p2p_file_share.Models.Transaction.{Transaction}
use p2p_file_share.Stream.{to_string as number_to_string}
use p2p_file_share.Tracker.State.{State}
use p2p_file_share.Tracker.ParseRequest.{parse_request}
use p2p_file_share.Tracker.ProcessRequest.{Connection, process_request}

-- A tracker process: the databases and `successful_transactions`.
pub record Server : Type 0 where
  pub state : State
  pub successful_transactions : List Transaction

unfoldable pub add_transaction : Transaction → Server → Server
add_transaction t sv = record sv { successful_transactions = sv.successful_transactions ++ t ∷ [] }

-- Where `mirror` sends the transaction, and what. An unreachable tracker is logged and passed over.
unfoldable pub mirror : (Text → ℕ) → ℕ → List Endpoint → Transaction → List (Endpoint × Text)
mirror hash my_id [] t = []
mirror hash my_id (tracker ∷ trackers) t =
    let rest = mirror hash my_id trackers t in
    if generate_id hash tracker == my_id then rest else (tracker, lit "0" ⊕ t.text) ∷ rest

-- What surrounds a call: the library's hash, the id of this tracker, and the trackers of the file.
pub record Setting : Type 0 where
  pub hash : Text → ℕ
  pub my_id : ℕ
  pub trackers : List Endpoint

-- The end of `process_data`, once the request is processed: the requests that go to other trackers,
-- or the exception that leaves.
unfoldable pub record_outcome :
    Setting
    → Bool
    → Server
    → State × Checked Transaction
    → Server × Checked (List (Endpoint × Text))
unfolding add_transaction mirror
record_outcome g do_mirror sv (st', throws e) = (record sv { state = st' }, throws e)
record_outcome g do_mirror sv (st', ok t) =
    if t.outcome.success
    then (
      add_transaction t (record sv { state = st' }),
      ok (if do_mirror then mirror g.hash g.my_id g.trackers t else []),
    )
    else (record sv { state = st' }, ok [])

-- The body behind the mirror flag.
unfoldable pub process_flagged :
    Setting → ℕ → Connection → Bool → Text → Server → Server × Checked (List (Endpoint × Text))
process_flagged g unset c do_mirror text sv = elim (parse_request unset text) [
  | throws unknown_request ↦ (sv, c.send_data (lit "Unknown request") >>= λ _. ok [])
  | throws e ↦ (sv, throws e)
  | ok t ↦
      record_outcome g do_mirror sv
        (process_request unset sv.successful_transactions (some c) do_mirror t sv.state)
]

-- `data[0]` of an empty text is the terminating 0, and `substr(1)` of it throws.
unfoldable pub process_data :
    Setting → ℕ → Connection → Text → Server → Server × Checked (List (Endpoint × Text))
unfolding process_flagged
process_data g unset c [] sv = (sv, throws out_of_range)
process_data g unset c (flag ∷ text) sv = process_flagged g unset c (flag == b'1') text sv

-- One round of the loop that syncs: what `receive_data` gives, whether "next" goes out, and what the
-- variables with no initialiser hold then.
pub record Round : Type 0 where
  pub received : Checked Text
  pub acknowledged : Checked (Unit {0})
  pub unset : ℕ

-- parse_request and process_request(transaction, nullptr, false)
unfoldable pub apply_text : ℕ → List Transaction → Text → State → State × Checked (Unit {0})
apply_text unset own text st = elim (parse_request unset text) [
  | throws e ↦ (st, throws e)
  | ok t ↦ let (st', r) = process_request unset own none false t st in (st', r >>= λ _. ok tt)
]

-- What follows a step that may throw.
unfoldable pub go_on :
    State × Checked (Unit {0}) → (State → State × Checked (Unit {0})) → State × Checked (Unit {0})
go_on (st, throws e) next = (st, throws e)
go_on (st, ok _) next = next st

-- The loop over the transactions of one tracker. A connection with no more rounds is closed.
unfoldable pub sync_rounds : List Transaction → List Round → State → State × Checked (Unit {0})
unfolding go_on
sync_rounds own [] st = (st, throws connection_closed)
sync_rounds own (round ∷ rounds) st = elim round.received [
  | throws e ↦ (st, throws e)
  | ok text ↦
      if is_empty text || text_eq text (lit "done") then (st, ok tt) else elim round.acknowledged [
        | throws e ↦ (st, throws e)
        | ok _ ↦ go_on (apply_text round.unset own text st) (sync_rounds own rounds)
      ]
]

-- How another tracker behaves when this one connects to it: what `connect` and the sending of
-- `sync_request` come to, and the rounds.
pub record Peer : Type 0 where
  pub connects : Checked Bool
  pub rounds : List Round

-- The text that asks for the transactions.
unfoldable pub sync_request : ℕ → Text
sync_request my_id = lit "0" ⊕ number_to_string my_id ⊕ lit " sync \n"

-- The loop over the trackers. A closed connection is logged, and the next tracker is tried from the
-- state reached so far; any other exception leaves.
unfoldable pub sync_with_online_trackers :
    Setting → (Endpoint → Peer) → List Endpoint → Server → Server × Checked Bool
sync_with_online_trackers g peer [] sv = (sv, ok false)
sync_with_online_trackers g peer (t ∷ ts) sv =
    let next = sync_with_online_trackers g peer ts sv in
    let (st', r) = sync_rounds sv.successful_transactions (peer t).rounds sv.state in
    let later = sync_with_online_trackers g peer ts (record sv { state = st' }) in
    if generate_id g.hash t == g.my_id then next else elim (peer t).connects [
      | throws connection_closed ↦ next
      | throws e ↦ (sv, throws e)
      | ok false ↦ next
      | ok true ↦ elim r [
        | ok _ ↦ (record sv { state = st' }, ok true)
        | throws connection_closed ↦ later
        | throws e ↦ (record sv { state = st' }, throws e)
      ]
    ]
