-- ===== src/Tests/TrackerRuns.antt =====
-- Runs of the tracker.
use p2p_file_share.Base.{
  ℕ, ◌≢◌, text_eq-ne, ap, some, none, true, ◌≡◌, refl, [], ◌∷◌, List, Text, lit, ok, text_eq,
  lookup, insert, find_if, any,
}
use p2p_file_share.Stream.{
  sentry, skip_space, take_word, drop_word, get_word, get_size, read_sign, read_digits,
}
use p2p_file_share.Models.Endpoint
use p2p_file_share.Models.Group
use p2p_file_share.Models.User
use p2p_file_share.Tracker.UserDb
use p2p_file_share.Tracker.GroupDb
use p2p_file_share.Tracker.State.{State, session, success, failure, login_required_warning, initial}
use p2p_file_share.Tracker.ParseRequest.{parse_request, request_of_word}
use p2p_file_share.Tracker.UserRequests.{process_user_request, login_named}
use p2p_file_share.Tracker.GroupRequests.{
  process_group_request, logged_in_action, group_action, create_action, accept_action, find_request,
  admit,
}
use p2p_file_share.Tracker.ProcessRequest.{reliable, arguments, dispatch, process_request, reply}
use p2p_file_share.Tracker.ProcessRequest.Sessions.{authentication}
use p2p_file_share.Tracker.Server.{
  Setting, process_data, record_outcome, mirror, sync_rounds, Peer, sync_with_online_trackers,
}
use p2p_file_share.Tracker.Server.Gaps.{synced_tracker_passes_nothing_on}
use p2p_file_share.Tracker.ProcessRequest.Failures.{already_exists, failed_request_changes_nothing}
use p2p_file_share.Models.Group.{Group}
use p2p_file_share.Models.Endpoint.{Endpoint}
use p2p_file_share.Models.User.{Shared, User, contains}
use p2p_file_share.Models.Transaction.{
  Transaction, Result, GroupRequest, group_request, UserRequest, user_request, not_yet_processed,
}
use p2p_file_share.Tracker.Server.Replay.{rounds_of}
use p2p_file_share.Tracker.Server.Sync.{
  Served, serve, IsSmooth, started, new_tracker_catches_up, reseeds,
}

abbrev setting : Setting
setting = record {
  hash = λ t. 0;
  my_id = 0;
  trackers = record { ip = lit "10.0.0.1"; port = 80 } ∷ [];
}

abbrev request : ℕ → Text → Served
request unset text = record { unset = unset; connection = reliable; text = text }

abbrev requests : List Served
requests =
    request 3 (lit "17 create_user ann pw")
    ∷ request 1 (lit "17 login ann pw")
    ∷ request 4 (lit "07 create_group g")
    ∷ []

-- All of the code that a run goes through.
tracker_code : Unit {0}
unfolding process_data record_outcome mirror process_request dispatch reply parse_request
    request_of_word process_user_request login_named process_group_request logged_in_action
    group_action create_action sentry skip_space take_word drop_word get_word get_size read_sign
    read_digits text_eq lookup insert UserDb.create_user UserDb.get_user User.check_password
    GroupDb.create_group GroupDb.get_group accept_action find_request admit Group.add_user
    Group.remove_join_request Group.has_member Group.without User.contains find_if any reseeds
    Endpoint.generate_id
tracker_code = tt

requests-IsSmooth : IsSmooth setting requests started
unfolding tracker_code
requests-IsSmooth =
    ([], refl, refl, (λ u. refl), ([], refl, refl, (λ u. refl), ([], refl, refl, (λ u. refl), tt)))

new_tracker_catches_up_example :
    sync_rounds []
      (rounds_of (λ n. n) (serve setting requests started).successful_transactions)
      initial
    ≡ ((serve setting requests started).state, ok tt)
new_tracker_catches_up_example =
    new_tracker_catches_up setting requests (λ n. n) [] requests-IsSmooth

abbrev ann : Shared User
ann = record { address = 0; value = record { username = lit "ann"; password = lit "pw" } }

abbrev bob : Shared User
bob = record { address = 1; value = record { username = lit "bob"; password = lit "pw" } }

abbrev pdfs : Group
pdfs = record { group_id = lit "g"; owner = ann; users = []; join_requests = bob ∷ []; files = [] }

-- Ann, who owns the group, is logged in from the client 7, and Bob has asked to join.
abbrev asked : State
asked = record {
  group_db = record { groups = (lit "g", pdfs) ∷ [] };
  logged_in_users = (7, ann) ∷ [];
  user_db = record { users = (lit "ann", ann) ∷ (lit "bob", bob) ∷ [] };
  next_address = 2;
}

abbrev joined : State
joined = record asked {
  group_db = record {
    groups = (lit "g", record pdfs { users = bob ∷ []; join_requests = [] }) ∷ [];
  };
}

abbrev accepting : Transaction
accepting = record {
  origin = 7;
  request = group_request GroupRequest.accept_join_request;
  text = lit "7 accept_request g bob";
  outcome = not_yet_processed;
}

-- Bob logs in from the client 9.
abbrev logging_in : Transaction
logging_in = record {
  origin = 9;
  request = user_request UserRequest.login;
  text = lit "9 login bob pw";
  outcome = not_yet_processed;
}

abbrev bob_is_in : State
bob_is_in = record asked { logged_in_users = (7, ann) ∷ (9, bob) ∷ [] }

logged_in : dispatch 0 logging_in asked ≡ ok (bob_is_in, success (lit "Login successful\n"))
unfolding tracker_code
logged_in = refl

no_session_yet : session 9 asked ≢ some bob
unfolding tracker_code
no_session_yet h = cc

authentication_example :
    (logging_in.request ≡ user_request UserRequest.login)
    × (logging_in.origin ≡ 9)
    × (session 9 asked ≡ none)
    × (UserDb.get_user (get_word [] (arguments 0 logging_in.text)).0 asked.user_db ≡ some bob)
    × (User.check_password bob.value (get_word [] (get_word [] (arguments 0 logging_in.text)).1).0
        ≡ true)
authentication_example =
    authentication 9 bob asked no_session_yet 0 logging_in bob_is_in
      (success (lit "Login successful\n")) logged_in (unfold tracker_code in refl)

-- The same request of a client that is not logged in.
abbrev uninvited : Transaction
uninvited = record accepting { origin = 8 }

refused : dispatch 0 uninvited asked ≡ ok (asked, failure login_required_warning)
unfolding tracker_code
refused = refl

other_message : login_required_warning ≢ already_exists.message
other_message = text_eq-ne (unfold text_eq in refl)

failed_request_changes_nothing_example : asked ≡ asked
failed_request_changes_nothing_example =
    failed_request_changes_nothing 0 uninvited asked asked (failure login_required_warning) refused
      refl (λ e. other_message (ap (λ (r : Result). r.message) e))

abbrev sync_peer : Endpoint → Peer
sync_peer e = record { connects = ok true; rounds = rounds_of (λ n. n) [] }

synced_tracker_passes_nothing_on_example :
    sync_rounds []
      (rounds_of
        (λ n. n)
        (sync_with_online_trackers setting sync_peer setting.trackers
          started).0.successful_transactions)
      initial
    ≡ (initial, ok tt)
synced_tracker_passes_nothing_on_example =
    synced_tracker_passes_nothing_on setting (λ n. n) sync_peer setting.trackers []
