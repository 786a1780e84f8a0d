-- ===== src/Exchange/Uploads.antt =====
-- An upload, from the client's request to the tracker's databases.
use mathlib.Core.Path.{subst}
use p2p_file_share.Base.{
  sym, none, false, ℕ, ◌<◌, ◌^◌, ◌≡◌, refl, ◌∙◌, Bool, true, some, List, [], ◌∷◌, ◌⊕◌, Text, lit,
  text_eq, Checked, ok, throws, inl, inr, Bool-cases,
}
use p2p_file_share.Stream.{remainder}
use p2p_file_share.Stream.Words.{IsWord, after_word, get_word-space}
use p2p_file_share.Models.Endpoint
use p2p_file_share.Models.Endpoint.{Endpoint}
use p2p_file_share.Models.Endpoint.RoundTrip.{endpoint_round_trip}
use p2p_file_share.Models.FileInfo
use p2p_file_share.Models.FileInfo.{FileInfo}
use p2p_file_share.Models.FileInfo.RoundTrip.{IsPrintable, file_info-space}
use p2p_file_share.Models.File.RoundTrip.{IsSeeder, endpoint-IsWord}
use p2p_file_share.Models.User.{Shared, User, contains}
use p2p_file_share.Models.Group.{Group, has_member}
use p2p_file_share.Models.Transaction.{FileRequest, file_request, Transaction, not_yet_processed}
use p2p_file_share.Client.ProcessInput.{upload_request}
use p2p_file_share.Tracker.State.{State, session}
use p2p_file_share.Tracker.GroupDb.{get_group}
use p2p_file_share.Tracker.FileRequests.{
  upload_file, upload_action, file_action, catch_invalid, member_action, process_file_request,
}
use p2p_file_share.Tracker.ParseRequest.{request_of_word}
use p2p_file_share.Tracker.ProcessRequest.{Connection, dispatch, finish_request, process_request}
use p2p_file_share.Tracker.Server.{
  Server, Setting, add_transaction, record_outcome, process_flagged, process_data,
}
use p2p_file_share.Exchange.Entries.{entry, IsEntered, upload_file-IsEntered}
use p2p_file_share.Exchange.Requests.{
  request_text, parse_request-request_text, arguments-request_text,
}

request_of_word-upload : request_of_word (lit "upload_file") ≡ ok (file_request FileRequest.upload)
unfolding request_of_word text_eq
request_of_word-upload = refl

upload-IsWord : IsWord (lit "upload_file")
upload-IsWord =
    (refl, (refl, (refl, (refl, (refl, (refl, (refl, (refl, (refl, (refl, (refl, tt)))))))))))

record_outcome-state :
    (g : Setting) (do_mirror : Bool) (sv : Server) (p : State × Checked Transaction)
    → (record_outcome g do_mirror sv p).0.state ≡ p.0
unfolding record_outcome add_transaction
record_outcome-state g do_mirror sv (st, throws x) = refl
record_outcome-state g do_mirror sv (st, ok t) = elim (Bool-cases t.outcome.success) [
  | inl e ↦ rw (record_outcome, e) refl
  | inr e ↦ rw (record_outcome, e) refl
]

module _ (group_id : Text) (e : Endpoint) (info : FileInfo) (group_word : IsWord group_id)
    (seeder : IsSeeder e) (printable : IsPrintable info) where
  abbrev file_text : Text
  file_text = 32 ∷ FileInfo.to_string info

  abbrev endpoint_text : Text
  endpoint_text = 32 ∷ (Endpoint.to_string e ⊕ file_text)

  abbrev group_text : Text
  group_text = 32 ∷ (group_id ⊕ endpoint_text)

  upload_action-text :
      (unset : ℕ) (group : Group) (st : State)
      → upload_action unset group group_id (after_word endpoint_text) st
        ≡ ok (upload_file group group_id e info st)
  unfolding upload_action remainder
  upload_action-text unset group st =
      rw
        (
          upload_action,
          get_word-space 32 [] (Endpoint.to_string e) file_text refl
              (endpoint-IsWord e seeder.ip_word) refl,
          endpoint_round_trip e seeder.ip_no_colon seeder.port_fits,
          file_info-space info printable unset,
        )
        refl

  file_request-text :
      (unset id : ℕ) (user : Shared User) (group : Group) (st : State)
      → session id st ≡ some user
      → get_group group_id st.group_db ≡ some group
      → has_member group user ≡ true
      → process_file_request unset id FileRequest.upload (after_word group_text) st
        ≡ ok (upload_file group group_id e info st)
  unfolding process_file_request member_action file_action catch_invalid
  file_request-text unset id user group st s k m =
      rw
        (
          process_file_request,
          s,
          member_action,
          get_word-space 32 [] group_id endpoint_text refl group_word refl,
          k,
          m,
          get_word-space 32 [] group_id endpoint_text refl group_word refl,
          upload_action-text unset group st,
        )
        refl

  process_request-upload :
      (unset id : ℕ) (own : List Transaction) (c : Connection) (do_mirror : Bool)
      (user : Shared User) (group : Group) (st : State)
      → id < 2 ^ 64
      → session id st ≡ some user
      → get_group group_id st.group_db ≡ some group
      → has_member group user ≡ true
      → (process_request unset own
          (some c)
          do_mirror
          (record {
            origin = id;
            request = file_request FileRequest.upload;
            text = request_text id (lit "upload_file") group_text;
            outcome = not_yet_processed;
          })
          st).0
        ≡ (upload_file group group_id e info st).0
  unfolding process_request dispatch finish_request
  process_request-upload unset id own c do_mirror user group st fits s k m =
      rw
        (
          process_request,
          dispatch,
          arguments-request_text unset id (lit "upload_file") group_text fits upload-IsWord refl,
          file_request-text unset id user group st s k m,
          finish_request,
        )
        refl

  state_after :
      (g : Setting) (unset id : ℕ) (c : Connection) (user : Shared User) (group : Group)
      (sv : Server)
      → id < 2 ^ 64
      → session id sv.state ≡ some user
      → get_group group_id sv.state.group_db ≡ some group
      → has_member group user ≡ true
      → (process_data g unset c (upload_request id e group_id info) sv).0.state
        ≡ (upload_file group group_id e info sv.state).0
  unfolding upload_request process_data
  state_after g unset id c user group sv fits s k m =
      rw
        (
          process_flagged,
          parse_request-request_text unset id (lit "upload_file") group_text fits upload-IsWord refl
              (file_request FileRequest.upload) request_of_word-upload,
        )
        (record_outcome-state g true sv _
          ∙ process_request-upload unset id sv.successful_transactions c true user group sv.state
              fits s k m)

  -- For an endpoint and the description of a file that their texts can carry, an id below 2 ^ 64 and a
  -- group without blanks in its name: when a member who is logged in from the id uploads the file, and
  -- no file of the group stands at the next address, the group has after process_data a file of this
  -- hash and group whose last seeder is this endpoint: with the former seeders and description where it
  -- had one before, else with this seeder alone and this description. The rest of the group and the
  -- other groups are as before, whether the answer can be sent or not.
  pub upload_arrives :
      (g : Setting) (unset id : ℕ) (c : Connection) (user : Shared User) (group : Group)
      (sv : Server) (j : Text)
      → id < 2 ^ 64
      → session id sv.state ≡ some user
      → get_group group_id sv.state.group_db ≡ some group
      → has_member group user ≡ true
      → contains group.files
          (record { address = sv.state.next_address; value = entry group_id e info none })
        ≡ false
      → IsEntered group_id e info group j sv.state
          (process_data g unset c (upload_request id e group_id info) sv).0.state
  upload_arrives g unset id c user group sv j fits s k m fresh =
      subst (IsEntered group_id e info group j sv.state)
        (sym (state_after g unset id c user group sv fits s k m))
        (upload_file-IsEntered group_id e info group j sv.state fresh)
