-- ===== src/Tracker/ProcessRequest/Sessions.antt =====
-- The only way to a session, over all the requests that a tracker serves.
use mathlib.Core.Path.{subst}
use p2p_file_share.Base.{
  ℕ, ◌==◌, ◌≡◌, ◌≢◌, ◌||◌, refl, true, none, some, some-eq, [], arith, ap, sym, ◌∙◌, Text, is_empty,
  Checked, ok, throws, ◌>>=◌, invalid_argument, Option-cases, inl, inr, Bool-cases, lookup-insert,
  lookup-erase, lookup, insert, erase, number-IsEqTest,
}
use p2p_file_share.Stream.{Stream, get_word, remainder}
use p2p_file_share.Models.User.{Shared, User, check_password}
use p2p_file_share.Models.Endpoint
use p2p_file_share.Models.Endpoint.{Endpoint}
use p2p_file_share.Models.FileInfo
use p2p_file_share.Models.FileInfo.{FileInfo}
use p2p_file_share.Models.Group.{Group, has_member}
use p2p_file_share.Models.Transaction.{
  UserRequest, GroupRequest, FileRequest, Request, Result, Transaction, user_request, group_request,
  file_request, tracker_request,
}
use p2p_file_share.Tracker.UserDb.{get_user}
use p2p_file_share.Tracker.GroupDb.{get_group}
use p2p_file_share.Tracker.State.{State, session, is_logged_in}
use p2p_file_share.Tracker.UserRequests.{
  create_named, delete_named, login_named, process_user_request,
}
use p2p_file_share.Tracker.GroupRequests.{
  create_action, join_action, leave_action, list_requests_action, accept_action, group_action,
  logged_in_action, process_group_request,
}
use p2p_file_share.Tracker.FileRequests.{
  upload_file, upload_action, list_action, download_action, file_action, catch_invalid,
  member_action, process_file_request,
}
use p2p_file_share.Tracker.ProcessRequest.{dispatch, arguments}

abbrev KeepsSessions : State → Checked (State × Result) → Type 0
KeepsSessions st (throws e) = Unit
KeepsSessions st (ok (st', r)) = st'.logged_in_users ≡ st.logged_in_users

group_action-KeepsSessions :
    (user : Shared User) (r : GroupRequest) (g : Text) (s : Stream) (st : State)
    → KeepsSessions st (ok (group_action user r g s st))
unfolding group_action create_action join_action leave_action list_requests_action accept_action
group_action-KeepsSessions user GroupRequest.create g s st = ground arith
group_action-KeepsSessions user GroupRequest.join g s st = ground arith
group_action-KeepsSessions user GroupRequest.leave g s st = ground arith
group_action-KeepsSessions user GroupRequest.list_join_requests g s st = ground arith
group_action-KeepsSessions user GroupRequest.accept_join_request g s st = ground arith
group_action-KeepsSessions user GroupRequest.list g s st = refl

logged_in-KeepsSessions :
    (origin : ℕ) (r : GroupRequest) (s : Stream) (st : State)
    → KeepsSessions st (ok (logged_in_action origin r s st))
unfolding logged_in_action
logged_in-KeepsSessions origin r s st = elim (Option-cases (session origin st)) [
  | inl e ↦ rw (e, logged_in_action) refl
  | inr (user, e) ↦
      rw (e, logged_in_action)
        (group_action-KeepsSessions user r (get_word [] s).0 (get_word [] s).1 st)
]

group-KeepsSessions :
    (origin : ℕ) (r : GroupRequest) (s : Stream) (st : State)
    → KeepsSessions st (ok (process_group_request origin r s st))
unfolding process_group_request
group-KeepsSessions origin GroupRequest.list s st = refl
group-KeepsSessions origin r s st = logged_in-KeepsSessions origin r s st

upload-KeepsSessions :
    (unset : ℕ) (group : Group) (g : Text) (s : Stream) (st : State)
    → KeepsSessions st (upload_action unset group g s st)
unfolding upload_action upload_file
upload-KeepsSessions unset group g s st =
    both (Endpoint.from_string (get_word [] s).0) (remainder (get_word [] s).1)
  where
    both :
        (e : Checked Endpoint) (rest : Checked Text)
        → KeepsSessions st (
            e >>= λ endpoint.
            rest >>= λ text. ok (upload_file group g endpoint (FileInfo.from_string unset text) st))
    both (throws x) rest = tt
    both (ok e) (throws x) = tt
    both (ok e) (ok text) = ground arith

file_action-KeepsSessions :
    (unset : ℕ) (group : Group) (r : FileRequest) (g : Text) (s : Stream) (st : State)
    → KeepsSessions st (file_action unset group r g s st)
unfolding file_action list_action download_action
file_action-KeepsSessions unset group FileRequest.list g s st = refl
file_action-KeepsSessions unset group FileRequest.upload g s st =
    upload-KeepsSessions unset group g s st
file_action-KeepsSessions unset group FileRequest.download g s st = ground arith

catch_invalid-KeepsSessions :
    (st : State) (c : Checked (State × Result))
    → KeepsSessions st c
    → KeepsSessions st (catch_invalid st c)
unfolding catch_invalid
catch_invalid-KeepsSessions st (ok r) h = h
catch_invalid-KeepsSessions st (throws invalid_argument) h = refl
catch_invalid-KeepsSessions st (throws e) h = tt

member_action-KeepsSessions :
    (unset : ℕ) (user : Shared User) (r : FileRequest) (s : Stream) (st : State)
    → KeepsSessions st (member_action unset user r s st)
unfolding member_action
member_action-KeepsSessions unset user r s st =
    elim (Option-cases (get_group (get_word [] s).0 st.group_db)) [
      | inl e ↦ rw (e, member_action) refl
      | inr (group, e) ↦ elim (Bool-cases (has_member group user)) [
        | inl m ↦
            rw (e, member_action, m)
              (catch_invalid-KeepsSessions st _
                (file_action-KeepsSessions unset group r (get_word [] s).0 (get_word [] s).1 st))
        | inr m ↦ rw (e, member_action, m) refl
      ]
    ]

file-KeepsSessions :
    (unset origin : ℕ) (r : FileRequest) (s : Stream) (st : State)
    → KeepsSessions st (process_file_request unset origin r s st)
unfolding process_file_request
file-KeepsSessions unset origin r s st = elim (Option-cases (session origin st)) [
  | inl e ↦ rw (e, process_file_request) refl
  | inr (user, e) ↦ rw (e, process_file_request) (member_action-KeepsSessions unset user r s st)
]

module _ (o : ℕ) (u : Shared User) (st : State) (new : session o st ≢ some u) where
  -- What a session comes from.
  abbrev Authentic : Request → ℕ → Stream → Type 0
  Authentic request origin s =
      (request ≡ user_request UserRequest.login)
      × (origin ≡ o)
      × (session o st ≡ none)
      × (get_user (get_word [] s).0 st.user_db ≡ some u)
      × (check_password u.value (get_word [] (get_word [] s).1).0 ≡ true)

  logout-no_session : (origin : ℕ) → lookup ◌==◌ o (erase ◌==◌ origin st.logged_in_users) ≢ some u
  logout-no_session origin h = elim (Bool-cases (origin == o)) [
    | inl e ↦ cc (rw (lookup-erase ◌==◌ number-IsEqTest origin o st.logged_in_users, e) at h)
    | inr e ↦ new (rw (lookup-erase ◌==◌ number-IsEqTest origin o st.logged_in_users, e) at h)
  ]

  inserted :
      (origin : ℕ) (v : Shared User)
      → lookup ◌==◌ o (insert ◌==◌ origin v st.logged_in_users) ≡ some u
      → (origin ≡ o) × (v ≡ u)
  inserted origin v h = elim (Bool-cases (origin == o)) [
    | inl e ↦ (
      ground arith,
      some-eq (rw (lookup-insert ◌==◌ number-IsEqTest origin o v st.logged_in_users, e) at h),
    )
    | inr e ↦
        absurd (new (rw (lookup-insert ◌==◌ number-IsEqTest origin o v st.logged_in_users, e) at h))
  ]

  login-Authentic :
      (origin : ℕ) (name password : Text)
      → session o (login_named origin name password st).0 ≡ some u
      → (origin ≡ o)
        × (session o st ≡ none)
        × (get_user name st.user_db ≡ some u)
        × (check_password u.value password ≡ true)
  unfolding login_named
  login-Authentic origin name password h = elim (Option-cases (session origin st)) [
    | inr (v, e) ↦ absurd (new (rw (e, login_named) at h))
    | inl e ↦ elim (Option-cases (get_user name st.user_db)) [
      | inl f ↦ absurd (new (rw (e, login_named, f) at h))
      | inr (v, f) ↦ elim (Bool-cases (check_password v.value password)) [
        | inr c ↦ absurd (new (rw (e, login_named, f, c) at h))
        | inl c ↦
            let (here, same) = inserted origin v (rw (e, login_named, f, c) at h) in
            (here, rw (← here) e, rw (← same) f, rw (← same) c)
      ]
    ]
  ]

  user-Authentic :
      (origin : ℕ) (r : UserRequest) (s : Stream)
      → session o (process_user_request origin r s st).0 ≡ some u
      → Authentic (user_request r) origin s
  unfolding process_user_request is_logged_in create_named delete_named
  user-Authentic origin UserRequest.create s h = absurd (new (ground (arith, h)))
  user-Authentic origin UserRequest.delete s h = absurd (new (ground (arith, h)))
  user-Authentic origin UserRequest.list s h = absurd (new h)
  user-Authentic origin UserRequest.login s h =
      elim (Bool-cases (is_empty (get_word [] s).0 || is_empty (get_word [] (get_word [] s).1).0)) [
        | inl e ↦ absurd (new (rw e at h))
        | inr e ↦
            let (here, none_yet, known, right) =
              login-Authentic origin (get_word [] s).0 (get_word [] (get_word [] s).1).0
                (rw e at h) in
            (refl, here, none_yet, known, right)
      ]
  user-Authentic origin UserRequest.logout s h = elim (Bool-cases (is_logged_in origin st)) [
    | inl e ↦ absurd (logout-no_session origin (rw e at h))
    | inr e ↦ absurd (new (rw e at h))
  ]

  abbrev Explained : Request → ℕ → Stream → Checked (State × Result) → Type 0
  Explained request origin s (throws e) = Unit
  Explained request origin s (ok (st', r)) = session o st' ≡ some u → Authentic request origin s

  never :
      (request : Request) (origin : ℕ) (s : Stream) (c : Checked (State × Result))
      → KeepsSessions st c
      → Explained request origin s c
  never request origin s (throws e) h = tt
  never request origin s (ok (st', r)) h =
      λ m. absurd (new (ap (λ users. lookup ◌==◌ o users) (sym h) ∙ m))

  dispatch-Explained :
      (unset : ℕ) (t : Transaction)
      → Explained t.request t.origin (arguments unset t.text) (dispatch unset t st)
  unfolding dispatch
  dispatch-Explained unset t = by_request t.request
    where
      by_request :
          (q : Request)
          → Explained q t.origin
              (arguments unset t.text)
              (dispatch unset (record t { request = q }) st)
      by_request (user_request q) = user-Authentic t.origin q (arguments unset t.text)
      by_request (group_request q) =
          never (group_request q) t.origin (arguments unset t.text)
            (ok (process_group_request t.origin q (arguments unset t.text) st))
            (group-KeepsSessions t.origin q (arguments unset t.text) st)
      by_request (file_request q) =
          never (file_request q) t.origin (arguments unset t.text)
            (process_file_request unset t.origin q (arguments unset t.text) st)
            (file-KeepsSessions unset t.origin q (arguments unset t.text) st)
      by_request (tracker_request q) = λ m. absurd (new m)

  -- Over all the requests that a tracker serves: if a client is logged in as a user and was not before,
  -- then the request was a login of this client, which had no session, and it gave a name under which
  -- the user is registered, with the password of the user.
  pub authentication :
      (unset : ℕ) (t : Transaction) (st' : State) (r : Result)
      → dispatch unset t st ≡ ok (st', r)
      → session o st' ≡ some u
      → (t.request ≡ user_request UserRequest.login)
        × (t.origin ≡ o)
        × (session o st ≡ none)
        × (get_user (get_word [] (arguments unset t.text)).0 st.user_db ≡ some u)
        × (check_password u.value (get_word [] (get_word [] (arguments unset t.text)).1).0 ≡ true)
  authentication unset t st' r e =
      subst (Explained t.request t.origin (arguments unset t.text)) e (dispatch-Explained unset t)
