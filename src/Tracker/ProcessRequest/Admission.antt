-- ===== src/Tracker/ProcessRequest/Admission.antt =====
-- The only way into an existing group, over all the requests that a tracker serves.
use p2p_file_share.Base.{ℕ, ◌≡◌, true, false, some, [], Text, Checked, ok, throws}
use p2p_file_share.Stream.{Stream, get_word}
use p2p_file_share.Models.User.{Shared, User, same, contains}
use p2p_file_share.Models.Endpoint
use p2p_file_share.Models.Endpoint.{Endpoint}
use p2p_file_share.Models.FileInfo
use p2p_file_share.Models.FileInfo.{FileInfo}
use p2p_file_share.Models.File.{File}
use p2p_file_share.Models.Group.{Group, has_member}
use p2p_file_share.Models.Transaction.{GroupRequest, Request, Result, Transaction, group_request}
use p2p_file_share.Tracker.GroupDb.{get_group}
use p2p_file_share.Tracker.State.{State, session}
use p2p_file_share.Tracker.ProcessRequest.Membership as Membership
use p2p_file_share.Tracker.ProcessRequest.Membership.{member}

module _ (gid : Text) (u : Shared User) (group : Group) (st : State)
    (found : get_group gid st.group_db ≡ some group) (outside : has_member group u ≡ false) where
  -- Who let the user in, if anybody did.
  abbrev Reason : Request → ℕ → Text → Text → Type 0
  Reason request origin k name =
      (request ≡ group_request GroupRequest.accept_join_request)
      × (k ≡ gid)
      × (by : Shared User) × (session origin st ≡ some by)
      × (same group.owner by ≡ true)
      × (contains group.join_requests u ≡ true)
      × (asking : Shared User) × (same asking u ≡ true)
      × (asking.value.username ≡ name)

  -- The same for a request with these arguments.
  abbrev ReasonIn : Request → ℕ → Stream → Type 0
  ReasonIn request origin s =
      Reason request origin (get_word [] s).0 (get_word [] (get_word [] s).1).0

  -- No file request lets anybody in.
  abbrev KeepsOut : Checked (State × Result) → Type 0
  KeepsOut (throws e) = Unit
  KeepsOut (ok (st', r)) = member gid u st' ≡ false

  -- What a handled request means for the user outside.
  abbrev Explained : Request → ℕ → Stream → Checked (State × Result) → Type 0
  Explained request origin s (throws e) = Unit
  Explained request origin s (ok (st', r)) = member gid u st' ≡ true → ReasonIn request origin s
