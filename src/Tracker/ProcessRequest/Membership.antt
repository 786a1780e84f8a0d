-- ===== src/Tracker/ProcessRequest/Membership.antt =====
-- Who enters a group, and how.
use p2p_file_share.Base.{
  ◌≡◌, sym, ap, ◌∙◌, Bool, true, false, Option, none, some, ◌||◌, if◌then◌else◌, arith, Text,
  text_eq, text_eq_iff, text-IsEqTest, lookup-insert, find_if-passes, Option-cases, some-eq, inl,
  inr, Bool-cases,
}
use p2p_file_share.Models.User.{Shared, User, same, contains}
use p2p_file_share.Models.Group.{
  Group, has_member, add_user, add_join_request, remove_user, remove_join_request, new_group,
}
use p2p_file_share.Models.Group.Members.{
  contains-append, contains-without, contains-same, contains-find_if,
}
use p2p_file_share.Tracker.GroupDb.{GroupDb, get_group, put_group, create_group}
use p2p_file_share.Tracker.State.{State}
use p2p_file_share.Tracker.GroupRequests.{
  store, create_action, join_action, leave_action, accept_action, find_request, admit,
}

-- Whether a user is a member of the group of that name.
abbrev pub member_of : Shared User → Option Group → Bool
member_of user none = false
member_of user (some group) = has_member group user

abbrev pub member : Text → Shared User → State → Bool
member group_id user st = member_of user (get_group group_id st.group_db)

pub get_group-put_group :
    (k j : Text) (g : Group) (db : GroupDb)
    → get_group j (put_group k g db) ≡ (if text_eq k j then some g else get_group j db)
unfolding get_group
get_group-put_group k j g db = lookup-insert text_eq text-IsEqTest k j g db.groups

has_member-admit :
    (g : Group) (user other : Shared User)
    → has_member (admit g user) other ≡ (has_member g other || same user other)
unfolding admit add_user remove_join_request has_member
has_member-admit g user other =
    ground (arith, contains-append g.users user other, contains-same g.users user other)

has_member-add_join_request :
    (g : Group) (user other : Shared User)
    → has_member (add_join_request g user).0 other ≡ has_member g other
unfolding add_join_request has_member
has_member-add_join_request g user other = ground arith

has_member-remove_user :
    (g : Group) (user other : Shared User)
    → has_member g other ≡ false
    → has_member (remove_user g user).0 other ≡ false
unfolding remove_user has_member
has_member-remove_user g user other h = ground (arith, contains-without g.users user other)

module _ (gid : Text) (u : Shared User) (group : Group) (st : State)
    (found : get_group gid st.group_db ≡ some group) (outside : has_member group u ≡ false) where
  pub stays_outside : member gid u st ≡ false
  stays_outside = rw found outside

  -- A change of a group that lets nobody in.
  pub store-outside :
      (k : Text) (g g' : Group)
      → get_group k st.group_db ≡ some g
      → (has_member g u ≡ false → has_member g' u ≡ false)
      → member gid u (store k g' st) ≡ false
  store-outside k g g' e keeps = elim (Bool-cases (text_eq k gid)) [
    | inl s ↦
        let here : g ≡ group =
          some-eq (sym e ∙ ap (λ x. get_group x st.group_db) ((text_eq_iff k gid).0 s) ∙ found) in
        rw (get_group-put_group k gid g' st.group_db, s) (keeps (rw here outside))
    | inr s ↦ rw (get_group-put_group k gid g' st.group_db, s) stays_outside
  ]

  pub create-outside :
      (user : Shared User) (k : Text) → member gid u (create_action user k st).0 ≡ false
  unfolding create_action create_group
  create-outside user k = elim (Option-cases (get_group k st.group_db)) [
    | inl e ↦ elim (Bool-cases (text_eq k gid)) [
      | inl s ↦ cc (ap (λ x. get_group x st.group_db) ((text_eq_iff k gid).0 s), e, found)
      | inr s ↦
          unfold get_group in
          rw (e, create_action, create_group)
            (rw (get_group-put_group k gid (new_group k user) st.group_db, s) stays_outside)
    ]
    | inr (g, e) ↦ unfold get_group in (rw (e, create_action, create_group) stays_outside)
  ]

  pub join-outside :
      (user : Shared User) (k : Text) → member gid u (join_action user k st).0 ≡ false
  unfolding join_action
  join-outside user k = elim (Option-cases (get_group k st.group_db)) [
    | inl e ↦ rw (e, join_action) stays_outside
    | inr (g, e) ↦ elim (Bool-cases (has_member g user)) [
      | inl m ↦ rw (e, join_action, m) stays_outside
      | inr m ↦
          rw (e, join_action, m)
            (store-outside k g (add_join_request g user).0 e
              (λ h. rw has_member-add_join_request h))
    ]
  ]

  pub leave-outside :
      (user : Shared User) (k : Text) → member gid u (leave_action user k st).0 ≡ false
  unfolding leave_action
  leave-outside user k = elim (Option-cases (get_group k st.group_db)) [
    | inl e ↦ rw (e, leave_action) stays_outside
    | inr (g, e) ↦ elim (Bool-cases (remove_user g user).1) [
      | inl m ↦
          rw (e, leave_action, m)
            (store-outside k g (remove_user g user).0 e (has_member-remove_user g user u))
      | inr m ↦ rw (e, leave_action, m) stays_outside
    ]
  ]

  -- What lets a user in: the owner of the group accepts the user's join request, under the user's name.
  abbrev pub Admitted : Shared User → Text → Text → Type 0
  Admitted by k name =
      (k ≡ gid)
      × (same group.owner by ≡ true)
      × (contains group.join_requests u ≡ true)
      × (request : Shared User) × (same request u ≡ true)
      × (request.value.username ≡ name)

  admitted :
      (by request : Shared User) (k name : Text) (g : Group)
      → get_group k st.group_db ≡ some g
      → same g.owner by ≡ true
      → find_request name g ≡ some request
      → member gid u (store k (admit g request) st) ≡ true
      → Admitted by k name
  unfolding find_request
  admitted by request k name g e o f m = elim (Bool-cases (text_eq k gid)) [
    | inl s ↦
        let at_gid = (text_eq_iff k gid).0 s in
        let here : g ≡ group = some-eq (sym e ∙ ap (λ x. get_group x st.group_db) at_gid ∙ found) in
        let in_now : has_member (admit g request) u ≡ true =
          rw (get_group-put_group k gid (admit g request) st.group_db, s) at m in
        let it : same request u ≡ true =
          ground (arith, has_member-admit g request u, ap (λ x. has_member x u) here) in
        let asked : contains g.join_requests u ≡ true =
          sym (contains-same g.join_requests request u it)
          ∙ contains-find_if _ g.join_requests request f in
        let named =
          find_if-passes (λ user. text_eq user.value.username name) g.join_requests request f in
        (
          at_gid,
          rw (← here) o,
          rw (← here) asked,
          request,
          it,
          (text_eq_iff request.value.username name).0 named,
        )
    | inr s ↦
        cc (rw (get_group-put_group k gid (admit g request) st.group_db, s) at m, stays_outside)
  ]

  pub accept-Admitted :
      (by : Shared User) (k name : Text)
      → member gid u (accept_action by k name st).0 ≡ true
      → Admitted by k name
  accept-Admitted by k name = elim (Option-cases (get_group k st.group_db)) [
    | inl e ↦ unfold accept_action in (rw (e, accept_action) λ h. cc stays_outside)
    | inr (g, e) ↦ elim (Bool-cases (same g.owner by)) [
      | inl o ↦ elim (Option-cases (find_request name g)) [
        | inl f ↦ unfold accept_action in (rw (e, accept_action, o, f) λ h. cc stays_outside)
        | inr (request, f) ↦
            unfold accept_action in
            (rw (e, accept_action, o, f) (admitted by request k name g e o f))
      ]
      | inr o ↦ unfold accept_action in (rw (e, accept_action, o) λ h. cc stays_outside)
    ]
  ]
