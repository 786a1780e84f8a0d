-- ===== src/Models/Group/Members.antt =====
-- Who is a member of a group after each change of its users.
use p2p_file_share.Base.{
  ◌≡◌, refl, Bool, true, false, not, ◌||◌, List, [], ◌∷◌, ◌++◌, if◌then◌else◌, arith, any, find_if,
  some, some-eq, Bool-cases, ap, sym, ◌∙◌, inl, inr,
}
use p2p_file_share.Models.User.{Shared, User, same, contains}
use p2p_file_share.Models.Group.{Group, without, has_member, add_user, remove_user}

module _ {ℓ} {A : Type ℓ} where
  pub contains-append :
      (xs : List (Shared A)) (p q : Shared A)
      → contains (xs ++ p ∷ []) q ≡ (contains xs q || same p q)
  unfolding contains any
  contains-append [] p q = ground arith
  contains-append (x ∷ xs) p q = ground (arith, contains-append xs p q)

  pub contains-without :
      (xs : List (Shared A)) (p q : Shared A)
      → contains (without xs p) q ≡ (if same p q then false else contains xs q)
  unfolding contains any without
  contains-without [] p q = ground arith
  contains-without (x ∷ xs) p q = ground (arith, contains-without xs p q)

  pub contains-same :
      (xs : List (Shared A)) (p q : Shared A) → same p q ≡ true → contains xs p ≡ contains xs q
  unfolding contains any
  contains-same [] p q h = refl
  contains-same (x ∷ xs) p q h = ground (arith, contains-same xs p q)

-- What a search in a set of pointers finds is in the set.
pub contains-find_if {ℓ} :
    {A : Type ℓ} (p : Shared A → Bool) (xs : List (Shared A)) (x : Shared A)
    → find_if p xs ≡ some x
    → contains xs x ≡ true
unfolding contains any find_if
contains-find_if p [] x h = cc
contains-find_if p (y ∷ xs) x h = elim (Bool-cases (p y)) [
  | inl e ↦
      let eq : some y ≡ some x = rw (e, find_if) at h in
      ap (contains (y ∷ xs)) (sym (some-eq eq)) ∙ ground arith
  | inr e ↦ ground (arith, contains-find_if p xs x (rw (e, find_if) at h))
]

-- After `add_user` the members are the former ones and the user, and its result tells whether the
-- user was new to the set.
pub has_member-add_user :
    (g : Group) (user other : Shared User)
    → (has_member (add_user g user).0 other ≡ (has_member g other || same user other))
      × ((add_user g user).1 ≡ not (contains g.users user))
unfolding add_user has_member
has_member-add_user g user other =
    ground (arith, contains-append g.users user other, contains-same g.users user other)

-- After `remove_user` the owner is still a member, the user is none unless they own the group, and
-- all others are as before.
pub has_member-remove_user :
    (g : Group) (user other : Shared User)
    → has_member (remove_user g user).0 other
      ≡ (same other g.owner || (if same user other then false else contains g.users other))
unfolding remove_user has_member
has_member-remove_user g user other = ground (arith, contains-without g.users user other)
