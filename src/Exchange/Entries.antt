-- ===== src/Exchange/Entries.antt =====
-- What an upload enters in the group of a file, in `process_file_request` of
-- src/tracker/process_request.cpp.
use p2p_file_share.Base.{
  ◌≡◌, refl, ap, Bool, true, false, ◌&&◌, Option, none, some, some-eq, List, [], ◌∷◌, ◌++◌,
  if◌then◌else◌, Text, text_eq, text_eq_refl, find_if, arith, inl, inr, Bool-cases, Option-cases,
}
use p2p_file_share.Models.Endpoint.{Endpoint}
use p2p_file_share.Models.FileInfo.{FileInfo}
use p2p_file_share.Models.File.{File, file_eq}
use p2p_file_share.Models.User.{Shared, contains}
use p2p_file_share.Models.Group.{Group, add_file}
use p2p_file_share.Tracker.State.{State}
use p2p_file_share.Tracker.GroupDb.{get_group}
use p2p_file_share.Tracker.FileRequests.{add_seeder, find_file, upload_file}
use p2p_file_share.Tracker.ProcessRequest.Membership.{get_group-put_group}

module _ (group_id : Text) (e : Endpoint) (info : FileInfo) where
  -- Whether a file is the one that is uploaded: its hash and its group are.
  abbrev pub is_upload : Shared File → Bool
  is_upload f = text_eq f.value.file_info.hash info.hash && text_eq f.value.group_id group_id

  -- The files that are not.
  unfoldable pub others : List (Shared File) → List (Shared File)
  others [] = []
  others (f ∷ fs) = let rest = others fs in if is_upload f then rest else f ∷ rest

  abbrev new_file : File
  new_file = record { seeders = e ∷ []; file_info = info; group_id = group_id }

  -- The file afterwards, from the one that the group had, if any: the endpoint is its last seeder.
  abbrev pub entry : Option (Shared File) → File
  entry none = new_file
  entry (some f) = record f.value { seeders = f.value.seeders ++ e ∷ [] }

  -- In the state afterwards the group has some files, the others of them are those it had, the uploaded one is
  -- its entry, and nothing else of the group nor any other group has changed.
  abbrev pub IsEntered : Group → Text → State → State → Type 0
  IsEntered group j st st' =
      (files : List (Shared File)) × (f : Shared File) × (get_group j st'.group_db ≡ (
        if text_eq group_id j
        then some (record group { files = files })
        else get_group j st.group_db))
      × (find_if is_upload files ≡ some f)
      × (f.value ≡ entry (find_if is_upload group.files))
      × (others files ≡ others group.files)

  abbrev seeded : Shared File → Shared File
  seeded f = record f { value = record f.value { seeders = f.value.seeders ++ e ∷ [] } }

  find_if-add_seeder :
      (fs : List (Shared File)) (x : Shared File)
      → find_if is_upload fs ≡ some x
      → find_if is_upload (add_seeder e new_file fs) ≡ some (seeded x)
  unfolding add_seeder file_eq find_if
  find_if-add_seeder [] x h = cc
  find_if-add_seeder (f ∷ fs) x h = elim (Bool-cases (is_upload f)) [
    | inl b ↦
        let same : some f ≡ some x = rw (find_if, b) at h in
        rw (add_seeder, b, find_if, b) (ap (λ y. some (seeded y)) (some-eq same))
    | inr b ↦ rw (add_seeder, b, find_if, b) (find_if-add_seeder fs x (rw (find_if, b) at h))
  ]

  others-add_seeder : (fs : List (Shared File)) → others (add_seeder e new_file fs) ≡ others fs
  unfolding add_seeder file_eq others
  others-add_seeder [] = refl
  others-add_seeder (f ∷ fs) = elim (Bool-cases (is_upload f)) [
    | inl b ↦ rw (add_seeder, b, others, b) refl
    | inr b ↦ rw (add_seeder, b, others, b) (ap (λ rest. f ∷ rest) (others-add_seeder fs))
  ]

  find_if-append :
      (fs : List (Shared File)) (x : Shared File)
      → find_if is_upload fs ≡ none
      → is_upload x ≡ true
      → find_if is_upload (fs ++ x ∷ []) ≡ some x
  unfolding find_if
  find_if-append [] x h k = rw k refl
  find_if-append (f ∷ fs) x h k = elim (Bool-cases (is_upload f)) [
    | inl b ↦ cc (rw (find_if, b) at h)
    | inr b ↦ rw (find_if, b) (find_if-append fs x (rw (find_if, b) at h) k)
  ]

  others-append :
      (fs : List (Shared File)) (x : Shared File)
      → is_upload x ≡ true
      → others (fs ++ x ∷ []) ≡ others fs
  unfolding others
  others-append [] x k = rw k refl
  others-append (f ∷ fs) x k = elim (Bool-cases (is_upload f)) [
    | inl b ↦ rw (others, b) (others-append fs x k)
    | inr b ↦ rw (others, b) (ap (λ rest. f ∷ rest) (others-append fs x k))
  ]

  -- An upload enters the file, if the next address is that of no file of the group.
  pub upload_file-IsEntered :
      (group : Group) (j : Text) (st : State)
      → contains group.files (record { address = st.next_address; value = new_file }) ≡ false
      → IsEntered group j st (upload_file group group_id e info st).0
  unfolding upload_file find_file file_eq add_file
  upload_file-IsEntered group j st fresh = elim (Option-cases (find_if is_upload group.files)) [
    | inl n ↦
        let shared : Shared File = record { address = st.next_address; value = new_file } in
        let this : is_upload shared ≡ true =
          ground (arith, text_eq_refl info.hash, text_eq_refl group_id) in
        rw (n, upload_file, fresh)
          (
            group.files ++ shared ∷ [],
            shared,
            get_group-put_group group_id j (record group { files = group.files ++ shared ∷ [] })
                st.group_db,
            find_if-append group.files shared n this,
            refl,
            others-append group.files shared this,
          )
    | inr (x, n) ↦
        rw (n, upload_file)
          (
            add_seeder e new_file group.files,
            seeded x,
            get_group-put_group group_id j
                (record group { files = add_seeder e new_file group.files }) st.group_db,
            find_if-add_seeder group.files x n,
            refl,
            others-add_seeder group.files,
          )
  ]
