-- ===== src/Client/ProcessInput/Begins.antt =====
-- What begins a download, once the tracker has answered with the file.
use p2p_file_share.Base.{
  ℕ, ◌≡◌, refl, ap, ◌∙◌, ◌==◌, Bool, true, false, not, ◌&&◌, ◌||◌, Option, none, some, List, [],
  ◌∷◌, ◌++◌, if◌then◌else◌, arith, inl, inr, Bool-cases, Option-cases, any, find_if, Text, text_eq,
  is_empty, length, ok,
}
use p2p_file_share.Models.Endpoint.{Endpoint, generate_id}
use p2p_file_share.Models.FileInfo.{FileInfo}
use p2p_file_share.Models.File.{File}
use p2p_file_share.Models.User.{Shared}
use p2p_file_share.Client.PartFile.{put_all, new_partfile}
use p2p_file_share.Client.FilesDb.{FileId, file_id_eq, add_partfile}
use p2p_file_share.Client.PeerDb.{PeerDb, add_peer, add_file}
use p2p_file_share.Client.PeerDb.Holdings.{holding, address, or_else, add_both}
use p2p_file_share.Client.FileIo.{Disk, read_file}
use p2p_file_share.Client.Downloads.{Download, Manager, enqueue_download, start_downloads}
use p2p_file_share.Client.ProcessInput.{
  Environment, Client, Reaction, add_seeders, begin_download, show_bool,
}

module _ (hash : Text → ℕ) (file : File) (j : ℕ) (f : FileId) where
  abbrev key : FileId
  key = record { group_id = file.group_id; file_name = file.file_info.hash }

  or_else-first :
      (x : Option Endpoint) (b : Bool) (e : Endpoint) (y : Option Endpoint)
      → or_else (or_else x (if b then some e else none)) y ≡ or_else x (if b then some e else y)
  or_else-first none true e y = refl
  or_else-first none false e y = refl
  or_else-first (some x) b e y = refl

  add_seeders_lem :
      (seeders : List Endpoint) (db : PeerDb)
      → (holding j f (add_seeders hash file seeders db)
          ≡ (holding j f db || (any (λ e. generate_id hash e == j) seeders && file_id_eq key f)))
        × (address j (add_seeders hash file seeders db)
            ≡ or_else (address j db) (find_if (λ e. generate_id hash e == j) seeders))
  unfolding add_seeders any find_if
  add_seeders_lem [] db = (ground arith, nothing (address j db))
    where
      nothing : (x : Option Endpoint) → x ≡ or_else x none
      nothing none = refl
      nothing (some x) = refl
  add_seeders_lem (e ∷ seeders) db =
      let id = generate_id hash e in
      let first = add_both id e key db j f in
      let (held, known) = add_seeders_lem seeders (add_file id key (add_peer id e db).0).0 in
      (
        held ∙ ground (arith, first.0),
        known
            ∙ ap (λ x. or_else x (find_if (λ s. generate_id hash s == j) seeders)) first.1
            ∙ or_else-first (address j db) (id == j) e
                (find_if (λ s. generate_id hash s == j) seeders),
      )

-- The download that joins the queue: none of its pieces is downloaded, and all remain.
abbrev pub queued_download : Environment → File → Text → Download
queued_download env file path = record {
  part = record {
    group_id = file.group_id;
    file_info = file.file_info;
    piece_count = length file.file_info.pieces;
    file_path = path;
    downloaded_pieces = [];
    remaining_pieces = put_all [] file.file_info.pieces;
  };
  info_address = env.fresh;
}

abbrev pub nothing_in : Option Text → Bool
nothing_in none = true
nothing_in (some x) = false

-- Whether nothing stands at the path, and no download of the group is of the same description.
abbrev pub is_new : Environment → File → Text → Disk → List Download → Bool
is_new env file path disk downloads =
    nothing_in (read_file path disk)
    && not (
        any (λ d. text_eq d.part.group_id file.group_id && (d.info_address == env.fresh)) downloads)

-- How a download begins for a client: a new one joins the end of the queue, and the database of
-- files where the queue was not empty; the queue is served from then on; what is printed is whether it
-- was new; and for the peer with the id j: it has the file f if it had it before, or if it is a seeder
-- and f is this file; and its address is the one known before, else that of the first seeder with the id.
abbrev pub IsBegun : Environment → File → Text → Disk → ℕ → FileId → Client → Reaction → Type 0
IsBegun env file path disk j f c (c', r) =
    let fresh = is_new env file path disk c.manager.downloads in
    let is_j : Endpoint → Bool = λ e. generate_id env.hash e == j in
    (c'.manager.downloads ≡ (
      if fresh
      then c.manager.downloads ++ queued_download env file path ∷ []
      else c.manager.downloads))
    × (c'.my_files ≡ (
        if fresh && not (is_empty c.manager.downloads)
        then (add_partfile file.group_id file.file_info path false c.my_files).0
        else c.my_files))
    × (c'.manager.running ≡ true)
    × (r ≡ ok (show_bool fresh, true))
    × (holding j f c'.peer_db ≡ (
        holding j f c.peer_db || (any is_j file.seeders && file_id_eq (key env.hash file j f) f)))
    × (address j c'.peer_db ≡ or_else (address j c.peer_db) (find_if is_j file.seeders))

any-is_empty {ℓ} : {A : Type ℓ} (p : A → Bool) (xs : List A) → is_empty xs ≡ true → any p xs ≡ false
unfolding any
any-is_empty p [] h = refl
any-is_empty p (x ∷ xs) h = cc

start_downloads_lem :
    (m : Manager)
    → ((start_downloads m).0.downloads ≡ m.downloads) × ((start_downloads m).0.running ≡ true)
unfolding start_downloads
start_downloads_lem m = elim (Bool-cases m.running) [
  | inl e ↦ simp e (refl, refl)
  | inr e ↦ simp e (refl, refl)
]

module _ (env : Environment) (file : File) (path : Text) (disk : Disk) (c : Client) where
  abbrev fresh : Bool
  fresh = is_new env file path disk c.manager.downloads

  abbrev same_download : Download → Bool
  same_download d = text_eq d.part.group_id file.group_id && (d.info_address == env.fresh)

  abbrev info : Shared FileInfo
  info = record { address = env.fresh; value = file.file_info }

  enqueued_as : enqueue_download file.group_id info path disk c.manager c.my_files ≡ (
      if fresh
      then (
        record c.manager { downloads = c.manager.downloads ++ queued_download env file path ∷ [] },
        if is_empty c.manager.downloads
            then c.my_files
            else (add_partfile file.group_id file.file_info path false c.my_files).0,
        true,
      )
      else (c.manager, c.my_files, false))
  unfolding enqueue_download new_partfile
  enqueued_as = elim (Option-cases (read_file path disk)) [
    | inl e ↦ elim (Bool-cases (is_empty c.manager.downloads)) [
      | inl b ↦ rw (enqueue_download, e, b, any-is_empty same_download c.manager.downloads b) refl
      | inr b ↦ elim (Bool-cases (any same_download c.manager.downloads)) [
        | inl q ↦ rw (enqueue_download, e, b, q) refl
        | inr q ↦ rw (enqueue_download, e, b, q) refl
      ]
    ]
    | inr (x, e) ↦ rw (enqueue_download, e) refl
  ]

  pub begin_download-IsBegun :
      (j : ℕ) (f : FileId)
      → IsBegun env file path disk j f c (
        (begin_download env file path disk c).0,
        ok (show_bool (begin_download env file path disk c).1, true),
      )
  unfolding begin_download
  begin_download-IsBegun j f =
      let (held, known) = add_seeders_lem env.hash file j f file.seeders c.peer_db in
      let (queue, runs) =
        start_downloads_lem
          (enqueue_download file.group_id info path disk c.manager c.my_files).0 in
      elim (Bool-cases fresh) [
        | inl b ↦ elim (Bool-cases (is_empty c.manager.downloads)) [
          | inl n ↦ (
            queue ∙ rw (enqueued_as, b) refl,
            rw (enqueued_as, b, n) refl,
            runs,
            rw (enqueued_as, b) refl,
            held,
            known,
          )
          | inr n ↦ (
            queue ∙ rw (enqueued_as, b) refl,
            rw (enqueued_as, b, n) refl,
            runs,
            rw (enqueued_as, b) refl,
            held,
            known,
          )
        ]
        | inr b ↦ (
          queue ∙ rw (enqueued_as, b) refl,
          rw (enqueued_as, b) refl,
          runs,
          rw (enqueued_as, b) refl,
          held,
          known,
        )
      ]
