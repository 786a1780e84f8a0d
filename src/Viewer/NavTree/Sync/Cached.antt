-- ===== src/Viewer/NavTree/Sync/Cached.antt =====
-- The link that the sync button keeps.
use p2p_file_share.Base.{
  ◌≡◌, refl, ap, ◌∙◌, sym, true, false, Bool-cases, inl, inr, none, some, [], ◌∷◌, ◌⊕◌,
  if◌then◌else◌, Text, text_eq, lookup,
}
use p2p_file_share.Viewer.Strings.{after_last}
use p2p_file_share.Viewer.Cookie.{session, key_of, or_else}
use p2p_file_share.Viewer.Cookie.Settings.{read-write_chrome, read-erase_chrome}
use p2p_file_share.Viewer.NavTree.{hash_value, hash_url, path_name, strip_path2}
use p2p_file_share.Viewer.NavTree.Sync.{
  NavPage, navpath, cached_link, click_sync, store_link, delete_link, link_or, find_place, nav_to,
}

filled : (s h : Text) → or_else none (some (s ⊕ b'#' ∷ h)) ≡ some (s ⊕ b'#' ∷ h)
filled [] h = refl
filled (c ∷ s) h = refl

link_or-filled :
    (s h root hash other_root other_hash : Text)
    → link_or (some (s ⊕ b'#' ∷ h)) root hash ≡ link_or (some (s ⊕ b'#' ∷ h)) other_root other_hash
unfolding link_or
link_or-filled [] h root hash other_root other_hash = refl
link_or-filled (c ∷ s) h root hash other_root other_hash = refl

nav_to-cached :
    (p : NavPage) (s h root hash other_root other_hash : Text)
    → cached_link p ≡ some (s ⊕ b'#' ∷ h)
    → nav_to root hash p ≡ nav_to other_root other_hash p
unfolding nav_to
nav_to-cached p s h root hash other_root other_hash e =
    ap (λ l. find_place (link_or l root hash) p) e
    ∙ ap (λ l. find_place l p) (link_or-filled s h root hash other_root other_hash)
    ∙ ap (λ l. find_place (link_or l other_root other_hash) p) (sym e)

sync_off-cached :
    (p : NavPage)
    → p.storage.chrome ≡ true
    → lookup text_eq (key_of navpath) p.storage.local_storage ≡ none
    → p.is_synced ≡ true
    → cached_link (click_sync p)
      ≡ some (strip_path2 (path_name p.source.here) ⊕ hash_url p.source.here)
unfolding hash_url cached_link click_sync strip_path2 text_eq after_last
sync_off-cached p c l on =
    let s = strip_path2 (path_name p.source.here) in
    let h = hash_value p.source.here in
    rw
      (
        click_sync,
        on,
        store_link,
        read-write_chrome navpath navpath (s ⊕ b'#' ∷ h) session p.storage c,
        l,
      )
      (filled s h)

sync_on-cached :
    (p : NavPage)
    → p.storage.chrome ≡ true
    → lookup text_eq (key_of navpath) p.storage.local_storage ≡ none
    → p.is_synced ≡ false
    → cached_link (click_sync p) ≡ none
unfolding cached_link click_sync text_eq
sync_on-cached p c l off =
    rw (click_sync, off, delete_link, read-erase_chrome p.yesterday navpath navpath p.storage c, l)
      refl

-- In Chrome, with no link in the local storage, a click on the sync button stores the link of the page
-- when the tree follows the pages, and forgets the stored link when it does not.
pub click_sync_lem :
    (p : NavPage)
    → p.storage.chrome ≡ true
    → lookup text_eq (key_of navpath) p.storage.local_storage ≡ none
    → cached_link (click_sync p) ≡ (
        if p.is_synced
        then some (strip_path2 (path_name p.source.here) ⊕ hash_url p.source.here)
        else none)
click_sync_lem p c l =
    let link = strip_path2 (path_name p.source.here) ⊕ hash_url p.source.here in
    elim (Bool-cases p.is_synced) [
      | inl on ↦ sync_off-cached p c l on ∙ sym (ap (λ b. if b then some link else none) on)
      | inr off ↦ sync_on-cached p c l off ∙ sym (ap (λ b. if b then some link else none) off)
    ]

-- In Chrome, with no link in the local storage, once a click has stopped the tree from following the
-- pages, navTo comes to the same tree and the same place whatever page and hash it is called with.
pub nav_to-click_sync :
    (p : NavPage) (root hash other_root other_hash : Text)
    → p.storage.chrome ≡ true
    → lookup text_eq (key_of navpath) p.storage.local_storage ≡ none
    → p.is_synced ≡ true
    → nav_to root hash (click_sync p) ≡ nav_to other_root other_hash (click_sync p)
unfolding hash_url
nav_to-click_sync p root hash other_root other_hash c l on =
    nav_to-cached (click_sync p) (strip_path2 (path_name p.source.here)) (hash_value p.source.here)
      root hash other_root other_hash (sync_off-cached p c l on)
