-- ===== src/Viewer/NavTree/Sync.antt =====
-- docs/navtree.js: navTo finds the place of a page; the sync button keeps its link in a setting.
pub mod Cached
use p2p_file_share.Base.{
  ℕ, zero, suc, ◌==◌, Bool, true, false, not, ◌&&◌, ◌||◌, Option, none, some, List, [], ◌∷◌, ◌⊕◌,
  if◌then◌else◌, Text, lit, lookup, insert, is_empty, drop, any, leb,
}
use p2p_file_share.Viewer.Cookie.{
  Storage, Days, session, read_setting, write_setting, erase_setting, truthy,
}
use p2p_file_share.Viewer.Strings.{before, after}
use p2p_file_share.Viewer.NavTree.{
  Location, hash_value, hash_url, path_name, strip_path, strip_path2, keep_units, is_hash_unit,
  has_hash,
}
use p2p_file_share.Viewer.NavTree.Index.{nav_index, breadcrumbs}
use p2p_file_share.Viewer.NavTree.Tree.{
  Entries, listed, Label, linked, plain, Look, State, fresh, Node, node, Nodes, end, next, Source,
}
use p2p_file_share.Viewer.NavTree.Show.{
  Reached, selecting, waiting, failed, is_overview, show_node, has_class, select_and_highlight,
}

abbrev pub SubIndex : Type 0
SubIndex = List (Text × List ℕ)

-- `heads` is NAVTREEINDEX, `home` is NAVTREE[0][1], and `load_index` loads the script of an index.
-- `yesterday` is the date that erases a cookie.
pub record NavPage : Type 0 where
  pub source : Source
  pub to_root : Text
  pub home : Text
  pub heads : List Text
  pub load_index : ℕ → Option SubIndex
  pub sub_indices : List (ℕ × SubIndex)
  pub tree : Node
  pub storage : Storage
  pub is_synced : Bool
  pub icon : Text
  pub animation : Bool
  pub yesterday : Text

abbrev pub navpath : Text
navpath = lit "navpath"

unfoldable pub root_node : Entries → Node
root_node entries =
    node
      (record {
        label = [];
        anchor = plain;
        depth = 0;
        indent = 0;
        has_toggle = false;
        is_last = true;
      })
      (listed entries) fresh end

unfoldable pub store_link : Text → NavPage → NavPage
unfolding write_setting
store_link link p =
    if p.is_synced then p else record p { storage = write_setting navpath link session p.storage }

unfoldable pub delete_link : NavPage → NavPage
unfolding erase_setting
delete_link p = record p { storage = erase_setting p.yesterday navpath p.storage }

unfoldable pub cached_link : NavPage → Option Text
unfolding read_setting
cached_link p = read_setting navpath p.storage

-- The image of the button.
abbrev pub show_sync : Bool → NavPage → NavPage
show_sync on p = record p {
  icon = p.source.rel_path ⊕ (if on then lit "sync_on.png" else lit "sync_off.png");
}

unfoldable pub init_sync : NavPage → NavPage
unfolding cached_link
init_sync p =
    if truthy (cached_link p)
    then record (show_sync false p) { is_synced = false }
    else show_sync true p

unfoldable pub click_sync : NavPage → NavPage
unfolding store_link delete_link strip_path2 path_name hash_url
click_sync p =
    if p.is_synced
    then store_link (strip_path2 (path_name p.source.here) ⊕ hash_url p.source.here)
        (show_sync false (record p { is_synced = false }))
    else delete_link (show_sync true (record p { is_synced = true }))

-- /^#l\d+$/
unfoldable pub is_line_hash : Text → Bool
is_line_hash (a ∷ l ∷ d ∷ s) =
    (a == b'#') && (l == b'l') && not (any (λ c. not (leb b'0' c && leb c b'9')) (d ∷ s))
is_line_hash _ = false

unfoldable pub goto_node : SubIndex → Text → Text → NavPage → NavPage × Reached
unfolding breadcrumbs is_overview show_node select_and_highlight
goto_node sub_index root hash p =
    let r = show_node p.source (is_overview p.to_root) (breadcrumbs sub_index root hash) p.tree in
    (
      record p {
        tree = elim r.1 [
          | selecting place ↦ select_and_highlight p.source.here hash place r.0
          | waiting ↦ r.0
          | failed ↦ r.0
        ];
      },
      r.1,
    )

-- The script of an index is loaded once.
unfoldable pub open_index : ℕ → Text → Text → NavPage → NavPage × Reached
unfolding goto_node
open_index i root hash p = elim (lookup (λ a b. a == b) i p.sub_indices) [
  | some sub_index ↦ goto_node sub_index root hash p
  | none ↦ elim (p.load_index i) [
    | none ↦ (p, waiting)
    | some sub_index ↦
        goto_node sub_index root hash
          (record p { sub_indices = insert (λ a b. a == b) i sub_index p.sub_indices })
  ]
]

-- A link that was stored replaces the address.
unfoldable pub link_or : Option Text → Text → Text → Text × Text
unfolding keep_units
link_or (some (c ∷ s)) root hash =
    let link = c ∷ s in
    (
      before b'#' link,
      if has_hash link then b'#' ∷ keep_units is_hash_unit (before b'#' (after b'#' link)) else [],
    )
link_or _ root hash = (root, hash)

unfoldable pub find_place : Text × Text → NavPage → NavPage × Reached
unfolding is_line_hash nav_index open_index
find_place link p =
    let hash = if is_line_hash link.1 then [] else link.1 in
    elim (nav_index (link.0 ⊕ hash) p.heads) [
      | none ↦ open_index 0 p.home hash p
      | some i ↦ open_index i link.0 hash p
    ]

unfoldable pub nav_to : Text → Text → NavPage → NavPage × Reached
unfolding cached_link link_or find_place
nav_to root hash p = find_place (link_or (cached_link p) root hash) p

unfoldable mutual
  unfolding has_class

  pub is_selected : Text → Node → Bool
  is_selected link (node look children_data st children) =
      (has_class link look.anchor && st.selected) || are_selected link children

  pub are_selected : Text → Nodes → Bool
  are_selected link end = false
  are_selected link (next n ns) = is_selected link n || are_selected link ns

unfoldable mutual
  pub unmark : Node → Node
  unmark (node look children_data st children) =
      node look children_data (record st { selected = false }) (unmark_all children)

  pub unmark_all : Nodes → Nodes
  unmark_all end = end
  unmark_all (next n ns) = next (unmark n) (unmark_all ns)

unfoldable pub hash_change : NavPage → NavPage × Reached
unfolding path_name strip_path strip_path2 hash_value hash_url is_selected unmark nav_to
hash_change p =
    let here = p.source.here in
    let link = strip_path (path_name here) ⊕ b':' ∷ hash_value here in
    if p.animation
    then (p, selecting none)
    else if is_empty (drop 1 here.hash)
    then nav_to p.to_root (hash_url here) (record p { tree = unmark p.tree })
    else nav_to (strip_path2 (path_name here)) (hash_url here)
        (if is_selected link p.tree then p else record p { tree = unmark p.tree })

-- What initNavTree does on a page whose tree is new.
unfoldable pub init_nav_tree : NavPage → NavPage × Reached
unfolding init_sync hash_url nav_to
init_nav_tree p = nav_to p.to_root (hash_url p.source.here) (init_sync p)
