-- ===== src/Tests/PageRuns.antt =====
-- Runs of the sections, the menu, the widths and the tree of the documentation.
use p2p_file_share.Base.{
  ◌≡◌, refl, [], ◌∷◌, List, Text, Option, Bool, lit, true, false, none, some, text_eq, lookup,
  insert, erase, get_elem?, take, drop, any,
}
use p2p_file_share.Stream.{to_string, read_digits}
use p2p_file_share.Viewer.Strings.{starts_with, before, after, after_last}
use p2p_file_share.Viewer.Cookie.{Storage, read_setting, write_chrome, write_setting, erase_setting}
use p2p_file_share.Viewer.Sections
use p2p_file_share.Viewer.Sections.{
  Row, is_number_end, is_child, first_child_visible, close_icon, open_icon, hide_below,
  show_children, fold_row,
}
use p2p_file_share.Viewer.Sections.Folders.{reopened, fold_row_twice}
use p2p_file_share.Viewer.Menu.{
  Menu, url_of, make_tree, server_search_box, client_search_box, search_box_html, change_state,
  lay_out, reset_state, new_menu, init_menu,
}
use p2p_file_share.Viewer.Menu.Places
use p2p_file_share.Viewer.Menu.Places.{IsPlaced, Becomes, Becomes-IsPlaced}
use p2p_file_share.Viewer.Resize.{
  resize_width, store_width, collapse_expand, init_resizable, minus, width_text, set_margins,
}
use p2p_file_share.Viewer.NavTree.{
  hash_value, hash_url, path_name, strip_path, strip_path2, keep_units, is_sub_dir, link_anchor,
  replace_hash,
}
use p2p_file_share.Viewer.NavTree.Index.{text_leb, count_leb, nav_index}
use p2p_file_share.Viewer.NavTree.Tree.{
  absent, script, Entries, nil, cons, Source, fetch, underlined, create_indent, label_of, new_node,
  is_nil, get_node, open_listed, expand_node,
}
use p2p_file_share.Viewer.NavTree.Show.{selecting, child, set_child, known, show_last, show_node}
use p2p_file_share.Viewer.NavTree.Show.Opened.{IsOpenAlong, show_node-IsOpenAlong}
use p2p_file_share.Viewer.NavTree.Sync.{
  NavPage, root_node, cached_link, click_sync, store_link, delete_link, nav_to,
}
use p2p_file_share.Viewer.NavTree.Sync.Cached.{nav_to-click_sync}

-- The code that the runs go through.
page_code : Unit {0}
unfolding to_string read_digits starts_with before after after_last read_setting write_chrome
    write_setting erase_setting is_number_end is_child first_child_visible hide_below show_children
    fold_row url_of make_tree server_search_box client_search_box search_box_html change_state
    lay_out reset_state new_menu init_menu resize_width store_width collapse_expand init_resizable
    minus width_text set_margins hash_value hash_url path_name strip_path strip_path2 keep_units
    is_sub_dir link_anchor replace_hash text_leb count_leb nav_index fetch underlined create_indent
    label_of new_node is_nil get_node open_listed expand_node child set_child known show_last
    show_node root_node cached_link click_sync store_link delete_link nav_to text_eq lookup insert
    erase take drop any
page_code = tt

abbrev row : Text → Bool → Option Bool → Row
row id visible icon = record {
  id = id;
  visible = visible;
  icon_open = icon;
  arrow_down = icon;
  stripe = Sections.plain;
}

abbrev folder : Row
folder = row (lit "row_0_") true (some true)

abbrev rows : List Row
rows =
    row (lit "row_0_0_") true (some true)
    ∷ row (lit "row_0_0_0_") true none
    ∷ row (lit "row_1_") true none
    ∷ []

fold_row_twice_example :
    (fold_row (lit "0_") folder rows ≡ close_icon folder ∷ hide_below (lit "0_") rows)
    × (get_elem? (fold_row (lit "0_") (close_icon folder) (hide_below (lit "0_") rows)) 0
        ≡ some (open_icon folder))
    × (get_elem? (fold_row (lit "0_") (close_icon folder) (hide_below (lit "0_") rows)) 2
        ≡ some (reopened (lit "0_") (row (lit "row_0_0_0_") true none)))
unfolding page_code
fold_row_twice_example =
    fold_row_twice (lit "0_") folder rows 1 (row (lit "row_0_0_0_") true none) refl refl

abbrev menu : Menu
menu = record {
  tree = [];
  box = some (lit "<div/>");
  checked = false;
  menu_shown = true;
  place1 = [];
  place2 = lit "<div/>";
  place2_shown = true;
  prev_width = 1024;
  panel = none;
}

Becomes-IsPlaced_example : IsPlaced (lit "<div/>") (change_state true (reset_state 500 menu))
Becomes-IsPlaced_example =
    Becomes-IsPlaced (lit "<div/>")
      (Places.next (Places.next Places.here (Places.resize 500 menu))
        (Places.click true (reset_state 500 menu)))
      (refl, refl, (refl, refl))

abbrev storage : Storage
storage = record { chrome = true; local_storage = []; session_storage = []; jar = [] }

abbrev heads : List Text
heads = lit "annotated.html" ∷ lit "files.html" ∷ lit "globals.html" ∷ []

abbrev files : Entries
files = cons (lit "a.cpp") (some (lit "a_8cpp.html#l1")) absent nil

abbrev source : Source
source = record {
  here = record { pathname = lit "/docs/d0/d1f/a.html"; hash = lit "#x<y" };
  rel_path = lit "../../";
  load = λ path name. some files;
}

abbrev entries : Entries
entries = cons (lit "Files") (some (lit "files.html")) (script (lit "files-dup")) nil

show_node-IsOpenAlong_example :
    ((show_node source false (0 ∷ 0 ∷ []) (root_node entries)).1 ≡ selecting (some (0 ∷ 0 ∷ [])))
    × IsOpenAlong (0 ∷ 0 ∷ []) (show_node source false (0 ∷ 0 ∷ []) (root_node entries)).0
unfolding page_code
show_node-IsOpenAlong_example = show_node-IsOpenAlong source false 0 (0 ∷ []) (root_node entries) (
  entries,
  new_node source 0 (lit "Files") (some (lit "files.html")) (script (lit "files-dup")) true,
  refl,
  refl,
  (
    files,
    new_node source 1 (lit "a.cpp") (some (lit "a_8cpp.html#l1")) absent true,
    refl,
    refl,
    λ e. cc e,
  ),
)

abbrev page : NavPage
page = record {
  source = source;
  to_root = lit "index.html";
  home = lit "index.html";
  heads = heads;
  load_index = λ i. some ((lit "files.html", 0 ∷ []) ∷ []);
  sub_indices = [];
  tree = root_node entries;
  storage = storage;
  is_synced = true;
  icon = [];
  animation = false;
  yesterday = lit "Thu";
}

-- The link that is stored: the directory with the page, and the hash without its sign.
stored_link : cached_link (click_sync page) ≡ some (lit "d0/d1f/a.html#xy")
unfolding page_code
stored_link = refl

nav_to-click_sync_example :
    nav_to (lit "files.html") (lit "#a") (click_sync page)
    ≡ nav_to (lit "index.html") [] (click_sync page)
unfolding page_code
nav_to-click_sync_example =
    nav_to-click_sync page (lit "files.html") (lit "#a") (lit "index.html") [] refl refl refl
