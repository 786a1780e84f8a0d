-- ===== src/Viewer/Menu.antt =====
-- docs/menu.js: the menu of a page, and where the search box stands.
pub mod Places
use p2p_file_share.Base.{
  ℕ, ◌==◌, Bool, true, false, not, Option, none, some, [], ◌∷◌, ◌⊕◌, if◌then◌else◌, Text, lit, ltb,
}
use p2p_file_share.Viewer.Search.{Panel}
use p2p_file_share.Viewer.Search.Box.{close_results_window}

-- `menudata`: an entry has `children` or not.
mutual
  pub data Children : Type 0 where
    absent : Children
    present : Entries → Children

  pub data Entries : Type 0 where
    nil : Entries
    cons : Text → Text → Children → Entries → Entries

-- A link that begins with ^ is the address itself.
unfoldable pub url_of : Text → Text → Text
url_of rel_path [] = rel_path
url_of rel_path (c ∷ link) = if c == b'^' then link else rel_path ⊕ c ∷ link

unfoldable mutual
  unfolding url_of

  pub make_tree : Text → Children → Text
  make_tree rel_path absent = []
  make_tree rel_path (present entries) = lit "<ul>" ⊕ make_entries rel_path entries ⊕ lit "</ul>"

  pub make_entries : Text → Entries → Text
  make_entries rel_path nil = []
  make_entries rel_path (cons text url children entries) =
      lit "<li><a href=\""
      ⊕ url_of rel_path url
      ⊕ lit "\">"
      ⊕ text
      ⊕ lit "</a>"
      ⊕ make_tree rel_path children
      ⊕ lit "</li>"
      ⊕ make_entries rel_path entries

unfoldable pub server_search_box : Text → Text → Text → Text
server_search_box rel_path search_page search =
    lit "<div id=\"MSearchBox\" class=\"MSearchBoxInactive\">"
    ⊕ lit "<div class=\"left\">"
    ⊕ lit "<form id=\"FSearchBox\" action=\""
    ⊕ rel_path
    ⊕ search_page
    ⊕ lit "\" method=\"get\"><span id=\"MSearchSelectExt\">&#160;</span>"
    ⊕ lit "<input type=\"text\" id=\"MSearchField\" name=\"query\" value=\"\" placeholder=\""
    ⊕ search
    ⊕ lit "\" size=\"20\" accesskey=\"S\" onfocus=\"searchBox.OnSearchFieldFocus(true)\""
    ⊕ lit " onblur=\"searchBox.OnSearchFieldFocus(false)\"/>"
    ⊕ lit "</form>"
    ⊕ lit "</div>"
    ⊕ lit "<div class=\"right\"></div>"
    ⊕ lit "</div>"

unfoldable pub client_search_box : Text → Text → Text
client_search_box rel_path search =
    lit "<div id=\"MSearchBox\" class=\"MSearchBoxInactive\">"
    ⊕ lit "<span class=\"left\">"
    ⊕ lit "<span id=\"MSearchSelect\" onmouseover=\"return searchBox.OnSearchSelectShow()\""
    ⊕ lit " onmouseout=\"return searchBox.OnSearchSelectHide()\">&#160;</span>"
    ⊕ lit "<input type=\"text\" id=\"MSearchField\" value=\"\" placeholder=\""
    ⊕ search
    ⊕ lit "\" accesskey=\"S\" onfocus=\"searchBox.OnSearchFieldFocus(true)\" "
    ⊕ lit "onblur=\"searchBox.OnSearchFieldFocus(false)\" "
    ⊕ lit "onkeyup=\"searchBox.OnSearchFieldChange(event)\"/>"
    ⊕ lit "</span>"
    ⊕ lit "<span class=\"right\"><a id=\"MSearchClose\" "
    ⊕ lit "href=\"javascript:searchBox.CloseResultsWindow()\">"
    ⊕ lit "<img id=\"MSearchCloseImg\" border=\"0\" src=\""
    ⊕ rel_path
    ⊕ lit "search/close.svg\" alt=\"\"/></a>"
    ⊕ lit "</span>"
    ⊕ lit "</div>"

-- undefined without search is `none`.
unfoldable pub search_box_html : Text → Bool → Bool → Text → Text → Option Text
unfolding server_search_box client_search_box
search_box_html rel_path search_enabled server_side search_page search =
    if not search_enabled
    then none
    else if server_side
    then some (server_search_box rel_path search_page search)
    else some (client_search_box rel_path search)

-- The menu on the page: its tree, the checkbox that shows it on a narrow page, and what stands at the
-- two places for the search box, of which the second is in the menu.
pub record Menu : Type 0 where
  pub tree : Text
  pub box : Option Text
  pub checked : Bool
  pub menu_shown : Bool
  pub place1 : Text
  pub place2 : Text
  pub place2_shown : Bool
  pub prev_width : ℕ
  pub panel : Option Panel

abbrev html : Option Text → Text → Text
html none old = old
html (some new) old = new

abbrev pub close_panel : Option Panel → Option Panel
close_panel none = none
close_panel (some p) = some (close_results_window p)

-- The change of the checkbox, once the animation is complete.
unfoldable pub change_state : Bool → Menu → Menu
change_state checked m = record m { checked = checked; menu_shown = checked }

-- A narrow page and a wide one.
unfoldable pub lay_out : ℕ → Menu → Menu
lay_out width m =
    if ltb width 768
    then record m {
      checked = false;
      menu_shown = false;
      place1 = html m.box m.place1;
      place2_shown = false;
    }
    else record m {
      menu_shown = true;
      place1 = [];
      place2 = html m.box m.place2;
      place2_shown = true;
    }

unfoldable pub reset_state : ℕ → Menu → Menu
unfolding lay_out
reset_state new_width m =
    if new_width == m.prev_width
    then m
    else record (lay_out new_width m) { panel = close_panel m.panel; prev_width = new_width }

-- The page before the first layout.
unfoldable pub new_menu : Text → Option Text → Children → Option Panel → Menu
unfolding make_tree
new_menu rel_path box menudata panel = record {
  tree = make_tree rel_path menudata;
  box = box;
  checked = false;
  menu_shown = true;
  place1 = [];
  place2 = [];
  place2_shown = true;
  prev_width = 0;
  panel = panel;
}

unfoldable pub init_menu : Text → Bool → Bool → Text → Text → Children → Option Panel → ℕ → Menu
unfolding new_menu reset_state
init_menu rel_path search_enabled server_side search_page search menudata panel width =
    let box = search_box_html rel_path search_enabled server_side search_page search in
    reset_state width (new_menu rel_path box menudata panel)
