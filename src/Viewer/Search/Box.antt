-- ===== src/Viewer/Search/Box.antt =====
-- SearchBox: the field, its timers and the menu of filters.
pub mod Run
pub mod Select
pub mod Timers
pub mod Searches
pub mod Choices
pub mod Typing
pub mod Filters
use p2p_file_share.Base.{
  ℕ, zero, suc, ◌+◌, ◌-◌, ◌/◌, ◌%◌, ◌==◌, Bool, true, false, not, ◌&&◌, ◌||◌, Option, none, some,
  List, [], ◌∷◌, ◌++◌, ◌⊕◌, if◌then◌else◌, Text, lit, text_eq, is_empty, leb, ltb, take, get_elem?,
  length,
}
use p2p_file_share.Client.Hash.{hex_digit}
use p2p_file_share.Viewer.Strings.{index_of}
use p2p_file_share.Viewer.Cookie.{session, write_setting, read_setting}
use p2p_file_share.Viewer.Search.{
  Panel, SelectItem, Focus, nothing, item, field, select_item, select_window, Task, search,
  close_selection, Datum,
}
use p2p_file_share.Viewer.Search.Ids.{strip_leading}
use p2p_file_share.Viewer.Search.Rows.{Browser, results_search, nav_next}
use p2p_file_share.Viewer.Search.Create.{create_results}

-- An entry of indexSectionsWithContent, indexSectionNames and indexSectionLabels.
pub record Section : Type 0 where
  pub content : Text
  pub name : Text
  pub label : Text

-- The tables of search/searchdata.js, the path to the results, what `searchData` is once a script is
-- loaded, and the comparison of a text with the number 1.
pub record Site : Type 0 where
  pub browser : Browser
  pub sections : List Section
  pub results_path : Text
  pub load : Text → Option (List Datum)
  pub exceeds_one : Text → Bool

abbrev pub cookie_name : Text
cookie_name = lit "search_grp"

-- getXPos and getYPos: the offsets of an element and of what it stands in, up to the body.
unfoldable pub sum_offsets : List ℕ → ℕ
sum_offsets [] = 0
sum_offsets (o ∷ os) = o + sum_offsets os

unfoldable pub get_pos : ℕ → List ℕ → ℕ
unfolding sum_offsets
get_pos offset_width offsets = if offset_width == 0 then 0 else sum_offsets offsets

-- setTimeout, whose ids are above 0, and clearTimeout
unfoldable pub without_timer : ℕ → List (ℕ × Task) → List (ℕ × Task)
without_timer id [] = []
without_timer id ((i, t) ∷ ts) =
    let rest = without_timer id ts in if i == id then rest else (i, t) ∷ rest

-- replace(/ +/g, "")
unfoldable pub remove_spaces : Text → Text
remove_spaces [] = []
remove_spaces (c ∷ s) = let rest = remove_spaces s in if c == b' ' then rest else c ∷ rest

unfoldable pub close_selection_window : Panel → Panel
close_selection_window p = record p { select_shown = false }

unfoldable pub activate : Bool → Panel → Panel
activate is_active p =
    if is_active || p.results_shown
    then record p { box_active = true; search_active = true }
    else record p {
      box_active = false;
      search_active = false;
      last_search_value = [];
      last_results_page = [];
      field_value = [];
    }

unfoldable pub close_results_window : Panel → Panel
unfolding activate
close_results_window p = activate false (record p { results_shown = false; close_shown = false })

unfoldable pub on_search_field_focus : Bool → Panel → Panel
unfolding activate
on_search_field_focus is_active p = activate is_active p

unfoldable pub on_search_select_show : Panel → Panel
unfolding without_timer
on_search_select_show p =
    if p.hide_timeout == 0 then record p { select_shown = true } else record p {
      select_shown = true;
      timers = without_timer p.hide_timeout p.timers;
      hide_timeout = 0;
    }

unfoldable pub on_search_select_hide : Panel → Panel
on_search_select_hide p = record p {
  hide_timeout = p.next_timer;
  timers = (p.next_timer, close_selection) ∷ p.timers;
  next_timer = p.next_timer + 1;
}

-- A key in the search field.
pub record Key : Type 0 where
  pub key_code : ℕ
  pub shift : Bool

-- The running timer is killed.
unfoldable pub kill_key_timer : Panel → Panel
unfolding without_timer
kill_key_timer p =
    if p.key_timeout == 0
    then p
    else record p { timers = without_timer p.key_timeout p.timers; key_timeout = 0 }

unfoldable pub leave_field : Panel → Panel
unfolding activate
leave_field p = activate false (record p {
  focus = nothing;
  results_shown = false;
  close_shown = false;
  last_search_value = [];
})

-- The end of OnSearchFieldChange: a new text starts the timer.
unfoldable pub value_changed : Panel → Panel
unfolding remove_spaces
value_changed p =
    let value = remove_spaces p.field_value in
    if text_eq value p.last_search_value
    then p
    else if is_empty value
    then record p { results_shown = false; close_shown = false; last_search_value = [] }
    else record p {
      key_timeout = p.next_timer;
      timers = (p.next_timer, search) ∷ p.timers;
      next_timer = p.next_timer + 1;
    }

abbrev pub focus_item : Option ℕ → Panel → Panel
focus_item none p = p
focus_item (some i) p = record p { focus = item i }

abbrev pub focus_first_filter : Panel → Panel
focus_first_filter p = if is_empty p.select_items then p else record p { focus = select_item 0 }

unfoldable pub on_search_field_change : Key → Panel → Panel
unfolding kill_key_timer on_search_select_show leave_field value_changed
on_search_field_change e panel =
    let p = kill_key_timer panel in
    if (e.key_code == 40) || (e.key_code == 13)
    then if e.shift
      then focus_first_filter (on_search_select_show p)
      else value_changed (focus_item (nav_next 0 p.rows) p)
    else if e.key_code == 27
    then leave_field p
    else value_changed p
