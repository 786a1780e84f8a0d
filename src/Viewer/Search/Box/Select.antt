-- ===== src/Viewer/Search/Box/Select.antt =====
-- SearchBox: the filters of the menu, the keys on it, and init_search.
use p2p_file_share.Base.{
  ℕ, ◌+◌, ◌-◌, ◌==◌, false, not, ◌&&◌, ◌||◌, Option, none, some, List, [], ◌∷◌, ◌++◌, if◌then◌else◌,
  Text, text_eq, is_empty, ltb, get_elem?, length,
}
use p2p_file_share.Viewer.Cookie.{session, write_setting, read_setting}
use p2p_file_share.Viewer.Search.{
  Panel, SelectItem, field, select_window, Task, search, close_selection,
}
use p2p_file_share.Viewer.Search.Box.{
  Section, Site, cookie_name, without_timer, remove_spaces, close_selection_window,
  on_search_select_show,
}
use p2p_file_share.Viewer.Search.Box.Run.{run_search}

-- SelectItemCount, GetSelectionIdByName and SelectItemSet
unfoldable pub select_item_count : Panel → ℕ
select_item_count p = length p.select_items

unfoldable pub find_name : ℕ → Text → List SelectItem → ℕ
find_name j name [] = 0
find_name j name (i ∷ items) =
    let rest = find_name (j + 1) name items in if text_eq i.name name then j else rest

unfoldable pub mark_items : ℕ → ℕ → List SelectItem → List SelectItem
mark_items j id [] = []
mark_items j id (i ∷ items) = record i { marked = j == id } ∷ mark_items (j + 1) id items

unfoldable pub select_item_set : ℕ → Panel → Panel
unfolding mark_items
select_item_set id p =
    let marked = record p { select_items = mark_items 0 id p.select_items } in
    elim (get_elem? p.select_items id) [
      | none ↦ marked
      | some i ↦ record marked { storage = write_setting cookie_name i.name session p.storage }
    ]

unfoldable pub on_select_item : Site → ℕ → Panel → Option Panel
unfolding select_item_set remove_spaces
on_select_item site id panel =
    let p = select_item_set id (record panel { search_index = id }) in
    if not (is_empty (remove_spaces p.field_value)) && p.search_active
    then run_search site p
    else some p

unfoldable pub on_search_select_key : Site → ℕ → Panel → Option Panel
unfolding on_select_item select_item_count close_selection_window
on_search_select_key site key_code p =
    if (key_code == 40) && ltb p.search_index (select_item_count p)
    then on_select_item site (p.search_index + 1) p
    else if (key_code == 38) && ltb 0 p.search_index
    then on_select_item site (p.search_index - 1) p
    else if (key_code == 13) || (key_code == 27)
    then elim (on_select_item site p.search_index p) [
      | none ↦ none
      | some q ↦ some (record (close_selection_window q) { focus = field })
    ]
    else some p

-- A timer that has run out.
unfoldable pub fire : Site → ℕ → Task → Panel → Option Panel
unfolding without_timer run_search close_selection_window
fire site id search p = run_search site (record p { timers = without_timer id p.timers })
fire site id close_selection p =
    some (close_selection_window (record p { timers = without_timer id p.timers }))

-- init_search: the menu has a line for each section, and the filter of the last visit is set.
unfoldable pub filter_lines : List Section → List SelectItem
filter_lines [] = []
filter_lines (s ∷ ss) = record { name = s.label; marked = false } ∷ filter_lines ss

unfoldable pub init_search : Site → Panel → Option Panel
unfolding filter_lines find_name on_select_item
init_search site panel =
    let p = record panel { select_items = panel.select_items ++ filter_lines site.sections } in
    let id : ℕ = elim (read_setting cookie_name p.storage) [
      | none ↦ 0
      | some name ↦ find_name 0 name p.select_items
    ] in
    on_select_item site id p

-- A key on the button that opens the menu.
unfoldable pub select_button_key : ℕ → Panel → Panel
unfolding close_selection_window on_search_select_show
select_button_key key_code p =
    if (key_code == 13) || (key_code == 40)
    then if p.select_shown
      then close_selection_window p
      else record (on_search_select_show p) { focus = select_window }
    else p
