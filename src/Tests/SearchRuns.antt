-- ===== src/Tests/SearchRuns.antt =====
-- Runs of the search panel of the documentation.
use p2p_file_share.Base.{
  ℕ, ◌+◌, ◌≤◌, ◌≡◌, refl, [], ◌∷◌, List, lit, arith, true, false, none, some, if◌then◌else◌,
  text_eq, lookup, insert, erase, get_elem?, take, drop, find_if, map, leb, ◌&&◌,
}
use p2p_file_share.Client.Hash.{hex_digit}
use p2p_file_share.Stream.{to_string}
use p2p_file_share.Viewer.Strings.{starts_with, index_of, substring}
use p2p_file_share.Viewer.Cookie.{
  Storage, print_jar, assign_cookie, find_cookie, read_setting, write_chrome, write_setting,
  erase_setting, or_else, key_of, truthy,
}
use p2p_file_share.Viewer.Cookie.Settings.{read-erase_chrome}
use p2p_file_share.Viewer.Search.{Link, single, multiple, Row, nothing, Datum, Panel}
use p2p_file_share.Viewer.Search.Ids.{
  convert_unit, convert_to_id, strip_leading, strip_trailing, strip_digits, strip_sr, search_key,
  row_matches,
}
use p2p_file_share.Viewer.Search.Ids.Prefix.{starts_with-convert_to_id}
use p2p_file_share.Viewer.Search.Rows.{
  Browser, search_row, search_rows, search_text, results_search, nav_next_from, nav_next, nav_prev,
}
use p2p_file_share.Viewer.Search.Rows.Order.{is_shown, IsNext, nav_next-IsNext}
use p2p_file_share.Viewer.Search.Rows.Matches.{count_shown, is_none, results_search_lem}
use p2p_file_share.Viewer.Search.Create.{
  single_link, toggle_link, child_links, create_entry, create_rows, create_results,
}
use p2p_file_share.Viewer.Search.Box.{
  Section, Site, without_timer, remove_spaces, activate, kill_key_timer, value_changed,
  on_search_field_change, Key, close_selection_window,
}
use p2p_file_share.Viewer.Search.Box.Run.{
  handle_results, load_results, run_search, index_char, js_file, to_hex,
}
use p2p_file_share.Viewer.Search.Box.Select.{
  find_name, mark_items, select_item_set, fire, select_item_count, on_select_item,
  on_search_select_key,
}
use p2p_file_share.Viewer.Search.Box.Timers.{waiting, IsDebounced}
use p2p_file_share.Viewer.Search.Box.Typing.{Step, Reaches, Reaches-IsDebounced}
use p2p_file_share.Viewer.Search.Box.Typing
use p2p_file_share.Viewer.Search.Keys.{open_links, links_at}
use p2p_file_share.Viewer.Search.Place.{Fits, place_results, place_results-Fits}

-- The code that the runs go through.
search_code : Unit {0}
unfolding hex_digit to_string starts_with index_of substring print_jar assign_cookie find_cookie
    read_setting write_chrome write_setting erase_setting convert_unit convert_to_id strip_leading
    strip_trailing strip_digits strip_sr search_key row_matches search_row search_rows search_text
    results_search nav_next_from nav_next nav_prev single_link toggle_link child_links create_entry
    create_rows create_results without_timer remove_spaces activate kill_key_timer value_changed
    on_search_field_change find_name mark_items select_item_set fire handle_results load_results
    run_search index_char js_file to_hex open_links links_at text_eq lookup insert erase take drop
    find_if on_search_select_key on_select_item close_selection_window select_item_count
search_code = tt

abbrev storage : Storage
storage = record { chrome = true; local_storage = []; session_storage = []; jar = [] }

abbrev lower_unit : ℕ → ℕ
lower_unit c = if leb b'A' c && leb c b'Z' then c + 32 else c

abbrev browser : Browser
browser = record { lower = map lower_unit; unescape = λ s. s; query = lit "?ab" }

abbrev found : List Datum
found =
    record {
      id = lit "ab_0";
      name = lit "ab";
      targets = record { url = lit "a.html"; in_parent = true; scope = lit "A" } ∷ [];
    }
    ∷ record {
      id = lit "abc_1";
      name = lit "abc";
      targets =
          record { url = lit "b.html"; in_parent = true; scope = lit "B" }
          ∷ record { url = lit "c.html"; in_parent = true; scope = lit "C" }
          ∷ [];
    }
    ∷ record {
      id = lit "abd_2";
      name = lit "abd";
      targets = record { url = lit "d.html"; in_parent = true; scope = lit "D" } ∷ [];
    }
    ∷ []

abbrev section : Section
section = record { content = lit "abc"; name = lit "all"; label = lit "All" }

abbrev site : Site
site = record {
  browser = browser;
  sections = section ∷ [];
  results_path = lit "search/";
  load = λ script. some found;
  exceeds_one = λ s. false;
}

abbrev panel : Panel
panel = record {
  key_timeout = 0;
  hide_timeout = 0;
  last_search_value = [];
  last_results_page = [];
  search_index = 0;
  search_active = true;
  last_match_count = 0;
  last_key = 0;
  repeat_on = false;
  field_value = lit "abc";
  box_active = true;
  select_shown = false;
  results_shown = false;
  close_shown = false;
  loading_shown = true;
  searching_shown = true;
  no_matches_shown = false;
  select_items = record { name = lit "All"; marked = true } ∷ [];
  rows = create_results (lit "search/") found;
  search_data = none;
  focus = nothing;
  timers = [];
  next_timer = 1;
  storage = storage;
}

-- A panel with a hidden row between an open one and the last.
abbrev link : Link
link = record { id = lit "x"; key_action = []; href = []; target = []; html = [] }

abbrev folded_panel : Panel
folded_panel = record panel {
  rows =
      record { id = lit "SR_a"; shown = true; entry = multiple link true (link ∷ []) }
      ∷ record { id = lit "SR_b"; shown = false; entry = multiple link false (link ∷ link ∷ []) }
      ∷ record { id = lit "SR_c"; shown = true; entry = single link [] }
      ∷ [];
}

abbrev both : Storage
both = record storage {
  local_storage = (lit "doxygen_width", lit "300") ∷ [];
  session_storage = (lit "doxygen_width", lit "200") ∷ [];
}

read-erase_chrome_example :
    read_setting (lit "width") (erase_setting (lit "Thu") (lit "width") both) ≡ (
      if text_eq (lit "width") (lit "width")
      then (if truthy (lookup text_eq (key_of (lit "width")) both.local_storage)
          then or_else none (lookup text_eq (key_of (lit "width")) both.session_storage)
          else none)
      else read_setting (lit "width") both)
read-erase_chrome_example = read-erase_chrome (lit "Thu") (lit "width") (lit "width") both refl

-- The erased setting still has a value.
erase_uncovers :
    read_setting (lit "width") (erase_setting (lit "Thu") (lit "width") both) ≡ some (lit "200")
unfolding search_code
erase_uncovers = refl

starts_with-convert_to_id_example :
    starts_with (convert_to_id (lit "a B")) (convert_to_id (lit "a Bc"))
    ≡ starts_with (lit "a B") (lit "a Bc")
starts_with-convert_to_id_example = starts_with-convert_to_id (lit "a B") (lit "a Bc")

results_search_lem_example :
    ((i : ℕ) (row : Row)
      → get_elem? panel.rows i ≡ some row
      → is_shown (get_elem? (results_search browser (lit "abc") panel).rows i)
        ≡ row_matches browser.lower
            (search_key browser.lower (search_text browser (lit "abc")))
            row.id)
    × ((results_search browser (lit "abc") panel).last_match_count
        ≡ count_shown (results_search browser (lit "abc") panel).rows)
    × ((results_search browser (lit "abc") panel).no_matches_shown
        ≡ is_none (nav_next 0 (results_search browser (lit "abc") panel).rows))
results_search_lem_example = results_search_lem browser (lit "abc") panel

nav_next-IsNext_example : IsNext 1 folded_panel.rows (nav_next 1 folded_panel.rows)
nav_next-IsNext_example = nav_next-IsNext 1 folded_panel.rows

panel-IsDebounced : IsDebounced panel
panel-IsDebounced = record {
  once = omega arith;
  keyed = refl;
  given = refl;
  positive = omega arith;
}

abbrev key_a : Key
key_a = record { key_code = 65; shift = false }

Reaches-IsDebounced_example : IsDebounced (
    on_search_field_change key_a
      (record (on_search_field_change key_a panel) { field_value = lit "abcd" }))
Reaches-IsDebounced_example =
    Reaches-IsDebounced site
      (Typing.next
        (Typing.next (Typing.next Typing.here (Typing.key key_a panel))
          (Typing.type (lit "abcd") (on_search_field_change key_a panel)))
        (Typing.key key_a
          (record (on_search_field_change key_a panel) { field_value = lit "abcd" })))
      panel-IsDebounced

place_results-Fits_example :
    (10 ≤ (place_results 500 40 300 800 600).left)
    × Fits 300 (place_results 500 40 300 800 600).left 800 (place_results 500 40 300 800 600).width
    × Fits 400 60 600 (place_results 500 40 300 800 600).height
place_results-Fits_example = place_results-Fits 500 40 300 800 600

-- Enter on a filter while a search waits, then another key: two searches wait.
enter_on_filter :
    ◌≡◌ {A = ℕ}
      (elim (on_search_select_key site 13 (on_search_field_change key_a panel)) [
        | none ↦ 0
        | some p ↦
            waiting (on_search_field_change key_a (record p { field_value = lit "abcde" })).timers
      ])
      2
unfolding search_code
enter_on_filter = refl
