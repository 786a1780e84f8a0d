-- ===== src/Viewer/Search/Box/Run.antt =====
-- SearchBox.Search: the script of the results, and what it does when it has been loaded.
use p2p_file_share.Base.{
  ℕ, zero, suc, ◌/◌, ◌%◌, Bool, true, false, ◌&&◌, Option, none, some, [], ◌∷◌, ◌++◌, ◌⊕◌,
  if◌then◌else◌, Text, lit, leb, ltb, take, get_elem?,
}
use p2p_file_share.Client.Hash.{hex_digit}
use p2p_file_share.Viewer.Strings.{index_of}
use p2p_file_share.Viewer.Search.{Panel}
use p2p_file_share.Viewer.Search.Ids.{strip_leading}
use p2p_file_share.Viewer.Search.Rows.{results_search}
use p2p_file_share.Viewer.Search.Create.{create_results}
use p2p_file_share.Viewer.Search.Box.{Section, Site}

-- Search. The sign of the index in the file's name.
unfoldable pub to_hex : ℕ → ℕ → Text
unfolding hex_digit
to_hex zero n = []
to_hex (suc fuel) n =
    let high = to_hex fuel (n / 16) in
    if ltb n 16 then hex_digit n ∷ [] else high ++ hex_digit (n % 16) ∷ []

abbrev first_unit : Text → ℕ
first_unit [] = 0
first_unit (c ∷ s) = c

-- The text whose place in a section's content names the file.
unfoldable pub index_char : Site → Text → Text
index_char site value =
    let code = first_unit (site.browser.lower value) in
    if leb 0xD800 code && leb code 0xDBFF && site.exceeds_one value
    then take 2 value
    else site.browser.lower (take 1 value)

unfoldable pub js_file : Site → Section → ℕ → Text
unfolding to_hex
js_file site section idx =
    site.results_path ⊕ section.name ⊕ lit "_" ⊕ to_hex (suc idx) idx ⊕ lit ".js"

abbrev is_found : Option ℕ → Bool
is_found none = false
is_found (some i) = true

-- handleResults
unfoldable pub handle_results : Site → Text → Option ℕ → Panel → Panel
handle_results site value idx panel =
    let loaded = record panel { loading_shown = false } in
    let p : Panel = elim panel.search_data [
      | none ↦ loaded
      | some data_of ↦ record loaded {
        rows = create_results site.results_path data_of;
        no_matches_shown = false;
      }
    ] in
    let q = results_search site.browser (if is_found idx then value else lit "====") p in
    if q.results_shown then q else record q { close_shown = true; results_shown = true }

-- A script that is loaded for its results replaces `searchData`; a file that is not there leaves the
-- page waiting.
unfoldable pub load_results : Site → Text → Section → ℕ → Panel → Panel
unfolding handle_results js_file
load_results site value section idx p = elim (site.load (js_file site section idx)) [
  | none ↦ p
  | some data_of ↦ handle_results site value (some idx) (record p { search_data = some data_of })
]

-- A filter that has no section is a TypeError, `none`.
unfoldable pub run_search : Site → Panel → Option Panel
unfolding load_results index_char index_of
run_search site panel =
    let p = record panel { key_timeout = 0 } in
    let value = strip_leading p.field_value in
    elim (get_elem? site.sections p.search_index) [
      | none ↦ none
      | some section ↦ elim (index_of (index_char site value) section.content) [
        | none ↦ some (record (handle_results site value none p) { last_search_value = value })
        | some idx ↦
            some (record (load_results site value section idx p) { last_search_value = value })
      ]
    ]
