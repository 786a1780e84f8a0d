-- ===== src/Viewer/Search/Rows.antt =====
-- SearchResults: FindChildElement, Toggle, Search, NavNext and NavPrev.
pub mod Order
pub mod Matches
use p2p_file_share.Base.{
  ℕ, zero, suc, ◌+◌, ◌==◌, Bool, true, false, not, ◌&&◌, Option, none, some, List, [], ◌∷◌,
  if◌then◌else◌, Text, lit, text_eq, is_empty, drop, get_elem?, find_if, map, length,
}
use p2p_file_share.Viewer.Search.{Link, Entry, single, multiple, Row, Panel}
use p2p_file_share.Viewer.Search.Ids.{search_key, row_matches}

-- What the scripts call that is not theirs: toLowerCase, unescape, and the query of the page's address.
pub record Browser : Type 0 where
  pub lower : Text → Text
  pub unescape : Text → Text
  pub query : Text

-- An element by its name and class, and what stands in it.
mutual
  pub data Node : Type 0 where
    element : Text → Text → Nodes → Node

  pub data Nodes : Type 0 where
    nil : Nodes
    cons : Node → Nodes → Nodes

abbrev has_child_nodes : Nodes → Bool
has_child_nodes nil = false
has_child_nodes _ = true

abbrev first_of {ℓ} : {A : Type ℓ} → Option A → Option A → Option A
first_of (some a) second = some a
first_of none second = second

-- The walk of FindChildElement below an element: down into each div, then on to the next sibling, and
-- back up where there is none.
unfoldable pub find_below : Nodes → Option Nodes
find_below nil = none
find_below (cons (element name class kids) rest) =
    let below = find_below kids in
    let later = find_below rest in
    if text_eq name (lit "div") && text_eq class (lit "SRChildren")
    then some kids
    else if text_eq name (lit "div") && has_child_nodes kids
    then first_of below later
    else later

-- FindChildElement on a row that createResults made: the links of its list, if it has one.
abbrev pub children_of : Row → Option (List Link)
children_of row = elim row.entry [
  | single link scope ↦ none
  | multiple link opened links ↦ some links
]

abbrev pub is_open : Row → Bool
is_open row = elim row.entry [ single link scope ↦ false | multiple link opened links ↦ opened ]

abbrev set_open : Bool → Row → Row
set_open shown row = elim row.entry [
  | single link scope ↦ row
  | multiple link opened links ↦ record row { entry = multiple link shown links }
]

-- A change of the first row with an id.
unfoldable pub change_row : (Row → Row) → Text → List Row → List Row
change_row f id [] = []
change_row f id (row ∷ rows) =
    let rest = change_row f id rows in if text_eq row.id id then f row ∷ rows else row ∷ rest

unfoldable pub open_row : Bool → Text → List Row → List Row
unfolding change_row
open_row shown id rows = change_row (set_open shown) id rows

unfoldable pub toggle : Text → List Row → List Row
unfolding change_row
toggle id rows = change_row (λ row. set_open (not (is_open row)) row) id rows

unfoldable pub search_row : Browser → Text → Row → Row
unfolding row_matches
search_row browser key row = record row { shown = row_matches browser.lower key row.id }

-- The loop over the rows, and its count of matches.
unfoldable pub search_rows : Browser → Text → List Row → List Row × ℕ
unfolding search_row
search_rows browser key [] = ([], 0)
search_rows browser key (row ∷ rows) =
    let (rest, matches) = search_rows browser key rows in
    (
      search_row browser key row ∷ rest,
      if row_matches browser.lower key row.id then matches + 1 else matches,
    )

unfoldable pub search_text : Browser → Text → Text
search_text browser search =
    if is_empty search then browser.unescape (drop 1 browser.query) else search

unfoldable pub results_search : Browser → Text → Panel → Panel
unfolding search_rows search_text search_key
results_search browser search panel =
    let key = search_key browser.lower (search_text browser search) in
    let (rows, matches) = search_rows browser key panel.rows in
    record panel {
      rows = rows;
      searching_shown = false;
      no_matches_shown = matches == 0;
      last_match_count = matches;
    }

-- The element 'Item' + index is the link of the row of that index; each round takes one, so the number
-- of rows and one is fuel enough.
unfoldable pub nav_next_from : ℕ → ℕ → List Row → Option ℕ
nav_next_from zero index rows = none
nav_next_from (suc fuel) index rows =
    let next = nav_next_from fuel (index + 1) rows in
    elim (get_elem? rows index) [ none ↦ none | some row ↦ if row.shown then some index else next ]

unfoldable pub nav_next : ℕ → List Row → Option ℕ
unfolding nav_next_from
nav_next index rows = nav_next_from (suc (length rows)) index rows

-- Below index 0 there is no element, and the search stops at one that is missing. The argument is the
-- index and one.
unfoldable pub nav_prev : ℕ → List Row → Option ℕ
nav_prev zero rows = none
nav_prev (suc index) rows =
    let next = nav_prev index rows in
    elim (get_elem? rows index) [ none ↦ none | some row ↦ if row.shown then some index else next ]
