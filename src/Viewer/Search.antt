-- ===== src/Viewer/Search.antt =====
-- docs/search/search.js: what the search panel of a page keeps. The elements of the page are the fields
-- of a Panel; a display is true where the element's style shows it.
pub mod Ids
pub mod Rows
pub mod Create
pub mod Box
pub mod Keys
pub mod Place
use p2p_file_share.Base.{ℕ, Bool, true, false, Option, none, some, List, [], ◌∷◌, Text}
use p2p_file_share.Viewer.Cookie.{Storage}

-- A link of the results, an `a` element.
pub record Link : Type 0 where
  pub id : Text
  pub key_action : Text
  pub href : Text
  pub target : Text
  pub html : Text

-- What stands in a result: a link with the scope of its only target, or a link with a list of links,
-- the `SRChildren`, which is shown or not.
pub data Entry : Type 0 where
  single : Link → Text → Entry
  multiple : Link → Bool → List Link → Entry

-- A result, a `div` of the class SRResult.
pub record Row : Type 0 where
  pub id : Text
  pub shown : Bool
  pub entry : Entry

-- A line of the menu of filters.
pub record SelectItem : Type 0 where
  pub name : Text
  pub marked : Bool

-- An entry of `searchData`: the id and the name of a symbol, and where it is declared.
pub record Target : Type 0 where
  pub url : Text
  pub in_parent : Bool
  pub scope : Text

pub record Datum : Type 0 where
  pub id : Text
  pub name : Text
  pub targets : List Target

-- What has the focus: a result's link, one of its children, the field or the menu of filters.
pub data Focus : Type 0 where
  nothing : Focus
  item : ℕ → Focus
  child : ℕ → ℕ → Focus
  field : Focus
  select_item : ℕ → Focus
  select_window : Focus

-- The calls that wait for a timer.
pub data Task : Type 0 where
  search : Task
  close_selection : Task

pub record Panel : Type 0 where
  -- SearchBox
  pub key_timeout : ℕ
  pub hide_timeout : ℕ
  pub last_search_value : Text
  pub last_results_page : Text
  pub search_index : ℕ
  pub search_active : Bool
  -- SearchResults
  pub last_match_count : ℕ
  pub last_key : ℕ
  pub repeat_on : Bool
  -- the page
  pub field_value : Text
  pub box_active : Bool
  pub select_shown : Bool
  pub results_shown : Bool
  pub close_shown : Bool
  pub loading_shown : Bool
  pub searching_shown : Bool
  pub no_matches_shown : Bool
  pub select_items : List SelectItem
  pub rows : List Row
  pub search_data : Option (List Datum)
  -- the browser
  pub focus : Focus
  pub timers : List (ℕ × Task)
  pub next_timer : ℕ
  pub storage : Storage
