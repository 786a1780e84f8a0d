-- ===== src/Viewer/Search/Create.antt =====
-- createResults: the rows of a page from `searchData`.
pub mod Items
use p2p_file_share.Base.{ℕ, ◌+◌, Bool, true, false, List, [], ◌∷◌, ◌⊕◌, if◌then◌else◌, Text, lit}
use p2p_file_share.Stream.{to_string as number_to_string}
use p2p_file_share.Viewer.Search.{Link, Entry, single, multiple, Row, Target, Datum}

abbrev pub item_id : ℕ → Text
item_id index = lit "Item" ⊕ number_to_string index

abbrev child_id : ℕ → ℕ → Text
child_id index c = item_id index ⊕ lit "_c" ⊕ number_to_string c

abbrev target_name : Bool → Text
target_name true = lit "_parent"
target_name false = lit "_blank"

-- The link of a result with one target, and that of one with several.
unfoldable pub single_link : Text → ℕ → Text → Target → Link
single_link results_path index name t = record {
  id = item_id index;
  key_action = lit "return searchResults.Nav(event," ⊕ number_to_string index ⊕ lit ")";
  href = results_path ⊕ t.url;
  target = target_name t.in_parent;
  html = name;
}

unfoldable pub toggle_link : ℕ → Text → Text → Link
toggle_link index id name = record {
  id = item_id index;
  key_action = lit "return searchResults.Nav(event," ⊕ number_to_string index ⊕ lit ")";
  href = lit "javascript:searchResults.Toggle(\"SR_" ⊕ id ⊕ lit "\")";
  target = [];
  html = name;
}

-- The loop over the targets, from the child `c` on.
unfoldable pub child_links : Text → ℕ → ℕ → List Target → List Link
child_links results_path index c [] = []
child_links results_path index c (t ∷ ts) =
    record {
      id = child_id index c;
      key_action =
          lit "return searchResults.NavChild(event,"
          ⊕ number_to_string index
          ⊕ lit ","
          ⊕ number_to_string c
          ⊕ lit ")";
      href = results_path ⊕ t.url;
      target = target_name t.in_parent;
      html = t.scope;
    }
    ∷ child_links results_path index (c + 1) ts

unfoldable pub create_entry : Text → ℕ → Datum → Entry
unfolding single_link toggle_link child_links
create_entry results_path index d = elim d.targets [
  | t ∷ [] ↦ single (single_link results_path index d.name t) t.scope
  | ts ↦ multiple (toggle_link index d.id d.name) false (child_links results_path index 0 ts)
]

-- The loop over `searchData`, from the index on.
unfoldable pub create_rows : Text → ℕ → List Datum → List Row
unfolding create_entry
create_rows results_path index [] = []
create_rows results_path index (d ∷ ds) =
    record { id = lit "SR_" ⊕ d.id; shown = false; entry = create_entry results_path index d }
    ∷ create_rows results_path (index + 1) ds

unfoldable pub create_results : Text → List Datum → List Row
unfolding create_rows
create_results results_path search_data = create_rows results_path 0 search_data
