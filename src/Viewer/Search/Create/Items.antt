-- ===== src/Viewer/Search/Create/Items.antt =====
-- The elements that the arrow keys look up by their ids.
use p2p_file_share.Base.{
  ℕ, zero, suc, ◌+◌, ◌≡◌, refl, ap, sym, ◌∙◌, Bool, false, none, some, some-eq, List, [], ◌∷◌,
  arith, Text, get_elem?, lit, ◌⊕◌, text_eq,
}
use p2p_file_share.Viewer.Search.{Link, Entry, single, multiple, Row, Target, Datum}
use p2p_file_share.Viewer.Search.Rows.{Nodes, element, nil, cons, find_below, children_of}
use p2p_file_share.Viewer.Search.Create.{
  create_rows, create_results, create_entry, item_id, single_link, toggle_link,
}

abbrev pub link_of : Row → Link
link_of row = elim row.entry [ single link scope ↦ link | multiple link opened links ↦ link ]

create_entry-id :
    (path : Text) (index : ℕ) (d : Datum) (id : Text) (shown : Bool)
    → (link_of (record { id = id; shown = shown; entry = create_entry path index d })).id
      ≡ item_id index
unfolding create_entry single_link toggle_link
create_entry-id path index d id shown = by_targets d.targets
  where
    by_targets :
        (ts : List Target)
        → (link_of (record {
          id = id;
          shown = shown;
          entry = create_entry path index (record d { targets = ts });
        })).id
          ≡ item_id index
    by_targets [] = refl
    by_targets (t ∷ []) = refl
    by_targets (t ∷ u ∷ ts) = refl

create_rows-item :
    (path : Text) (from i : ℕ) (ds : List Datum) (row : Row)
    → get_elem? (create_rows path from ds) i ≡ some row
    → ((link_of row).id ≡ item_id (from + i)) × (row.shown ≡ false)
unfolding create_rows
create_rows-item path from i [] row h = cc
create_rows-item path from zero (d ∷ ds) row h =
    let same = some-eq h in
    let here : from ≡ from + 0 = omega arith in
    (
      ap (λ r. (link_of r).id) (sym same)
          ∙ create_entry-id path from d (lit "SR_" ⊕ d.id) false
          ∙ ap item_id here,
      ap (λ (r : Row). r.shown) (sym same),
    )
create_rows-item path from (suc i) (d ∷ ds) row h =
    let later = create_rows-item path (from + 1) i ds row h in
    let same : from + 1 + i ≡ from + suc i = omega arith in (later.0 ∙ ap item_id same, later.1)

-- The link of the row of an index has the id "Item" with that index, which the arrow keys look up, and
-- no row is shown yet.
pub create_results-item :
    (path : Text) (i : ℕ) (ds : List Datum) (row : Row)
    → get_elem? (create_results path ds) i ≡ some row
    → ((link_of row).id ≡ item_id i) × (row.shown ≡ false)
unfolding create_results
create_results-item path i ds row h =
    let (named, hidden) = create_rows-item path 0 i ds row h in
    let same : 0 + i ≡ i = omega arith in (named ∙ ap item_id same, hidden)

-- The elements below the `div` of a row: SREntry with the link, and the scope or SRChildren.
abbrev pub link_nodes : List Link → Nodes
link_nodes [] = nil
link_nodes (l ∷ ls) = cons (element (lit "a") (lit "SRScope") nil) (link_nodes ls)

abbrev entry_nodes : Entry → Nodes
entry_nodes (single link scope) =
    cons (element (lit "a") (lit "SRSymbol") nil)
      (cons (element (lit "span") (lit "SRScope") nil) nil)
entry_nodes (multiple link opened links) =
    cons (element (lit "a") (lit "SRSymbol") nil)
      (cons (element (lit "div") (lit "SRChildren") (link_nodes links)) nil)

abbrev pub row_nodes : Row → Nodes
row_nodes row = cons (element (lit "div") (lit "SREntry") (entry_nodes row.entry)) nil

-- The walk of FindChildElement over the elements of a row finds the list of its links, if it has one.
pub find_below-children_of :
    (row : Row)
    → find_below (row_nodes row)
      ≡ elim (children_of row) [ none ↦ none | some links ↦ some (link_nodes links) ]
unfolding find_below text_eq
find_below-children_of row = by_entry row.entry
  where
    by_entry :
        (e : Entry)
        → find_below (row_nodes (record row { entry = e }))
          ≡ elim (children_of (record row { entry = e })) [
            | none ↦ none
            | some links ↦ some (link_nodes links)
          ]
    by_entry (single link scope) = refl
    by_entry (multiple link opened links) = refl
