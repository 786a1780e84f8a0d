-- ===== src/Viewer/Search/Keys.antt =====
-- SearchResults: ProcessKeys, Nav and NavChild.
pub mod Arrows
use p2p_file_share.Base.{
  ℕ, zero, suc, ◌+◌, ◌-◌, ◌==◌, Bool, true, false, not, ◌&&◌, Option, none, some, List, [], ◌∷◌,
  if◌then◌else◌, Text, text_eq, find_if, get_elem?, ltb,
}
use p2p_file_share.Viewer.Search.{Link, Row, Panel, Focus, item, child, field}
use p2p_file_share.Viewer.Search.Rows.{nav_next, nav_prev, children_of, is_open, open_row}
use p2p_file_share.Viewer.Search.Box.{close_results_window}

pub data EventType : Type 0 where
  keydown : EventType
  keypress : EventType
  keyup : EventType

pub record Event : Type 0 where
  pub event_type : EventType
  pub key_code : ℕ

unfoldable pub process_keys : Event → Panel → Panel × Bool
process_keys e p = elim e.event_type [
  | keydown ↦ (record p { repeat_on = false; last_key = e.key_code }, not (e.key_code == 0))
  | keypress ↦
      if not p.repeat_on
      then (if p.last_key == 0 then p else record p { repeat_on = true }, false)
      else (p, not (p.last_key == 0))
  | keyup ↦ (record p { last_key = 0; repeat_on = false }, false)
]

-- FindChildElement on the row in which an item stands, which is looked up by its id.
unfoldable pub open_links : ℕ → List Row → Option (List Link)
open_links index rows = elim (get_elem? rows index) [
  | none ↦ none
  | some row ↦ elim (find_if (λ (r : Row). text_eq r.id row.id) rows) [
    | none ↦ none
    | some r ↦ if is_open r then children_of r else none
  ]
]

-- The elements 'Item' + index + '_c' + n
unfoldable pub links_at : ℕ → List Row → List Link
links_at index rows = elim (get_elem? rows index) [
  | none ↦ []
  | some row ↦ elim (children_of row) [ none ↦ [] | some links ↦ links ]
]

-- The loop for the last child: the focus found so far, from the child `n` on.
unfoldable pub last_child : ℕ → ℕ → Focus → List Link → Focus
last_child index n focus [] = focus
last_child index n focus (l ∷ ls) = last_child index (n + 1) (child index n) ls

unfoldable pub close_panel : Panel → Panel
unfolding close_results_window
close_panel p = record (close_results_window p) { focus = field }

unfoldable pub nav_up : ℕ → Panel → Panel
unfolding last_child links_at open_links
nav_up index p = elim (nav_prev index p.rows) [
  | none ↦ record p { focus = field }
  | some k ↦ elim (open_links k p.rows) [
    | none ↦ record p { focus = item k }
    | some _ ↦ record p { focus = last_child (index - 1) 0 (item k) (links_at (index - 1) p.rows) }
  ]
]

abbrev focus_next : Option ℕ → Panel → Panel
focus_next none p = p
focus_next (some k) p = record p { focus = item k }

unfoldable pub nav_down : ℕ → Panel → Panel
unfolding links_at open_links
nav_down index p =
    let next = focus_next (nav_next (index + 1) p.rows) p in
    elim (open_links index p.rows) [
      | none ↦ next
      | some _ ↦ elim (links_at index p.rows) [
        | [] ↦ next
        | l ∷ ls ↦ record p { focus = child index 0 }
      ]
    ]

unfoldable pub set_links : Bool → ℕ → Panel → Panel
unfolding open_row
set_links shown index p = elim (get_elem? p.rows index) [
  | none ↦ p
  | some row ↦ record p { rows = open_row shown row.id p.rows }
]

-- What an arrow does, once ProcessKeys lets it.
unfoldable pub nav_key : ℕ → ℕ → Panel → Panel
unfolding nav_up nav_down set_links close_panel
nav_key key index p =
    if key == 38
    then nav_up index p
    else if key == 40
    then nav_down index p
    else if key == 39
    then set_links true index p
    else if key == 37
    then set_links false index p
    else if key == 27
    then close_panel p
    else p

unfoldable pub nav : Event → ℕ → Panel → Panel × Bool
unfolding process_keys nav_key
nav e index p =
    let (q, go) = process_keys e p in
    if e.key_code == 13
    then (p, true)
    else if not go
    then (q, false)
    else (nav_key q.last_key index q, q.last_key == 13)

unfoldable pub child_up : ℕ → ℕ → Panel → Panel
child_up index zero p = record p { focus = item index }
child_up index (suc c) p = record p { focus = child index c }

unfoldable pub child_down : ℕ → ℕ → Panel → Panel
unfolding links_at
child_down index c p = elim (get_elem? (links_at index p.rows) (c + 1)) [
  | none ↦ focus_next (nav_next (index + 1) p.rows) p
  | some l ↦ record p { focus = child index (c + 1) }
]

unfoldable pub nav_child : Event → ℕ → ℕ → Panel → Panel × Bool
unfolding process_keys child_up child_down close_panel
nav_child e index c p =
    let (q, go) = process_keys e p in
    if e.key_code == 13 then (p, true) else if not go then (q, false) else (
      if q.last_key == 38
          then child_up index c q
          else if q.last_key == 40
          then child_down index c q
          else if q.last_key == 27
          then close_panel q
          else q,
      q.last_key == 13,
    )
