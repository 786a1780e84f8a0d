-- ===== src/Viewer/Search/Box/Choices.antt =====
-- The choice of a filter in the menu, by the pointer or the keys, where no search waits.
use p2p_file_share.Base.{
  ◌+◌, ◌-◌, not, ◌&&◌, ltb, get_elem?, Option-cases, ℕ, ◌≡◌, ap, ◌∙◌, ◌==◌, ◌||◌, Option, none,
  some, is_empty, inl, inr, Bool-cases,
}
use mathlib.Core.Path.{subst}
use p2p_file_share.Viewer.Search.{field, Panel}
use p2p_file_share.Viewer.Search.Box.{remove_spaces, close_selection_window, Site}
use p2p_file_share.Viewer.Search.Box.Select.{
  select_item_set, on_select_item, on_search_select_key, select_item_count,
}
use p2p_file_share.Viewer.Search.Box.Run.{run_search}
use p2p_file_share.Viewer.Search.Box.Timers.{waiting, IsDebounced, IsQuiet, IsQuiet-IsDebounced}
use p2p_file_share.Viewer.Search.Box.Searches.{AfterSearch, run_search-AfterSearch}

-- Where no search waits, a filter is chosen and none waits after.
abbrev pub LeavesQuiet : Option Panel → Type 0
LeavesQuiet none = Unit
LeavesQuiet (some q) = IsQuiet q

AfterSearch-IsQuiet : (p : Panel) (o : Option Panel) → AfterSearch p o → IsQuiet p → LeavesQuiet o
unfolding AfterSearch
AfterSearch-IsQuiet p none a q = tt
AfterSearch-IsQuiet p (some r) a q = record {
  silent = ap waiting a.0 ∙ q.silent;
  given = rw (a.0, a.1) q.given;
  positive = rw a.1 q.positive;
}

select_item_set-IsQuiet : (id : ℕ) (p : Panel) → IsQuiet p → IsQuiet (select_item_set id p)
unfolding select_item_set
select_item_set-IsQuiet id p q = elim (Option-cases (get_elem? p.select_items id)) [
  | inl e ↦
      rw (select_item_set, e) (record { silent = q.silent; given = q.given; positive = q.positive })
  | inr (i, e) ↦
      rw (select_item_set, e) (record { silent = q.silent; given = q.given; positive = q.positive })
]

pub on_select_item-LeavesQuiet :
    (site : Site) (id : ℕ) (p : Panel) → IsQuiet p → LeavesQuiet (on_select_item site id p)
unfolding on_select_item
on_select_item-LeavesQuiet site id p q =
    let chosen : Panel = record p { search_index = id } in
    let set = select_item_set id chosen in
    let quiet : IsQuiet set =
      select_item_set-IsQuiet id chosen
        (record { silent = q.silent; given = q.given; positive = q.positive }) in
    elim (Bool-cases (not (is_empty (remove_spaces set.field_value)) && set.search_active)) [
      | inl e ↦
          rw e
            (AfterSearch-IsQuiet set (run_search site set) (run_search-AfterSearch site set) quiet)
      | inr e ↦ rw e quiet
    ]

closed :
    (o : Option Panel)
    → LeavesQuiet o
    → LeavesQuiet (elim o [
      | none ↦ none
      | some q ↦ some (record (close_selection_window q) { focus = field })
    ])
unfolding close_selection_window
closed none h = tt
closed (some q) h = record { silent = h.silent; given = h.given; positive = h.positive }

pub on_search_select_key-LeavesQuiet :
    (site : Site) (code : ℕ) (p : Panel)
    → IsQuiet p
    → LeavesQuiet (on_search_select_key site code p)
unfolding on_search_select_key
on_search_select_key-LeavesQuiet site code p q =
    let item : (id : ℕ) → LeavesQuiet (on_select_item site id p) =
      λ id. on_select_item-LeavesQuiet site id p q in
    elim (Bool-cases ((code == 40) && ltb p.search_index (select_item_count p))) [
      | inl a ↦ rw a (item (p.search_index + 1))
      | inr a ↦ elim (Bool-cases ((code == 38) && ltb 0 p.search_index)) [
        | inl b ↦ rw (a, b) (item (p.search_index - 1))
        | inr b ↦ elim (Bool-cases ((code == 13) || (code == 27))) [
          | inl c ↦
              rw (a, b, c) (closed (on_select_item site p.search_index p) (item p.search_index))
          | inr c ↦ rw (a, b, c) q
        ]
      ]
    ]

pub IsDebounced-IsQuiet : (p : Panel) → waiting p.timers ≡ 0 → IsDebounced p → IsQuiet p
IsDebounced-IsQuiet p w d = record { silent = w; given = d.given; positive = d.positive }

pub leaves-IsDebounced : (q : Panel) (o : Option Panel) → LeavesQuiet o → o ≡ some q → IsDebounced q
leaves-IsDebounced q o h e =
    let quiet : LeavesQuiet (some q) = subst LeavesQuiet e h in IsQuiet-IsDebounced q quiet
