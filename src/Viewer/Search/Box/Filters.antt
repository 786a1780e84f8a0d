-- ===== src/Viewer/Search/Box/Filters.antt =====
-- The menu of filters: which one is set, and what a later visit finds.
use p2p_file_share.Base.{
  ℕ, zero, suc, ◌+◌, ◌<◌, ◌≡◌, refl, ap, ◌∙◌, sym, true, false, none, some, some-eq, List, [], ◌∷◌,
  arith, Text, text_eq, text_eq_refl, is_empty, get_elem?, length, lookup, ltb,
}
use p2p_file_share.Viewer.Cookie.{session, key_of, read_setting}
use p2p_file_share.Viewer.Cookie.Settings.{read-write_chrome}
use p2p_file_share.Viewer.Search.{Panel, SelectItem}
use p2p_file_share.Viewer.Search.Box.{Site, cookie_name, remove_spaces}
use p2p_file_share.Viewer.Search.Box.Run.{run_search}
use p2p_file_share.Viewer.Search.Box.Select.{
  find_name, mark_items, select_item_set, select_item_count, on_select_item, on_search_select_key,
}

get_elem?-behind {ℓ} : {A : Type ℓ} (xs : List A) → get_elem? xs (length xs) ≡ none
get_elem?-behind [] = refl
get_elem?-behind (x ∷ xs) = get_elem?-behind xs

-- The first filter of the name is that of the index, if none before it has the name.
find_name-at :
    (from id : ℕ) (name : Text) (items : List SelectItem) (i : SelectItem)
    → get_elem? items id ≡ some i
    → i.name ≡ name
    → ((j : ℕ) (other : SelectItem)
        → j < id
        → get_elem? items j ≡ some other
        → text_eq other.name name ≡ false)
    → find_name from name items ≡ from + id
unfolding find_name
find_name-at from id name [] i h e apart = cc
find_name-at from zero name (x ∷ items) i h e apart =
    let same : text_eq x.name name ≡ true =
      ap (λ (y : SelectItem). text_eq y.name name) (some-eq h) ∙ rw e (text_eq_refl name) in
    rw same (omega arith)
find_name-at from (suc id) name (x ∷ items) i h e apart = rw (apart 0 x (omega arith) refl) (
    find_name-at (from + 1) id name items i h e (λ j other k. apart (suc j) other (omega arith))
    ∙ omega arith)

find_name-marked :
    (from j id : ℕ) (name : Text) (items : List SelectItem)
    → find_name from name (mark_items j id items) ≡ find_name from name items
unfolding find_name mark_items
find_name-marked from j id name [] = refl
find_name-marked from j id name (x ∷ items) =
    rw (find_name-marked (from + 1) (j + 1) id name items) refl

-- In Chrome the filter that was set is the one that the next page of the session finds, if its name
-- is not empty, no filter before it has the name, and no filter is kept in the local storage.
pub filter_round_trip :
    (p : Panel) (id : ℕ) (i : SelectItem) (c : ℕ) (name : Text)
    → p.storage.chrome ≡ true
    → lookup text_eq (key_of cookie_name) p.storage.local_storage ≡ none
    → get_elem? p.select_items id ≡ some i
    → i.name ≡ c ∷ name
    → ((j : ℕ) (other : SelectItem)
        → j < id
        → get_elem? p.select_items j ≡ some other
        → text_eq other.name (c ∷ name) ≡ false)
    → (read_setting cookie_name (select_item_set id p).storage ≡ some (c ∷ name))
      × (find_name 0 (c ∷ name) (select_item_set id p).select_items ≡ id)
unfolding select_item_set
filter_round_trip p id i c name h k e n apart = (
  rw
      (
        e,
        select_item_set,
        n,
        read-write_chrome cookie_name cookie_name (c ∷ name) session p.storage h,
        text_eq_refl cookie_name,
        k,
      )
      refl,
  rw (e, select_item_set, find_name-marked 0 0 id (c ∷ name) p.select_items)
      (find_name-at 0 id (c ∷ name) p.select_items i e n apart ∙ omega arith),
)

-- The arrow down on the last filter, with a search to run, goes to a filter that there is not, and the
-- search of it is a TypeError.
pub down_at_last_filter :
    (site : Site) (p : Panel)
    → p.search_index + 1 ≡ length p.select_items
    → length site.sections ≡ length p.select_items
    → p.search_active ≡ true
    → is_empty (remove_spaces p.field_value) ≡ false
    → on_search_select_key site 40 p ≡ none
unfolding on_search_select_key on_select_item select_item_set select_item_count run_search
down_at_last_filter site p last same active typed =
    let room : ltb p.search_index (length p.select_items) ≡ true = ground (arith, last) in
    let gone : get_elem? p.select_items (p.search_index + 1) ≡ none =
      ap (get_elem? p.select_items) last ∙ get_elem?-behind p.select_items in
    let no_section : get_elem? site.sections (p.search_index + 1) ≡ none =
      ap (get_elem? site.sections) (last ∙ sym same) ∙ get_elem?-behind site.sections in
    rw
      (
        on_search_select_key, room, on_select_item, select_item_set, gone, typed, active,
        run_search, no_section,
      )
      refl
