-- ===== src/Viewer/Search/Rows/Matches.antt =====
-- Which results a search shows.
use p2p_file_share.Base.{
  ℕ, zero, suc, ◌+◌, ◌≡◌, refl, ap, ◌∙◌, Bool, true, false, ◌==◌, Option, none, some, List, [], ◌∷◌,
  ◌⊕◌, arith, Text, lit, get_elem?, inl, inr, Bool-cases, some-eq, if◌then◌else◌,
}
use p2p_file_share.Viewer.Strings.{starts_with}
use p2p_file_share.Viewer.Search.{Row, Panel}
use p2p_file_share.Viewer.Search.Ids.{
  strip_leading, strip_trailing, strip_digits, strip_sr, convert_to_id, search_key, row_matches,
}
use p2p_file_share.Viewer.Search.Ids.Prefix.{starts_with-convert_to_id}
use p2p_file_share.Viewer.Search.Rows.{
  Browser, search_row, search_rows, search_text, results_search, nav_next,
}
use p2p_file_share.Viewer.Search.Rows.Order.{is_shown, IsNext, nav_next-IsNext}

abbrev pub count_shown : List Row → ℕ
count_shown [] = 0
count_shown (row ∷ rows) = if row.shown then count_shown rows + 1 else count_shown rows

search_rows-count :
    (browser : Browser) (key : Text) (rows : List Row)
    → (search_rows browser key rows).1 ≡ count_shown (search_rows browser key rows).0
unfolding search_rows search_row
search_rows-count browser key [] = refl
search_rows-count browser key (row ∷ rows) =
    elim (Bool-cases (row_matches browser.lower key row.id)) [
      | inl e ↦ rw e (ap (λ n. n + 1) (search_rows-count browser key rows))
      | inr e ↦ rw e (search_rows-count browser key rows)
    ]

none_shown : (rows : List Row) (j : ℕ) → count_shown rows ≡ 0 → is_shown (get_elem? rows j) ≡ false
none_shown [] j h = refl
none_shown (row ∷ rows) zero h = elim (Bool-cases row.shown) [
  | inl e ↦ absurd (omega (arith, rw e at h))
  | inr e ↦ e
]
none_shown (row ∷ rows) (suc j) h = elim (Bool-cases row.shown) [
  | inl e ↦ absurd (omega (arith, rw e at h))
  | inr e ↦ none_shown rows j (rw e at h)
]

count-none :
    (rows : List Row) → ((j : ℕ) → is_shown (get_elem? rows j) ≡ false) → count_shown rows ≡ 0
count-none [] h = refl
count-none (row ∷ rows) h = rw (h 0) (count-none rows (λ j. h (suc j)))

abbrev pub is_none {ℓ} : {A : Type ℓ} → Option A → Bool
is_none none = true
is_none (some a) = false

-- "No matches" against what the down arrow finds.
count-nav_next : (rows : List Row) → (count_shown rows == 0) ≡ is_none (nav_next 0 rows)
count-nav_next rows = by_result (nav_next 0 rows) (nav_next-IsNext 0 rows)
  where
    by_result : (r : Option ℕ) → IsNext 0 rows r → (count_shown rows == 0) ≡ is_none r
    by_result none h = rw (count-none rows (λ j. h j (omega arith))) refl
    by_result (some k) h = elim (Bool-cases (count_shown rows == 0)) [
      | inl e ↦
          let empty : count_shown rows ≡ 0 = ground (arith, e) in cc (none_shown rows k empty, h.1)
      | inr e ↦ e
    ]

row_at :
    (browser : Browser) (key : Text) (rows : List Row) (i : ℕ) (row : Row)
    → get_elem? rows i ≡ some row
    → get_elem? (search_rows browser key rows).0 i ≡ some (search_row browser key row)
unfolding search_rows
row_at browser key [] i row h = cc
row_at browser key (r ∷ rows) zero row h = ap (λ o. some (search_row browser key o)) (some-eq h)
row_at browser key (r ∷ rows) (suc i) row h = row_at browser key rows i row h

-- A search shows each row whose id begins with the key and hides the others; it counts the rows shown,
-- and tells that there is no match exactly when the down arrow finds no row.
pub results_search_lem :
    (browser : Browser) (search : Text) (panel : Panel)
    → ((i : ℕ) (row : Row)
        → get_elem? panel.rows i ≡ some row
        → is_shown (get_elem? (results_search browser search panel).rows i)
          ≡ row_matches browser.lower
              (search_key browser.lower (search_text browser search))
              row.id)
      × ((results_search browser search panel).last_match_count
          ≡ count_shown (results_search browser search panel).rows)
      × ((results_search browser search panel).no_matches_shown
          ≡ is_none (nav_next 0 (results_search browser search panel).rows))
unfolding results_search
results_search_lem browser search panel =
    let key = search_key browser.lower (search_text browser search) in
    let counts = search_rows-count browser key panel.rows in
    (
      λ i row h. ap is_shown (row_at browser key panel.rows i row h) ∙ unfold search_row in refl,
      counts,
      ap (λ n. n == 0) counts ∙ count-nav_next (search_rows browser key panel.rows).0,
    )

-- A row whose id carries a name is shown for a text exactly when the name begins with the text, with
-- the blanks around it taken off and in lower case.
pub row_matches-name :
    (lower : Text → Text) (text name id : Text)
    → lower id ≡ lit "sr_" ⊕ convert_to_id name
    → row_matches lower (search_key lower text) id
      ≡ starts_with (lower (strip_trailing (strip_leading text))) name
unfolding row_matches search_key strip_sr strip_digits
row_matches-name lower text name id h =
    rw (h, row_matches)
      (starts_with-convert_to_id (lower (strip_trailing (strip_leading text))) name)
