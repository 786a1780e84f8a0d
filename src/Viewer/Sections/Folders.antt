-- ===== src/Viewer/Sections/Folders.antt =====
-- A folder that is closed and opened again.
use p2p_file_share.Base.{
  ℕ, zero, suc, ◌≡◌, refl, ap, ◌∙◌, Bool, true, false, List, [], ◌∷◌, if◌then◌else◌, Text,
  Bool-cases, inl, inr, Option, some, none, some-eq, get_elem?, arith,
}
use p2p_file_share.Viewer.Sections.{
  Row, is_below, is_child, first_child_visible, hide_below, show_children, close_icon, open_icon,
  fold_row, set_option,
}

is_child-below : (id : Text) (r : Row) → is_child id r ≡ true → is_below id r ≡ true
unfolding is_child
is_child-below id r h = ground (arith, h)

is_child-not_below : (id : Text) (r : Row) → is_below id r ≡ false → is_child id r ≡ false
unfolding is_child
is_child-not_below id r h = rw h refl

is_child-hidden : (id : Text) (r : Row) → is_child id (record r { visible = false }) ≡ is_child id r
unfolding is_child
is_child-hidden id r = refl

-- No child is visible once all below is hidden.
hide_below-first :
    (id : Text) (rows : List Row) → first_child_visible id (hide_below id rows) ≡ false
unfolding first_child_visible hide_below
hide_below-first id [] = refl
hide_below-first id (r ∷ rows) = elim (Bool-cases (is_below id r)) [
  | inr e ↦ rw (e, is_child-not_below id r e) (hide_below-first id rows)
  | inl e ↦ elim (Bool-cases (is_child id r)) [
    | inl c ↦ rw (e, is_child-hidden id r, c) refl
    | inr c ↦ rw (e, is_child-hidden id r, c) (hide_below-first id rows)
  ]
]

-- What a row is once its folder was closed and opened: a row one level below is shown, deeper ones are
-- not.
abbrev pub reopened : Text → Row → Row
reopened id r =
    if is_child id r
    then record (close_icon r) { visible = true }
    else if is_below id r
    then record r { visible = false }
    else r

show-hide :
    (id : Text) (rows : List Row) (i : ℕ) (r : Row)
    → get_elem? rows i ≡ some r
    → get_elem? (show_children id (hide_below id rows)) i ≡ some (reopened id r)
unfolding hide_below show_children
show-hide id [] i r h = cc
show-hide id (x ∷ rows) zero r h = here ∙ ap (λ y. some (reopened id y)) (some-eq h)
  where
    here : get_elem? (show_children id (hide_below id (x ∷ rows))) 0 ≡ some (reopened id x)
    here = elim (Bool-cases (is_below id x)) [
      | inr e ↦ rw (e, is_child-not_below id x e) refl
      | inl e ↦ elim (Bool-cases (is_child id x)) [
        | inl c ↦ rw (e, is_child-hidden id x, c) refl
        | inr c ↦ rw (e, is_child-hidden id x, c) refl
      ]
    ]
show-hide id (x ∷ rows) (suc i) r h = show-hide id rows i r h

-- A folder of which the first child is visible, clicked twice, is open again: of what is below it, the
-- rows one level below are visible, with closed folders, and the deeper ones are hidden; other rows are
-- as before.
pub fold_row_twice :
    (id : Text) (folder : Row) (rows : List Row) (i : ℕ) (r : Row)
    → first_child_visible id rows ≡ true
    → get_elem? rows i ≡ some r
    → (fold_row id folder rows ≡ close_icon folder ∷ hide_below id rows)
      × (get_elem? (fold_row id (close_icon folder) (hide_below id rows)) 0
          ≡ some (open_icon folder))
      × (get_elem? (fold_row id (close_icon folder) (hide_below id rows)) (suc i)
          ≡ some (reopened id r))
unfolding fold_row
fold_row_twice id folder rows i r h e = (
  rw h refl,
  rw (hide_below-first id rows) (ap some (icons folder)),
  rw (hide_below-first id rows) (show-hide id rows i r e),
)
  where
    options : (b c : Bool) (o : Option Bool) → set_option b (set_option c o) ≡ set_option b o
    options b c none = refl
    options b c (some x) = refl

    icons : (f : Row) → open_icon (close_icon f) ≡ open_icon f
    icons f = rw (options true false f.icon_open, options true false f.arrow_down) refl
