-- ===== src/Viewer/Resize/Widths.antt =====
-- The width that a visit leaves and the next one finds.
use p2p_file_share.Base.{
  ℕ, ◌+◌, ◌-◌, ◌≤◌, ◌<◌, ◌≡◌, refl, ap, ◌∙◌, true, false, ◌==◌, some, [], ◌∷◌, Text, text_eq,
  text_eq_refl, lookup, ltb, leb, Bool-cases, inl, inr, arith,
}
use p2p_file_share.Stream.{to_string as number_to_string, has_digit, read_digits}
use p2p_file_share.Stream.Decimal.{read_digits-to_string, has_digit-to_string_nil}
use p2p_file_share.Viewer.Cookie.{
  Storage, key_of, or_else, from_now, read_setting, write_setting, write_chrome,
}
use p2p_file_share.Viewer.Cookie.Settings.{read-write_chrome}
use p2p_file_share.Viewer.Resize.{
  Layout, px, minus, parse_int, outer_width, width_text, store_width, set_margins, resize_width,
  restore_width, collapse_expand, default_width, resize_cookie, init_resizable, plus, css_width,
  expanded,
}

parse_int-to_string : (n : ℕ) → parse_int (number_to_string n) ≡ px n
unfolding parse_int
parse_int-to_string n =
    by_text (number_to_string n) (has_digit-to_string_nil n) (read_digits-to_string n)
  where
    by_text : (t : Text) → has_digit t ≡ true → (read_digits 0 t).0 ≡ n → parse_int t ≡ px n
    by_text [] h e = cc
    by_text (c ∷ t) h e =
        let unsigned : (c == 45) ≡ false = ground (arith, h) in rw unsigned (ap px e)

-- A setting that is a number is read back.
stored_number :
    (n : ℕ) (forever : Text) (st : Storage)
    → st.chrome ≡ true
    → default_width (
        read_setting resize_cookie
          (write_setting resize_cookie (number_to_string n) (from_now forever) st))
      ≡ px n
stored_number n forever st h =
    ap default_width
      (read-write_chrome resize_cookie resize_cookie (number_to_string n) (from_now forever) st h)
    ∙ rw (text_eq_refl resize_cookie)
        (by_text (number_to_string n) (has_digit-to_string_nil n) ∙ parse_int-to_string n)
  where
    by_text :
        (t : Text)
        → has_digit t ≡ true
        → default_width
            (or_else (some t) (lookup text_eq (key_of resize_cookie) st.session_storage))
          ≡ parse_int t
    by_text [] k = cc
    by_text (c ∷ t) k = refl

store_width-number :
    (l : Layout)
    → l.bar_width ≤ outer_width l
    → (store_width l).storage
      ≡ write_setting resize_cookie
          (number_to_string (outer_width l - l.bar_width))
          (from_now l.forever)
          l.storage
unfolding store_width minus width_text
store_width-number l h =
    let fits : leb l.bar_width (outer_width l) ≡ true = ground (arith, h) in rw fits refl

restored_margin : (m n : ℕ) → m ≤ n → plus (px (n - m)) m ≡ px n
unfolding plus
restored_margin m n h = let same : n - m + m ≡ n = omega arith in ap px same

-- In Chrome the margin beside the navigation, after it was resized, is the one that the next page with
-- a tree gives it, if the navigation was not made narrower than its bar, and the next page has the same
-- storage and bar and no touch device.
pub width_round_trip :
    (l n : Layout)
    → l.storage.chrome ≡ true
    → l.bar_width ≤ outer_width l
    → n.storage ≡ (resize_width l).storage
    → n.bar_width ≡ l.bar_width
    → (init_resizable true false n).content_margin ≡ (resize_width l).content_margin
unfolding init_resizable restore_width resize_width set_margins store_width
width_round_trip l n chrome wide same bar =
    let stored : n.storage
        ≡ write_setting resize_cookie (number_to_string (outer_width l - l.bar_width))
            (from_now l.forever) l.storage =
      same ∙ store_width-number l wide in
    ap (λ st. plus (default_width (read_setting resize_cookie st)) n.bar_width) stored
    ∙ ap (λ w. plus w n.bar_width)
        (stored_number (outer_width l - l.bar_width) l.forever l.storage chrome)
    ∙ ap (plus (px (outer_width l - l.bar_width))) bar
    ∙ restored_margin l.bar_width (outer_width l) wide

chrome-write_setting :
    (c v forever : Text) (st : Storage)
    → (write_setting c v (from_now forever) st).chrome ≡ st.chrome
unfolding write_setting write_chrome
chrome-write_setting c v forever st = elim (Bool-cases st.chrome) [
  | inl e ↦ rw e refl
  | inr e ↦ rw e refl
]

-- The state of a collapsed navigation.
collapsed :
    (window : ℕ) (l : Layout)
    → (0 < l.sidenav_width)
    → collapse_expand window l ≡ store_width (restore_width (px 0) l)
unfolding collapse_expand
collapsed window l h =
    let open_now : ltb 0 l.sidenav_width ≡ true = ground (arith, h) in rw open_now refl

-- In Chrome a navigation that is collapsed and expanded again is 250 pixels wide, whatever its width
-- was, if its border is as wide as its bar.
pub expanded_width :
    (window window' : ℕ) (l : Layout)
    → l.storage.chrome ≡ true
    → l.border ≡ l.bar_width
    → 0 < l.sidenav_width
    → ((collapse_expand window l).sidenav_width ≡ 0)
      × ((collapse_expand window' (collapse_expand window l)).sidenav_width ≡ 250)
unfolding collapse_expand restore_width set_margins store_width
expanded_width window window' l chrome border wide =
    let shut = restore_width (px 0) l in
    let enough : l.bar_width ≤ 0 + l.border = omega (arith, border) in
    let nothing_left : 0 + l.border - l.bar_width ≡ 0 = omega (arith, border) in
    let stored : default_width (read_setting resize_cookie (store_width shut).storage)
        ≡ px (0 + l.border - l.bar_width) =
      ap (λ st. default_width (read_setting resize_cookie st)) (store_width-number shut enough)
      ∙ stored_number (0 + l.border - l.bar_width) l.forever l.storage chrome in
    rw (collapsed window l wide)
      (refl, ap (λ w. css_width (expanded window' w) 0) (stored ∙ ap px nothing_left))
