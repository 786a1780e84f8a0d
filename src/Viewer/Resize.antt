-- ===== src/Viewer/Resize.antt =====
-- docs/resize.js: the width of the navigation and the heights of the parts of a page, in pixels.
pub mod Widths
use p2p_file_share.Base.{
  ℕ, ◌+◌, ◌-◌, ◌==◌, Bool, true, false, not, ◌&&◌, Option, none, some, [], ◌∷◌, if◌then◌else◌, Text,
  lit, ltb, leb, is_empty, ◌++◌,
}
use p2p_file_share.Stream.{to_string as number_to_string, read_digits}
use p2p_file_share.Viewer.Cookie.{Storage, Days, from_now, read_setting, write_setting}

-- A difference in pixels, which may be below 0.
pub data Pixels : Type 0 where
  px : ℕ → Pixels
  below : ℕ → Pixels

unfoldable pub minus : Pixels → ℕ → Pixels
minus (px a) b = if leb b a then px (a - b) else below (b - a)
minus (below a) b = below (a + b)

abbrev pub resize_cookie : Text
resize_cookie = lit "width"

unfoldable pub plus : Pixels → ℕ → Pixels
plus (px a) b = px (a + b)
plus (below a) b = if leb a b then px (b - a) else below (a - b)

-- What stands in the pages: the width of the navigation, the margins beside it and the heights.
-- `border` is what outerWidth adds to the width, and `touch_border` what it adds with the wider padding
-- of a touch device. `forever` is the date of a setting that is kept.
pub record Layout : Type 0 where
  pub page_layout : Bool
  pub bar_width : ℕ
  pub border : ℕ
  pub touch_border : ℕ
  pub sidenav_width : ℕ
  pub content_margin : Pixels
  pub footer_margin : Pixels
  pub storage : Storage
  pub forever : Text

-- parseInt of the text of a number
unfoldable pub parse_int : Text → Pixels
unfolding read_digits
parse_int [] = px 0
parse_int (c ∷ s) = if c == b'-' then below (read_digits 0 s).0 else px (read_digits 0 (c ∷ s)).0

abbrev pub outer_width : Layout → ℕ
outer_width l = l.sidenav_width + l.border

-- sidenavWidth - barWidth as a text
unfoldable pub width_text : Pixels → Text
width_text (px n) = number_to_string n
width_text (below n) = lit "-" ++ number_to_string n

unfoldable pub store_width : Layout → Layout
unfolding minus width_text
store_width l = record l {
  storage =
      write_setting resize_cookie (width_text (minus (px (outer_width l)) l.bar_width))
        (from_now l.forever) l.storage;
}

-- Both margins move where the page's layout is 1, the content's alone otherwise.
unfoldable pub set_margins : Pixels → Layout → Layout
set_margins margin l = record l {
  content_margin = margin;
  footer_margin = if l.page_layout then margin else l.footer_margin;
}

unfoldable pub resize_width : Layout → Layout
unfolding set_margins store_width
resize_width l = store_width (set_margins (px (outer_width l)) l)

-- A width below 0 is no value of the style, which stays.
abbrev pub css_width : Pixels → ℕ → ℕ
css_width (px n) old = n
css_width (below n) old = old

unfoldable pub restore_width : Pixels → Layout → Layout
unfolding set_margins plus
restore_width nav_width l = record (set_margins (plus nav_width l.bar_width) l) {
  sidenav_width = css_width nav_width l.sidenav_width;
}

abbrev pub default_width : Option Text → Pixels
default_width none = px 250
default_width (some s) = parse_int s

-- The test of the width that was stored.
abbrev pub expanded : ℕ → Pixels → Pixels
expanded window_width (px n) = if ltb 250 n && ltb n window_width then px n else px 250
expanded window_width (below n) = px 250

unfoldable pub collapse_expand : ℕ → Layout → Layout
unfolding restore_width store_width
collapse_expand window_width l =
    if ltb 0 l.sidenav_width
    then store_width (restore_width (px 0) l)
    else store_width (
        restore_width (expanded window_width (default_width (read_setting resize_cookie l.storage)))
          l)

-- The heights of the page: the content, and the navigation with its tree in a page with one.
pub record Heights : Type 0 where
  pub content : Pixels
  pub navtree : Option Pixels
  pub sidenav : Option Pixels

unfoldable pub resize_height : Bool → Bool → ℕ → ℕ → ℕ → Heights
unfolding minus
resize_height treeview page_layout header footer window =
    let between = minus (minus (px window) header) footer in
    if not treeview
    then record { content = minus (px window) header; navtree = none; sidenav = none }
    else if not page_layout
    then record { content = between; navtree = some between; sidenav = some between }
    else record {
      content = minus (px window) footer;
      navtree = some (minus (px window) header);
      sidenav = some (px window);
    }

-- What initResizable sets up in a page with a tree: the bar of a touch device is wider, and the width
-- of the last visit is restored.
unfoldable pub init_resizable : Bool → Bool → Layout → Layout
unfolding restore_width
init_resizable treeview touch_device l =
    if not treeview
    then l
    else restore_width (default_width (read_setting resize_cookie l.storage))
        (if touch_device then record l { bar_width = 20; border = l.touch_border } else l)
