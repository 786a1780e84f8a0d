-- ===== src/Viewer/Sections.antt =====
-- docs/dynsections.js: sections that fold, and the table of directories. What jQuery's calls change is
-- the visibility, the classes and the images of the elements here.
pub mod Folding
pub mod Stripes
pub mod Folders
use p2p_file_share.Base.{
  ℕ, zero, suc, ◌+◌, ◌-◌, ◌==◌, Bool, true, false, not, ◌&&◌, ◌||◌, Option, none, some, List, [],
  ◌∷◌, ◌++◌, ◌⊕◌, if◌then◌else◌, Text, lit, text_eq, is_empty, length, take, drop, leb, ltb, map,
}
use p2p_file_share.Viewer.Strings.{starts_with}

-- The last units of the image's name, replaced.
unfoldable pub with_ending : ℕ → Text → Text → Text
with_ending count ending src = take (length src - count) src ⊕ ending

-- A section with its link, summary and content.
pub record Section : Type 0 where
  pub content_shown : Bool
  pub summary_shown : Bool
  pub has_opened : Bool
  pub has_closed : Bool
  pub src : Text

unfoldable pub toggle_visibility : Section → Section
unfolding with_ending
toggle_visibility s =
    if s.content_shown
    then record {
      content_shown = false;
      summary_shown = true;
      has_opened = false;
      has_closed = true;
      src = with_ending 8 (lit "closed.png") s.src;
    }
    else record {
      content_shown = true;
      summary_shown = false;
      has_opened = true;
      has_closed = false;
      src = with_ending 10 (lit "open.png") s.src;
    }

-- Inherited members: whether each of their rows is shown, and the image of the header.
pub record Inherited : Type 0 where
  pub rows_shown : List Bool
  pub image : Text

abbrev first_shown : List Bool → Bool
first_shown [] = false
first_shown (b ∷ bs) = b

unfoldable pub toggle_inherit : Inherited → Inherited
unfolding with_ending
toggle_inherit m =
    if first_shown m.rows_shown
    then record {
      rows_shown = map (λ _. false) m.rows_shown;
      image = with_ending 8 (lit "closed.png") m.image;
    }
    else record {
      rows_shown = map (λ _. true) m.rows_shown;
      image = with_ending 10 (lit "open.png") m.image;
    }

pub data Stripe : Type 0 where
  plain : Stripe
  even : Stripe
  odd : Stripe

-- A row of the table of directories. A folder has an image, which is open or closed, and an arrow,
-- which points down or to the right.
pub record Row : Type 0 where
  pub id : Text
  pub visible : Bool
  pub icon_open : Option Bool
  pub arrow_down : Option Bool
  pub stripe : Stripe

abbrev pub stripe_of : Bool → Stripe
stripe_of true = even
stripe_of false = odd

-- The visible rows are even and odd in turn, from `next` on.
unfoldable pub stripe_from : Bool → List Row → List Row
stripe_from next [] = []
stripe_from next (r ∷ rows) =
    if r.visible
    then record r { stripe = stripe_of next } ∷ stripe_from (not next) rows
    else record r { stripe = plain } ∷ stripe_from next rows

unfoldable pub update_stripes : List Row → List Row
unfolding stripe_from
update_stripes rows = stripe_from true rows

-- split('_').length - 1
unfoldable pub underscores : Text → ℕ
underscores [] = 0
underscores (c ∷ s) = let rest = underscores s in if c == b'_' then rest + 1 else rest

abbrev pub set_option : Bool → Option Bool → Option Bool
set_option b none = none
set_option b (some _) = some b

unfoldable pub level_row : ℕ → Row → Row
unfolding underscores
level_row level r =
    let l = underscores r.id in
    if ltb l (level + 1)
    then record r {
      icon_open = set_option true r.icon_open;
      arrow_down = set_option true r.arrow_down;
      visible = true;
    }
    else if l == level + 1
    then record r {
      icon_open = set_option false r.icon_open;
      arrow_down = set_option false r.arrow_down;
      visible = true;
    }
    else record r { visible = false }

unfoldable pub toggle_level : ℕ → List Row → List Row
unfolding update_stripes level_row
toggle_level level rows = update_stripes (map (level_row level) rows)

abbrev row_of : Text → Text
row_of id = lit "row_" ⊕ id

-- [id^=row_...], and the regular expression for the rows one level below
abbrev pub is_below : Text → Row → Bool
is_below id r = starts_with (row_of id) r.id

-- Digits, one or more, and a last underscore.
unfoldable pub is_number_end : Text → Bool
is_number_end [] = false
is_number_end (c ∷ []) = false
is_number_end (c ∷ d ∷ s) =
    let rest = is_number_end (d ∷ s) in
    leb b'0' c && leb c b'9' && (rest || ((d == b'_') && is_empty s))

unfoldable pub is_child : Text → Row → Bool
unfolding is_number_end
is_child id r = starts_with (row_of id) r.id && is_number_end (drop (length (row_of id)) r.id)

unfoldable pub first_child_visible : Text → List Row → Bool
first_child_visible id [] = false
first_child_visible id (r ∷ rows) =
    let rest = first_child_visible id rows in if is_child id r then r.visible else rest

abbrev pub close_icon : Row → Row
close_icon r = record r {
  icon_open = set_option false r.icon_open;
  arrow_down = set_option false r.arrow_down;
}

abbrev pub open_icon : Row → Row
open_icon r = record r {
  icon_open = set_option true r.icon_open;
  arrow_down = set_option true r.arrow_down;
}

unfoldable pub hide_below : Text → List Row → List Row
hide_below id [] = []
hide_below id (r ∷ rows) =
    (if is_below id r then record r { visible = false } else r) ∷ hide_below id rows

unfoldable pub show_children : Text → List Row → List Row
show_children id [] = []
show_children id (r ∷ rows) =
    (if is_child id r then record (close_icon r) { visible = true } else r) ∷ show_children id rows

-- The clicked row and the rows after it.
unfoldable pub fold_row : Text → Row → List Row → List Row
unfolding first_child_visible hide_below show_children
fold_row id r rows =
    if first_child_visible id rows
    then close_icon r ∷ hide_below id rows
    else open_icon r ∷ show_children id rows

unfoldable pub fold_at : Text → List Row → List Row
unfolding fold_row
fold_at id [] = []
fold_at id (r ∷ rows) =
    let rest = fold_at id rows in if text_eq r.id (row_of id) then fold_row id r rows else r ∷ rest

unfoldable pub toggle_folder : Text → List Row → List Row
unfolding update_stripes fold_at
toggle_folder id rows = update_stripes (fold_at id rows)
