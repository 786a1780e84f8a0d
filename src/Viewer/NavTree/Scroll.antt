-- ===== src/Viewer/NavTree/Scroll.antt =====
-- docs/navtree.js: gotoAnchor scrolls the content to an anchor and then makes what it is of glow.
pub mod Timing
use p2p_file_share.Base.{
  ℕ, zero, suc, ◌+◌, ◌-◌, ◌==◌, Bool, true, false, not, ◌||◌, Option, none, some, List, [], ◌∷◌,
  if◌then◌else◌, Text, lit, text_eq, ltb, leb, any,
}
use p2p_file_share.Viewer.Resize.{Pixels, px, below, minus, plus}

-- The anchor's parent and the positions of both: the anchor has one if it is on the page.
pub record Anchored : Type 0 where
  pub classes : List Text
  pub is_header : Bool
  pub parent_top : Pixels
  pub anchor_top : Option Pixels

-- The content: where it begins, its height, the height of what it shows, and how far it is scrolled.
pub record Content : Type 0 where
  pub offset : ℕ
  pub height : ℕ
  pub scroll_height : ℕ
  pub scroll_top : ℕ

abbrev pub has_class : Text → Anchored → Bool
has_class name a = any (λ c. text_eq c name) a.classes

unfoldable pub anchor_pos : Anchored → Option Pixels
anchor_pos a =
    if has_class (lit "memItemLeft") a
      || has_class (lit "memtitle") a
      || has_class (lit "fieldname") a
      || has_class (lit "fieldtype") a
      || a.is_header
    then some a.parent_top
    else a.anchor_top

-- Math.min and Math.abs
unfoldable pub min_pixels : Pixels → Pixels → Pixels
min_pixels (px a) (px b) = if leb a b then px a else px b
min_pixels (px a) (below b) = below b
min_pixels (below a) (px b) = below a
min_pixels (below a) (below b) = if leb a b then below b else below a

abbrev pub magnitude : Pixels → ℕ
magnitude (px n) = n
magnitude (below n) = n

abbrev pub max_of : ℕ → ℕ → ℕ
max_of a b = if leb a b then b else a

abbrev pub min_of : ℕ → ℕ → ℕ
min_of a b = if leb a b then a else b

unfoldable pub distance : Pixels → Content → ℕ
unfolding minus min_pixels
distance pos c =
    magnitude
      (min_pixels (minus pos c.offset) (minus (minus (px c.scroll_height) c.height) c.scroll_top))

-- What glows, and for how long.
pub data Glow : Type 0 where
  member_rows : ℕ → Glow
  grandparent : ℕ → Glow
  parent : ℕ → Glow
  next : ℕ → Glow

abbrev only_class : Text → Anchored → Bool
only_class name a = elim a.classes [ c ∷ [] ↦ text_eq c name | _ ↦ false ]

unfoldable pub glow_of : Anchored → Glow
glow_of a =
    if only_class (lit "memItemLeft") a
    then member_rows 300
    else if only_class (lit "fieldname") a
    then grandparent 1000
    else if only_class (lit "fieldtype") a
    then grandparent 1000
    else if a.is_header
    then parent 1000
    else next 1000

-- The animation: where it scrolls to, how long it takes, and what glows at its end.
pub record Animation : Type 0 where
  pub target : Pixels
  pub duration : ℕ
  pub glow : Glow

-- Nothing happens at a position of 0, and without one.
unfoldable pub animate : Content → Glow → Option Pixels → Option Animation
unfolding distance minus plus
animate c glow none = none
animate c glow (some (px zero)) = none
animate c glow (some (below zero)) = none
animate c glow (some pos) = some (record {
  target = minus (plus pos c.scroll_top) c.offset;
  duration = max_of 50 (min_of 500 (distance pos c));
  glow = glow;
})

unfoldable pub goto_anchor : Content → Anchored → Option Animation
unfolding anchor_pos animate glow_of
goto_anchor c a = animate c (glow_of a) (anchor_pos a)
