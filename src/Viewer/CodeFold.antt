-- ===== src/Viewer/CodeFold.antt =====
-- docs/dynsections.js: blocks of code that fold.
pub mod Blocks
use p2p_file_share.Base.{
  ℕ, zero, suc, ◌==◌, Bool, true, false, not, ◌&&◌, List, [], ◌∷◌, ◌++◌, ◌⊕◌, if◌then◌else◌, Text,
  lit, text_eq, is_empty, length, take, drop, map, ◌-◌, ◌||◌, leb, any,
}

-- A block: its lines, shown while it is open, and the line that stands for it while it is closed.
pub record Block : Type 0 where
  pub id : Text
  pub open_shown : Bool
  pub closed_shown : Bool
  pub closed_line : Text

pub record Page : Type 0 where
  pub opened : Bool
  pub all_image : Text
  pub blocks : List Block

-- plusImg and minusImg, by the depth of the page.
abbrev pub plus_img : Bool → Text
plus_img false = lit "url('plus.svg')"
plus_img true = lit "url('../../plus.svg')"

abbrev pub minus_img : Bool → Text
minus_img false = lit "url('minus.svg')"
minus_img true = lit "url('../../minus.svg')"

abbrev pub set_shown : Bool → Block → Block
set_shown shown b = record b { open_shown = shown; closed_shown = not shown }

unfoldable pub toggle_all : Bool → Page → Page
toggle_all rel_path p =
    if p.opened
    then record {
      all_image = plus_img rel_path;
      blocks = map (set_shown false) p.blocks;
      opened = false;
    }
    else record {
      all_image = minus_img rel_path;
      blocks = map (set_shown true) p.blocks;
      opened = true;
    }

unfoldable pub toggle_blocks : Text → List Block → List Block
toggle_blocks id [] = []
toggle_blocks id (b ∷ bs) =
    (if text_eq b.id id
      then record b { open_shown = not b.open_shown; closed_shown = not b.closed_shown }
      else b)
    ∷ toggle_blocks id bs

unfoldable pub toggle : Text → Page → Page
unfolding toggle_blocks
toggle id p = record p { blocks = toggle_blocks id p.blocks }

-- What init reads of a foldable fragment: its id, its start and end markers and its first line.
pub record Fragment : Type 0 where
  pub id : Text
  pub start_marker : Text
  pub end_marker : Text
  pub first_line : Text

-- \s
abbrev is_blank : ℕ → Bool
is_blank c =
    (leb 9 c && leb c 13)
    || (leb 0x2000 c && leb c 0x200A)
    || any (λ k. k == c)
        (32 ∷ 160 ∷ 0x1680 ∷ 0x2028 ∷ 0x2029 ∷ 0x202F ∷ 0x205F ∷ 0x3000 ∷ 0xFEFF ∷ [])

-- \s*$ and a marker in front of it
unfoldable pub strip_blanks : Text → Text
strip_blanks [] = []
strip_blanks (c ∷ s) = elim (strip_blanks s) [
  | [] ↦ if is_blank c then [] else c ∷ []
  | d ∷ t ↦ c ∷ d ∷ t
]

abbrev ends_with : Text → Text → Bool
ends_with marker s =
    text_eq (drop (length s - length marker) s) marker && leb (length marker) (length s)

unfoldable pub strip_marker : Text → Text → Text
unfolding strip_blanks
strip_marker marker line =
    let s = strip_blanks line in
    if ends_with marker s then strip_blanks (take (length s - length marker) s) else line

unfoldable pub closed_line_of : Fragment → Text
unfolding strip_marker
closed_line_of f =
    (if is_empty f.start_marker then f.first_line else strip_marker f.start_marker f.first_line)
    ⊕ lit " "
    ⊕ f.start_marker
    ⊕ lit "<a href=\"javascript:codefold.toggle('"
    ⊕ f.id
    ⊕ lit "')\">&#8230;</a>"
    ⊕ f.end_marker

unfoldable pub new_blocks : List Fragment → List Block
unfolding closed_line_of
new_blocks [] = []
new_blocks (f ∷ fs) =
    record { id = f.id; open_shown = true; closed_shown = false; closed_line = closed_line_of f }
    ∷ new_blocks fs

unfoldable pub init : Bool → List Fragment → Page
unfolding new_blocks
init rel_path fragments = record {
  opened = true;
  all_image = minus_img rel_path;
  blocks = new_blocks fragments;
}
