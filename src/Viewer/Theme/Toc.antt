-- ===== src/Viewer/Theme/Toc.antt =====
-- docs/doxygen-awesome-interactive-toc.js: which line of the table of contents is active. Each line names
-- a header of the page.
pub mod Active
use p2p_file_share.Base.{
  ℕ, zero, suc, ◌+◌, ◌-◌, ◌==◌, Bool, true, false, not, Option, none, some, List, [], ◌∷◌,
  if◌then◌else◌, ltb,
}
use p2p_file_share.Viewer.Resize.{Pixels, px, below}

-- A line, with the position of the top of its header.
pub record Header : Type 0 where
  pub position : Pixels
  pub is_active : Bool
  pub is_above : Bool

abbrev pub top_offset : ℕ
top_offset = 38

abbrev pub is_past : Header → Bool
is_past h = elim h.position [ px n ↦ ltb n top_offset | below n ↦ true ]

-- The loop of update: the active line so far, and the index of the line.
unfoldable pub last_past : ℕ → ℕ → List Header → ℕ
last_past active i [] = active
last_past active i (h ∷ hs) = last_past (if is_past h then i else active) (i + 1) hs

unfoldable pub mark_lines : List Header → List Header
mark_lines [] = []
mark_lines (h ∷ hs) = record h { is_active = false; is_above = is_past h } ∷ mark_lines hs

unfoldable pub activate : ℕ → List Header → List Header
activate i [] = []
activate zero (h ∷ hs) = record h { is_active = true; is_above = false } ∷ hs
activate (suc i) (h ∷ hs) = h ∷ activate i hs

unfoldable pub update : List Header → List Header
unfolding last_past mark_lines activate
update hs = activate (last_past 0 0 hs) (mark_lines hs)

-- The class "open" of the table: on load, and after a click on its title.
abbrev pub is_open : Bool → Bool
is_open hide_mobile_menu = not hide_mobile_menu

unfoldable pub click_title : Bool → Bool
click_title opened = if opened then false else true

-- throttle: the time of the last call that counts, and whether a call at a time is made.
unfoldable pub throttle : ℕ → ℕ → ℕ → ℕ × Bool
throttle delay last_call now =
    if ltb (now - last_call) delay then (last_call, false) else (now, true)
