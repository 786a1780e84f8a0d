-- ===== src/Viewer/CodeFold/Blocks.antt =====
-- The blocks of a page over the clicks.
use p2p_file_share.Base.{
  ◌≡◌, refl, ap, Bool, true, false, not, List, [], ◌∷◌, Text, text_eq, Bool-cases, inl, inr, map,
}
use p2p_file_share.Viewer.CodeFold.{
  Block, Page, Fragment, set_shown, toggle_all, toggle_blocks, toggle, new_blocks, init,
}

not-not : (b : Bool) → not (not b) ≡ b
not-not true = refl
not-not false = refl

abbrev pub IsFolded : List Block → Type 0
IsFolded [] = Unit
IsFolded (b ∷ bs) = (b.closed_shown ≡ not b.open_shown) × IsFolded bs

set_all-IsFolded : (shown : Bool) (bs : List Block) → IsFolded (map (set_shown shown) bs)
set_all-IsFolded shown [] = tt
set_all-IsFolded shown (b ∷ bs) = (refl, set_all-IsFolded shown bs)

toggle_blocks-IsFolded :
    (id : Text) (bs : List Block) → IsFolded bs → IsFolded (toggle_blocks id bs)
unfolding toggle_blocks
toggle_blocks-IsFolded id [] h = tt
toggle_blocks-IsFolded id (b ∷ bs) h = elim (Bool-cases (text_eq b.id id)) [
  | inl e ↦ rw e (ap not h.0, toggle_blocks-IsFolded id bs h.1)
  | inr e ↦ rw e (h.0, toggle_blocks-IsFolded id bs h.1)
]

new_blocks-IsFolded : (fs : List Fragment) → IsFolded (new_blocks fs)
unfolding new_blocks
new_blocks-IsFolded [] = tt
new_blocks-IsFolded (f ∷ fs) = (refl, new_blocks-IsFolded fs)

-- The pages that the clicks lead to.
pub data Shows (rel_path : Bool) (fragments : List Fragment) : Page → Type 0 where
  first : Shows rel_path fragments (init rel_path fragments)
  all : {p : Page} → Shows rel_path fragments p → Shows rel_path fragments (toggle_all rel_path p)
  one : {p : Page} (id : Text) → Shows rel_path fragments p → Shows rel_path fragments (toggle id p)

-- However often blocks are folded, one by one or all at once, each block shows either its lines or the
-- line that stands for them.
pub Shows-IsFolded :
    (rel_path : Bool) (fragments : List Fragment) {p : Page}
    → Shows rel_path fragments p
    → IsFolded p.blocks
unfolding init toggle_all toggle
Shows-IsFolded rel_path fragments first = new_blocks-IsFolded fragments
Shows-IsFolded rel_path fragments (all {p} s) = elim (Bool-cases p.opened) [
  | inl e ↦ rw e (set_all-IsFolded false p.blocks)
  | inr e ↦ rw e (set_all-IsFolded true p.blocks)
]
Shows-IsFolded rel_path fragments (one {p} id s) =
    toggle_blocks-IsFolded id p.blocks (Shows-IsFolded rel_path fragments s)
