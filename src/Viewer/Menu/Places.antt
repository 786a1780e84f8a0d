-- ===== src/Viewer/Menu/Places.antt =====
-- Where the search box stands.
use p2p_file_share.Base.{
  ℕ, ◌≡◌, refl, Bool, true, false, not, ◌==◌, Option, some, [], if◌then◌else◌, Text, ltb,
  Bool-cases, inl, inr,
}
use p2p_file_share.Viewer.Menu.{
  Menu, Children, change_state, close_panel, lay_out, reset_state, new_menu, init_menu,
  search_box_html,
}
use p2p_file_share.Viewer.Search.{Panel}

-- On a narrow page the box stands at the first place alone, on a wide one in the menu, which is shown,
-- alone, unless the checkbox was used.
abbrev pub IsPlaced : Text → Menu → Type 0
IsPlaced box m =
    (m.box ≡ some box)
    × (m.place2_shown ≡ not (ltb m.prev_width 768))
    × (if ltb m.prev_width 768 then m.place1 ≡ box else (m.place1 ≡ []) × (m.place2 ≡ box))

pub data Changes : Menu → Menu → Type 0 where
  resize : (width : ℕ) (m : Menu) → Changes m (reset_state width m)
  click : (checked : Bool) (m : Menu) → Changes m (change_state checked m)

pub data Becomes (m : Menu) : Menu → Type 0 where
  here : Becomes m m
  next : {n o : Menu} → Becomes m n → Changes n o → Becomes m o

lay_out-IsPlaced :
    (width : ℕ) (box : Text) (m : Menu) (panel : Option Panel)
    → m.box ≡ some box
    → IsPlaced box (record (lay_out width m) { panel = panel; prev_width = width })
unfolding lay_out
lay_out-IsPlaced width box m panel h = elim (Bool-cases (ltb width 768)) [
  | inl e ↦ rw (lay_out, e, h) (refl, refl, refl)
  | inr e ↦ rw (lay_out, e, h) (refl, refl, (refl, refl))
]

reset_state-IsPlaced :
    (width : ℕ) (box : Text) (m : Menu) → IsPlaced box m → IsPlaced box (reset_state width m)
unfolding reset_state
reset_state-IsPlaced width box m h = elim (Bool-cases (width == m.prev_width)) [
  | inl e ↦ rw (reset_state, e) h
  | inr e ↦ rw (reset_state, e) (lay_out-IsPlaced width box m (close_panel m.panel) h.0)
]

-- However the window is resized and the checkbox clicked, the search box stands at one place: on a
-- narrow page at the first, with the second hidden, and on a wide one at the second, with the first
-- empty.
pub Becomes-IsPlaced : (box : Text) {m n : Menu} → Becomes m n → IsPlaced box m → IsPlaced box n
unfolding change_state
Becomes-IsPlaced box here h = h
Becomes-IsPlaced box (next b (resize width m)) h =
    reset_state-IsPlaced width box m (Becomes-IsPlaced box b h)
Becomes-IsPlaced box (next b (click checked m)) h = Becomes-IsPlaced box b h

-- A page of a width above 0 with a search begins so.
pub init_menu-IsPlaced :
    (rel_path search_page search box : Text) (server_side : Bool) (menudata : Children)
    (panel : Option Panel) (width : ℕ)
    → (width == 0) ≡ false
    → search_box_html rel_path true server_side search_page search ≡ some box
    → IsPlaced box (init_menu rel_path true server_side search_page search menudata panel width)
unfolding init_menu new_menu reset_state
init_menu-IsPlaced rel_path search_page search box server_side menudata panel width h e =
    rw (e, h)
      (lay_out-IsPlaced width box (new_menu rel_path (some box) menudata panel) (close_panel panel)
        refl)
