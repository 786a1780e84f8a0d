-- ===== src/Viewer/NavTree/Click.antt =====
-- docs/navtree.js: a click on the link of an item stores the link and selects the item.
use p2p_file_share.Base.{
  ℕ, zero, suc, ◌≡◌, refl, sym, Bool, true, false, Bool-cases, inl, inr, none, some, List, [], ◌∷◌,
  if◌then◌else◌, Text,
}
use mathlib.Core.Path.{subst}
use p2p_file_share.Viewer.Cookie.{session, write_setting}
use p2p_file_share.Viewer.NavTree.Tree.{Node, node, Nodes, end, next}
use p2p_file_share.Viewer.NavTree.Show.{child, nodes_of, mark_place}
use p2p_file_share.Viewer.NavTree.Show.Opened.{child-set_child}
use p2p_file_share.Viewer.NavTree.Sync.{NavPage, navpath, store_link, unmark, unmark_all}

unfoldable pub selected_at : List ℕ → Node → Bool
unfolding child
selected_at [] (node look children_data st children) = st.selected
selected_at (i ∷ place) n = elim (child i (nodes_of n)) [
  | none ↦ false
  | some m ↦ selected_at place m
]

-- The place is that of the item in the tree. The scroll to the anchor is gotoAnchor.
unfoldable pub click_item : List ℕ → Text → NavPage → NavPage
unfolding store_link selected_at unmark mark_place
click_item place link page =
    let p = store_link link page in
    if selected_at place p.tree then p else record p { tree = mark_place place (unmark p.tree) }

-- A node stands at the place.
abbrev pub IsPlace : List ℕ → Node → Type 0
IsPlace [] n = Unit
IsPlace (i ∷ place) n = (m : Node) × (child i (nodes_of n) ≡ some m) × IsPlace place m

child-unmark_all :
    (i : ℕ) (ns : Nodes) (m : Node)
    → child i ns ≡ some m
    → child i (unmark_all ns) ≡ some (unmark m)
unfolding child unmark
child-unmark_all i end m e = cc
child-unmark_all zero (next n ns) m e = cc e
child-unmark_all (suc i) (next n ns) m e = child-unmark_all i ns m e

unmark-IsPlace : (place : List ℕ) (n : Node) → IsPlace place n → IsPlace place (unmark n)
unfolding unmark
unmark-IsPlace [] n h = tt
unmark-IsPlace (i ∷ place) (node look children_data st children) (m, e, h) =
    (unmark m, child-unmark_all i children m e, unmark-IsPlace place m h)

selected_at-mark_place :
    (place : List ℕ) (n : Node) → IsPlace place n → selected_at place (mark_place place n) ≡ true
unfolding selected_at mark_place
selected_at-mark_place [] (node look children_data st children) h = refl
selected_at-mark_place (i ∷ place) (node look children_data st children) (m, e, h) =
    rw (selected_at, mark_place, e, child-set_child i (mark_place place m) m children e)
      (selected_at-mark_place place m h)

store_link-tree : (link : Text) (p : NavPage) → (store_link link p).tree ≡ p.tree
unfolding store_link
store_link-tree link p = by_sync p.is_synced
  where
    by_sync :
        (b : Bool)
        → (if b
            then p
            else record p { storage = write_setting navpath link session p.storage }).tree
          ≡ p.tree
    by_sync true = refl
    by_sync false = refl

-- After a click on the link of an item that is in the tree, the item is selected.
pub selected_at-click_item :
    (place : List ℕ) (link : Text) (p : NavPage)
    → IsPlace place p.tree
    → selected_at place (click_item place link p).tree ≡ true
unfolding click_item store_link
selected_at-click_item place link p h =
    let place_kept : IsPlace place (unmark (store_link link p).tree) =
      unmark-IsPlace place (store_link link p).tree
        (subst (IsPlace place) (sym (store_link-tree link p)) h) in
    elim (Bool-cases (selected_at place (store_link link p).tree)) [
      | inl e ↦ rw e e
      | inr e ↦ rw e (selected_at-mark_place place (unmark (store_link link p).tree) place_kept)
    ]
