-- ===== src/Viewer/NavTree/Show/Opened.antt =====
-- What showNode leaves on the way to a page.
use p2p_file_share.Base.{
  ℕ, zero, suc, ◌≡◌, refl, ap, Bool, true, some, List, [], ◌∷◌, if◌then◌else◌, inl, inr, ◌⊎◌,
}
use p2p_file_share.Viewer.NavTree.Tree.{
  Entries, Node, node, Nodes, end, next, Source, open_listed, expand_node, listed,
}
use p2p_file_share.Viewer.NavTree.Show.{
  selecting, child, set_child, nodes_of, with_nodes, Known, no_data, unavailable, available, known,
  behind, show_last, show_node,
}

-- The places name nodes whose scripts load, from a node on.
abbrev pub Leads : Source → List ℕ → Node → Type 0
Leads src [] n = ¬ (known src n ≡ unavailable)
Leads src (i ∷ crumbs) n =
    (es : Entries) × (m : Node) × (known src n ≡ available es)
    × (child i (nodes_of (open_listed src es n)) ≡ some m)
    × Leads src crumbs m

abbrev IsOpen : Node → Type 0
IsOpen (node look children_data st children) =
    (st.children_visited ≡ true)
    × (st.expanded ≡ true)
    × (st.is_shown ≡ true)
    × (st.arrow_down ≡ true)

-- Every node on the way but the last is open, and the last is there.
abbrev pub IsOpenAlong : List ℕ → Node → Type 0
IsOpenAlong [] n = Unit
IsOpenAlong (i ∷ crumbs) n =
    IsOpen n × ((m : Node) × (child i (nodes_of n) ≡ some m) × IsOpenAlong crumbs m)

pub child-set_child :
    (i : ℕ) (m n : Node) (ns : Nodes) → child i ns ≡ some n → child i (set_child i m ns) ≡ some m
unfolding child set_child
child-set_child i m n end e = cc
child-set_child zero m n (next x ns) e = refl
child-set_child (suc i) m n (next x ns) e = child-set_child i m n ns e

-- A node that is open stays so when a child is replaced.
replaced-IsOpenAlong :
    (src : Source) (es : Entries) (i : ℕ) (crumbs : List ℕ) (m n x : Node)
    → child i (nodes_of (open_listed src es n)) ≡ some x
    → IsOpenAlong crumbs m
    → IsOpenAlong
        (i ∷ crumbs)
        (with_nodes (set_child i m (nodes_of (open_listed src es n))) (open_listed src es n))
unfolding open_listed
replaced-IsOpenAlong src es i crumbs m (node look children_data st children) x e h = (
  (refl, refl, refl, refl),
  (
    m,
    child-set_child i m x (nodes_of (open_listed src es (node look children_data st children))) e,
    h,
  ),
)

open_listed-IsOpenAlong :
    (src : Source) (es : Entries) (i : ℕ) (n x : Node)
    → child i (nodes_of (open_listed src es n)) ≡ some x
    → IsOpenAlong (i ∷ []) (open_listed src es n)
unfolding open_listed
open_listed-IsOpenAlong src es i (node look children_data st children) x e =
    ((refl, refl, refl, refl), (x, e, tt))

known-cases :
    (k : Known) → (k ≡ no_data) ⊎ ((k ≡ unavailable) ⊎ ((es : Entries) × (k ≡ available es)))
known-cases no_data = inl refl
known-cases unavailable = inr (inl refl)
known-cases (available es) = inr (inr (es, refl))

show_last-IsOpenAlong :
    (src : Source) (overview : Bool) (es : Entries) (i : ℕ) (n x : Node)
    → child i (nodes_of (open_listed src es n)) ≡ some x
    → ¬ (known src x ≡ unavailable)
    → ((show_last src overview i (open_listed src es n)).1 ≡ selecting (some (i ∷ [])))
      × IsOpenAlong (i ∷ []) (show_last src overview i (open_listed src es n)).0
unfolding show_last
show_last-IsOpenAlong src overview es i n (node look children_data st children) e h =
    elim (known-cases (known src (node look children_data st children))) [
      | inl k ↦
          rw (show_last, e, k)
            (refl, open_listed-IsOpenAlong src es i n (node look children_data st children) e)
      | inr (inl k) ↦ elim (h k) [ ]
      | inr (inr (ds, k)) ↦
          rw (show_last, e, k)
            (
              refl,
              replaced-IsOpenAlong src es i []
                  (if overview
                    then expand_node src (node look (listed ds) st children)
                    else node look (listed ds) st children)
                  n (node look children_data st children) e tt,
            )
    ]

-- Where the places name nodes whose scripts load, showNode selects the node of the last place, and
-- every node before it on the way has its children made, displayed and its arrow down, whatever was
-- open before.
pub show_node-IsOpenAlong :
    (src : Source) (overview : Bool) (i : ℕ) (crumbs : List ℕ) (n : Node)
    → Leads src (i ∷ crumbs) n
    → ((show_node src overview (i ∷ crumbs) n).1 ≡ selecting (some (i ∷ crumbs)))
      × IsOpenAlong (i ∷ crumbs) (show_node src overview (i ∷ crumbs) n).0
unfolding show_node
show_node-IsOpenAlong src overview i [] n (es, m, k, e, h) =
    rw (show_node, k) (show_last-IsOpenAlong src overview es i n m e h)
show_node-IsOpenAlong src overview i (j ∷ crumbs) n (es, m, k, e, h) =
    let later = show_node-IsOpenAlong src overview j crumbs m h in
    rw (show_node, k, e)
      (
        ap (behind i) later.0,
        replaced-IsOpenAlong src es i (j ∷ crumbs) (show_node src overview (j ∷ crumbs) m).0 n m e
            later.1,
      )
