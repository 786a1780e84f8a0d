-- ===== src/Viewer/NavTree/Show.antt =====
-- docs/navtree.js: showNode opens the nodes on the way to a page; selectAndHighlight marks its item.
pub mod Opened
use p2p_file_share.Base.{
  ℕ, zero, suc, ◌==◌, Bool, true, false, ◌&&◌, ◌||◌, Option, none, some, List, [], ◌∷◌, ◌⊕◌,
  if◌then◌else◌, Text, lit, text_eq, is_empty, drop, not,
}
use p2p_file_share.Viewer.NavTree.{Location, Anchor, path_name, strip_path}
use p2p_file_share.Viewer.NavTree.Tree.{
  ChildrenData, absent, script, listed, Entries, Label, linked, no_link, Look, State, Node, node,
  Nodes, end, next, Source, fetch, open_listed, expand_node,
}

-- Where showNode comes to: the selection, with the place of the node that it was given, a script that
-- does not load, or the TypeError of a last place without a node.
pub data Reached : Type 0 where
  selecting : Option (List ℕ) → Reached
  waiting : Reached
  failed : Reached

unfoldable pub child : ℕ → Nodes → Option Node
child i end = none
child zero (next n ns) = some n
child (suc i) (next n ns) = child i ns

unfoldable pub set_child : ℕ → Node → Nodes → Nodes
set_child i m end = end
set_child zero m (next n ns) = next m ns
set_child (suc i) m (next n ns) = next n (set_child i m ns)

abbrev pub nodes_of : Node → Nodes
nodes_of (node look children_data st children) = children

abbrev pub with_nodes : Nodes → Node → Node
with_nodes ns (node look children_data st children) = node look children_data st ns

-- The data of a node once its script has been loaded.
pub data Known : Type 0 where
  no_data : Known
  unavailable : Known
  available : Entries → Known

unfoldable pub known : Source → Node → Known
unfolding fetch
known src (node look absent st children) = no_data
known src (node look (script name) st children) = elim (fetch src name) [
  | none ↦ unavailable
  | some es ↦ available es
]
known src (node look (listed es) st children) = available es

-- replace(/\..+$/, '')
unfoldable pub cut_extension : Text → Text
cut_extension [] = []
cut_extension (c ∷ []) = c ∷ []
cut_extension (c ∷ d ∷ s) = let rest = cut_extension (d ∷ s) in if c == b'.' then [] else c ∷ rest

unfoldable pub is_overview : Text → Bool
unfolding cut_extension strip_path
is_overview to_root =
    let base = strip_path (cut_extension to_root) in
    text_eq base (lit "index") || text_eq base (lit "pages") || text_eq base (lit "search")

abbrev pub behind : ℕ → Reached → Reached
behind i (selecting (some place)) = selecting (some (i ∷ place))
behind i r = r

-- The last place: its data is loaded, and the overviews expand it.
unfoldable pub show_last : Source → Bool → ℕ → Node → Node × Reached
unfolding child set_child known expand_node
show_last src overview i parent = elim (child i (nodes_of parent)) [
  | none ↦ (parent, failed)
  | some (node look children_data st children) ↦
      elim (known src (node look children_data st children)) [
        | unavailable ↦ (parent, waiting)
        | no_data ↦ (parent, selecting (some (i ∷ [])))
        | available es ↦
            let n = node look (listed es) st children in
            (
              with_nodes (set_child i (if overview then expand_node src n else n) (nodes_of parent))
                  parent,
              selecting (some (i ∷ [])),
            )
      ]
]

unfoldable pub show_node : Source → Bool → List ℕ → Node → Node × Reached
unfolding known open_listed show_last child set_child
show_node src overview [] n = elim (known src n) [
  | no_data ↦ (n, selecting none)
  | unavailable ↦ (n, waiting)
  | available es ↦ (open_listed src es n, failed)
]
show_node src overview (i ∷ []) n = elim (known src n) [
  | no_data ↦ (n, selecting none)
  | unavailable ↦ (n, waiting)
  | available es ↦ show_last src overview i (open_listed src es n)
]
show_node src overview (i ∷ j ∷ crumbs) n = elim (known src n) [
  | no_data ↦ (n, selecting none)
  | unavailable ↦ (n, waiting)
  | available es ↦
      let parent = open_listed src es n in
      elim (child i (nodes_of parent)) [
        | none ↦ (parent, selecting none)
        | some m ↦
            let below = show_node src overview (j ∷ crumbs) m in
            (with_nodes (set_child i below.0 (nodes_of parent)) parent, behind i below.1)
      ]
]

unfoldable pub ends_with : Text → Text → Bool
ends_with s [] = is_empty s
ends_with s (c ∷ t) = text_eq s (c ∷ t) || ends_with s t

unfoldable pub has_class : Text → Label → Bool
unfolding ends_with
has_class link (linked a) = ends_with link a.class_name
has_class link no_link = ends_with link (lit "nolink")
has_class link _ = false

unfoldable mutual
  unfolding has_class

  pub has_item : Text → Node → Bool
  has_item link (node look children_data st children) =
      has_class link look.anchor || has_items link children

  pub has_items : Text → Nodes → Bool
  has_items link end = false
  has_items link (next n ns) = has_item link n || has_items link ns

unfoldable mutual
  unfolding has_class

  pub mark_item : Text → Node → Node
  mark_item link (node look children_data st children) =
      node look children_data
        (if has_class link look.anchor then record st { selected = true } else st)
        (mark_items link children)

  pub mark_items : Text → Nodes → Nodes
  mark_items link end = end
  mark_items link (next n ns) = next (mark_item link n) (mark_items link ns)

unfoldable pub mark_place : List ℕ → Node → Node
unfolding child set_child
mark_place [] (node look children_data st children) =
    node look children_data (record st { selected = true }) children
mark_place (i ∷ place) n = elim (child i (nodes_of n)) [
  | none ↦ n
  | some m ↦ let below = mark_place place m in with_nodes (set_child i below (nodes_of n)) n
]

-- The first branch needs a hash; the second one a node.
unfoldable pub select_and_highlight : Location → Text → Option (List ℕ) → Node → Node
unfolding path_name strip_path has_item mark_item mark_place
select_and_highlight here hash place tree =
    let link = strip_path (path_name here) ⊕ b':' ∷ drop 1 hash in
    if not (is_empty hash) && has_item link tree
    then mark_item link tree
    else elim place [ none ↦ tree | some p ↦ mark_place p tree ]
