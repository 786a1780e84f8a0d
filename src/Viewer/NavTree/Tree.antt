-- ===== src/Viewer/NavTree/Tree.antt =====
-- docs/navtree.js: the nodes of the tree, made from the table of pages: newNode, getNode, expandNode.
use p2p_file_share.Base.{
  ℕ, ◌+◌, ◌-◌, ◌*◌, ◌==◌, Bool, true, false, Option, none, some, ◌∷◌, ◌⊕◌, if◌then◌else◌, Text, lit,
  map,
}
use p2p_file_share.Viewer.NavTree.{Location, Anchor, strip_path, link_anchor}

-- The third part of an entry: null, the name of a script, or entries. An entry holds a text, a link and
-- such data.
mutual
  pub data ChildrenData : Type 0 where
    absent : ChildrenData
    script : Text → ChildrenData
    listed : Entries → ChildrenData

  pub data Entries : Type 0 where
    nil : Entries
    cons : Text → Option Text → ChildrenData → Entries → Entries

pub data Label : Type 0 where
  linked : Anchor → Label
  no_link : Label
  plain : Label

-- What newNode fixes: the label, the depth, the width of the indent, and whether the node has a toggle.
pub record Look : Type 0 where
  pub label : Text
  pub anchor : Label
  pub depth : ℕ
  pub indent : ℕ
  pub has_toggle : Bool
  pub is_last : Bool

-- `is_shown`: the list of children is displayed; `arrow_down`: its arrow points down.
pub record State : Type 0 where
  pub children_visited : Bool
  pub expanded : Bool
  pub is_shown : Bool
  pub arrow_down : Bool
  pub selected : Bool

mutual
  pub data Node : Type 0 where
    node : Look → ChildrenData → State → Nodes → Node

  pub data Nodes : Type 0 where
    end : Nodes
    next : Node → Nodes → Nodes

-- What the pages of the tree have in common: their address, `relpath`, and the script of that address
-- with the variable it sets, where `none` is a script that does not load.
pub record Source : Type 0 where
  pub here : Location
  pub rel_path : Text
  pub load : Text → Text → Option Entries

unfoldable pub underlined : Text → Text
underlined name = map (λ c. if c == b'-' then b'_' else c) name

-- getScript, then getData
unfoldable pub fetch : Source → Text → Option Entries
unfolding underlined strip_path
fetch src name = src.load (src.rel_path ⊕ name ⊕ lit ".js") (underlined (strip_path name))

abbrev has_data : ChildrenData → Bool
has_data absent = false
has_data _ = true

abbrev pub fresh : State
fresh = record {
  children_visited = false;
  expanded = false;
  is_shown = false;
  arrow_down = false;
  selected = false;
}

-- createIndent: `level` is the depth less one.
unfoldable pub create_indent : ℕ → ChildrenData → ℕ
create_indent depth children_data = if has_data children_data then 16 * (depth - 1) else 16 * depth

unfoldable pub label_of : Source → Option Text → ChildrenData → Label
unfolding link_anchor
label_of src (some (c ∷ link)) children_data = linked (link_anchor src.here src.rel_path (c ∷ link))
label_of src _ children_data = if has_data children_data then no_link else plain

unfoldable pub new_node : Source → ℕ → Text → Option Text → ChildrenData → Bool → Node
unfolding create_indent label_of
new_node src parent_depth text link children_data is_last =
    node
      (record {
        label = text;
        anchor = label_of src link children_data;
        depth = parent_depth + 1;
        indent = create_indent (parent_depth + 1) children_data;
        has_toggle = has_data children_data;
        is_last = is_last;
      })
      children_data fresh end

unfoldable pub is_nil : Entries → Bool
is_nil nil = true
is_nil _ = false

unfoldable pub get_node : Source → ℕ → Entries → Nodes
unfolding new_node is_nil
get_node src depth nil = end
get_node src depth (cons text link children_data entries) =
    next (new_node src depth text link children_data (is_nil entries)) (get_node src depth entries)

-- A node whose entries are known is visited, displayed and marked as expanded.
unfoldable pub open_listed : Source → Entries → Node → Node
unfolding get_node
open_listed src entries (node look children_data st children) =
    node look (listed entries)
      (record st { children_visited = true; expanded = true; is_shown = true; arrow_down = true })
      (if st.children_visited then children else get_node src look.depth entries)

unfoldable pub expand_node : Source → Node → Node
unfolding fetch open_listed
expand_node src (node look absent st children) = node look absent st children
expand_node src (node look (script name) st children) =
    if st.expanded then node look (script name) st children else elim (fetch src name) [
      | none ↦ node look (script name) st children
      | some entries ↦ open_listed src entries (node look (script name) st children)
    ]
expand_node src (node look (listed entries) st children) =
    if st.expanded
    then node look (listed entries) st children
    else open_listed src entries (node look (listed entries) st children)

-- The click on the arrow of a node.
unfoldable pub toggle_node : Source → Node → Node
unfolding expand_node
toggle_node src (node look children_data st children) =
    if st.expanded
    then node look children_data
        (record st { expanded = false; is_shown = false; arrow_down = false }) children
    else expand_node src (node look children_data st children)
