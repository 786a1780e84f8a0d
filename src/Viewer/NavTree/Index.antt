-- ===== src/Viewer/NavTree/Index.antt =====
-- navTo: the table of indices, each named by its first address, is searched for the one of an address.
pub mod Buckets
use p2p_file_share.Base.{
  ℕ, zero, suc, ◌==◌, Bool, true, false, ◌&&◌, ◌||◌, Option, none, some, List, [], ◌∷◌,
  if◌then◌else◌, Text, ltb, lookup, text_eq, ◌++◌,
}

-- <= of strings
unfoldable pub text_leb : Text → Text → Bool
text_leb [] t = true
text_leb (a ∷ s) [] = false
text_leb (a ∷ s) (b ∷ t) = ltb a b || ((a == b) && text_leb s t)

-- The rounds of the loop `while (NAVTREEINDEX[i+1]<=url) i++` from -1 on.
unfoldable pub count_leb : Text → List Text → ℕ
unfolding text_leb
count_leb url [] = zero
count_leb url (t ∷ ts) = let rest = count_leb url ts in if text_leb t url then suc rest else zero

-- The index, or nothing where the loop leaves -1.
unfoldable pub nav_index : Text → List Text → Option ℕ
unfolding count_leb
nav_index url table = elim (count_leb url table) [ zero ↦ none | suc i ↦ some i ]

-- gotoNode: the places on the way to a page. `$.extend(true, [], undefined)` is an empty array.
unfoldable pub breadcrumbs : List (Text × List ℕ) → Text → Text → List ℕ
breadcrumbs sub_index root hash = elim (lookup text_eq (root ++ hash) sub_index) [
  | some crumbs ↦ zero ∷ crumbs
  | none ↦ elim (lookup text_eq root sub_index) [ some crumbs ↦ zero ∷ crumbs | none ↦ zero ∷ [] ]
]
