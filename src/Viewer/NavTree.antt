-- ===== src/Viewer/NavTree.antt =====
-- docs/navtree.js: the tree of pages. Here the texts that name a page: paths, hashes and links.
pub mod Names
pub mod Index
pub mod Tree
pub mod Show
pub mod Sync
pub mod Scroll
pub mod Click
use p2p_file_share.Base.{
  ℕ, zero, suc, ◌+◌, ◌-◌, ◌==◌, Bool, true, false, not, ◌&&◌, ◌||◌, Option, none, some, List, [],
  ◌∷◌, ◌++◌, ◌⊕◌, if◌then◌else◌, Text, lit, text_eq, is_empty, length, take, drop, leb, any,
}
use p2p_file_share.Viewer.Strings.{after_last, before, after}

-- \w
abbrev pub is_word_unit : ℕ → Bool
is_word_unit c =
    (leb b'a' c && leb c b'z')
    || (leb b'A' c && leb c b'Z')
    || (leb b'0' c && leb c b'9')
    || (c == b'_')

-- [\w-], which hashValue keeps
abbrev pub is_hash_unit : ℕ → Bool
is_hash_unit c = is_word_unit c || (c == b'-')

-- What pathName keeps.
abbrev pub is_path_unit : ℕ → Bool
is_path_unit c =
    is_word_unit c
    || any (λ k. k == c)
        (b'-' ∷ b'+' ∷ b'&' ∷ b'@' ∷ b'#' ∷ b'/' ∷ b'%' ∷ b'?' ∷ b'=' ∷ b'~' ∷ b'|' ∷ b'!' ∷ b':'
          ∷ b',' ∷ b'.' ∷ b';' ∷ b'(' ∷ b')' ∷ [])

-- replace of each unit outside a class by nothing
unfoldable pub keep_units : (ℕ → Bool) → Text → Text
keep_units keeps [] = []
keep_units keeps (c ∷ s) = let rest = keep_units keeps s in if keeps c then c ∷ rest else rest

-- The address of the page: its path, and its hash with the sign in front.
pub record Location : Type 0 where
  pub pathname : Text
  pub hash : Text

unfoldable pub hash_value : Location → Text
unfolding keep_units
hash_value l = keep_units is_hash_unit (drop 1 l.hash)

unfoldable pub hash_url : Location → Text
unfolding hash_value
hash_url l = b'#' ∷ hash_value l

unfoldable pub path_name : Location → Text
unfolding keep_units
path_name l = keep_units is_path_unit l.pathname

unfoldable pub strip_path : Text → Text
strip_path uri = after_last b'/' uri

-- /d\w/d\w\w/ as a whole text
unfoldable pub is_sub_dir : Text → Bool
is_sub_dir (a ∷ b ∷ c ∷ d ∷ e ∷ f ∷ g ∷ h ∷ []) =
    (a == b'/')
    && (b == b'd')
    && is_word_unit c
    && (d == b'/')
    && (e == b'd')
    && is_word_unit f
    && is_word_unit g
    && (h == b'/')
is_sub_dir _ = false

unfoldable pub strip_path2 : Text → Text
unfolding strip_path is_sub_dir
strip_path2 uri =
    let s = strip_path uri in
    let directory = length uri - length s in
    if leb 8 directory && is_sub_dir (take 8 (drop (directory - 8) uri))
    then drop (directory - 7) uri
    else s

-- replace('#', ':') of the first sign
unfoldable pub replace_hash : Text → Text
replace_hash [] = []
replace_hash (c ∷ s) = let rest = replace_hash s in if c == b'#' then b':' ∷ s else c ∷ rest

abbrev pub has_hash : Text → Bool
has_hash link = any (λ c. c == b'#') link

-- The anchor of an entry: its class, its address, and the link that a click stores.
pub record Anchor : Type 0 where
  pub class_name : Text
  pub href : Text
  pub stores : Option Text

-- The part of newNode for an entry with a link.
unfoldable pub link_anchor : Location → Text → Text → Anchor
unfolding path_name strip_path replace_hash
link_anchor here rel_path given =
    let direct = text_eq (take 1 given) (lit "^") in
    let link = if direct then drop 1 given else given in
    let url = if direct then link else rel_path ⊕ given in
    let class_name = strip_path (replace_hash link) in
    if has_hash link
    then record {
      class_name = class_name;
      href =
          if text_eq (strip_path (path_name here)) (strip_path (before b'#' link))
          then b'#' ∷ before b'#' (after b'#' link)
          else url;
      stores = some link;
    }
    else record { class_name = class_name; href = url; stores = some link }
