-- ===== src/Viewer/Search/Ids.antt =====
-- The names of the results: convertToId, and the test of a row in Search.
pub mod Prefix
use p2p_file_share.Base.{
  ℕ, ◌+◌, ◌-◌, ◌/◌, ◌%◌, ◌==◌, Bool, true, false, ◌&&◌, ◌||◌, [], ◌∷◌, ◌++◌, if◌then◌else◌, Text,
  lit, leb, ltb,
}
use p2p_file_share.Client.Hash.{hex_digit}
use p2p_file_share.Viewer.Strings.{starts_with}

-- [a-z0-9\u0080-\uFFFF]
abbrev pub is_kept : ℕ → Bool
is_kept c = (leb b'a' c && leb c b'z') || (leb b'0' c && leb c b'9') || leb 128 c

unfoldable pub convert_unit : ℕ → Text
unfolding hex_digit
convert_unit c =
    if is_kept c
    then c ∷ []
    else if ltb c 16
    then b'_' ∷ b'0' ∷ hex_digit c ∷ []
    else b'_' ∷ hex_digit (c / 16) ∷ hex_digit (c % 16) ∷ []

unfoldable pub convert_to_id : Text → Text
unfolding convert_unit
convert_to_id [] = []
convert_to_id (c ∷ s) = convert_unit c ++ convert_to_id s

-- replace(/^ +/, "")
unfoldable pub strip_leading : Text → Text
strip_leading [] = []
strip_leading (c ∷ s) = let rest = strip_leading s in if c == b' ' then rest else c ∷ s

-- replace(/ +$/, "")
unfoldable pub strip_trailing : Text → Text
strip_trailing [] = []
strip_trailing (c ∷ s) = elim (strip_trailing s) [
  | [] ↦ if c == b' ' then [] else c ∷ []
  | d ∷ t ↦ c ∷ d ∷ t
]

-- \d*_ at the head, which is stripped behind "sr"
unfoldable pub strip_digits : Text → Text → Text
strip_digits all [] = all
strip_digits all (c ∷ s) =
    let rest = strip_digits all s in
    if leb b'0' c && leb c b'9' then rest else if c == b'_' then s else all

-- replace(/^sr\d*_/, '')
unfoldable pub strip_sr : Text → Text
unfolding strip_digits starts_with
strip_sr (a ∷ b ∷ s) = if (a == b's') && (b == b'r') then strip_digits (a ∷ b ∷ s) s else a ∷ b ∷ s
strip_sr s = s

-- What is looked for, and the test of a row by its id. `lower` is toLowerCase.
unfoldable pub search_key : (Text → Text) → Text → Text
unfolding strip_leading strip_trailing convert_to_id
search_key lower search = convert_to_id (lower (strip_trailing (strip_leading search)))

unfoldable pub row_matches : (Text → Text) → Text → Text → Bool
unfolding strip_sr starts_with
row_matches lower key id = starts_with key (strip_sr (lower id))
