-- ===== src/Viewer/Theme/CopyButton.antt =====
-- docs/doxygen-awesome-fragment-copy-button.js and doxygen-awesome-paragraph-link.js: the text of a
-- fragment that is copied, and the links to the headers.
pub mod Trailing
use p2p_file_share.Base.{
  ℕ, zero, suc, ◌+◌, ◌-◌, ◌==◌, Bool, true, false, ◌&&◌, Option, none, some, List, [], ◌∷◌, ◌⊕◌,
  if◌then◌else◌, Text, lit, length, take, leb, get_elem?,
}

-- What stands in a fragment: line numbers and notes, which are left out, and other text.
pub record Part : Type 0 where
  pub is_note : Bool
  pub text : Text

unfoldable pub text_content : List Part → Text
text_content [] = []
text_content (p ∷ ps) = let rest = text_content ps in if p.is_note then rest else p.text ⊕ rest

-- charAt(length - (count + 1)) == '\n', where there is no such place once all is counted
unfoldable pub newline_at_end : ℕ → Text → Bool
newline_at_end count t =
    leb (count + 1) (length t)
    && (elim (get_elem? t (length t - (count + 1))) [ none ↦ false | some c ↦ c == 10 ])

-- The loop, whose rounds are at most the length of the text and one.
unfoldable pub count_newlines : ℕ → ℕ → Text → ℕ
unfolding newline_at_end
count_newlines zero count t = count
count_newlines (suc fuel) count t =
    let more = count_newlines fuel (count + 1) t in if newline_at_end count t then more else count

unfoldable pub copy_text : Text → Text
unfolding count_newlines
copy_text t = take (length t - count_newlines (suc (length t)) 0 t) t

-- The button: what the clipboard holds, and whether it shows its success.
pub record CopyButton : Type 0 where
  pub clipboard : Text
  pub success : Bool
  pub success_icon : Bool

unfoldable pub copy_content : List Part → CopyButton → CopyButton
unfolding copy_text text_content
copy_content parts b = record {
  clipboard = copy_text (text_content parts);
  success = true;
  success_icon = true;
}

-- The end of its timer.
unfoldable pub end_success : CopyButton → CopyButton
end_success b = record b { success = false; success_icon = false }

-- A link that is appended behind a header.
pub record AnchorLink : Type 0 where
  pub href : Text
  pub title : Text

unfoldable pub anchor_links : List Text → List AnchorLink
anchor_links [] = []
anchor_links (id ∷ ids) =
    record { href = b'#' ∷ id; title = lit "Permanent Link" } ∷ anchor_links ids
