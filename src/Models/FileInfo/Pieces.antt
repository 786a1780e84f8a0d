-- ===== src/Models/FileInfo/Pieces.antt =====
-- The list of pieces in the text of a FileInfo.
use p2p_file_share.Base.{
  ℕ, zero, suc, ◌<◌, ◌≡◌, refl, ap, ◌∙◌, sym, List, [], ◌∷◌, ◌++◌, append_assoc, append-nil, arith,
  Text, lit, length, length-append,
}
use p2p_file_share.Stream.{get_word, sentry, skip_space}
use p2p_file_share.Stream.Words.{IsWord, after_word, get_word-space}
use p2p_file_share.Models.FileInfo.{print_pieces, read_pieces}

-- The hash of a file is its pieces' hashes on end.
unfoldable pub concat : List Text → Text
concat [] = []
concat (piece ∷ pieces) = piece ++ concat pieces

abbrev pub AllWords : List Text → Type 0
AllWords [] = Unit
AllWords (piece ∷ pieces) = IsWord piece × AllWords pieces

-- The end of the text is no further piece.
end_of_pieces :
    (fuel : ℕ) (old : Text) (pieces : List Text) (hash tail : Text)
    → skip_space tail ≡ []
    → read_pieces (suc fuel) (after_word (lit " \n" ++ tail)) old pieces hash ≡ (pieces, hash)
unfolding read_pieces get_word sentry skip_space
end_of_pieces fuel old pieces hash tail blank = rw blank refl

one_more_piece :
    (fuel : ℕ) (old p r : Text) (before : List Text) (hash : Text)
    → IsWord p
    → read_pieces (suc fuel) (after_word (32 ∷ p ++ (32 ∷ r))) old before hash
      ≡ read_pieces fuel (after_word (32 ∷ r)) p (before ++ p ∷ []) (hash ++ p)
unfolding read_pieces
one_more_piece fuel old p r before hash h = rw (get_word-space 32 old p (32 ∷ r) refl h refl)

-- The loop reads the pieces that were printed after a blank, given a round for each and one more; blanks
-- may follow.
pub read_pieces-print :
    (fuel : ℕ) (old : Text) (ps before : List Text) (hash tail : Text)
    → AllWords ps
    → skip_space tail ≡ []
    → length ps < fuel
    → read_pieces fuel (after_word (32 ∷ (print_pieces ps ++ tail))) old before hash
      ≡ (before ++ ps, hash ++ concat ps)
unfolding print_pieces concat
read_pieces-print zero old ps before hash tail h blank k = elim k [ ]
read_pieces-print (suc fuel) old [] before hash tail h blank k =
    end_of_pieces fuel old before hash tail blank
    ∙ (λ i. (sym (append-nil before) i, sym (append-nil hash) i))
read_pieces-print (suc fuel) old (p ∷ ps) before hash tail h blank k =
    ap (λ t. read_pieces (suc fuel) (after_word (32 ∷ t)) old before hash)
      (append_assoc p (32 ∷ print_pieces ps) tail)
    ∙ one_more_piece fuel old p (print_pieces ps ++ tail) before hash h.0
    ∙ read_pieces-print fuel p ps (before ++ p ∷ []) (hash ++ p) tail h.1 blank (omega arith)
    ∙ (λ i. (append_assoc before (p ∷ []) ps i, append_assoc hash p (concat ps) i))

-- Every piece takes two bytes or more of the text.
pub length-print_pieces : (ps : List Text) → length ps < length (print_pieces ps)
unfolding print_pieces
length-print_pieces [] = omega arith
length-print_pieces (p ∷ ps) =
    omega (arith, length-append p (32 ∷ print_pieces ps), length-print_pieces ps)
