-- ===== src/Models/FileInfo/RoundTrip.antt =====
-- The text of a FileInfo, as the client sends it to the tracker and the tracker to a client.
use p2p_file_share.Base.{
  ℕ, suc, ◌^◌, ◌<◌, ◌≡◌, refl, ap, sym, append-nil, append_assoc, ◌∙◌, [], ◌∷◌, ◌⊕◌, arith, Text,
  lit, length, length-append,
}
use p2p_file_share.Stream.{of_text, skip_space, get_word, get_size, to_string as number_to_string}
use p2p_file_share.Stream.Words.{IsWord, after_word, get_word_lem, get_word-space}
use p2p_file_share.Stream.Decimal.{get_size-to_string, get_size-space, has_digit-to_string}
use p2p_file_share.Models.FileInfo.{FileInfo, print_pieces, to_string, from_string}
use p2p_file_share.Models.FileInfo.Pieces.{concat, AllWords, read_pieces-print, length-print_pieces}

-- What the text can carry: a name and hashes without blanks, a size_t, and a hash that is that of the
-- pieces on end.
pub record IsPrintable (f : FileInfo) : Type 0 where
  pub name_word : IsWord f.name
  pub size_fits : f.size < 2 ^ 64
  pub piece_words : AllWords f.pieces
  pub hash_concat : f.hash ≡ concat f.pieces

-- The text after the name and after the size, with `tail` behind it.
abbrev after_size : FileInfo → Text → Text
after_size f tail = lit " bytes\tPieces: " ⊕ (print_pieces f.pieces ⊕ tail)

abbrev after_name : FileInfo → Text → Text
after_name f tail = lit "\tSize: " ⊕ (number_to_string f.size ⊕ after_size f tail)

to_string-append :
    (f : FileInfo) (tail : Text) → to_string f ⊕ tail ≡ lit "File: " ⊕ (f.name ⊕ after_name f tail)
unfolding to_string
to_string-append f tail =
    rw
      (
        append_assoc f.name
            (lit "\tSize: "
              ⊕ number_to_string f.size
              ⊕ lit " bytes\tPieces: "
              ⊕ print_pieces f.pieces)
            tail,
        append_assoc (number_to_string f.size) (lit " bytes\tPieces: " ⊕ print_pieces f.pieces)
            tail,
      )
      refl

length-to_string :
    (f : FileInfo) (tail : Text) → length f.pieces < suc (length (to_string f ⊕ tail))
length-to_string f tail = omega (
  arith,
  ap length (to_string-append f tail),
  length-append f.name (after_name f tail),
  length-append (number_to_string f.size) (after_size f tail),
  length-append (print_pieces f.pieces) tail,
  length-print_pieces f.pieces,
)

module _ (f : FileInfo) (p : IsPrintable f) (tail : Text) (blank : skip_space tail ≡ []) where
  word_file :
      get_word [] (of_text (to_string f ⊕ tail))
      ≡ (lit "File:", after_word (32 ∷ (f.name ⊕ after_name f tail)))
  word_file =
      ap (λ t. get_word [] (of_text t)) (to_string-append f tail)
      ∙ get_word_lem [] (lit "File:") (32 ∷ (f.name ⊕ after_name f tail)) (ground arith) refl

  word_file-space :
      get_word [] (of_text (32 ∷ (to_string f ⊕ tail)))
      ≡ (lit "File:", after_word (32 ∷ (f.name ⊕ after_name f tail)))
  word_file-space =
      ap (λ t. get_word [] (of_text (32 ∷ t))) (to_string-append f tail)
      ∙ get_word-space 32 [] (lit "File:") (32 ∷ (f.name ⊕ after_name f tail)) refl (ground arith)
          refl

  word_name :
      get_word [] (after_word (32 ∷ (f.name ⊕ after_name f tail)))
      ≡ (f.name, after_word (after_name f tail))
  word_name = get_word-space 32 [] f.name (after_name f tail) refl p.name_word refl

  word_size :
      (old : Text)
      → get_word old (after_word (after_name f tail))
        ≡ (lit "Size:", after_word (32 ∷ (number_to_string f.size ⊕ after_size f tail)))
  word_size old =
      get_word-space 9 old (lit "Size:") (32 ∷ (number_to_string f.size ⊕ after_size f tail)) refl
        (ground arith) refl

  size_number :
      (old : ℕ)
      → get_size old (after_word (32 ∷ (number_to_string f.size ⊕ after_size f tail)))
        ≡ (f.size, after_word (after_size f tail))
  size_number old =
      get_size-space 32 old (number_to_string f.size ⊕ after_size f tail) refl
        (has_digit-to_string f.size _)
      ∙ get_size-to_string old f.size (after_size f tail) p.size_fits refl

  word_bytes :
      (old : Text)
      → get_word old (after_word (after_size f tail))
        ≡ (lit "bytes", after_word (lit "\tPieces: " ⊕ (print_pieces f.pieces ⊕ tail)))
  word_bytes old =
      get_word-space 32 old (lit "bytes") (lit "\tPieces: " ⊕ (print_pieces f.pieces ⊕ tail)) refl
        (ground arith) refl

  word_pieces :
      (old : Text)
      → get_word old (after_word (lit "\tPieces: " ⊕ (print_pieces f.pieces ⊕ tail)))
        ≡ (lit "Pieces:", after_word (32 ∷ (print_pieces f.pieces ⊕ tail)))
  word_pieces old =
      get_word-space 9 old (lit "Pieces:") (32 ∷ (print_pieces f.pieces ⊕ tail)) refl (ground arith)
        refl

  read_after_file :
      (unset : ℕ) (str : Text)
      → get_word [] (of_text str) ≡ (lit "File:", after_word (32 ∷ (f.name ⊕ after_name f tail)))
      → length f.pieces < suc (length str)
      → from_string unset str ≡ f
  unfolding from_string
  read_after_file unset str first fuel = rw (
    first,
    word_name,
    word_size (lit "File:"),
    size_number unset,
    word_bytes (lit "Size:"),
    word_pieces (lit "bytes"),
    read_pieces-print (suc (length str)) [] f.pieces [] [] tail p.piece_words blank fuel,
    ← p.hash_concat,
  )

  -- A FileInfo that the text can carry is read back from its text with blanks behind it, whatever the
  -- variables held.
  pub file_info-blank : (unset : ℕ) → from_string unset (to_string f ⊕ tail) ≡ f
  file_info-blank unset =
      read_after_file unset (to_string f ⊕ tail) word_file (length-to_string f tail)

  -- The same behind the blank that ended the word before it.
  pub file_info-space_blank : (unset : ℕ) → from_string unset (32 ∷ (to_string f ⊕ tail)) ≡ f
  file_info-space_blank unset =
      read_after_file unset (32 ∷ (to_string f ⊕ tail)) word_file-space
        (omega (arith, length-to_string f tail))

no_tail : skip_space [] ≡ []
unfolding skip_space
no_tail = refl

module _ (f : FileInfo) (p : IsPrintable f) where
  -- A FileInfo that the text can carry is read back from its text, whatever the variables held.
  pub file_info_round_trip : (unset : ℕ) → from_string unset (to_string f) ≡ f
  file_info_round_trip unset =
      ap (from_string unset) (sym (append-nil (to_string f))) ∙ file_info-blank f p [] no_tail unset

  -- The same behind the blank that ended the word before it.
  pub file_info-space : (unset : ℕ) → from_string unset (32 ∷ to_string f) ≡ f
  file_info-space unset =
      ap (λ t. from_string unset (32 ∷ t)) (sym (append-nil (to_string f)))
      ∙ file_info-space_blank f p [] no_tail unset
