-- ===== src/Stream/Words.antt =====
-- Reading a word that stands at the head of a stream.
use p2p_file_share.Base.{ℕ, ◌≡◌, refl, true, false, [], ◌∷◌, ◌++◌, Text, is_empty}
use p2p_file_share.Stream.Defs.{
  Stream, of_text, is_space, skip_space, take_word, drop_word, sentry, get_word,
}

abbrev pub NoSpace : Text → Type 0
NoSpace [] = Unit
NoSpace (c ∷ s) = (is_space c ≡ false) × NoSpace s

-- What `>>` reads as one word.
abbrev pub IsWord : Text → Type 0
IsWord [] = ⊥
IsWord (c ∷ s) = (is_space c ≡ false) × NoSpace s

-- The text that follows a word: nothing, or a blank first.
abbrev pub EndsWord : Text → Type 0
EndsWord [] = Unit
EndsWord (c ∷ s) = is_space c ≡ true

pub IsWord-NoSpace : (w : Text) → IsWord w → NoSpace w
IsWord-NoSpace [] h = tt
IsWord-NoSpace (c ∷ s) h = h

pub is_empty-IsWord : (w : Text) → IsWord w → is_empty w ≡ false
is_empty-IsWord [] h = absurd h
is_empty-IsWord (c ∷ w) h = refl

pub take_word-append : (w r : Text) → NoSpace w → EndsWord r → take_word (w ++ r) ≡ w
unfolding take_word
take_word-append [] [] h k = refl
take_word-append [] (c ∷ r) h k = rw k
take_word-append (c ∷ w) r h k = rw (h.0, take_word-append w r h.1 k)

pub drop_word-append : (w r : Text) → NoSpace w → EndsWord r → drop_word (w ++ r) ≡ r
unfolding drop_word
drop_word-append [] [] h k = refl
drop_word-append [] (c ∷ r) h k = rw k
drop_word-append (c ∷ w) r h k = rw (h.0) (drop_word-append w r h.1 k)

-- Where a stream stands after a word that `r` follows.
abbrev pub after_word : Text → Stream
after_word r = record { rest = r; eof = is_empty r; fail = false }

pub get_word_lem :
    (old w r : Text) → IsWord w → EndsWord r → get_word old (of_text (w ++ r)) ≡ (w, after_word r)
unfolding get_word sentry skip_space
get_word_lem old [] r h k = absurd h
get_word_lem old (c ∷ w) r h k =
    rw (h.0, take_word-append (c ∷ w) r h k, drop_word-append (c ∷ w) r h k)

-- The blank that ends one word does not hinder the next.
pub get_word-space :
    (b : ℕ) (old w r : Text)
    → is_space b ≡ true
    → IsWord w
    → EndsWord r
    → get_word old (after_word (b ∷ w ++ r)) ≡ (w, after_word r)
unfolding get_word sentry skip_space
get_word-space b old [] r e h k = absurd h
get_word-space b old (c ∷ w) r e h k =
    rw (e, h.0, take_word-append (c ∷ w) r h k, drop_word-append (c ∷ w) r h k)
