-- ===== src/Common/TrackerInfo/Lines.antt =====
-- The lines of a tracker file.
use p2p_file_share.Base.{
  ℕ, zero, suc, ◌/◌, ◌%◌, ◌^◌, ◌<◌, ◌≡◌, ◌≢◌, refl, ◌∙◌, ◌==◌, ltb, false, Bool-cases, Option-cases,
  inl, inr, Option, none, some, List, [], ◌∷◌, ◌++◌, append_assoc, arith, Text, length,
}
use p2p_file_share.Stream.{has_digit, get_size, print_digits, to_string as number_to_string}
use p2p_file_share.Stream.Words.{
  is_empty-IsWord, NoSpace, IsWord, IsWord-NoSpace, after_word, get_word_lem,
}
use p2p_file_share.Stream.Decimal.{
  get_size-to_string, get_size-space, has_digit-to_string, to_string-NoSpace,
}
use p2p_file_share.Models.Endpoint.{Endpoint}
use p2p_file_share.Common.TrackerInfo.{
  Loaded, loaded, exits, overruns, c_string, scan_line, next_line, add_tracker, read_trackers,
}

-- No byte is 0.
abbrev pub NoNul : Text → Type 0
NoNul [] = Unit
NoNul (c ∷ s) = ((c == 0) ≡ false) × NoNul s

pub NoNul-append : (s t : Text) → NoNul s → NoNul t → NoNul (s ++ t)
NoNul-append [] t h k = k
NoNul-append (c ∷ s) t h k = (h.0, NoNul-append s t h.1 k)

print_digits-NoNul : (f n : ℕ) (after : Text) → NoNul after → NoNul (print_digits f n after)
unfolding print_digits
print_digits-NoNul zero n after h = h
print_digits-NoNul (suc f) n after h = elim (Bool-cases (ltb n 10)) [
  | inl e ↦ rw e (ground arith, h)
  | inr e ↦ rw e (print_digits-NoNul f (n / 10) _ (ground arith, h))
]

pub c_string-append : (s r : Text) → NoNul s → c_string (s ++ 0 ∷ r) ≡ some s
unfolding c_string
c_string-append [] r h = refl
c_string-append (c ∷ s) r h = rw (h.0, c_string-append s r h.1)

-- No byte is a newline.
abbrev pub NoBreak : Text → Type 0
NoBreak [] = Unit
NoBreak (c ∷ s) = ((c == 10) ≡ false) × NoBreak s

pub NoBreak-append : (s t : Text) → NoBreak s → NoBreak t → NoBreak (s ++ t)
NoBreak-append [] t h k = k
NoBreak-append (c ∷ s) t h k = (h.0, NoBreak-append s t h.1 k)

NoSpace-NoBreak : (s : Text) → NoSpace s → NoBreak s
NoSpace-NoBreak [] h = tt
NoSpace-NoBreak (c ∷ s) h = (ground (arith, h.0), NoSpace-NoBreak s h.1)

pub next_line-append : (s r : Text) → NoBreak s → NoNul s → next_line (s ++ 10 ∷ r) ≡ some r
unfolding next_line
next_line-append [] r h k = refl
next_line-append (c ∷ s) r h k = rw (k.0, h.0) (next_line-append s r h.1 k.1)

-- A text that ends before a newline has none behind it.
pub next_line-last : (s r : Text) → NoBreak s → NoNul s → next_line (s ++ 0 ∷ r) ≡ none
unfolding next_line
next_line-last [] r h k = refl
next_line-last (c ∷ s) r h k = rw (k.0, h.0) (next_line-last s r h.1 k.1)

length-next_line : (m r : Text) → next_line m ≡ some r → length r < length m
unfolding next_line
length-next_line [] r e = cc
length-next_line (c ∷ m) r e = ground (arith, e, length-next_line m r)

-- The loop ends: each round goes behind a newline.
pub read_trackers_ends :
    (fuel : ℕ) (memory : Text) → length memory < fuel → read_trackers fuel memory ≢ none
unfolding read_trackers
read_trackers_ends zero memory h = absurd (omega (arith, h))
read_trackers_ends (suc fuel) memory h = elim (Option-cases (c_string memory)) [
  | inl e ↦ rw (read_trackers, e) (λ k. cc k)
  | inr (line, e) ↦ elim (Option-cases (scan_line line)) [
    | inl f ↦ rw (read_trackers, e, f) (λ k. cc k)
    | inr (t, f) ↦ elim (Option-cases (next_line memory)) [
      | inl g ↦ rw (read_trackers, e, f, g) (λ k. cc k)
      | inr (rest, g) ↦
          rw (read_trackers, e, f, g)
            (added t (read_trackers fuel rest)
              (read_trackers_ends fuel rest (omega (arith, h, length-next_line memory rest g))))
    ]
  ]
]
  where
    added : (t : Endpoint) (o : Option Loaded) → o ≢ none → add_tracker t o ≢ none
    added t none n = λ k. n refl
    added t (some (loaded ts)) n = λ k. cc k
    added t (some exits) n = λ k. cc k
    added t (some overruns) n = λ k. cc k

-- An address that is one word, without a 0 in it, and a port that is a uint16_t.
pub record IsInfo (t : Endpoint) : Type 0 where
  pub ip_word : IsWord t.ip
  pub ip_bytes : NoNul t.ip
  pub port_fits : t.port < 2 ^ 16

abbrev pub AreInfo : List Endpoint → Type 0
AreInfo [] = Unit
AreInfo (t ∷ ts) = IsInfo t × AreInfo ts

-- An entry of the file, and a file of entries that each end in a newline.
unfoldable pub entry : Endpoint → Text
entry t = t.ip ++ b' ' ∷ number_to_string t.port

unfoldable pub print_info : List Endpoint → Text
unfolding entry
print_info [] = []
print_info (t ∷ ts) = entry t ++ 10 ∷ print_info ts

pub entry-NoNul : (t : Endpoint) → IsInfo t → NoNul (entry t)
unfolding entry number_to_string
entry-NoNul t h =
    NoNul-append t.ip (b' ' ∷ number_to_string t.port) h.ip_bytes
      (refl, print_digits-NoNul (suc t.port) t.port [] tt)

pub print_info-NoNul : (ts : List Endpoint) → AreInfo ts → NoNul (print_info ts)
unfolding print_info
print_info-NoNul [] h = tt
print_info-NoNul (t ∷ ts) h =
    NoNul-append (entry t) (10 ∷ print_info ts) (entry-NoNul t h.0) (refl, print_info-NoNul ts h.1)

pub entry-NoBreak : (t : Endpoint) → IsInfo t → NoBreak (entry t)
unfolding entry
entry-NoBreak t h =
    NoBreak-append t.ip (b' ' ∷ number_to_string t.port)
      (NoSpace-NoBreak t.ip (IsWord-NoSpace t.ip h.ip_word))
      (refl, NoSpace-NoBreak (number_to_string t.port) (to_string-NoSpace t.port))

-- What follows an entry: nothing, or a newline.
abbrev EndsEntry : Text → Type 0
EndsEntry [] = Unit
EndsEntry (c ∷ r) = c ≡ 10

has_digit-EndsEntry : (r : Text) → EndsEntry r → has_digit r ≡ false
has_digit-EndsEntry [] k = refl
has_digit-EndsEntry (c ∷ r) k = ground (arith, k)

pub scan_line-entry :
    (t : Endpoint) (r : Text) → IsInfo t → EndsEntry r → scan_line (entry t ++ r) ≡ some t
unfolding scan_line entry
scan_line-entry t r h k =
    let rest = number_to_string t.port ++ r in
    let split : entry t ++ r ≡ t.ip ++ b' ' ∷ rest =
      append_assoc t.ip (b' ' ∷ number_to_string t.port) r in
    let port : get_size 0 (after_word (b' ' ∷ rest)) ≡ (t.port, after_word r) =
      get_size-space 32 0 rest refl (has_digit-to_string t.port r)
      ∙ get_size-to_string 0 t.port r (omega (arith, h.port_fits)) (has_digit-EndsEntry r k) in
    let fits : t.port % 2 ^ 16 ≡ t.port = omega (arith, h.port_fits) in
    rw
      (
        split,
        get_word_lem [] t.ip (b' ' ∷ rest) h.ip_word refl,
        port,
        is_empty-IsWord t.ip h.ip_word,
        fits,
      )
      refl
