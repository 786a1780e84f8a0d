-- ===== src/Stream/Decimal.antt =====
-- What `std::to_string` prints, `>>` on `size_t` and `std::stoi` read back.
use p2p_file_share.Base.{
  sym, append-nil, ℕ, zero, suc, ◌+◌, ◌/◌, ◌%◌, ◌^◌, ◌<◌, ◌≡◌, refl, ap, ◌∙◌, true, false, inl, inr,
  [], ◌∷◌, ◌++◌, append-nil, arith, Text, is_empty, Bool-cases, ltb, ok,
}
use p2p_file_share.Stream.Defs.{
  of_text, is_space, has_digit, skip_space, read_sign, read_digits, sentry, get_size, stoi,
  print_digits, to_string,
}
use p2p_file_share.Stream.Words.{NoSpace, IsWord, after_word}

read_digits-print_digits :
    (f n : ℕ) (after : Text) → n < f → read_digits 0 (print_digits f n after) ≡ read_digits n after
unfolding print_digits read_digits
read_digits-print_digits zero n after h = elim h [ ]
read_digits-print_digits (suc f) n after h =
    ground (arith, read_digits-print_digits f (n / 10) ((48 + n % 10) ∷ after))

has_digit-print_digits :
    (f n : ℕ) (after : Text) → n < f → has_digit (print_digits f n after) ≡ true
unfolding print_digits
has_digit-print_digits zero n after h = elim h [ ]
has_digit-print_digits (suc f) n after h =
    ground (arith, has_digit-print_digits f (n / 10) ((48 + n % 10) ∷ after))

print_digits-append :
    (f n : ℕ) (after r : Text) → print_digits f n after ++ r ≡ print_digits f n (after ++ r)
unfolding print_digits
print_digits-append zero n after r = refl
print_digits-append (suc f) n after r =
    ground (arith, print_digits-append f (n / 10) ((48 + n % 10) ∷ after) r)

print_digits-NoSpace : (f n : ℕ) (after : Text) → NoSpace after → NoSpace (print_digits f n after)
unfolding print_digits
print_digits-NoSpace zero n after h = h
print_digits-NoSpace (suc f) n after h = elim (Bool-cases (ltb n 10)) [
  | inl e ↦ rw e (ground arith, h)
  | inr e ↦ rw e (print_digits-NoSpace f (n / 10) _ (ground arith, h))
]

skip_space-digit : (t : Text) → has_digit t ≡ true → skip_space t ≡ t
unfolding skip_space
skip_space-digit [] h = refl
skip_space-digit (c ∷ t) h = ground arith

read_sign-digit : (t : Text) → has_digit t ≡ true → read_sign t ≡ (false, t)
unfolding read_sign
read_sign-digit [] h = cc
read_sign-digit (c ∷ t) h = ground arith

is_empty-digit : (t : Text) → has_digit t ≡ true → is_empty t ≡ false
is_empty-digit [] h = cc
is_empty-digit (c ∷ t) h = refl

read_digits-stop : (n : ℕ) (r : Text) → has_digit r ≡ false → read_digits n r ≡ (n, r)
unfolding read_digits
read_digits-stop n [] h = refl
read_digits-stop n (c ∷ r) h = rw h

-- The text of a number with `r` after it.
abbrev Numeral : ℕ → Text → Text → Type 0
Numeral n r t = (has_digit t ≡ true) × (read_digits 0 t ≡ (n, r))

to_string-Numeral : (n : ℕ) (r : Text) → has_digit r ≡ false → Numeral n r (to_string n ++ r)
unfolding to_string
to_string-Numeral n r h = rw (print_digits-append (suc n) n [] r) (
  has_digit-print_digits (suc n) n r (omega arith),
  read_digits-print_digits (suc n) n r (omega arith) ∙ read_digits-stop n r h,
)

pub to_string-NoSpace : (n : ℕ) → NoSpace (to_string n)
unfolding to_string
to_string-NoSpace n = print_digits-NoSpace (suc n) n [] tt

NoSpace-IsWord : (t : Text) → has_digit t ≡ true → NoSpace t → IsWord t
NoSpace-IsWord [] h k = cc
NoSpace-IsWord (c ∷ t) h k = k

pub to_string-IsWord : (n : ℕ) → IsWord (to_string n)
unfolding to_string
to_string-IsWord n =
    NoSpace-IsWord _ (has_digit-print_digits (suc n) n [] (omega arith)) (to_string-NoSpace n)

get_size-Numeral :
    (old n : ℕ) (r t : Text)
    → n < 2 ^ 64
    → Numeral n r t
    → get_size old (after_word t) ≡ (n, after_word r)
unfolding get_size sentry
get_size-Numeral old n r t h (d, e) =
    rw (is_empty-digit t d, skip_space-digit t d, is_empty-digit t d, read_sign-digit t d, d, e)
      (ground arith)

-- `>>` reads back a number below 2 ^ 64 that `to_string` printed.
pub get_size-to_string :
    (old n : ℕ) (r : Text)
    → n < 2 ^ 64
    → has_digit r ≡ false
    → get_size old (after_word (to_string n ++ r)) ≡ (n, after_word r)
get_size-to_string old n r h k = get_size-Numeral old n r _ h (to_string-Numeral n r k)

-- The same at the start of a stream.
pub of_text-to_string :
    (n : ℕ) (r : Text)
    → has_digit r ≡ false
    → of_text (to_string n ++ r) ≡ after_word (to_string n ++ r)
of_text-to_string n r k = rw (is_empty-digit _ (to_string-Numeral n r k).0)

stoi-Numeral :
    (n : ℕ) (r t : Text)
    → n < 2 ^ 31
    → Numeral n r t
    → stoi t ≡ ok (record { negative = false; size = n })
unfolding stoi
stoi-Numeral n r t h (d, e) = rw (skip_space-digit t d, read_sign-digit t d, d, e) (ground arith)

pub stoi-to_string :
    (n : ℕ) → n < 2 ^ 31 → stoi (to_string n) ≡ ok (record { negative = false; size = n })
stoi-to_string n h = stoi-Numeral n [] _ h (rw append-nil at (to_string-Numeral n [] refl))

-- A blank before the number is skipped.
pub get_size-space :
    (b old : ℕ) (t : Text)
    → is_space b ≡ true
    → has_digit t ≡ true
    → get_size old (after_word (b ∷ t)) ≡ get_size old (after_word t)
unfolding get_size sentry skip_space
get_size-space b old t e d = rw (e, is_empty-digit t d, skip_space-digit t d)

pub has_digit-to_string : (n : ℕ) (r : Text) → has_digit (to_string n ++ r) ≡ true
unfolding to_string
has_digit-to_string n r =
    rw (print_digits-append (suc n) n [] r) (has_digit-print_digits (suc n) n r (omega arith))

-- The number at the start of a stream.
pub get_size-of_text :
    (old n : ℕ) (r : Text)
    → n < 2 ^ 64
    → has_digit r ≡ false
    → get_size old (of_text (to_string n ++ r)) ≡ (n, after_word r)
get_size-of_text old n r h k =
    ap (get_size old) (of_text-to_string n r k) ∙ get_size-to_string old n r h k

pub read_digits-to_string : (n : ℕ) → (read_digits 0 (to_string n)).0 ≡ n
read_digits-to_string n =
    ap (λ t. (read_digits 0 t).0) (sym (append-nil (to_string n)))
    ∙ ap (λ (p : ℕ × Text). p.0) ((to_string-Numeral n [] refl).1)

pub has_digit-to_string_nil : (n : ℕ) → has_digit (to_string n) ≡ true
has_digit-to_string_nil n = ap has_digit (sym (append-nil (to_string n))) ∙ has_digit-to_string n []
