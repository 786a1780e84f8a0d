-- ===== src/Stream/Defs.antt =====
-- The stream: what is left to read, and the two state bits.
use p2p_file_share.Base.{
  ℕ, ◌+◌, ◌-◌, ◌*◌, ◌/◌, ◌%◌, ◌^◌, zero, suc, Bool, true, false, not, ◌&&◌, ◌||◌, [], ◌∷◌, ◌==◌,
  leb, ltb, if◌then◌else◌, Text, is_empty, Checked, ok, throws, invalid_argument, out_of_range,
}

pub record Stream : Type 0 where
  pub rest : Text
  pub eof : Bool
  pub fail : Bool

-- std::stringstream ss(str)
abbrev pub of_text : Text → Stream
of_text s = record { rest = s; eof = false; fail = false }

-- isspace of the "C" locale
abbrev pub is_space : ℕ → Bool
is_space c = (c == 32) || (leb 9 c && leb c 13)

abbrev pub is_digit : ℕ → Bool
is_digit c = leb 48 c && leb c 57

unfoldable pub skip_space : Text → Text
skip_space [] = []
skip_space (c ∷ s) = let rest = skip_space s in if is_space c then rest else c ∷ s

unfoldable pub take_word : Text → Text
take_word [] = []
take_word (c ∷ s) = let rest = take_word s in if is_space c then [] else c ∷ rest

unfoldable pub drop_word : Text → Text
drop_word [] = []
drop_word (c ∷ s) = let rest = drop_word s in if is_space c then c ∷ s else rest

-- The sentry of a formatted extraction: whether it may go on, and the stream past the blanks.
unfoldable pub sentry : Stream → Bool × Stream
sentry s =
    let rest = skip_space s.rest in
    if s.eof || s.fail
    then (false, record s { fail = true })
    else if is_empty rest
    then (false, record { rest = []; eof = true; fail = true })
    else (true, record { rest = rest; eof = false; fail = false })

-- ss >> word
unfoldable pub get_word : Text → Stream → Text × Stream
get_word old s =
    let (go, s') = sentry s in
    let rest = drop_word s'.rest in
    if go
    then (take_word s'.rest, record { rest = rest; eof = is_empty rest; fail = false })
    else (old, s')

-- str().substr(tellg()): `tellg` is -1 once a state bit is set, and `substr` throws past the end.
unfoldable pub remainder : Stream → Checked Text
remainder s = if s.eof || s.fail then throws out_of_range else ok s.rest

-- An optional sign.
unfoldable pub read_sign : Text → Bool × Text
read_sign [] = (false, [])
read_sign (c ∷ s) =
    if c == b'-' then (true, s) else if c == b'+' then (false, s) else (false, c ∷ s)

-- The digits at the head, from the value so far, and what follows them.
unfoldable pub read_digits : ℕ → Text → ℕ × Text
read_digits n [] = (n, [])
read_digits n (c ∷ s) =
    let more = read_digits (n * 10 + (c - 48)) s in if is_digit c then more else (n, c ∷ s)

abbrev pub has_digit : Text → Bool
has_digit [] = false
has_digit (c ∷ s) = is_digit c

-- ss >> n for size_t: no digits give 0 and a failure, an overflow the largest value and a failure;
-- a minus sign negates modulo 2 ^ 64.
unfoldable pub get_size : ℕ → Stream → ℕ × Stream
get_size old s =
    let (go, s') = sentry s in
    let (negative, digits) = read_sign s'.rest in
    let (n, rest) = read_digits 0 digits in
    if not go
    then (old, s')
    else if not (has_digit digits)
    then (0, record { rest = digits; eof = is_empty digits; fail = true })
    else if leb (2 ^ 64) n
    then (2 ^ 64 - 1, record { rest = rest; eof = is_empty rest; fail = true })
    else (
      (if negative then (2 ^ 64 - n) % 2 ^ 64 else n),
      record { rest = rest; eof = is_empty rest; fail = false },
    )

-- The value of an `int`: whether it is below 0, and its size.
pub record IntValue : Type 0 where
  pub negative : Bool
  pub size : ℕ

-- The bounds of `int`.
abbrev pub fits_int : Bool → ℕ → Bool
fits_int negative n = if negative then leb n (2 ^ 31) else ltb n (2 ^ 31)

abbrev pub largest_int : Bool → IntValue
largest_int negative = record {
  negative = negative;
  size = if negative then 2 ^ 31 else 2 ^ 31 - 1;
}

-- ss >> n for int
unfoldable pub get_int : IntValue → Stream → IntValue × Stream
get_int old s =
    let (go, s') = sentry s in
    let (negative, digits) = read_sign s'.rest in
    let (n, rest) = read_digits 0 digits in
    if not go
    then (old, s')
    else if not (has_digit digits)
    then (
      record { negative = false; size = 0 },
      record { rest = digits; eof = is_empty digits; fail = true },
    )
    else if fits_int negative n
    then (
      record { negative = negative; size = n },
      record { rest = rest; eof = is_empty rest; fail = false },
    )
    else (largest_int negative, record { rest = rest; eof = is_empty rest; fail = true })

-- std::stoi
unfoldable pub stoi : Text → Checked IntValue
stoi s =
    let (negative, digits) = read_sign (skip_space s) in
    let (n, rest) = read_digits 0 digits in
    if not (has_digit digits)
    then throws invalid_argument
    else if fits_int negative n
    then ok (record { negative = negative; size = n })
    else throws out_of_range

-- std::to_string of an unsigned number, with enough fuel for its digits.
unfoldable pub print_digits : ℕ → ℕ → Text → Text
print_digits zero n after = after
print_digits (suc fuel) n after =
    let more = print_digits fuel (n / 10) ((48 + n % 10) ∷ after) in
    if ltb n 10 then (48 + n) ∷ after else more

unfoldable pub to_string : ℕ → Text
to_string n = print_digits (suc n) n []
