-- ===== src/Client/Hash/Digests.antt =====
-- The text of a digest.
use p2p_file_share.Base.{ℕ, ◌*◌, ◌<◌, ◌≡◌, refl, ◌/◌, ◌%◌, List, [], ◌∷◌, arith, length, false}
use p2p_file_share.Stream.{is_space}
use p2p_file_share.Stream.Words.{NoSpace}
use p2p_file_share.Client.Hash.{hex_digit, hex_bytes}

abbrev pub AllBytes : List ℕ → Type 0
AllBytes [] = Unit
AllBytes (b ∷ bytes) = (b < 256) × AllBytes bytes

pub length-hex_bytes : (bytes : List ℕ) → length (hex_bytes bytes) ≡ 2 * length bytes
unfolding hex_bytes
length-hex_bytes [] = refl
length-hex_bytes (b ∷ bytes) = omega (arith, length-hex_bytes bytes)

pub hex_digit-injective : (m n : ℕ) → hex_digit m ≡ hex_digit n → m < 16 → n < 16 → m ≡ n
unfolding hex_digit
hex_digit-injective m n h k l = ground arith

hex_digit-not_space : (n : ℕ) → n < 16 → is_space (hex_digit n) ≡ false
unfolding hex_digit
hex_digit-not_space n h = ground arith

pub hex_bytes-NoSpace : (bytes : List ℕ) → AllBytes bytes → NoSpace (hex_bytes bytes)
unfolding hex_bytes
hex_bytes-NoSpace [] h = tt
hex_bytes-NoSpace (b ∷ bytes) h = (
  hex_digit-not_space (b / 16) (omega arith),
  (hex_digit-not_space (b % 16) (omega arith), hex_bytes-NoSpace bytes h.1),
)

byte-of_digits : (a b : ℕ) → a / 16 ≡ b / 16 → a % 16 ≡ b % 16 → a ≡ b
byte-of_digits a b h k = omega arith

-- Two digests with one text are one digest.
pub hex_bytes-injective :
    (xs ys : List ℕ) → AllBytes xs → AllBytes ys → hex_bytes xs ≡ hex_bytes ys → xs ≡ ys
unfolding hex_bytes
hex_bytes-injective [] [] h k e = refl
hex_bytes-injective [] (y ∷ ys) h k e = cc
hex_bytes-injective (x ∷ xs) [] h k e = cc
hex_bytes-injective (x ∷ xs) (y ∷ ys) h k e =
    let high =
      hex_digit-injective (x / 16) (y / 16) (ground (arith, e)) (omega arith) (omega arith) in
    let low =
      hex_digit-injective (x % 16) (y % 16) (ground (arith, e)) (omega arith) (omega arith) in
    cc (byte-of_digits x y high low, hex_bytes-injective xs ys h.1 k.1 (cc))
