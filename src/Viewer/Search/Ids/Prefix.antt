-- ===== src/Viewer/Search/Ids/Prefix.antt =====
-- The ids of names, and their beginnings.
use p2p_file_share.Base.{
  ℕ, ◌≡◌, refl, Bool, true, false, ◌==◌, ◌&&◌, [], ◌∷◌, arith, ◌<◌, ltb, Text, inl, inr, Bool-cases,
  ◌/◌, ◌%◌,
}
use p2p_file_share.Client.Hash.{hex_digit}
use p2p_file_share.Client.Hash.Digests.{hex_digit-injective}
use p2p_file_share.Viewer.Strings.{starts_with}
use p2p_file_share.Viewer.Search.Ids.{is_kept, convert_unit, convert_to_id}

convert_unit-kept : (c : ℕ) → is_kept c ≡ true → convert_unit c ≡ c ∷ []
unfolding convert_unit
convert_unit-kept c h = rw h

-- The escape of a unit below 128 that is not kept.
convert_unit-escaped :
    (c : ℕ) → is_kept c ≡ false → convert_unit c ≡ 95 ∷ hex_digit (c / 16) ∷ hex_digit (c % 16) ∷ []
unfolding convert_unit hex_digit
convert_unit-escaped c h = elim (Bool-cases (ltb c 16)) [
  | inl e ↦
      let high : c / 16 ≡ 0 = ground (arith, e) in
      let low : c % 16 ≡ c = ground (arith, e) in rw (h, e, high, low) refl
  | inr e ↦ rw (h, e) refl
]

hex_digit-test : (m n : ℕ) → m < 16 → n < 16 → (hex_digit m == hex_digit n) ≡ (m == n)
hex_digit-test m n k l = elim (Bool-cases (m == n)) [
  | inl e ↦ let same : m ≡ n = ground (arith, e) in rw same (ground arith)
  | inr e ↦
      let injective : hex_digit m ≡ hex_digit n → m ≡ n = λ h. hex_digit-injective m n h k l in
      ground (arith, e, injective)
]

-- Two escapes are one when the units are.
escape-test :
    (a b : ℕ)
    → a < 128
    → b < 128
    → ((hex_digit (a / 16) == hex_digit (b / 16)) && (hex_digit (a % 16) == hex_digit (b % 16)))
      ≡ (a == b)
escape-test a b k l =
    rw
      (
        hex_digit-test (a / 16) (b / 16) (omega arith) (omega arith),
        hex_digit-test (a % 16) (b % 16) (omega arith) (omega arith),
      )
      (ground arith)

kept_below : (c : ℕ) → is_kept c ≡ false → c < 128
kept_below c h = ground (arith, h)

not_underscore : (c : ℕ) → is_kept c ≡ true → (c == 95) ≡ false
not_underscore c h = ground (arith, h)

kept_apart : (a b : ℕ) → is_kept a ≡ true → is_kept b ≡ false → (a == b) ≡ false
kept_apart a b h k = ground (arith, h, k)

and_assoc : (x y z : Bool) → (x && (y && z)) ≡ ((x && y) && z)
and_assoc true y z = refl
and_assoc false y z = refl

-- The id of a name begins with the id of a text exactly when the name begins with the text.
pub starts_with-convert_to_id :
    (s t : Text) → starts_with (convert_to_id s) (convert_to_id t) ≡ starts_with s t
unfolding starts_with convert_to_id
starts_with-convert_to_id [] t = refl
starts_with-convert_to_id (a ∷ s) [] = elim (Bool-cases (is_kept a)) [
  | inl h ↦ rw (convert_unit-kept a h) refl
  | inr h ↦ rw (convert_unit-escaped a h) refl
]
starts_with-convert_to_id (a ∷ s) (b ∷ t) = elim (Bool-cases (is_kept a)) [
  | inl h ↦ elim (Bool-cases (is_kept b)) [
    | inl k ↦ rw (convert_unit-kept a h, convert_unit-kept b k, starts_with-convert_to_id s t) refl
    | inr k ↦
        rw (convert_unit-kept a h, convert_unit-escaped b k)
          (ground (arith, not_underscore a h, kept_apart a b h k))
  ]
  | inr h ↦ elim (Bool-cases (is_kept b)) [
    | inl k ↦
        rw (convert_unit-escaped a h, convert_unit-kept b k)
          (ground (arith, not_underscore b k, kept_apart b a k h))
    | inr k ↦
        rw
          (
            convert_unit-escaped a h,
            convert_unit-escaped b k,
            starts_with-convert_to_id s t,
            ← escape-test a b (kept_below a h) (kept_below b k),
          )
          (and_assoc (hex_digit (a / 16) == hex_digit (b / 16)) _ (starts_with s t))
  ]
]
