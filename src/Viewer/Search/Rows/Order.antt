-- ===== src/Viewer/Search/Rows/Order.antt =====
-- The rows that the arrow keys find.
use p2p_file_share.Base.{
  ℕ, zero, suc, ◌+◌, ◌≤◌, ◌<◌, ◌≡◌, refl, ap, ◌∙◌, Bool, true, false, Option, none, some, List, [],
  ◌∷◌, arith, get_elem?, length, inl, inr, Bool-cases, Option-cases, leb,
}
use p2p_file_share.Viewer.Search.{Row}
use p2p_file_share.Viewer.Search.Rows.{nav_next, nav_next_from, nav_prev}

-- Whether there is a row of that index and it is shown.
abbrev pub is_shown : Option Row → Bool
is_shown none = false
is_shown (some row) = row.shown

get_elem?-behind {ℓ} : {A : Type ℓ} (xs : List A) (i : ℕ) → length xs ≤ i → get_elem? xs i ≡ none
get_elem?-behind [] i h = refl
get_elem?-behind (x ∷ xs) zero h = absurd (omega arith)
get_elem?-behind (x ∷ xs) (suc i) h = get_elem?-behind xs i (omega arith)

get_elem?-within {ℓ} : {A : Type ℓ} (xs : List A) (i : ℕ) → get_elem? xs i ≡ none → length xs ≤ i
get_elem?-within [] i h = omega arith
get_elem?-within (x ∷ xs) zero h = cc
get_elem?-within (x ∷ xs) (suc i) h = omega (arith, get_elem?-within xs i h)

-- What a search upwards gives: the first shown row from the index on, or no row there is shown.
abbrev pub IsNext : ℕ → List Row → Option ℕ → Type 0
IsNext index rows none = (j : ℕ) → index ≤ j → is_shown (get_elem? rows j) ≡ false
IsNext index rows (some k) =
    (index ≤ k)
    × (is_shown (get_elem? rows k) ≡ true)
    × ((j : ℕ) → index ≤ j → j < k → is_shown (get_elem? rows j) ≡ false)

-- Down to the index 0.
abbrev pub IsPrevious : ℕ → List Row → Option ℕ → Type 0
IsPrevious bound rows none = (j : ℕ) → j < bound → is_shown (get_elem? rows j) ≡ false
IsPrevious bound rows (some k) =
    (k < bound)
    × (is_shown (get_elem? rows k) ≡ true)
    × ((j : ℕ) → k < j → j < bound → is_shown (get_elem? rows j) ≡ false)

-- An index from `index` on is it or one behind it.
from_here :
    (rows : List Row) (index j : ℕ)
    → is_shown (get_elem? rows index) ≡ false
    → index ≤ j
    → (index + 1 ≤ j → is_shown (get_elem? rows j) ≡ false)
    → is_shown (get_elem? rows j) ≡ false
from_here rows index j h k later = elim (Bool-cases (leb (index + 1) j)) [
  | inl e ↦ later (ground (arith, e))
  | inr e ↦
      let same : j ≡ index = ground (arith, e) in ap (λ i. is_shown (get_elem? rows i)) same ∙ h
]

IsNext-skip :
    (index : ℕ) (rows : List Row) (r : Option ℕ)
    → is_shown (get_elem? rows index) ≡ false
    → IsNext (index + 1) rows r
    → IsNext index rows r
IsNext-skip index rows none h n = λ j k. from_here rows index j h k (n j)
IsNext-skip index rows (some k) h n =
    (omega (arith, n.0), n.1, λ j l m. from_here rows index j h l (λ b. n.2 j b m))

nav_next_from-IsNext :
    (fuel index : ℕ) (rows : List Row)
    → length rows < fuel + index
    → IsNext index rows (nav_next_from fuel index rows)
unfolding nav_next_from
nav_next_from-IsNext zero index rows h = λ j k. ap is_shown (get_elem?-behind rows j (omega arith))
nav_next_from-IsNext (suc fuel) index rows h = elim (Option-cases (get_elem? rows index)) [
  | inl e ↦
      let stops : nav_next_from (suc fuel) index rows ≡ none = rw (e, nav_next_from) refl in
      rw stops (λ j k.
        ap is_shown (get_elem?-behind rows j (omega (arith, get_elem?-within rows index e))))
  | inr (row, e) ↦ elim (Bool-cases row.shown) [
    | inl s ↦
        let found : nav_next_from (suc fuel) index rows ≡ some index =
          rw (e, nav_next_from, s) refl in
        rw found (omega arith, ap is_shown e ∙ s, λ j k l. absurd (omega arith))
    | inr s ↦
        let goes_on : nav_next_from (suc fuel) index rows ≡ nav_next_from fuel (index + 1) rows =
          rw (e, nav_next_from, s) refl in
        rw goes_on (
          IsNext-skip index rows _ (ap is_shown e ∙ s)
            (nav_next_from-IsNext fuel (index + 1) rows (omega arith)))
  ]
]

-- The search from an index upwards gives the first row there that is shown, and nothing only when
-- none is.
pub nav_next-IsNext : (index : ℕ) (rows : List Row) → IsNext index rows (nav_next index rows)
unfolding nav_next
nav_next-IsNext index rows = nav_next_from-IsNext (suc (length rows)) index rows (omega arith)

up_to_here :
    (rows : List Row) (index j : ℕ)
    → is_shown (get_elem? rows index) ≡ false
    → j < suc index
    → (j < index → is_shown (get_elem? rows j) ≡ false)
    → is_shown (get_elem? rows j) ≡ false
up_to_here rows index j h k later = elim (Bool-cases (leb index j)) [
  | inr e ↦ later (ground (arith, e))
  | inl e ↦
      let same : j ≡ index = ground (arith, e) in ap (λ i. is_shown (get_elem? rows i)) same ∙ h
]

IsPrevious-skip :
    (index : ℕ) (rows : List Row) (r : Option ℕ)
    → is_shown (get_elem? rows index) ≡ false
    → IsPrevious index rows r
    → IsPrevious (suc index) rows r
IsPrevious-skip index rows none h p = λ j k. up_to_here rows index j h k (p j)
IsPrevious-skip index rows (some k) h p =
    (omega (arith, p.0), p.1, λ j l m. up_to_here rows index j h m (λ b. p.2 j l b))

-- The search downwards from an index below the number of rows gives the last row up to there that is
-- shown, and nothing only when none is.
pub nav_prev-IsPrevious :
    (bound : ℕ) (rows : List Row)
    → bound ≤ length rows
    → IsPrevious bound rows (nav_prev bound rows)
unfolding nav_prev
nav_prev-IsPrevious zero rows h = λ j k. absurd (omega arith)
nav_prev-IsPrevious (suc index) rows h = elim (Option-cases (get_elem? rows index)) [
  | inl e ↦ absurd (omega (arith, get_elem?-within rows index e))
  | inr (row, e) ↦ elim (Bool-cases row.shown) [
    | inl s ↦
        let found : nav_prev (suc index) rows ≡ some index = rw (e, nav_prev, s) refl in
        rw found (omega arith, ap is_shown e ∙ s, λ j k l. absurd (omega arith))
    | inr s ↦
        let goes_on : nav_prev (suc index) rows ≡ nav_prev index rows = rw (e, nav_prev, s) refl in
        rw goes_on (
          IsPrevious-skip index rows _ (ap is_shown e ∙ s)
            (nav_prev-IsPrevious index rows (omega arith)))
  ]
]
