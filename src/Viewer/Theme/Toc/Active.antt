-- ===== src/Viewer/Theme/Toc/Active.antt =====
-- Which line update makes active.
use p2p_file_share.Base.{
  ℕ, zero, suc, ◌+◌, ◌<◌, ◌≡◌, refl, ap, ◌∙◌, sym, ◌==◌, ◌&&◌, Bool, true, false, not, Bool-cases,
  inl, inr, Option, none, some, some-eq, List, [], ◌∷◌, if◌then◌else◌, get_elem?, arith,
}
use p2p_file_share.Viewer.Theme.Toc.{Header, is_past, last_past, mark_lines, activate, update}

-- Whether there is a line of that index whose header was passed.
abbrev pub past_at : ℕ → List Header → Bool
past_at i [] = false
past_at zero (h ∷ hs) = is_past h
past_at (suc i) (h ∷ hs) = past_at i hs

-- The last line whose header was passed, read from the end.
abbrev last_of : List Header → Option ℕ
last_of [] = none
last_of (h ∷ hs) = elim (last_of hs) [
  | some i ↦ some (suc i)
  | none ↦ if is_past h then some 0 else none
]

abbrev pub from : ℕ → ℕ → Option ℕ → ℕ
from active i none = active
from active i (some k) = i + k

last_past-of :
    (active i : ℕ) (hs : List Header) → last_past active i hs ≡ from active i (last_of hs)
unfolding last_past
last_past-of active i [] = refl
last_past-of active i (h ∷ hs) =
    last_past-of (if is_past h then i else active) (i + 1) hs ∙ by_rest (last_of hs)
  where
    by_rest :
        (o : Option ℕ)
        → from (if is_past h then i else active) (i + 1) o
          ≡ from active i (elim o as (λ _. Option ℕ) [
            | some k ↦ some (suc k)
            | none ↦ if is_past h then some 0 else none
          ])
    by_rest (some k) = omega arith
    by_rest none = elim (Bool-cases (is_past h)) [ inl e ↦ rw e (omega arith) | inr e ↦ rw e refl ]

-- The line of an index is the last one whose header was passed; nothing is that none was.
abbrev pub IsLast : List Header → Option ℕ → Type 0
IsLast hs none = (j : ℕ) → past_at j hs ≡ false
IsLast hs (some k) = (past_at k hs ≡ true) × ((j : ℕ) → k < j → past_at j hs ≡ false)

last_of-IsLast : (hs : List Header) → IsLast hs (last_of hs)
last_of-IsLast [] = λ j. refl
last_of-IsLast (h ∷ hs) = by_rest (last_of hs) (last_of-IsLast hs)
  where
    none_behind : IsLast hs none → (j : ℕ) → 0 < j → past_at j (h ∷ hs) ≡ false
    none_behind l zero k = absurd (omega (arith, k))
    none_behind l (suc j) k = l j

    shift : (k : ℕ) → IsLast hs (some k) → (j : ℕ) → suc k < j → past_at j (h ∷ hs) ≡ false
    shift k l zero m = absurd (omega (arith, m))
    shift k l (suc j) m = l.1 j (omega (arith, m))

    none_at : is_past h ≡ false → IsLast hs none → (j : ℕ) → past_at j (h ∷ hs) ≡ false
    none_at e l zero = e
    none_at e l (suc j) = l j

    by_rest :
        (o : Option ℕ)
        → IsLast hs o
        → IsLast (h ∷ hs) (elim o as (λ _. Option ℕ) [
          | some k ↦ some (suc k)
          | none ↦ if is_past h then some 0 else none
        ])
    by_rest (some k) l = (l.0, shift k l)
    by_rest none l = elim (Bool-cases (is_past h)) [
      | inl e ↦ rw e (e, none_behind l)
      | inr e ↦ rw e (none_at e l)
    ]

-- The lines that are only marked.
marked-at :
    (hs : List Header) (i : ℕ) (h : Header)
    → get_elem? (mark_lines hs) i ≡ some h
    → (h.is_active ≡ false) × (h.is_above ≡ past_at i hs)
unfolding mark_lines
marked-at [] i h e = cc
marked-at (x ∷ hs) zero h e =
    let same = sym (some-eq e) in
    (ap (λ (y : Header). y.is_active) same, ap (λ (y : Header). y.is_above) same)
marked-at (x ∷ hs) (suc i) h e = marked-at hs i h e

suc_test : (i k : ℕ) → (suc i == suc k) ≡ (i == k)
suc_test i k = ground arith

suc_zero_test : (i : ℕ) → (suc i == 0) ≡ false
suc_zero_test i = ground arith

zero_suc_test : (k : ℕ) → (0 == suc k) ≡ false
zero_suc_test k = ground arith

and_false : (b : Bool) → (b && false) ≡ false
and_false true = refl
and_false false = refl

and_true : (b : Bool) → (b && true) ≡ b
and_true true = refl
and_true false = refl

-- A line of the table, once the line `k` is active.
lines-at :
    (hs : List Header) (k i : ℕ) (h : Header)
    → get_elem? (activate k (mark_lines hs)) i ≡ some h
    → (h.is_active ≡ (i == k)) × (h.is_above ≡ (past_at i hs && not (i == k)))
unfolding activate mark_lines
lines-at [] k i h e = cc
lines-at (x ∷ hs) zero zero h e =
    let same = sym (some-eq e) in
    (
      ap (λ (y : Header). y.is_active) same,
      ap (λ (y : Header). y.is_above) same ∙ sym (and_false (is_past x)),
    )
lines-at (x ∷ hs) zero (suc i) h e =
    let line = marked-at hs i h e in
    rw (suc_zero_test i) (line.0, line.1 ∙ sym (and_true (past_at i hs)))
lines-at (x ∷ hs) (suc k) zero h e =
    let same = sym (some-eq e) in
    rw (zero_suc_test k) (
      ap (λ (y : Header). y.is_active) same,
      ap (λ (y : Header). y.is_above) same ∙ sym (and_true (is_past x)),
    )
lines-at (x ∷ hs) (suc k) (suc i) h e = rw (suc_test i k) (lines-at hs k i h e)

-- After an update one line is active: that of the last header that was passed, or the first line where
-- none was; the lines of the other headers that were passed are marked as above it, and no others.
pub update_lem :
    (hs : List Header) (i : ℕ) (h : Header)
    → get_elem? (update hs) i ≡ some h
    → (o : Option ℕ) × IsLast hs o
      × (h.is_active ≡ (i == from 0 0 o))
      × (h.is_above ≡ (past_at i hs && not (i == from 0 0 o)))
unfolding update
update_lem hs i h e =
    let line = lines-at hs (last_past 0 0 hs) i h e in
    let same = last_past-of 0 0 hs in
    (
      last_of hs,
      last_of-IsLast hs,
      line.0 ∙ ap (λ k. i == k) same,
      line.1 ∙ ap (λ k. past_at i hs && not (i == k)) same,
    )
