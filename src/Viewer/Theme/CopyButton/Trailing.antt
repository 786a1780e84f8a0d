-- ===== src/Viewer/Theme/CopyButton/Trailing.antt =====
-- The newlines at the end of a text that is copied.
use p2p_file_share.Base.{
  ℕ, zero, suc, ◌+◌, ◌-◌, ◌<◌, ◌≤◌, ◌≡◌, refl, ap, ◌∙◌, sym, leb, true, false, Bool-cases, inl, inr,
  Text, length, take, arith,
}
use p2p_file_share.Viewer.Theme.CopyButton.{newline_at_end, count_newlines, copy_text}

-- How many units the loop has counted: those are newlines, and no more follow.
abbrev pub IsCount : Text → ℕ → Type 0
IsCount t k =
    (k ≤ length t) × ((j : ℕ) → j < k → newline_at_end j t ≡ true) × (newline_at_end k t ≡ false)

newline-within : (k : ℕ) (t : Text) → newline_at_end k t ≡ true → k < length t
unfolding newline_at_end
newline-within k t h = ground (arith, h)

count_newlines-IsCount :
    (fuel k : ℕ) (t : Text)
    → length t < fuel + k
    → k ≤ length t
    → ((j : ℕ) → j < k → newline_at_end j t ≡ true)
    → IsCount t (count_newlines fuel k t)
unfolding count_newlines
count_newlines-IsCount zero k t room le before = absurd (omega (arith, room, le))
count_newlines-IsCount (suc fuel) k t room le before = elim (Bool-cases (newline_at_end k t)) [
  | inl e ↦ rw e (
      count_newlines-IsCount fuel (k + 1) t (omega (arith, room))
        (omega (arith, newline-within k t e)) (one_more e))
  | inr e ↦ rw e (le, before, e)
]
  where
    one_more : newline_at_end k t ≡ true → (j : ℕ) → j < k + 1 → newline_at_end j t ≡ true
    one_more e j m = elim (Bool-cases (leb k j)) [
      | inl f ↦
          let same : k ≡ j = ground (arith, f, m) in ap (λ n. newline_at_end n t) (sym same) ∙ e
      | inr f ↦ before j (ground (arith, f))
    ]

-- The text that is copied is the text without its last units, as many as there are newlines at its end:
-- each of those is a newline, and the unit before them is none.
pub copy_text_lem : (t : Text) → (k : ℕ) × (copy_text t ≡ take (length t - k) t) × IsCount t k
unfolding copy_text
copy_text_lem t = (
  count_newlines (suc (length t)) 0 t,
  refl,
  count_newlines-IsCount (suc (length t)) 0 t (omega arith) (omega arith)
      (λ j m. absurd (omega (arith, m))),
)
