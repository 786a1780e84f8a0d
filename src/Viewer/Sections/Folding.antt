-- ===== src/Viewer/Sections/Folding.antt =====
-- A section that folds and unfolds.
use p2p_file_share.Base.{
  ◌-◌, ◌≡◌, ap, ◌∙◌, true, false, ◌⊕◌, arith, Text, lit, length, length-append, take, take-append,
}
use p2p_file_share.Viewer.Sections.{Section, with_ending, toggle_visibility}

-- An ending is replaced by another.
pub with_ending-append :
    (base ending other : Text) → with_ending (length ending) other (base ⊕ ending) ≡ base ⊕ other
unfolding with_ending
with_ending-append base ending other =
    let front : length (base ⊕ ending) - length ending ≡ length base =
      omega (arith, length-append base ending) in
    ap (λ n. take n (base ⊕ ending) ⊕ other) front ∙ ap (λ s. s ⊕ other) (take-append base ending)

-- The two states of a section whose image has a name with that beginning.
abbrev pub unfolded : Text → Section
unfolded base = record {
  content_shown = true;
  summary_shown = false;
  has_opened = true;
  has_closed = false;
  src = base ⊕ lit "open.png";
}

abbrev pub folded : Text → Section
folded base = record {
  content_shown = false;
  summary_shown = true;
  has_opened = false;
  has_closed = true;
  src = base ⊕ lit "closed.png";
}

-- A click takes a section from each of its two states to the other, with the image that belongs there.
pub toggle_visibility_lem :
    (base : Text)
    → (toggle_visibility (unfolded base) ≡ folded base)
      × (toggle_visibility (folded base) ≡ unfolded base)
unfolding toggle_visibility
toggle_visibility_lem base = (
  ap (λ s. record (folded base) { src = s })
      (with_ending-append base (lit "open.png") (lit "closed.png")),
  ap (λ s. record (unfolded base) { src = s })
      (with_ending-append base (lit "closed.png") (lit "open.png")),
)
