-- ===== src/Viewer/Search/Place.antt =====
-- SearchBox.Search: where the window of the results stands, in pixels of the page.
use p2p_file_share.Base.{
  ℕ, ◌+◌, ◌-◌, ◌≤◌, ◌<◌, Bool-cases, inl, inr, if◌then◌else◌, ltb, leb, arith,
}
use p2p_file_share.Viewer.Resize.{Pixels, px, below, minus}

pub record Place : Type 0 where
  pub left : ℕ
  pub top : ℕ
  pub width : Pixels
  pub height : Pixels

-- A length that is cut where it would come nearer than 8 pixels to the end of the page.
unfoldable pub cut_length : ℕ → ℕ → ℕ → Pixels
unfolding minus
cut_length full start page =
    if ltb page (full + start + 8) then minus (minus (px page) start) 8 else px full

-- `x` and `y` are where the search box stands, and `offset_width` is the width of the results.
unfoldable pub place_results : ℕ → ℕ → ℕ → ℕ → ℕ → Place
unfolding cut_length
place_results x y offset_width max_width max_height =
    let moved = x + 150 - offset_width in
    let left = if ltb moved 10 then 10 else moved in
    record {
      left = left;
      top = y + 20;
      width = cut_length 300 left max_width;
      height = cut_length 400 (y + 20) max_height;
    }

-- A length that is at most the full one and ends 8 pixels before the page does; it is below 0 only
-- where the page ends before its start and those pixels.
abbrev pub Fits : ℕ → ℕ → ℕ → Pixels → Type 0
Fits full start page (px n) = (n ≤ full) × (start + n + 8 ≤ page)
Fits full start page (below n) = page < start + 8

cut_length-Fits : (full start page : ℕ) → Fits full start page (cut_length full start page)
unfolding cut_length minus
cut_length-Fits full start page = elim (Bool-cases (ltb page (full + start + 8))) [
  | inl e ↦ elim (Bool-cases (leb start page)) [
    | inl f ↦ elim (Bool-cases (leb 8 (page - start))) [
      | inl g ↦ rw (e, f, g) (ground (arith, e, f, g), ground (arith, e, f, g))
      | inr g ↦ rw (e, f, g) (ground (arith, e, f, g))
    ]
    | inr f ↦ rw (e, f) (ground (arith, e, f))
  ]
  | inr e ↦ rw e (ground (arith, e), ground (arith, e))
]

-- The window of the results begins 10 pixels or more from the left edge, and its width and its height
-- are at most 300 and 400 and end 8 pixels before the page does, or are below 0 where the page is too
-- small for the place of the window.
pub place_results-Fits :
    (x y offset_width max_width max_height : ℕ)
    → (10 ≤ (place_results x y offset_width max_width max_height).left)
      × Fits 300
          (place_results x y offset_width max_width max_height).left
          max_width
          (place_results x y offset_width max_width max_height).width
      × Fits 400 (y + 20) max_height (place_results x y offset_width max_width max_height).height
unfolding place_results
place_results-Fits x y offset_width max_width max_height = (
  ground arith,
  cut_length-Fits 300 (place_results x y offset_width max_width max_height).left max_width,
  cut_length-Fits 400 (y + 20) max_height,
)
