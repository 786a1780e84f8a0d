-- ===== src/Viewer/NavTree/Scroll/Timing.antt =====
-- How long an animation takes, and when there is one.
use p2p_file_share.Base.{ℕ, zero, suc, ◌≤◌, ◌≡◌, refl, Option, none, some, arith}
use p2p_file_share.Viewer.Resize.{Pixels, px, below}
use p2p_file_share.Viewer.NavTree.Scroll.{
  Anchored, Content, Animation, max_of, min_of, distance, Glow, glow_of, anchor_pos, animate,
  goto_anchor,
}

-- The animation for a position.
abbrev pub IsTimely : Content → Option Pixels → Option Animation → Type 0
IsTimely c none o = o ≡ none
IsTimely c (some (px zero)) o = o ≡ none
IsTimely c (some (below zero)) o = o ≡ none
IsTimely c (some pos) none = ⊥
IsTimely c (some pos) (some a) =
    (50 ≤ a.duration)
    × (a.duration ≤ 500)
    × (50 ≤ distance pos c → distance pos c ≤ 500 → a.duration ≡ distance pos c)

clamped :
    (d : ℕ)
    → (50 ≤ max_of 50 (min_of 500 d))
      × (max_of 50 (min_of 500 d) ≤ 500)
      × (50 ≤ d → d ≤ 500 → max_of 50 (min_of 500 d) ≡ d)
clamped d = (ground arith, ground arith, λ a b. ground (arith, a, b))

animate-IsTimely : (c : Content) (glow : Glow) (o : Option Pixels) → IsTimely c o (animate c glow o)
unfolding animate
animate-IsTimely c glow none = refl
animate-IsTimely c glow (some (px zero)) = refl
animate-IsTimely c glow (some (px (suc n))) = clamped (distance (px (suc n)) c)
animate-IsTimely c glow (some (below zero)) = refl
animate-IsTimely c glow (some (below (suc n))) = clamped (distance (below (suc n)) c)

-- An animation takes from 50 to 500 milliseconds, and as many as the distance in pixels between those;
-- none is made for an anchor that has no position, or the position 0.
pub goto_anchor-IsTimely :
    (c : Content) (a : Anchored) → IsTimely c (anchor_pos a) (goto_anchor c a)
unfolding goto_anchor
goto_anchor-IsTimely c a = animate-IsTimely c (glow_of a) (anchor_pos a)
