-- ===== src/Viewer/Sections/Stripes.antt =====
-- The stripes of the table.
use p2p_file_share.Base.{
  ◌≡◌, refl, ap, Bool, true, false, not, List, [], ◌∷◌, if◌then◌else◌, Bool-cases, inl, inr, map,
}
use p2p_file_share.Viewer.Sections.{Row, Stripe, plain, stripe_of, stripe_from, update_stripes}

-- The stripes of the visible rows, and those of the others.
abbrev pub stripes : Bool → List Row → List Stripe
stripes visible [] = []
stripes true (r ∷ rows) = if r.visible then r.stripe ∷ stripes true rows else stripes true rows
stripes false (r ∷ rows) = if r.visible then stripes false rows else r.stripe ∷ stripes false rows

-- Even and odd in turn, and none, as many as there are rows.
abbrev pub in_turn : Bool → List Stripe → List Stripe
in_turn next [] = []
in_turn next (s ∷ ss) = stripe_of next ∷ in_turn (not next) ss

stripes-stripe_from :
    (next : Bool) (rows : List Row)
    → (stripes true (stripe_from next rows) ≡ in_turn next (stripes true rows))
      × (stripes false (stripe_from next rows) ≡ map (λ _. plain) (stripes false rows))
unfolding stripe_from
stripes-stripe_from next [] = (refl, refl)
stripes-stripe_from next (r ∷ rows) = elim (Bool-cases r.visible) [
  | inl e ↦
      let (shown, hidden) = stripes-stripe_from (not next) rows in
      rw e (ap (λ ss. stripe_of next ∷ ss) shown, hidden)
  | inr e ↦
      let (shown, hidden) = stripes-stripe_from next rows in
      rw e (shown, ap (λ ss. plain ∷ ss) hidden)
]

-- The visible rows are even and odd in turn, even first, whatever they were; a hidden row has no
-- stripe.
pub update_stripes_lem :
    (rows : List Row)
    → (stripes true (update_stripes rows) ≡ in_turn true (stripes true rows))
      × (stripes false (update_stripes rows) ≡ map (λ _. plain) (stripes false rows))
unfolding update_stripes
update_stripes_lem rows = stripes-stripe_from true rows
