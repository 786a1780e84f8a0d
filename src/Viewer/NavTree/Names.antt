-- ===== src/Viewer/NavTree/Names.antt =====
-- What the address of a page can put into the tree.
use p2p_file_share.Base.{◌≡◌, refl, ap, Bool, true, [], ◌∷◌, Text, drop, ℕ, Bool-cases, inl, inr}
use p2p_file_share.Viewer.NavTree.{
  Location, is_hash_unit, is_path_unit, keep_units, hash_value, path_name,
}

-- Every unit is of the class.
abbrev pub AllUnits : (ℕ → Bool) → Text → Type 0
AllUnits keeps [] = Unit
AllUnits keeps (c ∷ s) = (keeps c ≡ true) × AllUnits keeps s

keep_units-AllUnits : (keeps : ℕ → Bool) (s : Text) → AllUnits keeps (keep_units keeps s)
unfolding keep_units
keep_units-AllUnits keeps [] = tt
keep_units-AllUnits keeps (c ∷ s) = elim (Bool-cases (keeps c)) [
  | inl e ↦ rw e (e, keep_units-AllUnits keeps s)
  | inr e ↦ rw e (keep_units-AllUnits keeps s)
]

keep_units-id : (keeps : ℕ → Bool) (s : Text) → AllUnits keeps s → keep_units keeps s ≡ s
unfolding keep_units
keep_units-id keeps [] h = refl
keep_units-id keeps (c ∷ s) h = rw (h.0) (ap (λ t. c ∷ t) (keep_units-id keeps s h.1))

-- Whatever address the page was opened with, the hash and the path that the tree uses hold only the
-- units of their classes, so neither quotes nor angle brackets; a hash and a path of such units are
-- used as they are.
pub address_is_clean :
    (l : Location) (hash : Text)
    → AllUnits is_hash_unit (hash_value l)
      × AllUnits is_path_unit (path_name l)
      × (AllUnits is_path_unit l.pathname → path_name l ≡ l.pathname)
      × (AllUnits is_hash_unit hash → hash_value (record l { hash = 35 ∷ hash }) ≡ hash)
unfolding hash_value path_name
address_is_clean l hash = (
  keep_units-AllUnits is_hash_unit (drop 1 l.hash),
  keep_units-AllUnits is_path_unit l.pathname,
  keep_units-id is_path_unit l.pathname,
  λ h. unfold drop in (keep_units-id is_hash_unit hash h),
)
