-- ===== src/Base/Lists.antt =====
-- Lists over the native numbers, association lists for `std::unordered_map`, and their laws.
use Prim.Native.Nat.{ℕ, zero, suc, ◌+◌}
use mathlib.Core.Path.{◌≡◌, refl, ap, sym, ◌∙◌}
use mathlib.Core.Logic.{◌↔◌, inl, inr}
use mathlib.Core.Bool.{Bool, true, false, ◌||◌}
use mathlib.Core.Option.{Option, none, some}
use mathlib.Core.List.{List, [], ◌∷◌, ◌++◌}
use native.Mathlib.Omega.{arith}
use p2p_file_share.Base.Tests.{if◌then◌else◌, Bool-cases, some-eq}

module _ {ℓ} {A : Type ℓ} where
  abbrev pub length : List A → ℕ
  length [] = 0
  length (x ∷ xs) = suc (length xs)

  abbrev pub get_elem? : List A → ℕ → Option A
  get_elem? [] i = none
  get_elem? (x ∷ xs) zero = some x
  get_elem? (x ∷ xs) (suc i) = get_elem? xs i

  pub length-append : (xs ys : List A) → length (xs ++ ys) ≡ length xs + length ys
  length-append [] ys = omega arith
  length-append (x ∷ xs) ys = omega (arith, length-append xs ys)

  -- std::find_if over a range, by value
  unfoldable pub find_if : (A → Bool) → List A → Option A
  find_if p [] = none
  find_if p (x ∷ xs) = if p x then some x else find_if p xs

  unfoldable pub any : (A → Bool) → List A → Bool
  any p [] = false
  any p (x ∷ xs) = p x || any p xs

-- An equality test that decides equality.
pub record IsEqTest {ℓ} {K : Type ℓ} (eq : K → K → Bool) : Type ℓ where
  pub iff : (a b : K) → (eq a b ≡ true) ↔ (a ≡ b)

-- `std::unordered_map<K, V>`: its entries, in the order in which a walk meets them. That order is
-- unspecified in C++; here a new key comes last.
module _ {ℓ κ} {K : Type ℓ} {V : Type κ} (eq : K → K → Bool) where
  -- find, at
  unfoldable pub lookup : K → List (K × V) → Option V
  lookup k [] = none
  lookup k ((j, v) ∷ m) = if eq j k then some v else lookup k m

  -- operator[] =
  unfoldable pub insert : K → V → List (K × V) → List (K × V)
  insert k v [] = (k, v) ∷ []
  insert k v ((j, w) ∷ m) = if eq j k then (j, v) ∷ m else (j, w) ∷ insert k v m

  -- erase
  unfoldable pub erase : K → List (K × V) → List (K × V)
  erase k [] = []
  erase k ((j, w) ∷ m) = if eq j k then erase k m else (j, w) ∷ erase k m

  module _ (e : IsEqTest eq) where
    pub lookup-insert :
        (k j : K) (v : V) (m : List (K × V))
        → lookup j (insert k v m) ≡ (if eq k j then some v else lookup j m)
    unfolding lookup insert
    lookup-insert k j v [] = refl
    lookup-insert k j v ((i, w) ∷ m) =
        ground (arith, e.iff k j, e.iff i k, e.iff i j, lookup-insert k j v m)

    pub lookup-erase :
        (k j : K) (m : List (K × V)) → lookup j (erase k m) ≡ (if eq k j then none else lookup j m)
    unfolding lookup erase
    lookup-erase k j [] = ground arith
    lookup-erase k j ((i, w) ∷ m) =
        ground (arith, e.iff k j, e.iff i k, e.iff i j, lookup-erase k j m)

-- What `find_if` finds passes the test.
pub find_if-passes {ℓ} :
    {A : Type ℓ} (p : A → Bool) (xs : List A) (x : A) → find_if p xs ≡ some x → p x ≡ true
unfolding find_if
find_if-passes p [] x h = cc
find_if-passes p (y ∷ xs) x h = elim (Bool-cases (p y)) [
  | inl e ↦ let same : some y ≡ some x = rw (e, find_if) at h in ap p (sym (some-eq same)) ∙ e
  | inr e ↦ find_if-passes p xs x (rw (e, find_if) at h)
]
