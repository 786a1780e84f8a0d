-- ===== src/Base/Exceptions.antt =====
-- C++ exceptions as values, and the use of a null pointer, which no handler catches.
use mathlib.Core.Path.{◌≡◌, refl}
use mathlib.Core.Logic.{◌⊎◌, inl, inr}

pub data Exception : Type 0 where
  invalid_argument : Exception
  out_of_range : Exception
  runtime_error : Exception
  unknown_request : Exception
  network_error : Exception
  would_block : Exception
  connection_closed : Exception
  null_pointer : Exception

pub data Checked {ℓ} (A : Type ℓ) : Type ℓ where
  ok : A → Checked A
  throws : Exception → Checked A

pub Checked-cases {ℓ} :
    {A : Type ℓ} (r : Checked A) → ((a : A) × (r ≡ ok a)) ⊎ ((e : Exception) × (r ≡ throws e))
Checked-cases (ok a) = inl (a, refl)
Checked-cases (throws e) = inr (e, refl)

infixl 5 ◌>>=◌
abbrev pub ◌>>=◌ {ℓ κ} : {A : Type ℓ} {B : Type κ} → Checked A → (A → Checked B) → Checked B
ok a >>= f = f a
throws e >>= f = throws e

-- A result, or an exception of some kind.
abbrev pub OnlyThrows {ℓ} : (Exception → Type 0) → {A : Type ℓ} → Checked A → Type 0
OnlyThrows P (ok a) = Unit
OnlyThrows P (throws e) = P e

pub bind-OnlyThrows {ℓ κ} :
    (P : Exception → Type 0) {A : Type ℓ} {B : Type κ} (r : Checked A) (f : A → Checked B)
    → OnlyThrows P r
    → ((a : A) → OnlyThrows P (f a))
    → OnlyThrows P (r >>= f)
bind-OnlyThrows P (ok a) f h k = k a
bind-OnlyThrows P (throws e) f h k = h

pub OnlyThrows-wider {ℓ} :
    (P Q : Exception → Type 0) {A : Type ℓ} (r : Checked A)
    → ((e : Exception) → P e → Q e)
    → OnlyThrows P r
    → OnlyThrows Q r
OnlyThrows-wider P Q (ok a) w h = tt
OnlyThrows-wider P Q (throws e) w h = w e h
