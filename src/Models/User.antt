-- ===== src/Models/User.antt =====
-- src/models/user.hpp, and `std::shared_ptr`.
use p2p_file_share.Base.{ℕ, Bool, List, ◌==◌, Text, text_eq, any}

-- A `std::shared_ptr` to a live object: its address, which no other live object has, and what is
-- stored there.
pub record Shared {ℓ} (A : Type ℓ) : Type ℓ where
  pub address : ℕ
  pub value : A

-- operator== of two pointers
abbrev pub same {ℓ} : {A : Type ℓ} → Shared A → Shared A → Bool
same p q = p.address == q.address

-- find of a `std::unordered_set` of pointers
unfoldable pub contains {ℓ} : {A : Type ℓ} → List (Shared A) → Shared A → Bool
unfolding any
contains xs p = any (λ q. same q p) xs

pub record User : Type 0 where
  pub username : Text
  pub password : Text

unfoldable pub check_password : User → Text → Bool
check_password user password = text_eq user.password password
