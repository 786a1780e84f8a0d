-- ===== src/Models/Endpoint.antt =====
-- src/models/endpoint.hpp
pub mod RoundTrip
pub mod Errors
use p2p_file_share.Base.{
  ℕ, ◌+◌, ◌-◌, ◌%◌, ◌^◌, Bool, true, ◌&&◌, Option, none, some, [], ◌∷◌, ◌++◌, ◌==◌, if◌then◌else◌,
  Text, text_eq, Checked, ok, throws, invalid_argument, ◌>>=◌,
}
use p2p_file_share.Stream.{IntValue, stoi, to_string as number_to_string}

pub record Endpoint : Type 0 where
  pub ip : Text
  -- uint16_t
  pub port : ℕ

unfoldable pub endpoint_eq : Endpoint → Endpoint → Bool
endpoint_eq lhs rhs = text_eq lhs.ip rhs.ip && (lhs.port == rhs.port)

-- The texts before and after the first colon: `find(':')` with the two `substr`.
unfoldable pub split_colon : Text → Option (Text × Text)
split_colon [] = none
split_colon (c ∷ s) =
    let rest = split_colon s in
    if c == b':' then some ([], s) else elim rest [ none ↦ none | some (a, b) ↦ some (c ∷ a, b) ]

-- static_cast<uint16_t> of an int
unfoldable pub to_uint16 : IntValue → ℕ
to_uint16 n = if n.negative then (2 ^ 16 - n.size % 2 ^ 16) % 2 ^ 16 else n.size % 2 ^ 16

unfoldable pub from_string : Text → Checked Endpoint
unfolding split_colon to_uint16
from_string str = elim (split_colon str) [
  | none ↦ throws invalid_argument
  | some (host, rest) ↦ stoi rest >>= λ n. ok (record { ip = host; port = to_uint16 n })
]

unfoldable pub to_string : Endpoint → Text
to_string e = e.ip ++ b':' ∷ number_to_string e.port

-- std::hash<std::string> is the library's: the argument `hash`.
unfoldable pub generate_id : (Text → ℕ) → Endpoint → ℕ
unfolding to_string
generate_id hash endpoint = hash (to_string endpoint)
