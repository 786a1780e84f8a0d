-- ===== src/Models/Endpoint/RoundTrip.antt =====
-- What `to_string` prints, `from_string` reads back.
use p2p_file_share.Base.{ℕ, ◌^◌, ◌<◌, ◌≡◌, refl, false, some, [], ◌∷◌, ◌++◌, arith, ◌==◌, Text, ok}
use p2p_file_share.Stream.{to_string as number_to_string}
use p2p_file_share.Stream.Decimal.{stoi-to_string}
use p2p_file_share.Models.Endpoint.{Endpoint, split_colon, to_uint16, from_string, to_string}

abbrev pub NoColon : Text → Type 0
NoColon [] = Unit
NoColon (c ∷ s) = ((c == b':') ≡ false) × NoColon s

split_colon-append : (a b : Text) → NoColon a → split_colon (a ++ b':' ∷ b) ≡ some (a, b)
unfolding split_colon
split_colon-append [] b h = refl
split_colon-append (c ∷ a) b h = rw (h.0, split_colon-append a b h.1)

to_uint16-small : (n : ℕ) → n < 2 ^ 16 → to_uint16 (record { negative = false; size = n }) ≡ n
unfolding to_uint16
to_uint16-small n h = omega arith

-- An endpoint whose address has no colon and whose port is a uint16_t survives printing and
-- parsing.
pub endpoint_round_trip :
    (e : Endpoint) → NoColon e.ip → e.port < 2 ^ 16 → from_string (to_string e) ≡ ok e
unfolding from_string to_string
endpoint_round_trip e h k = rw (
  split_colon-append e.ip (number_to_string e.port) h,
  from_string,
  stoi-to_string e.port (omega arith),
  to_uint16-small e.port k,
)
