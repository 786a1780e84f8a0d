-- ===== src/Client/Hash.antt =====
-- src/client/hash.cpp. OpenSSL's SHA1 is the argument `sha1`: the 20 bytes of the digest.
pub mod Digests
use p2p_file_share.Base.{ℕ, ◌+◌, ◌/◌, ◌%◌, List, [], ◌∷◌, if◌then◌else◌, Text, ltb}

abbrev pub sha_digest_length : ℕ
sha_digest_length = 20

unfoldable pub hex_digit : ℕ → ℕ
hex_digit n = if ltb n 10 then 48 + n else 87 + n

-- The loop over the digest: "%02x" of each byte.
unfoldable pub hex_bytes : List ℕ → Text
unfolding hex_digit
hex_bytes [] = []
hex_bytes (b ∷ bytes) = hex_digit (b / 16) ∷ hex_digit (b % 16) ∷ hex_bytes bytes

unfoldable pub get_sha1 : (Text → List ℕ) → Text → Text
get_sha1 sha1 input = hex_bytes (sha1 input)
