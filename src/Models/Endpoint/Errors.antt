-- ===== src/Models/Endpoint/Errors.antt =====
-- The exceptions of reading an endpoint, and of what is left in a stream.
use p2p_file_share.Base.{
  Option-cases, inl, inr, arith, Text, Exception, invalid_argument, out_of_range, OnlyThrows,
  bind-OnlyThrows,
}
use p2p_file_share.Stream.{Stream, stoi, remainder}
use p2p_file_share.Models.Endpoint.{split_colon, from_string}

-- What a text that cannot be read throws.
abbrev pub IsReadError : Exception → Type 0
IsReadError out_of_range = Unit
IsReadError invalid_argument = Unit
IsReadError e = ⊥

stoi-throws : (s : Text) → OnlyThrows IsReadError (stoi s)
unfolding stoi
stoi-throws s = ground arith

pub remainder-throws : (s : Stream) → OnlyThrows IsReadError (remainder s)
unfolding remainder
remainder-throws s = ground arith

pub from_string-throws : (s : Text) → OnlyThrows IsReadError (from_string s)
unfolding from_string
from_string-throws s = elim (Option-cases (split_colon s)) [
  | inl e ↦ rw (from_string, e) tt
  | inr ((host, rest), e) ↦
      rw (from_string, e) (bind-OnlyThrows IsReadError (stoi rest) _ (stoi-throws rest) (λ n. tt))
]
