-- ===== src/Exchange/Requests.antt =====
-- A request text as the tracker takes it apart.
use p2p_file_share.Base.{ℕ, ◌<◌, ◌^◌, ◌≡◌, refl, [], ◌∷◌, ◌⊕◌, Text, ok}
use p2p_file_share.Stream.{of_text, get_word, get_size, to_string as number_to_string}
use p2p_file_share.Stream.Words.{IsWord, EndsWord, after_word, get_word-space}
use p2p_file_share.Stream.Decimal.{get_size-of_text}
use p2p_file_share.Models.Transaction.{Request, not_yet_processed}
use p2p_file_share.Tracker.ParseRequest.{request_of_word, parse_request}
use p2p_file_share.Tracker.ProcessRequest.{arguments}

-- The id, the word of the request, and its arguments.
abbrev pub request_text : ℕ → Text → Text → Text
request_text id word rest = number_to_string id ⊕ (32 ∷ (word ⊕ rest))

module _ (unset id : ℕ) (word rest : Text) (fits : id < 2 ^ 64) (is_word : IsWord word)
    (ended : EndsWord rest) where
  read_id :
      get_size unset (of_text (request_text id word rest)) ≡ (id, after_word (32 ∷ (word ⊕ rest)))
  read_id = get_size-of_text unset id (32 ∷ (word ⊕ rest)) fits refl

  read_word : get_word [] (after_word (32 ∷ (word ⊕ rest))) ≡ (word, after_word rest)
  read_word = get_word-space 32 [] word rest refl is_word ended

  pub parse_request-request_text :
      (request : Request)
      → request_of_word word ≡ ok request
      → parse_request unset (request_text id word rest)
        ≡ ok (record {
          origin = id;
          request = request;
          text = request_text id word rest;
          outcome = not_yet_processed;
        })
  unfolding parse_request
  parse_request-request_text request e = rw (parse_request, read_id, read_word, e) refl

  pub arguments-request_text : arguments unset (request_text id word rest) ≡ after_word rest
  unfolding arguments
  arguments-request_text = rw (arguments, read_id, read_word) refl
