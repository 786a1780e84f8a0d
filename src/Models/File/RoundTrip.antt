-- ===== src/Models/File/RoundTrip.antt =====
-- The text of a File, as the tracker answers a download request and the client reads it.
use p2p_file_share.Base.{
  ℕ, suc, ◌^◌, ◌<◌, ◌≡◌, refl, ap, ◌∙◌, List, [], ◌∷◌, ◌++◌, ◌⊕◌, append_assoc, append-nil, sym,
  Text, lit, length, ok,
}
use p2p_file_share.Stream.{
  of_text, skip_space, to_string as number_to_string, get_word, get_size, remainder,
}
use p2p_file_share.Stream.Words.{IsWord, NoSpace, after_word, get_word-space}
use p2p_file_share.Stream.Decimal.{
  get_size-of_text, get_size-space, get_size-to_string, has_digit-to_string, to_string-NoSpace,
}
use p2p_file_share.Models.Endpoint
use p2p_file_share.Models.Endpoint.{Endpoint}
use p2p_file_share.Models.Endpoint.RoundTrip.{NoColon, endpoint_round_trip}
use p2p_file_share.Models.FileInfo
use p2p_file_share.Models.FileInfo.RoundTrip.{IsPrintable, file_info-space, file_info-space_blank}
use p2p_file_share.Models.File.{File, print_seeders, to_string, read_seeders, from_string}

-- An address without blanks and colons, and a uint16_t.
pub record IsSeeder (e : Endpoint) : Type 0 where
  pub ip_word : IsWord e.ip
  pub ip_no_colon : NoColon e.ip
  pub port_fits : e.port < 2 ^ 16

abbrev pub AllSeeders : List Endpoint → Type 0
AllSeeders [] = Unit
AllSeeders (e ∷ es) = IsSeeder e × AllSeeders es

pub record IsSendable (f : File) : Type 0 where
  pub seeder_words : AllSeeders f.seeders
  pub count_fits : length f.seeders < 2 ^ 64
  pub group_word : IsWord f.group_id
  pub info : IsPrintable f.file_info

NoSpace-append : (a b : Text) → NoSpace a → NoSpace b → NoSpace (a ++ b)
NoSpace-append [] b h k = k
NoSpace-append (c ∷ a) b h k = (h.0, NoSpace-append a b h.1 k)

IsWord-append : (a b : Text) → IsWord a → NoSpace b → IsWord (a ++ b)
IsWord-append [] b h k = absurd h
IsWord-append (c ∷ a) b h k = (h.0, NoSpace-append a b h.1 k)

pub endpoint-IsWord : (e : Endpoint) → IsWord e.ip → IsWord (Endpoint.to_string e)
unfolding Endpoint.to_string
endpoint-IsWord e h = IsWord-append e.ip _ h (refl, to_string-NoSpace e.port)

one_more_seeder :
    (n : ℕ) (e : Endpoint) (r : Text) (before : List Endpoint)
    → IsSeeder e
    → read_seeders (suc n) (after_word (32 ∷ Endpoint.to_string e ++ (32 ∷ r))) before
      ≡ read_seeders n (after_word (32 ∷ r)) (before ++ e ∷ [])
unfolding read_seeders
one_more_seeder n e r before h = rw (
  get_word-space 32 [] (Endpoint.to_string e) (32 ∷ r) refl (endpoint-IsWord e h.ip_word) refl,
  endpoint_round_trip e h.ip_no_colon h.port_fits,
)

read_seeders-print :
    (es before : List Endpoint) (r : Text)
    → AllSeeders es
    → read_seeders (length es) (after_word (32 ∷ print_seeders es r)) before
      ≡ ok (before ++ es, after_word (32 ∷ r))
unfolding print_seeders
read_seeders-print [] before r h =
    (unfold read_seeders in λ i. ok (sym (append-nil before) i, after_word (32 ∷ r)))
read_seeders-print (e ∷ es) before r h =
    one_more_seeder (length es) e (print_seeders es r) before h.0
    ∙ read_seeders-print es (before ++ e ∷ []) r h.1
    ∙ (λ i. ok (append_assoc before (e ∷ []) es i, after_word (32 ∷ r)))

module _ (f : File) (p : IsSendable f) where
  abbrev after_seeders : Text
  after_seeders = f.group_id ⊕ lit " " ⊕ FileInfo.to_string f.file_info

  count :
      (old : ℕ)
      → get_size old (of_text (to_string f))
        ≡ (length f.seeders, after_word (32 ∷ print_seeders f.seeders after_seeders))
  unfolding to_string
  count old = get_size-of_text old (length f.seeders) _ p.count_fits refl

  group :
      get_word [] (after_word (32 ∷ after_seeders))
      ≡ (f.group_id, after_word (32 ∷ FileInfo.to_string f.file_info))
  group =
      get_word-space 32 [] f.group_id (32 ∷ FileInfo.to_string f.file_info) refl p.group_word refl

  -- A File that the text can carry is read back from its text, with every seeder.
  pub file_round_trip : (unset : ℕ) → from_string unset (to_string f) ≡ ok f
  unfolding from_string remainder
  file_round_trip unset = rw (
    count unset,
    read_seeders-print f.seeders [] after_seeders p.seeder_words,
    group,
    file_info-space f.file_info p.info unset,
  )

print_seeders-append :
    (es : List Endpoint) (r tail : Text) → print_seeders es r ⊕ tail ≡ print_seeders es (r ⊕ tail)
unfolding print_seeders
print_seeders-append [] r tail = refl
print_seeders-append (e ∷ es) r tail =
    append_assoc (Endpoint.to_string e) (32 ∷ print_seeders es r) tail
    ∙ ap (λ t. Endpoint.to_string e ⊕ (32 ∷ t)) (print_seeders-append es r tail)

module _ (f : File) (p : IsSendable f) (tail : Text) (blank : skip_space tail ≡ []) where
  abbrev info_tail : Text
  info_tail = FileInfo.to_string f.file_info ⊕ tail

  abbrev seeders_tail : Text
  seeders_tail = f.group_id ⊕ (32 ∷ info_tail)

  to_string-append :
      to_string f ⊕ tail
      ≡ number_to_string (length f.seeders) ⊕ (32 ∷ print_seeders f.seeders seeders_tail)
  unfolding to_string
  to_string-append =
      append_assoc (number_to_string (length f.seeders))
        (32 ∷ print_seeders f.seeders (after_seeders f p)) tail
      ∙ ap (λ t. number_to_string (length f.seeders) ⊕ (32 ∷ t))
          (print_seeders-append f.seeders (after_seeders f p) tail
            ∙ ap (print_seeders f.seeders)
                (append_assoc f.group_id (32 ∷ FileInfo.to_string f.file_info) tail))

  count_tail :
      (old : ℕ)
      → get_size old (of_text (32 ∷ (to_string f ⊕ tail)))
        ≡ (length f.seeders, after_word (32 ∷ print_seeders f.seeders seeders_tail))
  count_tail old =
      ap (λ t. get_size old (of_text (32 ∷ t))) to_string-append
      ∙ get_size-space 32 old _ refl
          (has_digit-to_string (length f.seeders) (32 ∷ print_seeders f.seeders seeders_tail))
      ∙ get_size-to_string old (length f.seeders) (32 ∷ print_seeders f.seeders seeders_tail)
          p.count_fits refl

  -- The text is read back with a blank in front of it and blanks behind it.
  pub file-blank : (unset : ℕ) → from_string unset (32 ∷ (to_string f ⊕ tail)) ≡ ok f
  unfolding from_string remainder
  file-blank unset = rw (
    count_tail unset,
    read_seeders-print f.seeders [] seeders_tail p.seeder_words,
    get_word-space 32 [] f.group_id (32 ∷ info_tail) refl p.group_word refl,
    file_info-space_blank f.file_info p.info tail blank unset,
  )
