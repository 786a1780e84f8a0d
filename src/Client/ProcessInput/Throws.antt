-- ===== src/Client/ProcessInput/Throws.antt =====
-- The exceptions that leave process_input.
use p2p_file_share.Base.{
  ℕ, zero, suc, Bool, true, false, Option-cases, inl, inr, [], ◌∷◌, ◌++◌, ◌⊕◌, if◌then◌else◌, List,
  Text, lit, text_eq, is_empty, Checked, OnlyThrows, bind-OnlyThrows, OnlyThrows-wider, ok, throws,
  Exception, invalid_argument, out_of_range, connection_closed, ◌>>=◌,
}
use p2p_file_share.Stream.{
  Stream, of_text, get_word, get_int, get_size, remainder, to_string as number_to_string,
}
use p2p_file_share.Models.Endpoint
use p2p_file_share.Models.Endpoint.{Endpoint}
use p2p_file_share.Models.Endpoint.Errors.{IsReadError, remainder-throws, from_string-throws}
use p2p_file_share.Models.File
use p2p_file_share.Models.File.{File, read_seeders}
use p2p_file_share.Client.FileIo.{Disk, get_file_info}
use p2p_file_share.Client.ProcessInput.{
  Environment, Client, Reaction, ask_tracker, upload, begin_download, show_bool, is_one,
  read_answer, download, process_input,
}

-- A closed connection, and what a text that cannot be read throws.
abbrev IsTameError : Exception → Type 0
IsTameError connection_closed = Unit
IsTameError out_of_range = Unit
IsTameError invalid_argument = Unit
IsTameError e = ⊥

abbrev IsClosing : Exception → Type 0
IsClosing connection_closed = Unit
IsClosing e = ⊥

abbrev pub IsTame {ℓ} : {A : Type ℓ} → Checked A → Type 0
IsTame r = OnlyThrows IsTameError r

-- A result, or a closed connection.
abbrev pub OnlyCloses {ℓ} : {A : Type ℓ} → Checked A → Type 0
OnlyCloses r = OnlyThrows IsClosing r

closing_tame : (e : Exception) → IsClosing e → IsTameError e
closing_tame connection_closed h = tt
closing_tame e h = elim h [ ]

OnlyCloses-IsTame {ℓ} : {A : Type ℓ} (r : Checked A) → OnlyCloses r → IsTame r
OnlyCloses-IsTame r h = OnlyThrows-wider IsClosing IsTameError r closing_tame h

read_tame : (e : Exception) → IsReadError e → IsTameError e
read_tame out_of_range h = tt
read_tame invalid_argument h = tt
read_tame e h = elim h [ ]

remainder-IsTame : (s : Stream) → IsTame (remainder s)
remainder-IsTame s =
    OnlyThrows-wider IsReadError IsTameError (remainder s) read_tame (remainder-throws s)

endpoint-IsTame : (s : Text) → IsTame (Endpoint.from_string s)
endpoint-IsTame s =
    OnlyThrows-wider IsReadError IsTameError (Endpoint.from_string s) read_tame
      (from_string-throws s)

read_seeders-IsTame : (n : ℕ) (s : Stream) (found : List Endpoint) → IsTame (read_seeders n s found)
unfolding read_seeders
read_seeders-IsTame zero s found = tt
read_seeders-IsTame (suc n) s found =
    bind-OnlyThrows IsTameError (Endpoint.from_string (get_word [] s).0) _
      (endpoint-IsTame (get_word [] s).0)
      (λ seeder. read_seeders-IsTame n (get_word [] s).1 (found ++ seeder ∷ []))

file-IsTame : (unset : ℕ) (s : Text) → IsTame (File.from_string unset s)
unfolding File.from_string
file-IsTame unset s =
    let count = get_size unset (of_text s) in
    bind-OnlyThrows IsTameError (read_seeders count.0 count.1 []) _
      (read_seeders-IsTame count.0 count.1 [])
      (λ found.
        bind-OnlyThrows IsTameError (remainder (get_word [] found.1).1) _
          (remainder-IsTame (get_word [] found.1).1) (λ rest. tt))

ask_tracker-IsTame :
    (env : Environment) (request : Text)
    → OnlyCloses (env.exchange request)
    → IsTame (ask_tracker env request)
unfolding ask_tracker
ask_tracker-IsTame env request h =
    bind-OnlyThrows IsTameError (env.exchange request) _
      (OnlyCloses-IsTame (env.exchange request) h) (λ a. tt)

upload-IsTame :
    (env : Environment) (my_id : ℕ) (e : Endpoint) (disk : Disk) (s : Stream) (c : Client)
    → ((request : Text) → OnlyCloses (env.exchange request))
    → IsTame (upload env my_id e disk s c).1
unfolding upload
upload-IsTame env my_id e disk s c h =
    elim (Option-cases (get_file_info env.sha1 (get_word [] s).0 disk)) [
      | inl e ↦ rw (upload, e) tt
      | inr (info, e) ↦ rw (upload, e) (ask_tracker-IsTame env _ (h _))
    ]

abbrev TameReaction : Reaction → Type 0
TameReaction r = IsTame r.1

if-TameReaction :
    (b : Bool) (x y : Reaction)
    → TameReaction x
    → TameReaction y
    → TameReaction (if b then x else y)
if-TameReaction true x y h k = h
if-TameReaction false x y h k = k

read_file-TameReaction :
    (env : Environment) (r : Checked File) (path : Text) (disk : Disk) (c : Client)
    → IsTame r
    → TameReaction (elim r [
      | throws e ↦ (c, throws e)
      | ok file ↦
          let (c', enqueued) = begin_download env file path disk c in
          (c', ok (show_bool enqueued, true))
    ])
read_file-TameReaction env (ok file) path disk c h = tt
read_file-TameReaction env (throws e) path disk c h = h

read_answer-TameReaction :
    (env : Environment) (response path : Text) (disk : Disk) (c : Client)
    → TameReaction (read_answer env response path disk c)
unfolding read_answer
read_answer-TameReaction env response path disk c =
    let (n, s) = get_int (record { negative = false; size = 0 }) (of_text response) in
    if-TameReaction s.fail _ _ tt (
      if-TameReaction (is_one n) _ _
        (read_file-TameReaction env (remainder s >>= File.from_string env.unset) path disk c (
          bind-OnlyThrows IsTameError (remainder s) _ (remainder-IsTame s) (file-IsTame env.unset)))
        (bind-OnlyThrows IsTameError (remainder s) (λ text. ok (text, true)) (remainder-IsTame s)
          (λ text. tt)))

answer-TameReaction :
    (env : Environment) (r : Checked Text) (path : Text) (disk : Disk) (c : Client)
    → IsTame r
    → TameReaction
        (elim r [ throws e ↦ (c, throws e) | ok response ↦ read_answer env response path disk c ])
answer-TameReaction env (ok response) path disk c h =
    read_answer-TameReaction env response path disk c
answer-TameReaction env (throws e) path disk c h = h

download-TameReaction :
    (env : Environment) (my_id : ℕ) (disk : Disk) (s : Stream) (c : Client)
    → ((request : Text) → OnlyCloses (env.exchange request))
    → TameReaction (download env my_id disk s c)
unfolding download
download-TameReaction env my_id disk s c h =
    let (group_id, s1) = get_word [] s in
    let (file_name, s2) = get_word [] s1 in
    let path = (get_word [] s2).0 in
    let request =
      lit "1"
      ⊕ number_to_string my_id
      ⊕ lit " "
      ⊕ lit "download_file"
      ⊕ lit " "
      ⊕ group_id
      ⊕ lit " "
      ⊕ file_name in
    if-TameReaction (is_empty path) (c, ok ([], false))
      (elim (env.exchange request) [
        | throws e ↦ (c, throws e)
        | ok response ↦ read_answer env response path disk c
      ])
      tt
      (answer-TameReaction env (env.exchange request) path disk c
        (OnlyCloses-IsTame (env.exchange request) (h request)))

-- Where sending to the tracker and receiving its answer can fail only by a closed connection:
-- process_input throws nothing but a closed connection, or what an answer that cannot be read throws.
pub process_input_lem :
    (env : Environment) (my_id : ℕ) (e : Endpoint) (disk : Disk) (input : Text) (c : Client)
    → ((request : Text) → OnlyCloses (env.exchange request))
    → IsTame (process_input env my_id e disk input c).1
unfolding process_input
process_input_lem env my_id e disk input c h =
    let request = lit "1" ⊕ number_to_string my_id ⊕ lit " " ⊕ input in
    let (command, s) = get_word [] (of_text input) in
    if-TameReaction (text_eq command (lit "upload_file")) _ _ (upload-IsTame env my_id e disk s c h)
      (if-TameReaction (text_eq command (lit "download_file")) _ _
        (download-TameReaction env my_id disk s c h)
        (if-TameReaction (text_eq command (lit "show_downloads")) _ _ tt
          (ask_tracker-IsTame env request (h request))))
