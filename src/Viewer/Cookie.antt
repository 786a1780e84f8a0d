-- ===== src/Viewer/Cookie.antt =====
-- docs/cookie.js: settings in the storage of the browser, or in cookies.
pub mod Settings
use p2p_file_share.Base.{
  ℕ, ◌+◌, Bool, true, false, Option, none, some, List, [], ◌∷◌, ◌⊕◌, if◌then◌else◌, Text, lit,
  text_eq, is_empty, length, lookup, insert, erase, drop,
}
use p2p_file_share.Viewer.Strings.{index_of, substring, before, after}

-- `jar` is what `document.cookie` reads and assigns: names with their values.
pub record Storage : Type 0 where
  pub chrome : Bool
  pub local_storage : List (Text × Text)
  pub session_storage : List (Text × Text)
  pub jar : List (Text × Text)

-- `days`: 0, a day that is past, or some days from now with the text of that date.
pub data Days : Type 0 where
  session : Days
  past : Text → Days
  from_now : Text → Days

abbrev pub cookie_namespace : Text
cookie_namespace = lit "doxygen_"

abbrev pub key_of : Text → Text
key_of cookie = cookie_namespace ⊕ cookie

-- The getter of `document.cookie`.
unfoldable pub print_jar : List (Text × Text) → Text
print_jar [] = []
print_jar ((name, value) ∷ []) = name ⊕ lit "=" ⊕ value
print_jar ((name, value) ∷ jar) = name ⊕ lit "=" ⊕ value ⊕ lit "; " ⊕ print_jar jar

-- Its setter: the pair before the first semicolon is stored, or goes away if it has expired.
unfoldable pub assign_cookie : Text → Bool → List (Text × Text) → List (Text × Text)
unfolding before after
assign_cookie text expired jar =
    let pair = before b';' text in
    if expired
    then erase text_eq (before b'=' pair) jar
    else insert text_eq (before b'=' pair) (after b'=' pair) jar

-- `||` of two results of getItem, and the test `if (val)`: an absent or empty text is false.
abbrev pub or_else : Option Text → Option Text → Option Text
or_else (some (a ∷ s)) second = some (a ∷ s)
or_else _ (some (a ∷ s)) = some (a ∷ s)
or_else _ _ = none

-- The value of the cookie in the text of all cookies.
unfoldable pub find_cookie : Text → Text → Option Text
unfolding index_of substring
find_cookie my_cookie cookies = elim (index_of my_cookie cookies) [
  | none ↦ none
  | some index ↦
      let val_start = index + length my_cookie in
      elim (index_of (lit ";") (drop val_start cookies)) [
        | none ↦ some (substring val_start (length cookies) cookies)
        | some n ↦ some (substring val_start (val_start + n) cookies)
      ]
]

-- `none` is where the default value is returned.
unfoldable pub read_setting : Text → Storage → Option Text
unfolding print_jar find_cookie
read_setting cookie st =
    if st.chrome
    then or_else (lookup text_eq (key_of cookie) st.local_storage)
        (lookup text_eq (key_of cookie) st.session_storage)
    else if is_empty (print_jar st.jar)
    then none
    else find_cookie (key_of cookie ⊕ lit "=") (print_jar st.jar)

abbrev expiration : Days → Text
expiration session = []
expiration (past date) = lit "expires=" ⊕ date ⊕ lit ";"
expiration (from_now date) = lit "expires=" ⊕ date ⊕ lit ";"

abbrev has_expired : Days → Bool
has_expired (past date) = true
has_expired _ = false

unfoldable pub write_chrome : Text → Text → Days → Storage → Storage
write_chrome cookie val session st = record st {
  session_storage = insert text_eq (key_of cookie) val st.session_storage;
}
write_chrome cookie val days st = record st {
  local_storage = insert text_eq (key_of cookie) val st.local_storage;
}

unfoldable pub write_setting : Text → Text → Days → Storage → Storage
unfolding write_chrome assign_cookie
write_setting cookie val days st =
    if st.chrome then write_chrome cookie val days st else record st {
      jar =
          assign_cookie
            (key_of cookie ⊕ lit "=" ⊕ val ⊕ lit "; SameSite=Lax;" ⊕ expiration days ⊕ lit "path=/")
            (has_expired days) st.jar;
    }

abbrev pub truthy : Option Text → Bool
truthy (some (a ∷ s)) = true
truthy _ = false

-- `yesterday` is the text of the date in the past.
unfoldable pub erase_setting : Text → Text → Storage → Storage
unfolding write_setting
erase_setting yesterday cookie st =
    if st.chrome
    then if truthy (lookup text_eq (key_of cookie) st.local_storage)
      then record st { local_storage = erase text_eq (key_of cookie) st.local_storage }
      else if truthy (lookup text_eq (key_of cookie) st.session_storage)
      then record st { session_storage = erase text_eq (key_of cookie) st.session_storage }
      else st
    else write_setting cookie [] (past yesterday) st
