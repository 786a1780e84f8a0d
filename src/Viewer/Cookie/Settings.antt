-- ===== src/Viewer/Cookie/Settings.antt =====
-- What is read after a setting was written or erased.
use p2p_file_share.Base.{
  ◌≡◌, refl, ap, sym, ◌∙◌, true, false, Bool-cases, inl, inr, Option, none, some, List, [], ◌∷◌,
  if◌then◌else◌, Text, text_eq, text_eq_iff, text-IsEqTest, lookup, insert, erase, lookup-insert,
  lookup-erase,
}
use p2p_file_share.Viewer.Cookie.{
  Storage, Days, session, key_of, or_else, truthy, read_setting, write_chrome, write_setting,
  erase_setting,
}

lookup-key_of :
    (c j v : Text) (m : List (Text × Text))
    → lookup text_eq (key_of j) (insert text_eq (key_of c) v m)
      ≡ (if text_eq c j then some v else lookup text_eq (key_of j) m)
unfolding text_eq
lookup-key_of c j v m = lookup-insert text_eq text-IsEqTest (key_of c) (key_of j) v m

erase-key_of :
    (c j : Text) (m : List (Text × Text))
    → lookup text_eq (key_of j) (erase text_eq (key_of c) m)
      ≡ (if text_eq c j then none else lookup text_eq (key_of j) m)
unfolding text_eq
erase-key_of c j m = lookup-erase text_eq text-IsEqTest (key_of c) (key_of j) m

-- Two absent or empty values.
falsy : (a b : Option Text) → truthy a ≡ false → truthy b ≡ false → or_else a b ≡ none
falsy none none h k = refl
falsy none (some []) h k = refl
falsy (some []) none h k = refl
falsy (some []) (some []) h k = refl
falsy none (some (x ∷ s)) h k = cc
falsy (some []) (some (x ∷ s)) h k = cc
falsy (some (x ∷ s)) b h k = cc

-- In Chrome a setting that is written is what is read, except that a value in the local storage hides
-- one that is written for the session; other settings are as before.
pub read-write_chrome :
    (c j v : Text) (days : Days) (st : Storage)
    → st.chrome ≡ true
    → read_setting j (write_setting c v days st) ≡ (
        if text_eq c j
        then elim days [
          | session ↦ or_else (lookup text_eq (key_of j) st.local_storage) (some v)
          | _ ↦ or_else (some v) (lookup text_eq (key_of j) st.session_storage)
        ]
        else read_setting j st)
unfolding read_setting write_setting write_chrome
read-write_chrome c j v session st h = elim (Bool-cases (text_eq c j)) [
  | inl e ↦ rw (h, read_setting, lookup-key_of c j v st.session_storage, e) refl
  | inr e ↦ rw (h, read_setting, lookup-key_of c j v st.session_storage, e) refl
]
read-write_chrome c j v days st h = elim (Bool-cases (text_eq c j)) [
  | inl e ↦ rw (h, read_setting, lookup-key_of c j v st.local_storage, e) refl
  | inr e ↦ rw (h, read_setting, lookup-key_of c j v st.local_storage, e) refl
]

-- In Chrome, erasing a setting that is in the local storage uncovers the value of the session; without
-- one there the setting is gone. Other settings are as before.
pub read-erase_chrome :
    (yesterday c j : Text) (st : Storage)
    → st.chrome ≡ true
    → read_setting j (erase_setting yesterday c st) ≡ (
        if text_eq c j
        then (if truthy (lookup text_eq (key_of c) st.local_storage)
            then or_else none (lookup text_eq (key_of c) st.session_storage)
            else none)
        else read_setting j st)
unfolding read_setting erase_setting
read-erase_chrome yesterday c j st h = elim (Bool-cases (text_eq c j)) [
  | inl e ↦
      let same = (text_eq_iff c j).0 e in
      let keys = ap key_of same in
      elim (Bool-cases (truthy (lookup text_eq (key_of c) st.local_storage))) [
        | inl l ↦
            rw (h, read_setting, l, erase-key_of c j st.local_storage, e)
              (ap (λ k. or_else none (lookup text_eq k st.session_storage)) (sym keys))
        | inr l ↦ elim (Bool-cases (truthy (lookup text_eq (key_of c) st.session_storage))) [
          | inl s ↦
              rw (h, read_setting, l, s, erase-key_of c j st.session_storage, e)
                (ap (λ k. or_else (lookup text_eq k st.local_storage) none) (sym keys)
                  ∙ falsy (lookup text_eq (key_of c) st.local_storage) none l refl)
          | inr s ↦
              rw (h, read_setting, l, s, e)
                (ap
                    (λ k.
                      or_else (lookup text_eq k st.local_storage)
                        (lookup text_eq k st.session_storage))
                    (sym keys)
                  ∙ falsy (lookup text_eq (key_of c) st.local_storage)
                      (lookup text_eq (key_of c) st.session_storage) l s)
        ]
      ]
  | inr e ↦ elim (Bool-cases (truthy (lookup text_eq (key_of c) st.local_storage))) [
    | inl l ↦ rw (h, read_setting, l, erase-key_of c j st.local_storage, e) refl
    | inr l ↦ elim (Bool-cases (truthy (lookup text_eq (key_of c) st.session_storage))) [
      | inl s ↦ rw (h, read_setting, l, s, erase-key_of c j st.session_storage, e) refl
      | inr s ↦ rw (h, read_setting, l, s, e) refl
    ]
  ]
]
