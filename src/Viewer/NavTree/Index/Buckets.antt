-- ===== src/Viewer/NavTree/Index/Buckets.antt =====
-- The entries on both sides of an index.
use p2p_file_share.Base.{
  ℕ, zero, suc, ◌≡◌, refl, ap, sym, ◌∙◌, true, false, Option, none, some, some-eq, List, [], ◌∷◌,
  Text, Bool-cases, inl, inr, arith, get_elem?, ltb, leb,
}
use p2p_file_share.Viewer.NavTree.Index.{text_leb, count_leb, nav_index}

pub text_leb_trans :
    (s t u : Text) → text_leb s t ≡ true → text_leb t u ≡ true → text_leb s u ≡ true
unfolding text_leb
text_leb_trans [] t u h k = refl
text_leb_trans (a ∷ s) [] u h k = cc
text_leb_trans (a ∷ s) (b ∷ t) [] h k = cc
text_leb_trans (a ∷ s) (b ∷ t) (c ∷ u) h k = ground (arith, h, k, text_leb_trans s t u)

-- Each entry is at most the next.
abbrev pub IsAscending : List Text → Type 0
IsAscending [] = Unit
IsAscending (t ∷ []) = Unit
IsAscending (t ∷ u ∷ ts) = (text_leb t u ≡ true) × IsAscending (u ∷ ts)

-- Behind an entry that is not at most the address there is none that is.
behind :
    (url t : Text) (ts : List Text) (j : ℕ) (u : Text)
    → IsAscending (t ∷ ts)
    → text_leb t url ≡ false
    → get_elem? (t ∷ ts) j ≡ some u
    → text_leb u url ≡ false
behind url t ts zero u a h e = ap (λ x. text_leb x url) (sym (some-eq e)) ∙ h
behind url t [] (suc j) u a h e = cc
behind url t (x ∷ ts) (suc j) u a h e =
    behind url x ts j u a.1
      (elim (Bool-cases (text_leb x url)) [ inl k ↦ cc (text_leb_trans t x url a.0 k) | inr k ↦ k ])
      e

tail-IsAscending : (t : Text) (ts : List Text) → IsAscending (t ∷ ts) → IsAscending ts
tail-IsAscending t [] a = tt
tail-IsAscending t (u ∷ ts) a = a.1

count_leb-lem :
    (url : Text) (ts : List Text) (j : ℕ) (u : Text)
    → IsAscending ts
    → get_elem? ts j ≡ some u
    → text_leb u url ≡ ltb j (count_leb url ts)
unfolding count_leb
count_leb-lem url [] j u a e = cc
count_leb-lem url (t ∷ ts) zero u a e = elim (Bool-cases (text_leb t url)) [
  | inl h ↦ rw (sym (some-eq e), h) (ground arith)
  | inr h ↦ rw (sym (some-eq e), h) (ground arith)
]
count_leb-lem url (t ∷ ts) (suc j) u a e = elim (Bool-cases (text_leb t url)) [
  | inl h ↦ rw (h, count_leb-lem url ts j u (tail-IsAscending t ts a) e) (ground arith)
  | inr h ↦ rw (h, behind url t ts (suc j) u a h e) (ground arith)
]

abbrev place : ℕ → Option ℕ
place n = elim n [ zero ↦ none | suc i ↦ some i ]

index_test : (j n : ℕ) → ltb j n ≡ (elim (place n) [ none ↦ false | some i ↦ leb j i ])
index_test j zero = ground arith
index_test j (suc i) = ground arith

-- Where the loop of navTo leaves the index `i` in an ascending table of first addresses, the entries
-- up to `i` are at most the address and all entries behind it are greater; without an index all are
-- greater.
pub nav_index-divides :
    (url : Text) (table : List Text) (j : ℕ) (u : Text)
    → IsAscending table
    → get_elem? table j ≡ some u
    → text_leb u url ≡ (elim (nav_index url table) [ none ↦ false | some i ↦ leb j i ])
unfolding nav_index
nav_index-divides url table j u a e =
    count_leb-lem url table j u a e ∙ index_test j (count_leb url table)
