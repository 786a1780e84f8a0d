-- ===== src/Viewer/Search/Keys/Arrows.antt =====
-- Keys that are held, and where the arrows lead.
use mathlib.Core.Path.{subst}
use p2p_file_share.Base.{
  ℕ, zero, suc, ◌+◌, ◌-◌, ◌≡◌, refl, ap, ◌∙◌, Bool, true, false, ◌==◌, ltb, ◌<◌, ◌≤◌, Option, none,
  some, List, [], ◌∷◌, ◌++◌, arith, get_elem?, length, inl, inr, Bool-cases,
}
use p2p_file_share.Viewer.Search.{Link, Row, Panel, Focus, item, child}
use p2p_file_share.Viewer.Search.Rows.{nav_next, nav_prev}
use p2p_file_share.Viewer.Search.Rows.Order.{
  is_shown, IsNext, nav_next-IsNext, IsPrevious, nav_prev-IsPrevious,
}
use p2p_file_share.Viewer.Search.Keys.{
  Event, keydown, keypress, keyup, process_keys, open_links, links_at, last_child, nav_up, nav_down,
}

-- Which of some events let the key act.
abbrev pub acts : List Event → Panel → List Bool
acts [] p = []
acts (e ∷ es) p = (process_keys e p).1 ∷ acts es (process_keys e p).0

abbrev pub repeated {ℓ} : {A : Type ℓ} → ℕ → A → List A
repeated zero a = []
repeated (suc n) a = a ∷ repeated n a

abbrev press : ℕ → Event
press c = record { event_type = keypress; key_code = c }

abbrev release : ℕ → Event
release c = record { event_type = keyup; key_code = c }

-- The panel while a key is held.
abbrev held : ℕ → Panel → Panel
held c p = record p { repeat_on = true; last_key = c }

held_presses :
    (n c : ℕ) (p : Panel)
    → (c == 0) ≡ false
    → acts (repeated n (press c) ++ release c ∷ []) (held c p) ≡ repeated n true ++ false ∷ []
unfolding process_keys
held_presses zero c p h = refl
held_presses (suc n) c p h = rw h (ap (λ l. true ∷ l) (held_presses n c p h))

-- A key that is held acts when it goes down and at each press behind the first, and at its release no
-- more.
pub held_key :
    (n c : ℕ) (p : Panel)
    → (c == 0) ≡ false
    → acts
        (record { event_type = keydown; key_code = c } ∷ press c ∷ repeated n (press c)
          ++ release c ∷ [])
        p
      ≡ true ∷ false ∷ repeated n true ++ false ∷ []
unfolding process_keys
held_key n c p h = rw h (ap (λ l. true ∷ false ∷ l) (held_presses n c p h))

-- The one shown row below an index behind which none is shown.
nav_prev-only :
    (rows : List Row) (i k : ℕ)
    → k ≤ length rows
    → i < k
    → is_shown (get_elem? rows i) ≡ true
    → ((j : ℕ) → i < j → j < k → is_shown (get_elem? rows j) ≡ false)
    → nav_prev k rows ≡ some i
nav_prev-only rows i k b l s apart = by_result (nav_prev k rows) (nav_prev-IsPrevious k rows b)
  where
    by_result : (r : Option ℕ) → IsPrevious k rows r → r ≡ some i
    by_result none h = cc (h i l, s)
    by_result (some m) h = elim (Bool-cases (ltb m i)) [
      | inl e ↦ cc (h.2 i (ground (arith, e)) l, s)
      | inr e ↦ elim (Bool-cases (ltb i m)) [
        | inl f ↦ cc (apart m (ground (arith, f)) h.0, h.1)
        | inr f ↦ let same : m ≡ i = ground (arith, e, f) in ap (λ n. some n) same
      ]
    ]

shown_within : (rows : List Row) (k : ℕ) → is_shown (get_elem? rows k) ≡ true → k < length rows
shown_within [] k h = cc
shown_within (row ∷ rows) zero h = omega arith
shown_within (row ∷ rows) (suc k) h = omega (arith, shown_within rows k h)

-- From a shown row the arrow down goes to the next shown row, and the arrow up from there comes back,
-- if neither row has its list open.
pub down_then_up :
    (p : Panel) (index k : ℕ)
    → is_shown (get_elem? p.rows index) ≡ true
    → nav_next (index + 1) p.rows ≡ some k
    → open_links index p.rows ≡ none
    → open_links k p.rows ≡ none
    → ((nav_down index p).focus ≡ item k)
      × (is_shown (get_elem? p.rows k) ≡ true)
      × ((nav_up k (nav_down index p)).focus ≡ item index)
unfolding nav_down nav_up
down_then_up p index k s n o o' =
    let next : IsNext (index + 1) p.rows (some k) =
      subst (IsNext (index + 1) p.rows) n (nav_next-IsNext (index + 1) p.rows) in
    let back : nav_prev k p.rows ≡ some index =
      nav_prev-only p.rows index k (omega (arith, shown_within p.rows k next.1))
        (omega (arith, next.0)) s (λ j a b. next.2 j (omega (arith, a)) b) in
    (rw (nav_down, o, n) refl, next.1, rw (nav_down, o, n) (rw (nav_up, back, o) refl))

last_child-links :
    (index n : ℕ) (focus : Focus) (l : Link) (ls : List Link)
    → last_child index n focus (l ∷ ls) ≡ child index (n + length ls)
unfolding last_child
last_child-links index n focus l [] = let same : n ≡ n + 0 = omega arith in ap (child index) same
last_child-links index n focus l (m ∷ ls) =
    let same : n + 1 + length ls ≡ n + suc (length ls) = omega arith in
    last_child-links index (n + 1) (child index n) m ls ∙ ap (child index) same

-- The arrow up over a row that is hidden and has a list, to a row with its list open, gives the focus
-- to the last link of the hidden row.
pub up_into_hidden_row :
    (p : Panel) (index k : ℕ) (l : Link) (ls opened : List Link)
    → is_shown (get_elem? p.rows index) ≡ false
    → nav_prev (index + 1) p.rows ≡ some k
    → open_links k p.rows ≡ some opened
    → links_at index p.rows ≡ l ∷ ls
    → (nav_up (index + 1) p).focus ≡ child index (length ls)
unfolding nav_up
up_into_hidden_row p index k l ls opened hidden back o links =
    let here : index + 1 - 1 ≡ index = omega arith in
    let first : 0 + length ls ≡ length ls = omega arith in
    rw (nav_up, back, o, here, links)
      (last_child-links index 0 (item k) l ls ∙ ap (child index) first)
