-- ===== src/Tracker/Program/Console.antt =====
-- The console of the tracker as a sequence of lines.
use p2p_file_share.Base.{
  ℕ, zero, suc, ◌<◌, ◌≡◌, refl, false, List, [], ◌∷◌, ◌++◌, arith, ltb, Text, lit, text_eq,
  is_empty, length, Bool, if◌then◌else◌, Checked, ok, true, sym, ap, ◌∙◌,
}
use p2p_file_share.Stream.{of_text}
use p2p_file_share.Stream.Words.{IsWord, EndsWord, get_word_lem}
use p2p_file_share.Common.TrackerInfo.Lines.{NoBreak}
use p2p_file_share.Tracker.Program.{ignore, next_input, loop, serve_between, max_connections}
use p2p_file_share.Common.Ending.{Ending, exit, unfinished}
use p2p_file_share.Tracker.Server.{Setting}
use p2p_file_share.Tracker.Service.{Arrival, Service, serve_all}
use p2p_file_share.Tracker.Service.Rounds.{serve_all-before, serve_all-append}

-- A line: its first word, and the text behind the word.
pub record Line : Type 0 where
  pub word : Text
  pub tail : Text

pub record IsLine (l : Line) : Type 0 where
  pub is_word : IsWord l.word
  pub ended : EndsWord l.tail
  pub unbroken : NoBreak l.tail
  pub short : length l.tail < 1000

pub record IsOther (l : Line) : Type 0 where
  pub is_line : IsLine l
  pub no_quit : text_eq l.word (lit "quit") ≡ false

abbrev pub AreOther : List Line → Type 0
AreOther [] = Unit
AreOther (l ∷ ls) = IsOther l × AreOther ls

unfoldable pub print_line : Line → Text → Text
print_line l after = l.word ++ (l.tail ++ 10 ∷ after)

unfoldable pub print_lines : List Line → Text → Text
unfolding print_line
print_lines [] after = after
print_lines (l ∷ ls) after = print_line l (print_lines ls after)

ignore-append :
    (n : ℕ) (t r : Text) → NoBreak t → length t < n → ignore n (t ++ 10 ∷ r) ≡ (r, false)
unfolding ignore
ignore-append zero t r h k = absurd (omega (arith, k))
ignore-append (suc n) [] r h k = refl
ignore-append (suc n) (c ∷ t) r h k = rw (h.0, ignore-append n t r h.1 (omega (arith, k))) refl

is_empty-line : (w r : Text) → IsWord w → is_empty (w ++ r) ≡ false
is_empty-line [] r h = absurd h
is_empty-line (c ∷ w) r h = refl

is_empty-tail : (t r : Text) → is_empty (t ++ 10 ∷ r) ≡ false
is_empty-tail [] r = refl
is_empty-tail (c ∷ t) r = refl

EndsWord-tail : (t r : Text) → EndsWord t → EndsWord (t ++ 10 ∷ r)
EndsWord-tail [] r h = refl
EndsWord-tail (c ∷ t) r h = h

next_input-line :
    (l : Line) (after : Text)
    → IsLine l
    → next_input (of_text (print_line l after)) ≡ (l.word, of_text after)
unfolding next_input print_line
next_input-line l after h =
    rw
      (
        get_word_lem [] l.word (l.tail ++ 10 ∷ after) h.is_word
            (EndsWord-tail l.tail after h.ended),
        is_empty-line l.word (l.tail ++ 10 ∷ after) h.is_word,
        is_empty-tail l.tail after,
        ignore-append 1000 l.tail after h.unbroken h.short,
      )
      refl

-- What arrives in the first rounds.
unfoldable pub first_arrivals : ℕ → List (List Arrival) → List Arrival
first_arrivals zero rounds = []
first_arrivals (suc n) [] = []
first_arrivals (suc n) (arrivals ∷ rounds) = arrivals ++ first_arrivals n rounds

ltb-zero : (n : ℕ) → true ≡ ltb 0 (suc n)
ltb-zero n = ground arith

ltb-suc : (a b : ℕ) → ltb a b ≡ ltb (suc a) (suc b)
ltb-suc a b = ground arith

abbrev ends_with : Service → Bool → Service × Ending
ends_with s quits = (s, if quits then exit 0 else unfinished)

-- For lines that each start with a word other than "quit", then one that starts with "quit", none with
-- 1000 bytes or more behind its first word, then anything: the loop of the tracker ends with the round
-- that reads the last of them, and not before, and its service is what the server's thread makes of all
-- that arrives until then, if no exception leaves the thread.
pub loop-print_lines :
    (g : Setting) (unset : ℕ) (ls : List Line) (tail after : Text) (rounds : List (List Arrival))
    (s : Service)
    → AreOther ls
    → IsLine (record { word = lit "quit"; tail = tail })
    → (serve_all g unset max_connections (first_arrivals (suc (length ls)) rounds) s).1 ≡ ok tt
    → loop true g unset rounds
        (of_text (print_lines ls (print_line (record { word = lit "quit"; tail = tail }) after)))
        s
      ≡ (
        (serve_all g unset max_connections (first_arrivals (suc (length ls)) rounds) s).0,
        if ltb (length ls) (length rounds) then exit 0 else unfinished,
      )
unfolding loop print_lines text_eq first_arrivals serve_between
loop-print_lines g unset ls tail after [] s h k d = unfold serve_all in (ground arith)
loop-print_lines g unset [] tail after (arrivals ∷ rounds) s h k d =
    let now = serve_all-before g unset max_connections arrivals [] s d in
    let all = serve_all-append g unset max_connections arrivals [] s now in
    rw (loop, now, next_input-line (record { word = lit "quit"; tail = tail }) after k, all)
      (unfold serve_all in
        (ap (ends_with (serve_all g unset max_connections arrivals s).0)
          (ltb-zero (length rounds))))
loop-print_lines g unset (l ∷ ls) tail after (arrivals ∷ rounds) s h k d =
    let rest = first_arrivals (suc (length ls)) rounds in
    let now = serve_all-before g unset max_connections arrivals rest s d in
    let all = serve_all-append g unset max_connections arrivals rest s now in
    let s' = (serve_all g unset max_connections arrivals s).0 in
    let later : (serve_all g unset max_connections rest s').1 ≡ ok tt =
      ap (λ (p : Service × Checked (Unit {0})). p.1) (sym all) ∙ d in
    rw
      (
        loop,
        now,
        next_input-line l
            (print_lines ls (print_line (record { word = lit "quit"; tail = tail }) after))
            h.0.is_line,
        h.0.no_quit,
        loop-print_lines g unset ls tail after rounds s' h.1 k later,
        all,
      )
      (ap (ends_with (serve_all g unset max_connections rest s').0)
        (ltb-suc (length ls) (length rounds)))
