-- ===== src/Client/Program/Commands.antt =====
-- The console's text as a sequence of commands.
use p2p_file_share.Base.{
  Option-cases, inl, inr, none, ◌≡◌, refl, true, false, some, List, [], ◌∷◌, ◌++◌, map, Text, lit,
  text_eq, is_empty, Option-cases, inl, inr, none, Bool, Exception, null_pointer, connection_closed,
  Checked, ok, throws,
}
use p2p_file_share.Stream.{of_text, is_space, skip_space}
use p2p_file_share.Common.TrackerInfo.Lines.{NoBreak}
use p2p_file_share.Models.Endpoint.{Endpoint}
use p2p_file_share.Common.Ending.{Ending, exit, aborts}
use p2p_file_share.Client.Downloads.{pause_downloads}
use p2p_file_share.Client.ProcessInput.{Client, process_input}
use p2p_file_share.Client.Program.{
  take_line, drop_line, get_line, next_input, Round, Status, quits, gives_up, leaves, terminated,
  running, Setting, run_round, go_on, loop, connect_to_tracker, react, finish, shut_down, catch_all,
}

-- A line that starts with no blank.
abbrev pub IsLine : Text → Type 0
IsLine [] = ⊥
IsLine (c ∷ s) = (is_space c ≡ false) × NoBreak (c ∷ s)

abbrev pub AreBlank : Text → Type 0
AreBlank [] = Unit
AreBlank (c ∷ s) = (is_space c ≡ true) × AreBlank s

take_line-append : (l r : Text) → NoBreak l → take_line (l ++ 10 ∷ r) ≡ l
unfolding take_line
take_line-append [] r h = refl
take_line-append (c ∷ l) r h = rw (h.0, take_line-append l r h.1) refl

drop_line-append : (l r : Text) → NoBreak l → drop_line (l ++ 10 ∷ r) ≡ some r
unfolding drop_line
drop_line-append [] r h = refl
drop_line-append (c ∷ l) r h = rw (h.0, drop_line-append l r h.1) refl

skip_space-blank : (b t : Text) → AreBlank b → skip_space (b ++ t) ≡ skip_space t
unfolding skip_space
skip_space-blank [] t h = refl
skip_space-blank (c ∷ b) t h = rw (h.0, skip_space-blank b t h.1) refl

skip_space-line : (l r : Text) → IsLine l → skip_space (l ++ r) ≡ l ++ r
unfolding skip_space
skip_space-line [] r h = absurd h
skip_space-line (c ∷ l) r h = rw (h.0) refl

is_empty-blank : (b l r : Text) → IsLine l → is_empty (b ++ (l ++ r)) ≡ false
is_empty-blank [] [] r h = absurd h
is_empty-blank [] (c ∷ l) r h = refl
is_empty-blank (c ∷ b) l r h = refl

get_line-line : (l r : Text) → IsLine l → get_line (l ++ 10 ∷ r) ≡ (l, of_text r)
unfolding get_line
get_line-line [] r h = absurd h
get_line-line (c ∷ l) r h = rw (take_line-append (c ∷ l) r h.1, drop_line-append (c ∷ l) r h.1) refl

pub next_input-line :
    (b l r : Text)
    → AreBlank b
    → IsLine l
    → next_input (of_text (b ++ (l ++ 10 ∷ r))) ≡ (l, of_text r)
unfolding next_input
next_input-line b l r h k =
    rw
      (
        is_empty-blank b l (10 ∷ r) k,
        skip_space-blank b (l ++ 10 ∷ r) h,
        skip_space-line l (10 ∷ r) k,
      )
      (get_line-line l r k)

-- A command as it is typed: the blanks and empty lines in front of it, and its line, with the round
-- that it meets.
pub record Typed : Type 0 where
  pub round : Round
  pub blanks : Text
  pub line : Text

pub record IsCommand (t : Typed) : Type 0 where
  pub blank : AreBlank t.blanks
  pub whole : IsLine t.line
  pub no_quit : text_eq t.line (lit "quit") ≡ false

abbrev pub AreCommands : List Typed → Type 0
AreCommands [] = Unit
AreCommands (t ∷ ts) = IsCommand t × AreCommands ts

unfoldable pub type_all : List Typed → Text → Text
type_all [] after = after
type_all (t ∷ ts) after = t.blanks ++ (t.line ++ 10 ∷ type_all ts after)

abbrev pub rounds_of : List Typed → List Round
rounds_of ts = map (λ t. t.round) ts

-- How the client ends that an exception stops.
unfoldable pub end_by : Exception → Ending
end_by null_pointer = aborts null_pointer
end_by e = exit 1

-- The client's commands without its loop: each command is given to process_input, with this client's id and
-- endpoint, after what the other threads have done; a connection that it finds closed is replaced by
-- one to a tracker of the list, without which the client gives up; any other exception ends it, and one
-- of another thread aborts it; and behind the last command it ends with its downloads paused.
unfoldable pub execute : Setting → List Typed → Client → Client × Ending
unfolding end_by
execute g [] c = (record c { manager = (pause_downloads c.manager).0 }, exit 0)
execute g (t ∷ ts) c =
    let (c', r) =
      process_input t.round.environment g.my_id g.client_endpoint t.round.disk t.line
        (t.round.meanwhile c) in
    let rest = execute g ts c' in
    elim t.round.uncaught [
      | some e ↦ (t.round.meanwhile c, aborts e)
      | none ↦ elim r [
        | ok _ ↦ rest
        | throws connection_closed ↦ elim (connect_to_tracker t.round.connect g.trackers) [
          | ok true ↦ rest
          | ok false ↦ (c', exit 1)
          | throws e ↦ (c', end_by e)
        ]
        | throws e ↦ (c', end_by e)
      ]
    ]

quit-IsLine : IsLine (lit "quit")
quit-IsLine = (refl, (refl, (refl, (refl, (refl, tt)))))

quit_equal : text_eq (lit "quit") (lit "quit") ≡ true
unfolding text_eq
quit_equal = refl

pub go_on_ext :
    (p : Client × Status) (f k : Client → Client × Status)
    → ((c : Client) → f c ≡ k c)
    → go_on p f ≡ go_on p k
unfolding go_on
go_on_ext (c, quits) f k h = refl
go_on_ext (c, gives_up) f k h = refl
go_on_ext (c, leaves e) f k h = refl
go_on_ext (c, terminated e) f k h = refl
go_on_ext (c, running) f k h = h c

finish_code : Unit {0}
unfolding go_on finish shut_down catch_all
finish_code = tt

finish-leaves : (e : Exception) (c : Client) → finish (c, leaves e) ≡ (c, end_by e)
unfolding finish shut_down catch_all end_by
finish-leaves null_pointer c = refl
finish-leaves e c = refl

finish-go_on :
    (connect : Endpoint → Checked Bool) (trackers : List Endpoint) (r : Checked (Text × Bool))
    (next : Client → Client × Status) (c : Client) (rest : Client × Ending)
    → finish (next c) ≡ rest
    → finish (go_on (c, react connect trackers r) next) ≡ elim r [
      | ok _ ↦ rest
      | throws connection_closed ↦ elim (connect_to_tracker connect trackers) [
        | ok true ↦ rest
        | ok false ↦ (c, exit 1)
        | throws e ↦ (c, end_by e)
      ]
      | throws e ↦ (c, end_by e)
    ]
unfolding react go_on
finish-go_on connect trackers (ok r) next c rest h = h
finish-go_on connect trackers (throws connection_closed) next c rest h =
    reconnected (connect_to_tracker connect trackers)
  where
    reconnected :
        (r : Checked Bool)
        → finish (
            go_on
              (c, elim r [ ok true ↦ running | ok false ↦ gives_up | throws e ↦ leaves e ])
              next)
          ≡ elim r [ ok true ↦ rest | ok false ↦ (c, exit 1) | throws e ↦ (c, end_by e) ]
    reconnected (ok true) = h
    reconnected (ok false) = unfold finish_code in refl
    reconnected (throws e) = finish-leaves e c
finish-go_on connect trackers (throws e) next c rest h = finish-leaves e c

-- For a console that gives lines that are not "quit" and do not start with a blank, each with blanks or
-- empty lines in front of it, then "quit" on a line, then anything: with a round for each line, the loop
-- runs each line as a command in its order, until one ends it, and quits behind the last, with nothing
-- behind "quit" read.
pub loop-type_all :
    (g : Setting) (ts : List Typed) (last : Round) (b rest : Text) (c : Client)
    → AreCommands ts
    → AreBlank b
    → finish (
        loop g
          (rounds_of ts ++ last ∷ [])
          (of_text (type_all ts (b ++ (lit "quit" ++ 10 ∷ rest))))
          c)
      ≡ execute g ts c
unfolding type_all execute loop run_round
loop-type_all g [] last b rest c h k =
    rw (loop, next_input-line b (lit "quit") rest k quit-IsLine, quit_equal)
      (unfold finish_code in refl)
loop-type_all g (t ∷ ts) last b rest c h k =
    let (c', r) =
      process_input t.round.environment g.my_id g.client_endpoint t.round.disk t.line
        (t.round.meanwhile c) in
    rw
      (
        loop,
        next_input-line t.blanks t.line (type_all ts (b ++ (lit "quit" ++ 10 ∷ rest))) h.0.blank
            h.0.whole,
        h.0.no_quit,
      )
      (elim (Option-cases t.round.uncaught) [
        | inl n ↦ rw n (
            finish-go_on t.round.connect g.trackers r _ c' (execute g ts c')
              (loop-type_all g ts last b rest c' h.1 k))
        | inr (e, n) ↦ rw n (unfold finish_code in refl)
      ])
