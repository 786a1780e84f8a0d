-- ===== src/Client/Program/Endings.antt =====
-- What can end the loop of the client.
use p2p_file_share.Base.{
  none, ℕ, ◌∙◌, ◌⊕◌, ◌>>=◌, ◌≡◌, ◌⊎◌, inl, inr, refl, Bool, true, false, ◌||◌, List, [], ◌∷◌,
  if◌then◌else◌, Text, lit, text_eq, Checked, ok, throws, invalid_argument, out_of_range,
  connection_closed,
}
use p2p_file_share.Stream.{
  Stream, of_text, skip_space, get_word, sentry, take_word, drop_word,
  to_string as number_to_string,
}
use p2p_file_share.Models.Endpoint.{Endpoint}
use p2p_file_share.Client.FileIo.{Disk}
use p2p_file_share.Client.ProcessInput.{Environment, Client, ask_tracker, process_input}
use p2p_file_share.Client.ProcessInput.Throws.{IsTame, OnlyCloses, process_input_lem}
use p2p_file_share.Client.Program.{
  connect_to_tracker, get_line, next_input, Round, Status, quits, gives_up, leaves, terminated,
  running, react, Setting, run_round, go_on, loop,
}
use p2p_file_share.Client.Program.Commands.{AreBlank, go_on_ext}

-- Every round with the empty input.
unfoldable idle_rounds : Setting → List Round → Client → Client × Status
unfolding go_on
idle_rounds g [] c = (c, running)
idle_rounds g (round ∷ rounds) c = go_on (run_round g round [] c) (idle_rounds g rounds)

abbrev AtEnd : Stream → Type 0
AtEnd s = (s.eof || s.fail) ≡ true

next_input-AtEnd : (s : Stream) → AtEnd s → next_input s ≡ ([], record s { fail = true })
unfolding next_input
next_input-AtEnd s h = rw h refl

or_true : (a : Bool) → (a || true) ≡ true
or_true true = refl
or_true false = refl

no_quit : text_eq [] (lit "quit") ≡ false
unfolding text_eq
no_quit = refl

loop-AtEnd :
    (g : Setting) (rounds : List Round) (s : Stream) (c : Client)
    → AtEnd s
    → loop g rounds s c ≡ idle_rounds g rounds c
unfolding loop idle_rounds
loop-AtEnd g [] s c h = refl
loop-AtEnd g (round ∷ rounds) s c h =
    rw (loop, next_input-AtEnd s h, no_quit)
      (go_on_ext (run_round g round [] c) _ (idle_rounds g rounds)
        (λ c'. loop-AtEnd g rounds (record s { fail = true }) c' (or_true s.eof)))

skip_space-AreBlank : (b : Text) → AreBlank b → skip_space b ≡ []
unfolding skip_space
skip_space-AreBlank [] h = refl
skip_space-AreBlank (c ∷ b) h = rw h.0 (skip_space-AreBlank b h.1)

next_input-AreBlank :
    (b : Text) → AreBlank b → ((next_input (of_text b)).0 ≡ []) × AtEnd (next_input (of_text b)).1
unfolding next_input get_line
next_input-AreBlank [] h = (refl, refl)
next_input-AreBlank (c ∷ b) h = rw (skip_space-AreBlank (c ∷ b) h) (refl, refl)

-- What holds where the loop stands after a round, and for all that can follow it.
go_on_status :
    (P : Status → Type 0) (p : Client × Status) (next : Client → Client × Status)
    → P p.1
    → ((c : Client) → P (next c).1)
    → P (go_on p next).1
unfolding go_on
go_on_status P (c, quits) next h k = h
go_on_status P (c, gives_up) next h k = h
go_on_status P (c, leaves e) next h k = h
go_on_status P (c, terminated e) next h k = h
go_on_status P (c, running) next h k = k c

loop-blank :
    (g : Setting) (rounds : List Round) (b : Text) (c : Client)
    → AreBlank b
    → loop g rounds (of_text b) c ≡ idle_rounds g rounds c
unfolding loop idle_rounds
loop-blank g [] b c h = refl
loop-blank g (round ∷ rounds) b c h =
    let (empty, ended) = next_input-AreBlank b h in
    rw (loop, empty, no_quit)
      (go_on_ext (run_round g round [] c) _ (idle_rounds g rounds)
        (λ c'. loop-AtEnd g rounds (next_input (of_text b)).1 c' ended))

-- Some tracker accepts, and each that is tried before it is found closed or not connected.
abbrev pub IsReachable : (Endpoint → Checked Bool) → List Endpoint → Type 0
IsReachable connect [] = ⊥
IsReachable connect (t ∷ ts) =
    (connect t ≡ ok true) ⊎ (OnlyCloses (connect t) × IsReachable connect ts)

connect-OnlyCloses :
    (r rest : Checked Bool)
    → OnlyCloses r
    → rest ≡ ok true
    → (elim r [
      | ok true ↦ ok true
      | ok false ↦ rest
      | throws connection_closed ↦ rest
      | throws e ↦ throws e
    ])
      ≡ ok true
connect-OnlyCloses (ok true) rest h k = refl
connect-OnlyCloses (ok false) rest h k = k
connect-OnlyCloses (throws connection_closed) rest h k = k
connect-OnlyCloses (throws e) rest h k = elim h [ ]

pub connect_to_tracker-IsReachable :
    (connect : Endpoint → Checked Bool) (ts : List Endpoint)
    → IsReachable connect ts
    → connect_to_tracker connect ts ≡ ok true
unfolding connect_to_tracker
connect_to_tracker-IsReachable connect [] h = absurd h
connect_to_tracker-IsReachable connect (t ∷ ts) (inl e) = rw (connect_to_tracker, e) refl
connect_to_tracker-IsReachable connect (t ∷ ts) (inr (h, k)) =
    connect-OnlyCloses (connect t) _ h (connect_to_tracker-IsReachable connect ts k)

-- In each round the tracker's connection fails only by being closed, and then another one is accepted;
-- and no exception has left another thread of the client.
abbrev pub HasTracker : Setting → Round → Type 0
HasTracker g round =
    ((request : Text) → OnlyCloses (round.environment.exchange request))
    × IsReachable round.connect g.trackers
    × (round.uncaught ≡ none)

abbrev pub HaveTracker : Setting → List Round → Type 0
HaveTracker g [] = Unit
HaveTracker g (round ∷ rounds) = HasTracker g round × HaveTracker g rounds

-- What the other threads do to the client in some rounds.
unfoldable pub all_meanwhile : List Round → Client → Client
all_meanwhile [] c = c
all_meanwhile (round ∷ rounds) c = all_meanwhile rounds (round.meanwhile c)

empty_code : Unit {0}
unfolding process_input get_word sentry skip_space take_word drop_word text_eq ask_tracker
empty_code = tt

-- The empty input is sent to the tracker.
process_input-empty :
    (env : Environment) (my_id : ℕ) (e : Endpoint) (disk : Disk) (c : Client)
    → process_input env my_id e disk [] c
      ≡ (c, ask_tracker env (lit "1" ⊕ number_to_string my_id ⊕ lit " " ⊕ []))
unfolding empty_code
process_input-empty env my_id e disk c = refl

react-OnlyCloses :
    (connect : Endpoint → Checked Bool) (ts : List Endpoint) (r : Checked Text)
    → OnlyCloses r
    → IsReachable connect ts
    → react connect ts (r >>= λ response. ok (response, true)) ≡ running
unfolding react
react-OnlyCloses connect ts (ok r) h k = refl
react-OnlyCloses connect ts (throws connection_closed) h k =
    rw (react, connect_to_tracker-IsReachable connect ts k) refl
react-OnlyCloses connect ts (throws e) h k = elim h [ ]

run_round-empty :
    (g : Setting) (round : Round) (c : Client)
    → HasTracker g round
    → run_round g round [] c ≡ (round.meanwhile c, running)
unfolding run_round ask_tracker
run_round-empty g round c h =
    rw
      (
        run_round,
        h.2,
        process_input-empty round.environment g.my_id g.client_endpoint round.disk
            (round.meanwhile c),
        react-OnlyCloses round.connect g.trackers
            (round.environment.exchange (lit "1" ⊕ number_to_string g.my_id ⊕ lit " " ⊕ [])) (h.0 _)
            h.1,
      )
      refl

idle_rounds-HaveTracker :
    (g : Setting) (rounds : List Round) (c : Client)
    → HaveTracker g rounds
    → idle_rounds g rounds c ≡ (all_meanwhile rounds c, running)
unfolding idle_rounds all_meanwhile go_on
idle_rounds-HaveTracker g [] c h = refl
idle_rounds-HaveTracker g (round ∷ rounds) c h =
    rw (idle_rounds, run_round-empty g round c h.0)
      (idle_rounds-HaveTracker g rounds (round.meanwhile c) h.1)

-- For a console that has only blanks left, where in every round the tracker's connection fails only by
-- being closed, some tracker of the list accepts a new one, with those before it closed or not connected,
-- and no exception leaves another thread of the client: after any number of rounds the loop is still
-- running, and the client is what the other threads made of it.
pub loop-AreBlank :
    (g : Setting) (rounds : List Round) (b : Text) (c : Client)
    → AreBlank b
    → HaveTracker g rounds
    → loop g rounds (of_text b) c ≡ (all_meanwhile rounds c, running)
loop-AreBlank g rounds b c h k = loop-blank g rounds b c h ∙ idle_rounds-HaveTracker g rounds c k

-- The loop quits, goes on, or is left by what an answer that cannot be read throws.
abbrev pub Survives : Status → Type 0
Survives quits = Unit
Survives running = Unit
Survives gives_up = ⊥
Survives (terminated e) = ⊥
Survives (leaves out_of_range) = Unit
Survives (leaves invalid_argument) = Unit
Survives (leaves e) = ⊥

react-Survives :
    (connect : Endpoint → Checked Bool) (ts : List Endpoint) (r : Checked (Text × Bool))
    → IsTame r
    → IsReachable connect ts
    → Survives (react connect ts r)
unfolding react
react-Survives connect ts (ok r) h k = tt
react-Survives connect ts (throws connection_closed) h k =
    rw (react, connect_to_tracker-IsReachable connect ts k) tt
react-Survives connect ts (throws out_of_range) h k = tt
react-Survives connect ts (throws invalid_argument) h k = tt
react-Survives connect ts (throws e) h k = elim h [ ]

run_round-Survives :
    (g : Setting) (round : Round) (input : Text) (c : Client)
    → HasTracker g round
    → Survives (run_round g round input c).1
unfolding run_round
run_round-Survives g round input c h =
    rw (run_round, h.2)
      (react-Survives round.connect g.trackers _
        (process_input_lem round.environment g.my_id g.client_endpoint round.disk input
          (round.meanwhile c) h.0)
        h.1)

if-Survives :
    (b : Bool) (x y : Client × Status)
    → Survives x.1
    → Survives y.1
    → Survives (if b then x else y).1
if-Survives true x y h k = h
if-Survives false x y h k = k

-- Where in every round the tracker's connection fails only by being closed, some tracker of the list
-- accepts a new one, with those before it closed or not connected, and no exception leaves another
-- thread of the client: whatever the console gives, the client's loop never gives up, and no exception
-- leaves it but those of an answer that cannot be read.
pub loop-Survives :
    (g : Setting) (rounds : List Round) (console : Stream) (c : Client)
    → HaveTracker g rounds
    → Survives (loop g rounds console c).1
unfolding loop
loop-Survives g [] console c h = tt
loop-Survives g (round ∷ rounds) console c h =
    let (input, console') = next_input console in
    if-Survives (text_eq input (lit "quit")) (c, quits) _ tt
      (go_on_status Survives (run_round g round input c) (loop g rounds console')
        (run_round-Survives g round input c h.0) (λ c'. loop-Survives g rounds console' c' h.1))
