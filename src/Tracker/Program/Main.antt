-- ===== src/Tracker/Program/Main.antt =====
-- The whole tracker, from its arguments to its exit status.
use p2p_file_share.Base.{
  ℕ, zero, suc, ◌-◌, ◌<◌, ◌≤◌, ◌≡◌, refl, Bool, true, false, none, some, List, [], ◌∷◌, ◌++◌,
  if◌then◌else◌, ap, arith, ltb, Text, lit, length, drop, Checked, ok, throws, out_of_range,
}
use p2p_file_share.Stream.{Stream, of_text, to_string as number_to_string}
use p2p_file_share.Stream.Decimal.{stoi-to_string}
use p2p_file_share.Models.Endpoint.{Endpoint, generate_id}
use p2p_file_share.Common.Ending.{exit, aborts, unfinished}
use p2p_file_share.Common.TrackerInfo.{buffer_length, loaded}
use p2p_file_share.Common.TrackerInfo.Lines.{AreInfo, print_info}
use p2p_file_share.Common.TrackerInfo.Reading.{load_tracker_info-print_info}
use p2p_file_share.Tracker.Server.{Server, Setting, sync_with_online_trackers}
use p2p_file_share.Tracker.Service.{serve_all}
use p2p_file_share.Tracker.Service.Survival.{AreArrivals, any_uploads, Survives, serve_all_lem}
use p2p_file_share.Tracker.Program.{
  World, new_server, new_service, max_connections, tracker_at, is_tracker_number, run_tracker,
  sync_tracker, start_tracker, main,
}
use p2p_file_share.Tracker.Program.Console.{
  Line, IsLine, AreOther, print_line, print_lines, first_arrivals, loop-print_lines,
}

-- The file with the trackers is read whole.
pub record IsGiven (world : World) (path : Text) (trackers : List Endpoint) : Type 0 where
  pub behind : Text
  pub info : AreInfo trackers
  pub small : length (print_info trackers) < buffer_length
  pub ends : drop (length (print_info trackers)) world.buffer ≡ 0 ∷ behind
  pub file : world.files path ≡ some (some (print_info trackers))

-- What the tracker's functions are given.
abbrev pub setting : World → List Endpoint → Endpoint → Setting
setting world trackers own = record {
  hash = world.hash;
  my_id = generate_id world.hash own;
  trackers = trackers;
}

is_tracker_number_lem :
    (n : ℕ) → suc n ≤ 2 → is_tracker_number (record { negative = false; size = suc n }) ≡ true
is_tracker_number_lem n h = ground (arith, h)

main-given :
    (world : World) (path : Text) (trackers : List Endpoint) (n : ℕ) (console : Stream)
    → suc n ≤ 2
    → IsGiven world path trackers
    → main world (path ∷ number_to_string (suc n) ∷ []) console
      ≡ start_tracker world (suc n) console (some (loaded trackers))
unfolding main
main-given world path trackers n console h given =
    rw
      (
        main,
        stoi-to_string (suc n) (omega (arith, h)),
        is_tracker_number_lem n h,
        given.file,
        load_tracker_info-print_info trackers world.buffer given.behind given.info given.small
            given.ends,
      )
      refl

tracker_at-append :
    (before after : List Endpoint) (own : Endpoint)
    → tracker_at (length before) (before ++ own ∷ after) ≡ some own
unfolding tracker_at
tracker_at-append [] after own = refl
tracker_at-append (t ∷ before) after own = tracker_at-append before after own

tracker_at-beyond :
    (n : ℕ) (trackers : List Endpoint) → length trackers ≤ n → tracker_at n trackers ≡ none
unfolding tracker_at
tracker_at-beyond n [] h = refl
tracker_at-beyond zero (t ∷ trackers) h = absurd (omega (arith, h))
tracker_at-beyond (suc n) (t ∷ trackers) h = tracker_at-beyond n trackers (omega (arith, h))

Survives-quiet : (r : Checked (Unit {0})) → Survives false r → r ≡ ok tt
Survives-quiet (ok _) h = refl
Survives-quiet (throws e) h = absurd h

-- For a tracker file as load_tracker_info reads it back, the number 1 or 2 of one of its trackers, a
-- synchronisation that no exception leaves, and a server that starts: on a console of lines that do not
-- start with the word "quit" and then one that does, none with 1000 bytes or more behind its first
-- word, where select does not fail, every connection is accepted, the calls on each socket come to
-- results or to the socket's own errors, and no upload_file arrives: the tracker exits with 0 if it gets
-- to the round that reads the "quit", and is not at its end before; and by then, starting from the
-- databases that the synchronisation gave, its server has served all that arrived.
pub main_serves_until_quit :
    (world : World) (path : Text) (before after : List Endpoint) (own : Endpoint) (synced : Bool)
    (server : Server) (ls : List Line) (tail rest : Text)
    → length before < 2
    → IsGiven world path (before ++ own ∷ after)
    → sync_with_online_trackers
        (setting world (before ++ own ∷ after) own)
        world.peer
        (before ++ own ∷ after)
        new_server
      ≡ (server, ok synced)
    → world.started ≡ ok true
    → AreOther ls
    → IsLine (record { word = lit "quit"; tail = tail })
    → AreArrivals (first_arrivals (suc (length ls)) world.rounds)
    → any_uploads world.unset (first_arrivals (suc (length ls)) world.rounds) ≡ false
    → main world
        (path ∷ number_to_string (suc (length before)) ∷ [])
        (of_text (print_lines ls (print_line (record { word = lit "quit"; tail = tail }) rest)))
      ≡ (
        (serve_all
            (setting world (before ++ own ∷ after) own)
            world.unset
            max_connections
            (first_arrivals (suc (length ls)) world.rounds)
            (new_service world server)).0,
        if ltb (length ls) (length world.rounds) then exit 0 else unfinished,
      )
unfolding start_tracker sync_tracker run_tracker
main_serves_until_quit world path before after own synced server ls tail rest h given sync starts
      others quit arrive quiet =
    let index : suc (length before) - 1 ≡ length before = omega arith in
    let g = setting world (before ++ own ∷ after) own in
    let arrivals = first_arrivals (suc (length ls)) world.rounds in
    let s = new_service world server in
    let late : Survives (any_uploads world.unset arrivals)
        (serve_all g world.unset max_connections arrivals s).1 =
      serve_all_lem g world.unset max_connections arrivals s arrive in
    let served : (serve_all g world.unset max_connections arrivals s).1 ≡ ok tt =
      Survives-quiet (serve_all g world.unset max_connections arrivals s).1 (rw quiet at late) in
    rw
      (
        main-given world path (before ++ own ∷ after) (length before) _ (omega (arith, h)) given,
        start_tracker,
        index,
        tracker_at-append before after own,
        sync_tracker,
        ap (λ (r : Server × Checked Bool). r.1) sync,
        run_tracker,
        starts,
        ap (λ (r : Server × Checked Bool). r.0) sync,
      )
      (loop-print_lines g world.unset ls tail rest world.rounds s others quit served)

-- For such a file and the number 1 or 2, where the file has fewer trackers: the tracker is ended by an
-- exception that nothing catches.
pub main_aborts :
    (world : World) (path : Text) (trackers : List Endpoint) (n : ℕ) (console : Stream)
    → suc n ≤ 2
    → length trackers ≤ n
    → IsGiven world path trackers
    → main world (path ∷ number_to_string (suc n) ∷ []) console
      ≡ (new_service world new_server, aborts out_of_range)
unfolding start_tracker
main_aborts world path trackers n console h k given =
    let index : suc n - 1 ≡ n = omega arith in
    rw
      (
        main-given world path trackers n console h given,
        start_tracker,
        index,
        tracker_at-beyond n trackers k,
      )
      refl
