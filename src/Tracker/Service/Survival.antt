-- ===== src/Tracker/Service/Survival.antt =====
-- The exceptions that end the thread.
use p2p_file_share.Base.{
  ℕ, Bool, true, false, ◌||◌, Bool-cases, Checked-cases, OnlyThrows, bind-OnlyThrows, inl, inr, ◌≡◌,
  List, [], ◌∷◌, Text, lit, is_empty, Checked, ok, throws, Exception, out_of_range, unknown_request,
  network_error, would_block, connection_closed, ◌==◌, ltb, length,
}
use p2p_file_share.Models.Endpoint.{Endpoint}
use p2p_file_share.Models.Transaction.{Transaction}
use p2p_file_share.Network.EventLoop.{
  EventLoop, Handled, kept, closed, raised, has_fd, drop_client, catch_error, serve_client,
  admit_client, serve_input,
}
use p2p_file_share.Tracker.State.{State}
use p2p_file_share.Tracker.ParseRequest.{parse_request}
use p2p_file_share.Tracker.ProcessRequest.{Connection}
use p2p_file_share.Tracker.Server.{Server, Setting, record_outcome, process_flagged, process_data}
use p2p_file_share.Tracker.Service.{
  Arrival, select_fails, connects, sends, Service, is_tracker, parsed, unflagged, handle, on_data,
  serve, serve_all,
}
use p2p_file_share.Tracker.ProcessRequest.Throws.{
  IsNetworkError, IsAllowed, IsConnection, is_upload, parse_request-throws,
  process_request-IsAllowed,
}

record_outcome-IsAllowed :
    (P : Exception → Type 0) (g : Setting) (do_mirror : Bool) (sv : Server)
    (p : State × Checked Transaction)
    → OnlyThrows P p.1
    → OnlyThrows P (record_outcome g do_mirror sv p).1
unfolding record_outcome
record_outcome-IsAllowed P g do_mirror sv (st', throws e) h = h
record_outcome-IsAllowed P g do_mirror sv (st', ok t) h = elim (Bool-cases t.outcome.success) [
  | inl e ↦ rw (record_outcome, e) tt
  | inr e ↦ rw (record_outcome, e) tt
]

process_flagged-IsAllowed :
    (g : Setting) (unset : ℕ) (c : Connection) (do_mirror : Bool) (text : Text) (sv : Server)
    → IsConnection c
    → OnlyThrows
        (IsAllowed (parsed (parse_request unset text) is_upload))
        (process_flagged g unset c do_mirror text sv).1
unfolding process_flagged
process_flagged-IsAllowed g unset c do_mirror text sv h =
    elim (Checked-cases (parse_request unset text)) [
      | inl (t, e) ↦
          rw (process_flagged, e)
            (record_outcome-IsAllowed (IsAllowed (is_upload t.request)) g do_mirror sv _ (
              process_request-IsAllowed unset sv.successful_transactions c do_mirror t t.request
                sv.state h))
      | inr (e, k) ↦
          let same : e ≡ unknown_request = rw k at (parse_request-throws unset text) in
          rw (process_flagged, k, same)
            (bind-OnlyThrows IsNetworkError (c.send_data (lit "Unknown request")) (λ _. ok [])
              (h.sending (lit "Unknown request")) (λ _. tt))
    ]

process_data-IsAllowed :
    (g : Setting) (unset : ℕ) (c : Connection) (text : Text) (sv : Server)
    → IsConnection c
    → is_empty text ≡ false
    → OnlyThrows
        (IsAllowed (parsed (parse_request unset (unflagged text)) is_upload))
        (process_data g unset c text sv).1
unfolding process_data
process_data-IsAllowed g unset c [] sv h k = cc k
process_data-IsAllowed g unset c (flag ∷ text) sv h k =
    process_flagged-IsAllowed g unset c (flag == b'1') text sv h

-- out_of_range, where `b` allows it.
abbrev IsLate : Bool → Exception → Type 0
IsLate true out_of_range = Unit
IsLate b e = ⊥

abbrev EndsLate : Bool → EventLoop × Checked (Unit {0}) → Type 0
EndsLate b p = OnlyThrows (IsLate b) p.1

catch_error-IsLate :
    (b : Bool) (fd : ℕ) (e : Exception) (loop : EventLoop)
    → IsAllowed b e
    → OnlyThrows (IsLate b) (catch_error fd e loop).1
unfolding catch_error
catch_error-IsLate b fd network_error loop h = tt
catch_error-IsLate b fd would_block loop h = tt
catch_error-IsLate b fd connection_closed loop h = tt
catch_error-IsLate true fd out_of_range loop h = tt
catch_error-IsLate true fd e loop h = elim h [ ]
catch_error-IsLate false fd e loop h = elim h [ ]

abbrev HandledAllowed : Bool → Handled → Type 0
HandledAllowed b (raised e) = IsAllowed b e
HandledAllowed b _ = Unit

handle-HandledAllowed :
    (b : Bool) (unset : ℕ) (text : Text) (r : Checked (List (Endpoint × Text)))
    → OnlyThrows (IsAllowed b) r
    → HandledAllowed b (handle unset text r)
unfolding handle
handle-HandledAllowed b unset text (throws e) h = h
handle-HandledAllowed b unset text (ok sent) h =
    elim (Bool-cases (parsed (parse_request unset (unflagged text)) is_tracker)) [
      | inl e ↦ rw (handle, e) tt
      | inr e ↦ rw (handle, e) tt
    ]

catch_handled-IsLate :
    (b : Bool) (fd : ℕ) (loop : EventLoop) (r : Handled)
    → HandledAllowed b r
    → EndsLate b (elim r [
      | kept ↦ (loop, ok tt)
      | closed ↦ (drop_client fd loop, ok tt)
      | raised e ↦ catch_error fd e loop
    ])
catch_handled-IsLate b fd loop kept h = tt
catch_handled-IsLate b fd loop closed h = tt
catch_handled-IsLate b fd loop (raised e) h = catch_error-IsLate b fd e loop h

serve_text-IsLate :
    (b : Bool) (fd : ℕ) (text : Text) (f : Text → Handled) (loop : EventLoop)
    → (is_empty text ≡ false → HandledAllowed b (f text))
    → OnlyThrows (IsLate b) (serve_client fd (ok text) f loop).1
unfolding serve_client
serve_text-IsLate b fd text f loop h = elim (Bool-cases (has_fd loop.clients fd)) [
  | inr e ↦ rw (serve_client, e) tt
  | inl e ↦ elim (Bool-cases (is_empty text)) [
    | inl k ↦ rw (serve_client, e, k) tt
    | inr k ↦ rw (serve_client, e, k) (catch_handled-IsLate b fd loop (f text) (h k))
  ]
]

serve_error-IsLate :
    (fd : ℕ) (e : Exception) (f : Text → Handled) (loop : EventLoop)
    → IsNetworkError e
    → OnlyThrows (IsLate false) (serve_client fd (throws e) f loop).1
unfolding serve_client
serve_error-IsLate fd e f loop h = elim (Bool-cases (has_fd loop.clients fd)) [
  | inr k ↦ rw (serve_client, k) tt
  | inl k ↦ rw (serve_client, k) (catch_error-IsLate false fd e loop h)
]

admit_client-IsLate :
    (max_connections fd : ℕ) (loop : EventLoop)
    → OnlyThrows (IsLate false) (admit_client max_connections (ok fd) loop).1
unfolding admit_client
admit_client-IsLate max_connections fd loop =
    elim (Bool-cases (ltb (length loop.clients) max_connections)) [
      | inl e ↦ rw (admit_client, e) tt
      | inr e ↦ rw (admit_client, e) tt
    ]

-- The calls of the sockets come to a result or to one of their errors; a connection is accepted; select
-- does not fail.
abbrev pub IsArrival : Arrival → Type 0
IsArrival select_fails = ⊥
IsArrival (connects (ok fd)) = Unit
IsArrival (connects (throws e)) = ⊥
IsArrival (sends fd c received) = IsConnection c × OnlyThrows IsNetworkError received

-- Whether an upload_file request arrives.
abbrev pub uploads : ℕ → Arrival → Bool
uploads unset select_fails = false
uploads unset (connects accepted) = false
uploads unset (sends fd c (throws e)) = false
uploads unset (sends fd c (ok text)) = parsed (parse_request unset (unflagged text)) is_upload

serve-IsLate :
    (g : Setting) (unset max_connections : ℕ) (a : Arrival) (s : Service)
    → IsArrival a
    → OnlyThrows (IsLate (uploads unset a)) (serve g unset max_connections a s).1
unfolding serve serve_input on_data
serve-IsLate g unset max_connections select_fails s h = absurd h
serve-IsLate g unset max_connections (connects (ok fd)) s h =
    admit_client-IsLate max_connections fd s.event_loop
serve-IsLate g unset max_connections (connects (throws e)) s h = absurd h
serve-IsLate g unset max_connections (sends fd c (throws e)) s h =
    serve_error-IsLate fd e (on_data g unset c s.server) s.event_loop h.1
serve-IsLate g unset max_connections (sends fd c (ok text)) s h =
    let b = parsed (parse_request unset (unflagged text)) is_upload in
    serve_text-IsLate b fd text (on_data g unset c s.server) s.event_loop (λ k.
      handle-HandledAllowed b unset text (process_data g unset c text s.server).1
        (process_data-IsAllowed g unset c text s.server h.0 k))

-- Each call comes to a result or to an error of its socket.
abbrev pub AreArrivals : List Arrival → Type 0
AreArrivals [] = Unit
AreArrivals (a ∷ arrivals) = IsArrival a × AreArrivals arrivals

abbrev pub any_uploads : ℕ → List Arrival → Bool
any_uploads unset [] = false
any_uploads unset (a ∷ arrivals) = uploads unset a || any_uploads unset arrivals

-- The thread goes on, or, where there is an upload_file request, it may be left by out_of_range.
abbrev pub Survives : Bool → Checked (Unit {0}) → Type 0
Survives uploaded (ok _) = Unit
Survives true (throws out_of_range) = Unit
Survives uploaded (throws e) = ⊥

abbrev SurvivesAll : Bool → Service × Checked (Unit {0}) → Type 0
SurvivesAll b p = Survives b p.1

Survives-wider : (b b' : Bool) (r : Checked (Unit {0})) → Survives b' r → Survives (b || b') r
Survives-wider true true r h = h
Survives-wider true false (ok a) h = tt
Survives-wider true false (throws e) h = absurd h
Survives-wider false b' r h = h

go_on_late :
    (b b' : Bool) (s : Service) (r : Checked (Unit {0})) (rest : Service × Checked (Unit {0}))
    → OnlyThrows (IsLate b) r
    → Survives b' rest.1
    → SurvivesAll (b || b') (elim r [ throws e ↦ (s, throws e) | ok _ ↦ rest ])
go_on_late b b' s (ok a) rest h k = Survives-wider b b' rest.1 k
go_on_late true b' s (throws out_of_range) rest h k = tt
go_on_late true b' s (throws e) rest h k = elim h [ ]
go_on_late false b' s (throws e) rest h k = elim h [ ]

-- Where select does not fail, every connection is accepted, and the calls on each socket come to results or to the socket's own
-- errors: whatever the clients send, however the texts are ordered, no exception leaves the thread but
-- out_of_range, and that only if one of them sends an upload_file request.
pub serve_all_lem :
    (g : Setting) (unset max_connections : ℕ) (arrivals : List Arrival) (s : Service)
    → AreArrivals arrivals
    → Survives (any_uploads unset arrivals) (serve_all g unset max_connections arrivals s).1
unfolding serve_all
serve_all_lem g unset max_connections [] s h = tt
serve_all_lem g unset max_connections (a ∷ arrivals) s h =
    go_on_late (uploads unset a) (any_uploads unset arrivals) _ _ _
      (serve-IsLate g unset max_connections a s h.0)
      (serve_all_lem g unset max_connections arrivals _ h.1)
