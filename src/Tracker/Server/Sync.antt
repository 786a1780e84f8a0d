-- ===== src/Tracker/Server/Sync.antt =====
-- The trackers' protocol: the record of successful transactions, and what executing it gives.
use p2p_file_share.Base.{
  ℕ, ◌≡◌, refl, ap, ◌∙◌, Bool, true, false, some, List, [], ◌∷◌, ◌++◌, ◌&&◌, ◌==◌, Text, text_eq,
  text_eq_refl, Checked, ok, throws, inl, inr, not, Bool-cases, unknown_request, ◌>>=◌,
}
use p2p_file_share.Models.Endpoint.{Endpoint}
use p2p_file_share.Models.Transaction.{Result, Transaction}
use p2p_file_share.Tracker.State.{State, initial}
use p2p_file_share.Tracker.ParseRequest.{parse_request}
use p2p_file_share.Tracker.ProcessRequest.{Connection, dispatch, process_request}
use p2p_file_share.Tracker.ProcessRequest.Failures.{already_exists, failed_request_changes_nothing}
use p2p_file_share.Tracker.Server.{
  Server, Setting, record_outcome, process_flagged, process_data, sync_rounds, apply_text,
}
use p2p_file_share.Tracker.Server.Replay.{
  bind-returns, Done, process_request-Done, apply_text-ok, parse_request-goes_on,
  parse_request-text, Executes, Executes-append, sync_rounds-Executes, rounds_of,
}

-- Whether a request, without its mirror flag, uploads a file that the group has already.
abbrev reseeding : Checked (State × Result) → Bool
reseeding (throws e) = false
reseeding (ok (st, r)) = not r.success && text_eq r.message already_exists.message

abbrev parsed_reseeding : ℕ → Checked Transaction → State → Bool
parsed_reseeding unset (throws e) st = false
parsed_reseeding unset (ok t) st = reseeding (dispatch unset t st)

unfoldable pub reseeds : ℕ → Text → State → Bool
reseeds unset [] st = false
reseeds unset (flag ∷ text) st = parsed_reseeding unset (parse_request unset text) st

-- What parsing and handling a text without its mirror flag gives.
abbrev handled : ℕ → Text → State → Checked (State × Result)
handled unset text st = parse_request unset text >>= λ t. dispatch unset t st

-- Whether it is the same whatever the variables with no initialiser hold.
abbrev pub IsSettled : ℕ → Text → State → Type 0
IsSettled unset [] st = Unit
IsSettled unset (flag ∷ text) st = (u : ℕ) → handled u text st ≡ handled unset text st

-- The record of a tracker leads from the empty databases to the present ones.
abbrev pub IsRecorded : Server → Type 0
IsRecorded sv = Executes sv.successful_transactions initial sv.state

module _ (g : Setting) (unset : ℕ) (m : Bool) (text : Text) (sv : Server) (t t' : Transaction)
    (st' : State) (p : parse_request unset text ≡ ok t)
    (d : Done (dispatch unset t sv.state) t st' t') (k : IsSettled unset (48 ∷ text) sv.state)
    (h : IsRecorded sv) where
  executed :
      t'.outcome.success ≡ true
      → (u : ℕ) (own : List Transaction) → apply_text u own text sv.state ≡ (st', ok tt)
  executed s u own =
      let handles : handled u text sv.state ≡ ok (st', t'.outcome) = k u ∙ rw p d.0 in
      let (t_u, dispatches, parses) =
        bind-returns (λ x. dispatch u x sv.state) (parse_request u text) handles in
      apply_text-ok u own text t_u sv.state st' t'.outcome parses dispatches s

  succeeded :
      t'.outcome.success ≡ true → Executes (sv.successful_transactions ++ t' ∷ []) initial st'
  succeeded s =
      let same_text : t'.text ≡ text =
        ap (λ (x : Transaction). x.text) d.1 ∙ parse_request-text unset text t p in
      Executes-append sv.successful_transactions t' initial sv.state st' h
        (rw same_text (parse_request-goes_on unset text t p))
        (λ u own. rw same_text (executed s u own))

  failed : t'.outcome.success ≡ false → reseeds unset (48 ∷ text) sv.state ≡ false → st' ≡ sv.state
  unfolding reseeds
  failed s r = failed_request_changes_nothing unset t sv.state st' t'.outcome d.0 s λ e.
      let seen : reseeds unset (48 ∷ text) sv.state ≡ true =
        rw (p, d.0, s, ap (λ (x : Result). x.message) e, text_eq_refl already_exists.message) in
      cc

module _ (g : Setting) (unset : ℕ) (c : Connection) (m : Bool) where
  recorded :
      (text : Text) (sv : Server) (t : Transaction) (out : List (Endpoint × Text))
      (r : State × Checked Transaction)
      → parse_request unset text ≡ ok t
      → process_request unset sv.successful_transactions (some c) m t sv.state ≡ r
      → (record_outcome g m sv r).1 ≡ ok out
      → reseeds unset (48 ∷ text) sv.state ≡ false
      → IsSettled unset (48 ∷ text) sv.state
      → IsRecorded sv
      → IsRecorded (record_outcome g m sv r).0
  unfolding record_outcome
  recorded text sv t out (st', throws e) p q k n i h = cc
  recorded text sv t out (st', ok t') p q k n i h =
      let d =
        process_request-Done unset sv.successful_transactions (some c) m t t' sv.state st' q in
      elim (Bool-cases t'.outcome.success) [
        | inl s ↦ simp s (succeeded g unset m text sv t t' st' p d i h s)
        | inr s ↦ simp (s, failed g unset m text sv t t' st' p d i h s n) h
      ]

  flagged :
      (text : Text) (sv : Server) (out : List (Endpoint × Text)) (parsed : Checked Transaction)
      → parse_request unset text ≡ parsed
      → (process_flagged g unset c m text sv).1 ≡ ok out
      → reseeds unset (48 ∷ text) sv.state ≡ false
      → IsSettled unset (48 ∷ text) sv.state
      → IsRecorded sv
      → IsRecorded (process_flagged g unset c m text sv).0
  unfolding process_flagged
  flagged text sv out (ok t) p k n i h =
      rw (p, process_flagged) (recorded text sv t out _ p refl (rw (p, process_flagged) at k) n i h)
  flagged text sv out (throws unknown_request) p k n i h = rw (p, process_flagged) h
  flagged text sv out (throws e) p k n i h = rw (p, process_flagged) h

-- One request, with or without the mirror flag, keeps the record complete, if no exception leaves
-- `process_data`, the request is no upload of a file that the group has, and what it does does not depend
-- on a variable that it leaves unread.
pub process_data-IsRecorded :
    (g : Setting) (unset : ℕ) (c : Connection) (data_text : Text) (sv : Server)
    (out : List (Endpoint × Text))
    → (process_data g unset c data_text sv).1 ≡ ok out
    → reseeds unset data_text sv.state ≡ false
    → IsSettled unset data_text sv.state
    → IsRecorded sv
    → IsRecorded (process_data g unset c data_text sv).0
unfolding process_data reseeds
process_data-IsRecorded g unset c [] sv out k n i h = cc
process_data-IsRecorded g unset c (flag ∷ text) sv out k n i h =
    flagged g unset c (flag == b'1') text sv out (parse_request unset text) refl k n i h

-- A request, with what the variables with no initialiser hold while it is served.
pub record Served : Type 0 where
  pub unset : ℕ
  pub connection : Connection
  pub text : Text

-- A tracker that serves one request after another.
unfoldable pub serve : Setting → List Served → Server → Server
serve g [] sv = sv
serve g (r ∷ rest) sv = serve g rest (process_data g r.unset r.connection r.text sv).0

-- No exception leaves `process_data`, and no request uploads a file that the group has, or does what
-- depends on a variable that it leaves unread.
abbrev pub IsSmooth : Setting → List Served → Server → Type 0
IsSmooth g [] sv = Unit
IsSmooth g (r ∷ rest) sv =
    (out : List (Endpoint × Text)) × ((process_data g r.unset r.connection r.text sv).1 ≡ ok out)
    × (reseeds r.unset r.text sv.state ≡ false)
    × IsSettled r.unset r.text sv.state
    × IsSmooth g rest (process_data g r.unset r.connection r.text sv).0

serve-IsRecorded :
    (g : Setting) (requests : List Served) (sv : Server)
    → IsSmooth g requests sv
    → IsRecorded sv
    → IsRecorded (serve g requests sv)
unfolding serve
serve-IsRecorded g [] sv k h = h
serve-IsRecorded g (r ∷ rest) sv k h =
    serve-IsRecorded g rest (process_data g r.unset r.connection r.text sv).0 k.4
      (process_data-IsRecorded g r.unset r.connection r.text sv k.0 k.1 k.2 k.3 h)

abbrev pub started : Server
started = record { state = initial; successful_transactions = [] }

-- For a tracker that has served some requests since it started, if no exception left `process_data`, none
-- of them uploaded a file that its group had, and what none of them did depends on a variable with no
-- initialiser that it left unread: a new tracker that receives its record reaches the same databases,
-- with no error, whatever such variables hold there.
pub new_tracker_catches_up :
    (g : Setting) (requests : List Served) (unset : ℕ → ℕ) (own : List Transaction)
    → IsSmooth g requests started
    → sync_rounds own (rounds_of unset (serve g requests started).successful_transactions) initial
      ≡ ((serve g requests started).state, ok tt)
new_tracker_catches_up g requests unset own k =
    sync_rounds-Executes unset own (serve g requests started).successful_transactions initial
      (serve g requests started).state (serve-IsRecorded g requests started k refl)
