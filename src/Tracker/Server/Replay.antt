-- ===== src/Tracker/Server/Replay.antt =====
-- A tracker that joins executes the recorded transactions of another and reaches its state.
use p2p_file_share.Base.{
  ℕ, zero, suc, ◌≡◌, refl, ap, Bool, true, false, Option, none, List, [], ◌∷◌, ◌++◌, ◌||◌, arith,
  Text, lit, is_empty, text_eq, text_eq_iff, Checked, ok, throws, inl, inr, ◌>>=◌, not, Bool-cases,
  unknown_request,
}
use p2p_file_share.Stream.{of_text, get_word, get_size, sentry, skip_space, read_sign, read_digits}
use p2p_file_share.Models.Transaction.{
  Request, Result, Transaction, user_request, group_request, file_request, tracker_request,
  not_yet_processed,
}
use p2p_file_share.Tracker.State.{State}
use p2p_file_share.Tracker.ParseRequest.{parse_request, request_of_word}
use p2p_file_share.Tracker.ProcessRequest.{
  Connection, dispatch, process_request, reply, serve_tracker, finish_request,
}
use p2p_file_share.Tracker.Server.{Round, apply_text, sync_rounds}

-- Code after a call has returned only if the call has.
pub bind-returns :
    {A B : Type 0} {b : B} (next : A → Checked B) (m : Checked A)
    → (m >>= next) ≡ ok b
    → (a : A) × (next a ≡ ok b) × (m ≡ ok a)
bind-returns next (throws e) h = cc
bind-returns next (ok a) h = (a, h, refl)

abbrev pub Done : Checked (State × Result) → Transaction → State → Transaction → Type 0
Done d t st' t' = (d ≡ ok (st', t'.outcome)) × (t' ≡ record t { outcome = t'.outcome })

finish_request-Done :
    (c : Option Connection) (m : Bool) (t t' : Transaction) (st st' : State)
    (d : Checked (State × Result))
    → finish_request c m t st d ≡ (st', ok t')
    → Done d t st' t'
unfolding finish_request
finish_request-Done c m t t' st st' (throws e) h = cc
finish_request-Done c m t t' st st' (ok (st'', r)) h =
    let (u, e, sent) =
      bind-returns (λ _. ok (record t { outcome = r })) (reply m c r.message) (ap (λ p. p.1) h) in
    let e' : record t { outcome = r } ≡ t' = ground (arith, e) in
    (rw (← ap (λ p. p.0) h, ← e'), rw (← e'))

-- A request that is processed to the end has run its handler, whose result is its outcome.
pub process_request-Done :
    (unset : ℕ) (own : List Transaction) (c : Option Connection) (m : Bool) (t t' : Transaction)
    (st st' : State)
    → process_request unset own c m t st ≡ (st', ok t')
    → Done (dispatch unset t st) t st' t'
unfolding process_request dispatch
process_request-Done unset own c m t t' st st' = by_request t.request
  where
    by_request :
        (r : Request)
        → process_request unset own c m (record t { request = r }) st ≡ (st', ok t')
        → Done (dispatch unset (record t { request = r }) st) (record t { request = r }) st' t'
    by_request (user_request r) h =
        finish_request-Done c m (record t { request = user_request r }) t' st st'
          (dispatch unset (record t { request = user_request r }) st) h
    by_request (group_request r) h =
        finish_request-Done c m (record t { request = group_request r }) t' st st'
          (dispatch unset (record t { request = group_request r }) st) h
    by_request (file_request r) h =
        finish_request-Done c m (record t { request = file_request r }) t' st st'
          (dispatch unset (record t { request = file_request r }) st) h
    by_request (tracker_request r) h =
        let (u, e, sent) =
          bind-returns
            (λ _. ok (record t { request = tracker_request r; outcome = not_yet_processed }))
            (serve_tracker c own) (ap (λ p. p.1) h) in
        let e' : record t { request = tracker_request r; outcome = not_yet_processed } ≡ t' =
          ground (arith, e) in
        (rw (← ap (λ p. p.0) h, ← e'), rw (← e'))

process_request-success :
    (unset : ℕ) (own : List Transaction) (t : Transaction) (st st' : State) (r : Result)
    → dispatch unset t st ≡ ok (st', r)
    → r.success ≡ true
    → process_request unset own none false t st ≡ (st', ok (record t { outcome = r }))
unfolding process_request reply
process_request-success unset own t st st' r = by_request t.request
  where
    by_request :
        (q : Request)
        → dispatch unset (record t { request = q }) st ≡ ok (st', r)
        → r.success ≡ true
        → process_request unset own none false (record t { request = q }) st
          ≡ (st', ok (record t { request = q; outcome = r }))
    by_request (user_request q) d s =
        ap (finish_request none false (record t { request = user_request q }) st) d
    by_request (group_request q) d s =
        ap (finish_request none false (record t { request = group_request q }) st) d
    by_request (file_request q) d s =
        ap (finish_request none false (record t { request = file_request q }) st) d
    by_request (tracker_request q) d s = unfold dispatch in (ground arith)

-- A transaction that succeeded once succeeds again with no client to answer.
pub apply_text-ok :
    (unset : ℕ) (own : List Transaction) (text : Text) (t : Transaction) (st st' : State)
    (r : Result)
    → parse_request unset text ≡ ok t
    → dispatch unset t st ≡ ok (st', r)
    → r.success ≡ true
    → apply_text unset own text st ≡ (st', ok tt)
unfolding apply_text
apply_text-ok unset own text t st st' r p d s =
    rw (p, apply_text, process_request-success unset own t st st' r d s)

-- A text with which the loop that syncs goes on.
abbrev pub goes_on : Text → Bool
goes_on text = not (is_empty text || text_eq text (lit "done"))

no_request_in_nothing : (unset : ℕ) → parse_request unset [] ≡ throws unknown_request
unfolding parse_request request_of_word get_size get_word sentry skip_space read_sign read_digits
    text_eq
no_request_in_nothing unset = refl

no_request_in_done : (unset : ℕ) → parse_request unset (lit "done") ≡ throws unknown_request
unfolding parse_request request_of_word get_size get_word sentry skip_space read_sign read_digits
    text_eq
no_request_in_done unset = refl

-- A text that parses is neither empty nor "done".
pub parse_request-goes_on :
    (unset : ℕ) (text : Text) (t : Transaction)
    → parse_request unset text ≡ ok t
    → goes_on text ≡ true
parse_request-goes_on unset [] t h = cc (no_request_in_nothing unset)
parse_request-goes_on unset (a ∷ text) t h = elim (Bool-cases (text_eq (a ∷ text) (lit "done"))) [
  | inl e ↦ cc (
    ap (parse_request unset) ((text_eq_iff (a ∷ text) (lit "done")).0 e),
    no_request_in_done unset,
  )
  | inr e ↦ rw e
]

pub parse_request-text :
    (unset : ℕ) (text : Text) (t : Transaction) → parse_request unset text ≡ ok t → t.text ≡ text
unfolding parse_request
parse_request-text unset text t h =
    let (word, e, found) =
      bind-returns
        (λ request. ok (record {
          origin = (get_size unset (of_text text)).0;
          request = request;
          text = text;
          outcome = not_yet_processed;
        }))
        (request_of_word (get_word [] (get_size unset (of_text text)).1).0) h in
    ground (arith, e)

-- What a tracker with such a record sends when another one syncs, all of it received: `unset n` is what the variables with no initialiser hold in the n-th round.
unfoldable pub rounds_of : (ℕ → ℕ) → List Transaction → List Round
rounds_of unset [] =
    record { received = ok (lit "done"); acknowledged = ok tt; unset = unset zero } ∷ []
rounds_of unset (t ∷ ts) =
    record { received = ok t.text; acknowledged = ok tt; unset = unset zero }
    ∷ rounds_of (λ n. unset (suc n)) ts

-- Executing the transactions one after another leads from one state to the other, whatever the
-- variables with no initialiser hold.
abbrev pub Executes : List Transaction → State → State → Type 0
Executes [] s s' = s ≡ s'
Executes (t ∷ ts) s s' =
    (m : State) × (goes_on t.text ≡ true)
    × ((unset : ℕ) (own : List Transaction) → apply_text unset own t.text s ≡ (m, ok tt))
    × Executes ts m s'

pub Executes-append :
    (ts : List Transaction) (t : Transaction) (s m s' : State)
    → Executes ts s m
    → goes_on t.text ≡ true
    → ((unset : ℕ) (own : List Transaction) → apply_text unset own t.text m ≡ (s', ok tt))
    → Executes (ts ++ t ∷ []) s s'
Executes-append [] t s m s' h g a = (s', g, (λ unset own. rw h (a unset own)), refl)
Executes-append (u ∷ ts) t s m s' h g a = (h.0, h.1, h.2, Executes-append ts t h.0 m s' h.3 g a)

pub sync_rounds-Executes :
    (unset : ℕ → ℕ) (own ts : List Transaction) (s s' : State)
    → Executes ts s s'
    → sync_rounds own (rounds_of unset ts) s ≡ (s', ok tt)
unfolding sync_rounds rounds_of text_eq
sync_rounds-Executes unset own [] s s' h = rw h
sync_rounds-Executes unset own (t ∷ ts) s s' h =
    let goes : (is_empty t.text || text_eq t.text (lit "done")) ≡ false = ground arith in
    rw (goes, h.2 (unset zero) own) (sync_rounds-Executes (λ n. unset (suc n)) own ts h.0 s' h.3)
