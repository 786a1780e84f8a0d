-- ===== src/Tracker/Server/Gaps.antt =====
-- Where two trackers come apart: what a tracker does not record, and what it forgets to pass on.
use p2p_file_share.Base.{ℕ, ◌≡◌, refl, List, [], ◌∷◌, arith, text_eq, ok}
use p2p_file_share.Models.Endpoint.{Endpoint}
use p2p_file_share.Models.Transaction.{Transaction}
use p2p_file_share.Tracker.State.{initial}
use p2p_file_share.Tracker.Server.{Server, Setting, Peer, sync_rounds, sync_with_online_trackers}
use p2p_file_share.Tracker.Server.Replay.{rounds_of}
use p2p_file_share.Tracker.Server.Sync.{started}

-- Syncing changes the databases, never the record of successful transactions.
pub sync-keeps-record :
    (g : Setting) (peer : Endpoint → Peer) (ts : List Endpoint) (sv : Server)
    → (sync_with_online_trackers g peer ts sv).0.successful_transactions
      ≡ sv.successful_transactions
unfolding sync_with_online_trackers
sync-keeps-record g peer [] sv = refl
sync-keeps-record g peer (t ∷ ts) sv = ground (
  arith,
  sync-keeps-record g peer ts sv,
  sync-keeps-record g peer ts
      (record sv { state = (sync_rounds sv.successful_transactions (peer t).rounds sv.state).0 }),
)

-- So a tracker that has just synced, from whatever trackers, has nothing to send: another one that
-- then syncs from it gets no error, and the databases that it starts with.
pub synced_tracker_passes_nothing_on :
    (g : Setting) (unset : ℕ → ℕ) (peer : Endpoint → Peer) (ts : List Endpoint)
    (own : List Transaction)
    → sync_rounds own
        (rounds_of unset (sync_with_online_trackers g peer ts started).0.successful_transactions)
        initial
      ≡ (initial, ok tt)
unfolding sync_rounds rounds_of text_eq
synced_tracker_passes_nothing_on g unset peer ts own = rw (sync-keeps-record g peer ts started)
