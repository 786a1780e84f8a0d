-- ===== src/Client/Downloads/Validity.antt =====
-- What a download writes.
use mathlib.Core.Path.{subst}
use p2p_file_share.Base.{
  lit, ◌⊕◌, ◌++◌, ◌≡◌, ◌⊎◌, refl, ap, true, Option, none, some, List, [], ◌∷◌, if◌then◌else◌, Text,
  Checked, ok, throws, connection_closed, ◌>>=◌, inl, inr, Bool-cases,
}
use p2p_file_share.Stream.{of_text, get_int, IntValue, sentry, skip_space, read_sign, read_digits}
use p2p_file_share.Models.FileInfo.{block_size}
use p2p_file_share.Client.PartFile.{PartFile, mark_downloaded}
use p2p_file_share.Client.PeerDb.{Peer, PeerDb}
use p2p_file_share.Client.FileIo.{Disk, is_piece_valid, get_piece_index, write_piece_to_file}
use p2p_file_share.Client.Downloads.{
  Network, is_one, piece_request, substr_2, keep_piece, take_answer, ask_peer, ask_peers,
  download_piece,
}

module _ (net : Network) (piece : Text) (p : PartFile) (disk : Disk) where
  -- Bytes with the piece's digest went to the piece's place, and the piece is marked.
  abbrev Kept : PartFile × Disk → Type 0
  Kept r =
      (bytes : Text) × (is_piece_valid net.sha1 piece bytes ≡ true)
      × (write_piece_to_file p.file_path (get_piece_index p.file_info piece) block_size bytes disk
          ≡ ok r.1)
      × (r.0 ≡ (mark_downloaded piece p).0)

  abbrev KeptIf : Checked (Option (PartFile × Disk)) → Type 0
  KeptIf (throws e) = Unit
  KeptIf (ok none) = Unit
  KeptIf (ok (some r)) = Kept r

  keep_piece-KeptIf : (bytes : Text) → KeptIf (keep_piece net piece bytes p disk)
  unfolding keep_piece
  keep_piece-KeptIf bytes = elim (Bool-cases (is_piece_valid net.sha1 piece bytes)) [
    | inl v ↦ rw v (stored _ refl v)
    | inr v ↦ rw v tt
  ]
    where
      stored :
          (w : Checked Disk)
          → write_piece_to_file p.file_path
              (get_piece_index p.file_info piece)
              block_size
              bytes
              disk
            ≡ w
          → is_piece_valid net.sha1 piece bytes ≡ true
          → KeptIf (w >>= λ disk'. ok (some ((mark_downloaded piece p).0, disk')))
      stored (throws e) h v = tt
      stored (ok d) h v = (bytes, v, h, refl)

  take_answer-KeptIf : (response : Text) → KeptIf (take_answer net piece response p disk)
  unfolding take_answer
  take_answer-KeptIf response =
      by_status (get_int net.unset (of_text response)).0 (substr_2 response)
    where
      bytes_of : (c : Checked Text) → KeptIf (c >>= λ bytes. keep_piece net piece bytes p disk)
      bytes_of (throws e) = tt
      bytes_of (ok bytes) = keep_piece-KeptIf bytes

      by_status :
          (b : IntValue) (c : Checked Text)
          → KeptIf
              (if is_one b then (c >>= λ bytes. keep_piece net piece bytes p disk) else ok none)
      by_status b c = elim (Bool-cases (is_one b)) [ inl e ↦ rw e (bytes_of c) | inr e ↦ rw e tt ]

  ask_peer-KeptIf : (peer : Peer) → KeptIf (ask_peer net peer piece p disk)
  unfolding ask_peer
  ask_peer-KeptIf peer = answered (net.ask peer.endpoint (piece_request p piece))
    where
      answered :
          (c : Checked Text)
          → KeptIf (elim c [
            | throws connection_closed ↦ ok none
            | throws e ↦ throws e
            | ok response ↦ take_answer net piece response p disk
          ])
      answered (ok response) = take_answer-KeptIf response
      answered (throws connection_closed) = tt
      answered (throws e) = tt

  -- Nothing has happened, or the piece was kept.
  abbrev Outcome : Checked (PartFile × Disk) → Type 0
  Outcome (throws e) = Unit
  Outcome (ok r) = (r ≡ (p, disk)) ⊎ Kept r

  ask_peers-Outcome : (peers : List Peer) → Outcome (ask_peers net peers piece p disk)
  unfolding ask_peers
  ask_peers-Outcome [] = inl refl
  ask_peers-Outcome (peer ∷ peers) =
      next (ask_peer net peer piece p disk) (ask_peer-KeptIf peer) (ask_peers-Outcome peers)
    where
      next :
          (c : Checked (Option (PartFile × Disk)))
          → KeptIf c
          → Outcome (ask_peers net peers piece p disk)
          → Outcome (elim c [
            | throws e ↦ throws e
            | ok none ↦ ask_peers net peers piece p disk
            | ok (some done) ↦ ok done
          ])
      next (throws e) k h = tt
      next (ok none) k h = h
      next (ok (some r)) k h = inr k

  -- Each of the peers gives nothing that is kept, and no exception other than a closed connection.
  abbrev pub AllFail : List Peer → Type 0
  AllFail [] = Unit
  AllFail (peer ∷ peers) = (ask_peer net peer piece p disk ≡ ok none) × AllFail peers

  -- A round of `download_piece` that ends without an exception has changed nothing, or it has written
  -- bytes with the digest of the piece at the place of the piece, and marked the piece.
  pub download_keeps_valid :
      (peer_db : PeerDb) (p' : PartFile) (disk' : Disk)
      → download_piece net peer_db piece p disk ≡ ok (p', disk')
      → ((p' ≡ p) × (disk' ≡ disk))
        ⊎ ((bytes : Text) × (is_piece_valid net.sha1 piece bytes ≡ true)
            × (write_piece_to_file p.file_path
                  (get_piece_index p.file_info piece)
                  block_size
                  bytes
                  disk
                ≡ ok disk')
            × (p' ≡ (mark_downloaded piece p).0))
  unfolding download_piece
  download_keeps_valid peer_db p' disk' e = split (subst Outcome e (ask_peers-Outcome _))
    where
      split :
          Outcome (ok (p', disk'))
          → ((p' ≡ p) × (disk' ≡ disk))
            ⊎ ((bytes : Text) × (is_piece_valid net.sha1 piece bytes ≡ true)
                × (write_piece_to_file p.file_path
                      (get_piece_index p.file_info piece)
                      block_size
                      bytes
                      disk
                    ≡ ok disk')
                × (p' ≡ (mark_downloaded piece p).0))
      split (inl h) = inl (ap (λ r. r.0) h, ap (λ r. r.1) h)
      split (inr k) = inr k

  module _ (peer : Peer) (bytes : Text) (disk' : Disk)
      (answers : net.ask peer.endpoint (piece_request p piece) ≡ ok (lit "1 " ⊕ bytes))
      (valid : is_piece_valid net.sha1 piece bytes ≡ true)
      (room : write_piece_to_file p.file_path
          (get_piece_index p.file_info piece)
          block_size
          bytes
          disk
        ≡ ok disk') where
    ask_honest_peer :
        ask_peer net peer piece p disk ≡ ok (some ((mark_downloaded piece p).0, disk'))
    unfolding ask_peer take_answer get_int sentry skip_space read_sign read_digits substr_2
        keep_piece
    ask_honest_peer = rw (answers, ask_peer, valid, room)

    pub download_from_honest_peer :
        (before after : List Peer)
        → AllFail before
        → ask_peers net (before ++ peer ∷ after) piece p disk
          ≡ ok ((mark_downloaded piece p).0, disk')
    unfolding ask_peers
    download_from_honest_peer [] after h = rw (ask_honest_peer, ask_peers)
    download_from_honest_peer (b ∷ before) after h =
        rw (h.0, ask_peers) (download_from_honest_peer before after h.1)
