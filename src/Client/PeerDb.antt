-- ===== src/Client/PeerDb.antt =====
-- src/client/peerdb.hpp and peerdb.cpp. As in the database of files, a mutex is held by each method.
pub mod Holdings
use p2p_file_share.Base.{
  ℕ, ◌==◌, Bool, true, false, Option, none, some, List, [], ◌∷◌, ◌++◌, if◌then◌else◌, lookup,
  insert, erase, any,
}
use p2p_file_share.Models.Endpoint.{Endpoint}
use p2p_file_share.Client.FilesDb.{FileId, file_id_eq}

pub record Peer : Type 0 where
  pub id : ℕ
  pub endpoint : Endpoint
  -- a set
  pub files : List FileId

pub record PeerDb : Type 0 where
  pub peers : List (ℕ × Peer)

abbrev pub empty : PeerDb
empty = record { peers = [] }

abbrev pub find : ℕ → PeerDb → Option Peer
find id db = lookup ◌==◌ id db.peers

unfoldable pub add_peer : ℕ → Endpoint → PeerDb → PeerDb × Bool
add_peer id endpoint db = elim (find id db) [
  | some _ ↦ (db, false)
  | none ↦
      let peer : Peer = record { id = id; endpoint = endpoint; files = [] } in
      (record { peers = insert ◌==◌ id peer db.peers }, true)
]

unfoldable pub remove_peer : ℕ → PeerDb → PeerDb × Bool
remove_peer id db = elim (find id db) [
  | none ↦ (db, false)
  | some _ ↦ (record { peers = erase ◌==◌ id db.peers }, true)
]

unfoldable pub holds : Peer → FileId → Bool
unfolding any
holds peer file = any (λ f. file_id_eq f file) peer.files

unfoldable pub without_file : FileId → List FileId → List FileId
without_file file [] = []
without_file file (f ∷ files) =
    let rest = without_file file files in if file_id_eq f file then rest else f ∷ rest

-- emplace: a file that is in the set stays there once.
unfoldable pub add_file : ℕ → FileId → PeerDb → PeerDb × Bool
add_file peer_id file db = elim (find peer_id db) [
  | none ↦ (db, false)
  | some peer ↦
      let peer' =
        if holds peer file then peer else record peer { files = peer.files ++ file ∷ [] } in
      (record { peers = insert ◌==◌ peer_id peer' db.peers }, true)
]

unfoldable pub remove_file : ℕ → FileId → PeerDb → PeerDb × Bool
unfolding without_file
remove_file peer_id file db = elim (find peer_id db) [
  | none ↦ (db, false)
  | some peer ↦
      let peer' = record peer { files = without_file file peer.files } in
      (record { peers = insert ◌==◌ peer_id peer' db.peers }, true)
]

unfoldable pub peers_with : FileId → List (ℕ × Peer) → List Peer
peers_with file [] = []
peers_with file ((id, peer) ∷ peers) =
    let rest = peers_with file peers in if holds peer file then peer ∷ rest else rest

unfoldable pub get_peers : FileId → PeerDb → List Peer
unfolding peers_with
get_peers file db = peers_with file db.peers
