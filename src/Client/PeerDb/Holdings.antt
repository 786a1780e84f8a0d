-- ===== src/Client/PeerDb/Holdings.antt =====
-- What the database of peers knows after a peer and its file are added.
use p2p_file_share.Base.{
  ℕ, ◌≡◌, refl, sym, ap, ◌∙◌, ◌==◌, Bool, true, false, ◌&&◌, ◌||◌, Option, none, some, List, [],
  ◌∷◌, ◌++◌, if◌then◌else◌, arith, inl, inr, Bool-cases, Option-cases, any, text_eq_iff,
  number-IsEqTest, insert, lookup-insert,
}
use p2p_file_share.Models.Endpoint.{Endpoint}
use p2p_file_share.Client.FilesDb.{FileId, file_id_eq}
use p2p_file_share.Client.PeerDb.{Peer, PeerDb, find, holds, add_peer, add_file}

abbrev pub held_by : Option Peer → FileId → Bool
held_by none f = false
held_by (some p) f = holds p f

-- Whether the peer with an id is known to have a file.
abbrev pub holding : ℕ → FileId → PeerDb → Bool
holding j f db = held_by (find j db) f

abbrev endpoint_of : Option Peer → Option Endpoint
endpoint_of none = none
endpoint_of (some p) = some p.endpoint

-- The address under which the peer with an id is known.
abbrev pub address : ℕ → PeerDb → Option Endpoint
address j db = endpoint_of (find j db)

abbrev pub or_else : Option Endpoint → Option Endpoint → Option Endpoint
or_else none y = y
or_else (some x) y = some x

file_id_eq-same : (a b f : FileId) → file_id_eq a b ≡ true → file_id_eq a f ≡ file_id_eq b f
unfolding file_id_eq
file_id_eq-same a b f h =
    let group = (text_eq_iff a.group_id b.group_id).0 (ground arith) in
    let name = (text_eq_iff a.file_name b.file_name).0 (ground arith) in rw (group, name) refl

any-append {ℓ} :
    {A : Type ℓ} (p : A → Bool) (xs : List A) (y : A) → any p (xs ++ y ∷ []) ≡ (any p xs || p y)
unfolding any
any-append p [] y = ground arith
any-append p (x ∷ xs) y = ground (arith, any-append p xs y)

any-same :
    (g f : FileId) (xs : List FileId)
    → file_id_eq g f ≡ true
    → any (λ x. file_id_eq x g) xs ≡ true
    → any (λ x. file_id_eq x f) xs ≡ true
unfolding any
any-same g f [] e h = cc
any-same g f (x ∷ xs) e h = elim (Bool-cases (file_id_eq x g)) [
  | inl b ↦ rw (any, file_id_eq-same x g f b, e) refl
  | inr b ↦ ground (arith, any-same g f xs e (rw (any, b) at h))
]

same_number : (a b : ℕ) → (a == b) ≡ true → a ≡ b
same_number a b h = ground arith

or_none : (x : Option Endpoint) → x ≡ or_else x none
or_none none = refl
or_none (some x) = refl

module _ (id : ℕ) (e : Endpoint) (db : PeerDb) where
  find-insert :
      (j : ℕ) (p : Peer)
      → find j (record { peers = insert ◌==◌ id p db.peers })
        ≡ (if id == j then some p else find j db)
  find-insert j p = lookup-insert ◌==◌ number-IsEqTest id j p db.peers

  add_peer-holding : (j : ℕ) (f : FileId) → holding j f (add_peer id e db).0 ≡ holding j f db
  unfolding add_peer holds any
  add_peer-holding j f = elim (Option-cases (find id db)) [
    | inl n ↦ elim (Bool-cases (id == j)) [
      | inl s ↦
          let here : find j db ≡ none = ap (λ k. find k db) (sym (same_number id j s)) ∙ n in
          rw (add_peer, n, find-insert j (record { id = id; endpoint = e; files = [] }), s, here)
            refl
      | inr s ↦
          rw (add_peer, n, find-insert j (record { id = id; endpoint = e; files = [] }), s) refl
    ]
    | inr (p, n) ↦ rw (add_peer, n) refl
  ]

  add_peer-address :
      (j : ℕ)
      → address j (add_peer id e db).0 ≡ or_else (address j db) (if id == j then some e else none)
  unfolding add_peer
  add_peer-address j = elim (Option-cases (find id db)) [
    | inl n ↦ elim (Bool-cases (id == j)) [
      | inl s ↦
          let here : find j db ≡ none = ap (λ k. find k db) (sym (same_number id j s)) ∙ n in
          rw (add_peer, n, find-insert j (record { id = id; endpoint = e; files = [] }), s, here)
            refl
      | inr s ↦
          rw (add_peer, n, find-insert j (record { id = id; endpoint = e; files = [] }), s)
            (or_none (address j db))
    ]
    | inr (p, n) ↦ elim (Bool-cases (id == j)) [
      | inl s ↦
          let here : find j db ≡ some p = ap (λ k. find k db) (sym (same_number id j s)) ∙ n in
          rw (add_peer, n, here) refl
      | inr s ↦ rw (add_peer, n, s) (or_none (address j db))
    ]
  ]

  -- Afterwards the peer is known.
  add_peer-known : (p : Peer) × (find id (add_peer id e db).0 ≡ some p)
  unfolding add_peer
  add_peer-known = elim (Option-cases (find id db)) [
    | inl n ↦
        let p : Peer = record { id = id; endpoint = e; files = [] } in
        (p, rw (add_peer, n, find-insert id p) (ground arith))
    | inr (p, n) ↦ (p, rw (add_peer, n) n)
  ]

  module _ (g : FileId) (p : Peer) (known : find id db ≡ some p) where
    abbrev with_file : Peer
    with_file = if holds p g then p else record p { files = p.files ++ g ∷ [] }

    with_file-holds : (f : FileId) → holds with_file f ≡ (holds p f || file_id_eq g f)
    unfolding holds
    with_file-holds f = elim (Bool-cases (any (λ x. file_id_eq x g) p.files)) [
      | inl b ↦ elim (Bool-cases (file_id_eq g f)) [
        | inl s ↦ rw (b, s, any-same g f p.files s b) refl
        | inr s ↦ rw (b, s) (ground arith)
      ]
      | inr b ↦ rw b (any-append (λ x. file_id_eq x f) p.files g)
    ]

    with_file-endpoint : endpoint_of (some with_file) ≡ some p.endpoint
    with_file-endpoint = elim (Bool-cases (holds p g)) [ inl b ↦ rw b refl | inr b ↦ rw b refl ]

    add_file-holding :
        (j : ℕ) (f : FileId)
        → holding j f (add_file id g db).0 ≡ (holding j f db || (id == j && file_id_eq g f))
    unfolding add_file
    add_file-holding j f = elim (Bool-cases (id == j)) [
      | inl s ↦
          let here : find j db ≡ some p = ap (λ k. find k db) (sym (same_number id j s)) ∙ known in
          rw (add_file, known, find-insert j with_file, s, here) (with_file-holds f)
      | inr s ↦ rw (add_file, known, find-insert j with_file, s) (ground arith)
    ]

    add_file-address : (j : ℕ) → address j (add_file id g db).0 ≡ address j db
    unfolding add_file
    add_file-address j = elim (Bool-cases (id == j)) [
      | inl s ↦
          let here : find j db ≡ some p = ap (λ k. find k db) (sym (same_number id j s)) ∙ known in
          rw (add_file, known, find-insert j with_file, s, here) with_file-endpoint
      | inr s ↦ rw (add_file, known, find-insert j with_file, s) refl
    ]

-- A peer is entered under its id, unless the id is known, and has the file from then on.
pub add_both :
    (id : ℕ) (e : Endpoint) (g : FileId) (db : PeerDb) (j : ℕ) (f : FileId)
    → (holding j f (add_file id g (add_peer id e db).0).0
        ≡ (holding j f db || (id == j && file_id_eq g f)))
      × (address j (add_file id g (add_peer id e db).0).0
          ≡ or_else (address j db) (if id == j then some e else none))
add_both id e g db j f =
    let (p, known) = add_peer-known id e db in
    (
      add_file-holding id e (add_peer id e db).0 g p known j f
          ∙ ap (λ x. x || (id == j && file_id_eq g f)) (add_peer-holding id e db j f),
      add_file-address id e (add_peer id e db).0 g p known j ∙ add_peer-address id e db j,
    )
