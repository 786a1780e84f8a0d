-- ===== src/Network/Socket/Receive.antt =====
-- What receive_data gives on a socket that does not block.
use p2p_file_share.Base.{
  ℕ, zero, suc, ◌%◌, ◌≤◌, ◌<◌, ◌≡◌, refl, sym, ap, ◌∙◌, Bool, true, false, Option, some, [], ◌∷◌,
  ◌++◌, append_assoc, if◌then◌else◌, arith, Text, ltb, leb, ◌==◌, is_empty, length, Checked, ok,
  throws, would_block, inl, inr, Bool-cases, take, drop, take-all, take-drop, length-take,
  length-take_le, length-drop,
}
use p2p_file_share.Network.Socket.{
  Received, bytes, failed, no_data, buffer_size, transfer_error, peek_data, after_chunk,
  receive_loop, receive_data,
}

-- How recv works on a connection that does not block, while nothing arrives and the peer does not
-- close it: it gives the bytes that are pending, as many as the buffer takes, and with MSG_PEEK they
-- stay; with none pending it fails with EWOULDBLOCK.
pub record IsOpenSocket {S : Type 0} (recv : ℕ → Bool → S → Received × S) (pending : S → Text)
    : Type 0 where
  pub gives :
      (n : ℕ) (peek : Bool) (s : S)
      → is_empty (pending s) ≡ false
      → (recv n peek s).0 ≡ bytes (take n (pending s))
  pub waits :
      (n : ℕ) (peek : Bool) (s : S)
      → is_empty (pending s) ≡ true
      → (recv n peek s).0 ≡ failed no_data
  pub takes : (n : ℕ) (s : S) → pending (recv n false s).1 ≡ drop n (pending s)
  pub peeks : (n : ℕ) (s : S) → pending (recv n true s).1 ≡ pending s

take-full : (n : ℕ) (t : Text) → ltb (length (take n t)) n ≡ false → n ≤ length t
take-full n t full = ground (arith, full, length-take_le n t)

take-short : (n : ℕ) (t : Text) → ltb (length (take n t)) n ≡ true → length (take n t) < n
take-short n t short = ground (arith, short)

drop-shorter :
    (t u : Text) (fuel : ℕ)
    → u ≡ drop buffer_size t
    → buffer_size ≤ length t
    → length t < suc fuel
    → length u < fuel
drop-shorter t u fuel e long enough = rw e (omega (arith, length-drop buffer_size t))

multiple-at_end :
    (t : Text)
    → buffer_size ≤ length t
    → length (drop buffer_size t) ≡ 0
    → (length t % buffer_size == 0) ≡ true
multiple-at_end t long left = ground (arith, length-drop buffer_size t)

-- The text that arrives, unless it fills the buffer exactly at its end.
abbrev pub arrived : Text → Text → Checked Text
arrived text rest = if length rest % buffer_size == 0 then throws would_block else ok (text ++ rest)

module _ {S : Type 0} (recv : ℕ → Bool → S → Received × S) (pending : S → Text)
    (socket : IsOpenSocket recv pending) where
  peek_data-empty :
      (s : S) → is_empty (pending s) ≡ true → (peek_data recv s).0 ≡ throws would_block
  unfolding peek_data transfer_error
  peek_data-empty s h = rw (peek_data, socket.waits buffer_size true s h)

  peek_data-some :
      (s : S) (c : ℕ) (t : Text)
      → pending s ≡ c ∷ t
      → (peek_data recv s).0 ≡ ok (take buffer_size (c ∷ t))
  unfolding peek_data take
  peek_data-some s c t e =
      rw (peek_data, socket.gives buffer_size true s (ap (λ u. is_empty u) e), e)

  -- A chunk that does not fill the buffer is the rest of the text.
  last_chunk :
      (text t : Text)
      → length (take buffer_size t) < buffer_size
      → 0 < length t
      → ok (text ++ take buffer_size t) ≡ arrived text t
  last_chunk text t short some_bytes = elim (Bool-cases (leb buffer_size (length t))) [
    | inl long ↦ absurd (omega (arith, length-take buffer_size t (ground (arith, long))))
    | inr fits ↦
        let small : length t < buffer_size = ground (arith, fits) in
        let uneven : (length t % buffer_size == 0) ≡ false = ground arith in
        rw (uneven) (ap (λ u. ok (text ++ u)) (take-all buffer_size t (omega arith)))
  ]

  -- A full buffer and the rest make up the text.
  arrived-drop :
      (text t : Text)
      → buffer_size ≤ length t
      → arrived (text ++ take buffer_size t) (drop buffer_size t) ≡ arrived text t
  arrived-drop text t long =
      let same : (length (drop buffer_size t) % buffer_size == 0) ≡ (length t % buffer_size == 0) =
        ground (arith, length-drop buffer_size t) in
      rw
        (same, append_assoc text (take buffer_size t) (drop buffer_size t), take-drop buffer_size t)

  after_chunk_lem :
      (text t : Text) (s : S) (next : S → Option (Checked Text) × S)
      → 0 < length t
      → pending s ≡ drop buffer_size t
      → ((s' : S)
          → pending s' ≡ drop buffer_size t
          → buffer_size ≤ length t
          → is_empty (pending s') ≡ false
          → (next s').0 ≡ some (arrived (text ++ take buffer_size t) (drop buffer_size t)))
      → (after_chunk recv (length (take buffer_size t)) (text ++ take buffer_size t) s next).0
        ≡ some (arrived text t)
  unfolding after_chunk peek_data take
  after_chunk_lem text t s next some_bytes rest goes =
      elim (Bool-cases (ltb (length (take buffer_size t)) buffer_size)) [
        | inl short ↦
            rw (after_chunk, short)
              (ap (λ r. some r) (last_chunk text t (take-short buffer_size t short) some_bytes))
        | inr full ↦ by_rest (pending s) refl full
      ]
    where
      by_rest :
          (r : Text)
          → pending s ≡ r
          → ltb (length (take buffer_size t)) buffer_size ≡ false
          → (after_chunk recv (length (take buffer_size t)) (text ++ take buffer_size t) s next).0
            ≡ some (arrived text t)
      by_rest [] e full =
          let long : buffer_size ≤ length t = take-full buffer_size t full in
          let left : length (drop buffer_size t) ≡ 0 = ap (λ u. length u) (sym rest ∙ e) in
          let even : (length t % buffer_size == 0) ≡ true = multiple-at_end t long left in
          rw (after_chunk, full, even, socket.waits buffer_size true s (ap (λ u. is_empty u) e))
            refl
      by_rest (d ∷ r) e full =
          let long : buffer_size ≤ length t = take-full buffer_size t full in
          let ne : is_empty (pending s) ≡ false = ap (λ u. is_empty u) e in
          let kept = socket.peeks buffer_size s in
          rw (after_chunk, full, socket.gives buffer_size true s ne, e)
            (goes (recv buffer_size true s).1 (kept ∙ rest) long (ap (λ u. is_empty u) kept ∙ ne)
              ∙ ap (λ c. some c) (arrived-drop text t long))

  -- What a call with some fuel gives behind some text.
  abbrev Arrives : ℕ → Type 0
  Arrives fuel =
      (text : Text) (s : S)
      → is_empty (pending s) ≡ false
      → length (pending s) < fuel
      → (receive_loop recv fuel text s).0 ≡ some (arrived text (pending s))

  receive_loop_lem : (fuel : ℕ) → Arrives fuel
  unfolding receive_loop after_chunk peek_data take
  receive_loop_lem zero text s ne enough = absurd (omega arith)
  receive_loop_lem (suc fuel) text s ne enough = by_pending (pending s) refl (receive_loop_lem fuel)
    where
      by_pending :
          (t : Text)
          → pending s ≡ t
          → Arrives fuel
          → (receive_loop recv (suc fuel) text s).0 ≡ some (arrived text t)
      by_pending [] e later = cc
      by_pending (c ∷ t) e later =
          rw (receive_loop, socket.gives buffer_size false s ne, e)
            (after_chunk_lem text (c ∷ t) (recv buffer_size false s).1
              (receive_loop recv fuel (text ++ take buffer_size (c ∷ t))) (omega arith)
              (socket.takes buffer_size s ∙ ap (drop buffer_size) e)
              (λ s' here long ne'.
                later (text ++ take buffer_size (c ∷ t)) s' ne'
                  (drop-shorter (c ∷ t) (pending s') fuel here long (rw e at enough))
                ∙ ap (λ r. some (arrived (text ++ take buffer_size (c ∷ t)) r)) here))

  -- On a socket that does not block, while nothing arrives and the peer stays, and with fuel for more
  -- rounds than there are pending bytes: receive_data returns the pending bytes, unless their number is
  -- a multiple of the buffer's size; then it throws that it would block.
  pub receive_data_lem :
      (fuel : ℕ) (s : S)
      → is_empty (pending s) ≡ false
      → length (pending s) < fuel
      → (receive_data recv fuel s).0
        ≡ some
            (if length (pending s) % buffer_size == 0 then throws would_block else ok (pending s))
  unfolding receive_data
  receive_data_lem fuel s ne enough = receive_loop_lem fuel [] s ne enough
