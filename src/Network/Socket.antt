-- ===== src/Network/Socket.antt =====
-- src/network/tcp_socket.cpp: what the calls of a socket make of the results of the system's calls.
pub mod Receive
use p2p_file_share.Base.{
  ℕ, zero, suc, Bool, true, false, Option, none, some, [], ◌∷◌, ◌++◌, if◌then◌else◌, Text, ltb,
  is_empty, length, Checked, ok, throws, Exception, network_error, would_block, connection_closed,
}

-- The values of `errno` that the code tells apart.
pub data Errno : Type 0 where
  unset : Errno
  broken_pipe : Errno
  no_data : Errno
  refused : Errno
  in_progress : Errno
  other : Errno

-- The result of `::recv`: the bytes it gives, where none stand for 0, or -1 and `errno`.
pub data Received : Type 0 where
  bytes : Text → Received
  failed : Errno → Received

-- The result of `::send`: a count, or -1 and `errno`.
pub data Sent : Type 0 where
  count : ℕ → Sent
  unsent : Errno → Sent

-- send_data and receive_data: the exception for an `errno`.
unfoldable pub transfer_error : Errno → Exception
transfer_error broken_pipe = connection_closed
transfer_error no_data = would_block
transfer_error _ = network_error

unfoldable pub send_data : Sent → Checked ℕ
unfolding transfer_error
send_data (count n) = ok n
send_data (unsent e) = throws (transfer_error e)

-- connect, once `::connect` has given -1.
unfoldable pub connect_error : Errno → Checked Bool
connect_error unset = ok true
connect_error refused = throws connection_closed
connect_error in_progress = ok true
connect_error _ = throws network_error

abbrev pub buffer_size : ℕ
buffer_size = 1024

-- What the end of the loop makes of the bytes read.
unfoldable pub end_of_data : Exception → Text → Checked Text
end_of_data e text = if is_empty text then throws e else ok text

-- `S` is the state of a socket, and `recv` is `::recv` with the size of the buffer and the flag for
-- MSG_PEEK.
module _ {S : Type 0} (recv : ℕ → Bool → S → Received × S) where
  -- receive_data(true): one receipt ends the loop.
  unfoldable pub peek_data : S → Checked Text × S
  unfolding transfer_error
  peek_data s = (
    elim (recv buffer_size true s).0 [
      | bytes [] ↦ throws connection_closed
      | bytes (c ∷ t) ↦ ok (c ∷ t)
      | failed e ↦ throws (transfer_error e)
    ],
    (recv buffer_size true s).1,
  )

  -- The end of a round that got `valread` bytes: a full buffer is followed by a peek.
  unfoldable pub after_chunk :
      ℕ → Text → S → (S → Option (Checked Text) × S) → Option (Checked Text) × S
  unfolding peek_data
  after_chunk valread text s next =
      if ltb valread buffer_size then (some (ok text), s) else elim (peek_data s).0 [
        | throws e ↦ (some (throws e), (peek_data s).1)
        | ok [] ↦ (some (ok text), (peek_data s).1)
        | ok (c ∷ t) ↦ next (peek_data s).1
      ]

  -- The loop of receive_data(false) behind the bytes read so far; `none` when the fuel is used up.
  unfoldable pub receive_loop : ℕ → Text → S → Option (Checked Text) × S
  unfolding after_chunk end_of_data transfer_error
  receive_loop zero text s = (none, s)
  receive_loop (suc fuel) text s =
      let s' = (recv buffer_size false s).1 in
      elim (recv buffer_size false s).0 [
        | failed no_data ↦ (some (end_of_data would_block text), s')
        | failed e ↦ (some (throws (transfer_error e)), s')
        | bytes [] ↦ (some (end_of_data connection_closed text), s')
        | bytes (c ∷ t) ↦
            after_chunk (length (c ∷ t)) (text ++ c ∷ t) s' (receive_loop fuel (text ++ c ∷ t))
      ]

  unfoldable pub receive_data : ℕ → S → Option (Checked Text) × S
  unfolding receive_loop
  receive_data fuel s = receive_loop fuel [] s
