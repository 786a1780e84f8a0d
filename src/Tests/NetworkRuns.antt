-- ===== src/Tests/NetworkRuns.antt =====
-- Runs of the sockets and of the event loop.
use p2p_file_share.Base.{
  ℕ, ◌≡◌, refl, sym, is_empty, Bool, true, false, some, [], ◌∷◌, Text, ok, throws,
  connection_closed, List, any, arith, take, drop, drop-nil,
}
use p2p_file_share.Network.EventLoop.{
  EventLoop, Input, request, message, kept, has_fd, clear, erase_client, admit_client, drop_client,
  catch_error, serve_client, serve_input, serve_requests, capped,
}
use p2p_file_share.Network.EventLoop.Clients.{IsLoop, IsFresh, serve_requests-IsLoop}
use p2p_file_share.Network.Socket.{Received, bytes, failed, no_data, receive_data}
use p2p_file_share.Network.Socket.Receive.{IsOpenSocket, receive_data_lem}

-- The bytes that wait at a connection, and recv over them.
abbrev recv_pending : ℕ → Bool → Text → Received × Text
recv_pending n peek [] = (failed no_data, [])
recv_pending n true (c ∷ s) = (bytes (take n (c ∷ s)), c ∷ s)
recv_pending n false (c ∷ s) = (bytes (take n (c ∷ s)), drop n (c ∷ s))

gives :
    (n : ℕ) (peek : Bool) (s : Text)
    → is_empty s ≡ false
    → (recv_pending n peek s).0 ≡ bytes (take n s)
gives n peek [] h = cc
gives n true (c ∷ s) h = refl
gives n false (c ∷ s) h = refl

waits :
    (n : ℕ) (peek : Bool) (s : Text)
    → is_empty s ≡ true
    → (recv_pending n peek s).0 ≡ failed no_data
waits n peek [] h = refl
waits n peek (c ∷ s) h = cc

takes : (n : ℕ) (s : Text) → (recv_pending n false s).1 ≡ drop n s
takes n [] = sym (drop-nil n)
takes n (c ∷ s) = refl

peeks : (n : ℕ) (s : Text) → (recv_pending n true s).1 ≡ s
peeks n [] = refl
peeks n (c ∷ s) = refl

recv_pending-IsOpenSocket : IsOpenSocket recv_pending (λ s. s)
recv_pending-IsOpenSocket = record { gives = gives; waits = waits; takes = takes; peeks = peeks }

receive_data_lem_example :
    (receive_data recv_pending 4 (1 ∷ 2 ∷ 3 ∷ [])).0 ≡ some (ok (1 ∷ 2 ∷ 3 ∷ []))
receive_data_lem_example =
    receive_data_lem recv_pending (λ s. s) recv_pending-IsOpenSocket 4 (1 ∷ 2 ∷ 3 ∷ []) refl
      (omega arith)

-- Room for two clients: the third is turned away, and the first leaves.
abbrev listening : EventLoop
listening = record { active = 3 ∷ []; clients = []; notices = [] }

abbrev inputs : List Input
inputs =
    request (ok 4)
    ∷ request (ok 5)
    ∷ request (ok 6)
    ∷ message 4 (throws connection_closed) (λ text. kept)
    ∷ message 5 (ok (1 ∷ [])) (λ text. kept)
    ∷ []

network_code : Unit {0}
unfolding has_fd any clear erase_client admit_client drop_client catch_error serve_client
    serve_input serve_requests capped
network_code = tt

second_stays : (serve_requests 2 inputs listening).0.clients ≡ 5 ∷ []
unfolding network_code
second_stays = refl

listening-IsLoop : IsLoop 2 3 listening
unfolding network_code
listening-IsLoop = record {
  bounded = omega arith;
  distinct = tt;
  apart = refl;
  tracked = λ x. ground arith;
}

inputs-IsFresh : IsFresh 2 3 inputs listening
unfolding network_code
inputs-IsFresh = (refl, (refl, (refl, tt)))

serve_requests-IsLoop_example : IsLoop 2 3 (serve_requests 2 inputs listening).0
serve_requests-IsLoop_example =
    serve_requests-IsLoop 2 3 inputs listening listening-IsLoop inputs-IsFresh

cap : capped 256 ≡ 255
unfolding network_code
cap = refl
