-- ===== src/Launch/Tests.antt =====
-- The theorems about messages at concrete runs.
use neuswc.Prelude.{
  times, ℕ, suc, ◌≡◌, ◌≢◌, ◌++◌, ◌↔◌, refl, true, List, [], ◌∷◌, none, some, arith,
}
use neuswc.Launch.Message.{
  Bytes, stream, seqpacket, ok, failed, blocked, emsgsize, Kernel, IsBounded, IsProgressing,
  message_size, add_lengths, check_size, lengths, concat,
}
use neuswc.Launch.Size.{IsSendable, message_size_iff}
use neuswc.Launch.Send.{Answer, interrupted, moved, send_fd}
use neuswc.Launch.Descriptors.{rights, Socket, Received, to_list}
use neuswc.Launch.Receive.{
  Arrival, retried, arrived, least, receive_fd, receive_sized, receive_first, receive_rest,
  first_answer,
}
use neuswc.Launch.RoundTrip.{Delivers, socket_of, receive_fd-send_fd}
use neuswc.Launch.Rights.{sent_along, receive_fd_exact}

-- Moves one byte more than the number that names the round.
abbrev some_bytes : Kernel
some_bytes = record { count = λ k most. least (suc k) most }

some_bytes-IsBounded : IsBounded some_bytes
some_bytes-IsBounded = record { bounded = λ k most. ground arith }

some_bytes-IsProgressing : IsProgressing some_bytes
some_bytes-IsProgressing = record { progress = λ k most h. ground arith }

abbrev two_vectors : List Bytes
two_vectors = (7 ∷ 0 ∷ []) ∷ (8 ∷ []) ∷ []

abbrev few : List Answer
few =
    moved 1
    ∷ interrupted
    ∷ moved 0
    ∷ moved 0
    ∷ moved 3
    ∷ interrupted
    ∷ moved 0
    ∷ moved 0
    ∷ moved 0
    ∷ []

abbrev pieces : List Arrival
pieces =
    arrived 0 ∷ retried ∷ arrived 0 ∷ arrived 1 ∷ arrived 0 ∷ arrived 0 ∷ arrived 0 ∷ arrived 0 ∷ []

sized : message_size (lengths two_vectors) ≡ ok 3
unfolding message_size add_lengths check_size
sized = refl

room : message_size (1 ∷ 5 ∷ []) ≡ ok 6
unfolding message_size add_lengths check_size
room = refl

begun : first_answer (interrupted ∷ moved 1 ∷ []) ≡ ok 1
unfolding first_answer
begun = refl

message_size_iff_example : (message_size (1 ∷ 5 ∷ []) ≡ ok 6) ↔ IsSendable (1 ∷ 5 ∷ []) 6
message_size_iff_example = message_size_iff (1 ∷ 5 ∷ []) 6

receive_fd-send_fd_example :
    ((send_fd some_bytes stream few (some 9) two_vectors).result ≡ ok 3)
    × Delivers
        (receive_fd some_bytes stream
          (interrupted ∷ moved 1 ∷ [])
          pieces
          true
          none
          (1 ∷ 5 ∷ [])
          (socket_of (send_fd some_bytes stream few (some 9) two_vectors).wire))
        3
        (concat two_vectors)
        (some 9)
receive_fd-send_fd_example =
    receive_fd-send_fd some_bytes some_bytes-IsBounded some_bytes-IsProgressing few
      (interrupted ∷ moved 1 ∷ []) 1 pieces (some 9) two_vectors 3 (1 ∷ 5 ∷ []) 6 sized
      (omega arith) room (omega arith) begun (omega arith)

-- Two descriptors in one control message, and the end of a packet was cut off.
abbrev crowded : Socket
crowded = record { bytes = 1 ∷ 2 ∷ []; controls = rights (4 ∷ 6 ∷ []) ∷ []; truncated = true }

abbrev refused : Received
refused =
    receive_fd some_bytes seqpacket (interrupted ∷ moved 1 ∷ []) [] true none (1 ∷ 5 ∷ []) crowded

refused_fails : refused.result ≡ failed emsgsize
unfolding receive_fd receive_sized receive_first receive_rest first_answer message_size add_lengths
    check_size
refused_fails = refl

refused_result : refused.result ≢ blocked
refused_result p = absurd (ground (arith, refused_fails))

receive_fd_exact_example :
    ((c : ℕ)
      → times c (to_list refused.fd ++ refused.closed) ≡ times c (sent_along crowded.controls))
    × ((n : ℕ) → refused.fd ≡ some n → (m : ℕ) × (refused.result ≡ ok m))
receive_fd_exact_example =
    receive_fd_exact some_bytes seqpacket (interrupted ∷ moved 1 ∷ []) [] true none (1 ∷ 5 ∷ [])
      crowded 6 1 room begun refused_result
