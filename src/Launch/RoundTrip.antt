-- ===== src/Launch/RoundTrip.antt =====
-- launch/protocol.c: what send_fd puts on a stream, receive_fd gets back, however it is cut up.
use neuswc.Prelude.{
  ℕ, ◌+◌, ◌-◌, ◌≤◌, ◌<◌, ◌≡◌, refl, sym, ap, ◌∙◌, true, false, List, [], ◌∷◌, ◌++◌, Option, none,
  some, length, take, drop, length-append, length-drop, take-add, drop-add, arith, ltb,
}
use neuswc.Launch.Message.{
  Bytes, stream, ok, Kernel, IsBounded, IsProgressing, message_size, encode, concat, lengths,
}
use neuswc.Launch.Size.{message_size_iff, decode-encode}
use neuswc.Launch.Send.{Answer, Segment, send_fd}
use neuswc.Launch.Sent.{
  payload, IsLed, moves, send_fd_frames, send_fd_returns, size-length, length-encode,
}
use neuswc.Launch.Descriptors.{Control, rights, Socket, Received, gather, keep_all}
use neuswc.Launch.Receive.{
  Arrival, read, ahead, least, receive_bytes, receive_body, receive_rest, receive_first,
  receive_sized, receive_fd, first_answer,
}
use neuswc.Launch.Received.{reads, positive, receive_bytes-Reads, scatter-Reads}

-- The control messages that come with a descriptor.
abbrev pub carried : Option ℕ → List Control
carried none = []
carried (some fd) = rights (fd ∷ []) ∷ []

abbrev pub first_rights : List Segment → Option ℕ
first_rights [] = none
first_rights (s ∷ w) = s.rights

-- The other end of the wire.
abbrev pub socket_of : List Segment → Socket
socket_of w = record { bytes = payload w; controls = carried (first_rights w); truncated = false }

abbrev framed : ℕ → Bytes → Option ℕ → Socket
framed n body fd = record { bytes = encode n ++ body; controls = carried fd; truncated = false }

gather-carried :
    (fd : Option ℕ)
    → gather true (carried fd) (record { kept = none; closed = [] })
      ≡ record { kept = fd; closed = [] }
unfolding gather keep_all
gather-carried none = refl
gather-carried (some fd) = refl

-- That a call gives the caller `n` bytes, those of `body`, and `fd`, and closes nothing.
abbrev pub Delivers : Received → ℕ → Bytes → Option ℕ → Type 0
Delivers r n body fd =
    (r.result ≡ ok n) × ((r.fd ≡ fd) × ((r.closed ≡ []) × (concat r.contents ≡ body)))

header_taken : (n : ℕ) (body : Bytes) → take 4 (encode n ++ body) ≡ encode n
unfolding encode
header_taken n body = refl

header_dropped : (n : ℕ) (body : Bytes) → drop 4 (encode n ++ body) ≡ body
unfolding encode
header_dropped n body = refl

take_all : (xs : Bytes) → take (length xs) xs ≡ xs
take_all [] = refl
take_all (x ∷ xs) = ap (x ∷◌) (take_all xs)

-- The wire is not empty, so its descriptor is that of the first segment.
socket_of_led :
    (w : List Segment) (n : ℕ) (body : Bytes) (fd : Option ℕ)
    → payload w ≡ encode n ++ body
    → IsLed fd w
    → socket_of w ≡ framed n body fd
socket_of_led [] n body fd e led =
    absurd (ground (arith, length-encode n, ap length e, length-append (encode n) body))
socket_of_led (s ∷ w) n body fd e (f, _) = rw (e, f) refl

module _ (kernel : Kernel) (bounded : IsBounded kernel) (progressing : IsProgressing kernel) where
  -- The first recvmsg may get a part of the header only.
  header_read :
      (arrivals : List Arrival) (n : ℕ) (body : Bytes) (size : ℕ)
      → 4 ≤ reads arrivals
      → size ≤ 4
      → (left : List Arrival) × ((ahead
              (take size (encode n ++ body) ++◌)
              (receive_bytes kernel arrivals (drop size (encode n ++ body)) (4 - size))
            ≡ read (encode n) left body)
          × (reads arrivals ≤ reads left + 4))
  header_read arrivals n body size r t =
      let wire = encode n ++ body in
      let long : length wire ≡ 4 + length body =
        omega (arith, length-append (encode n) body, length-encode n) in
      let (left, (e, l)) =
        receive_bytes-Reads kernel bounded progressing arrivals (drop size wire) (4 - size)
          (omega (arith, length-drop size wire (omega arith))) (omega arith) in
      let all : size + (4 - size) ≡ 4 = omega arith in
      (
        left,
        (
          rw
              (
                e,
                take-add size (4 - size) wire,
                drop-add size (4 - size) wire,
                all,
                header_taken n body,
                header_dropped n body,
              )
              refl,
          omega arith,
        ),
      )

  receive_body-Delivers :
      (left : List Arrival) (lens : List ℕ) (capacity n : ℕ) (body : Bytes) (fd : Option ℕ)
      → message_size lens ≡ ok capacity
      → 0 < n
      → n ≤ capacity
      → length body ≡ n
      → n ≤ reads left
      → Delivers
          (receive_body kernel none capacity lens
            (record { kept = fd; closed = [] })
            (read (encode n) left body))
          n
          body
          fd
  receive_body-Delivers left lens capacity n body fd m p c b r =
      let (total, (_, (_, (_, limit)))) = (message_size_iff lens capacity).0 m in
      let (contents, ((left', (e, _)), w)) =
        scatter-Reads kernel bounded progressing lens n left body (omega arith) (omega arith)
          (omega arith) in
      let fits : ltb capacity n ≡ false = ground arith in
      let whole : take n body ≡ body = rw (← b) (take_all body) in
      rw (decode-encode n (omega arith), positive n p, fits, e) (refl, (refl, (refl, w ∙ whole)))

  receive_rest-Delivers :
      (arrivals : List Arrival) (lens : List ℕ) (capacity n : ℕ) (body : Bytes) (fd : Option ℕ)
      (size : ℕ)
      → message_size lens ≡ ok capacity
      → 0 < n
      → n ≤ capacity
      → length body ≡ n
      → n + 4 ≤ reads arrivals
      → 0 < size
      → size ≤ 4
      → Delivers
          (receive_rest kernel stream arrivals none capacity lens
            (framed n body fd)
            (record { kept = fd; closed = [] })
            size)
          n
          body
          fd
  unfolding receive_rest
  receive_rest-Delivers arrivals lens capacity n body fd size m p c b r s t =
      let (left, (e, l)) = header_read arrivals n body size (omega arith) t in
      rw (positive size s, e)
        (receive_body-Delivers left lens capacity n body fd m p c b (omega arith))

  receive_fd-Delivers :
      (answers : List Answer) (k : ℕ) (arrivals : List Arrival) (lens : List ℕ) (capacity n : ℕ)
      (body : Bytes) (fd : Option ℕ)
      → first_answer answers ≡ ok k
      → message_size lens ≡ ok capacity
      → 0 < n
      → n ≤ capacity
      → length body ≡ n
      → n + 4 ≤ reads arrivals
      → Delivers
          (receive_fd kernel stream answers arrivals true none lens (framed n body fd))
          n
          body
          fd
  unfolding receive_fd receive_sized receive_first
  receive_fd-Delivers answers k arrivals lens capacity n body fd a m p c b r =
      let most = least 4 (length (encode n ++ body)) in
      let room : 0 < most = ground (arith, length-append (encode n) body, length-encode n) in
      let few : most ≤ 4 = ground arith in
      rw (m, a, gather-carried fd)
        (receive_rest-Delivers arrivals lens capacity n body fd (kernel.count k most) m p c b r
          (progressing.progress k most room) (omega (arith, bounded.bounded k most)))

  -- A message sent on a stream arrives: with enough answers of the kernel that move something on both
  -- ends, however few bytes each moves and whatever interruptions lie between, send_fd returns the size,
  -- and the other end, whose vectors have room for it, gets that size, the same bytes, and the same
  -- descriptor or none, and closes none.
  pub receive_fd-send_fd :
      (answers : List Answer) (answers' : List Answer) (k : ℕ) (arrivals : List Arrival)
      (fd : Option ℕ) (iov : List Bytes) (n : ℕ) (lens : List ℕ) (capacity : ℕ)
      → message_size (lengths iov) ≡ ok n
      → n + 4 ≤ moves answers
      → message_size lens ≡ ok capacity
      → n ≤ capacity
      → first_answer answers' ≡ ok k
      → n + 4 ≤ reads arrivals
      → ((send_fd kernel stream answers fd iov).result ≡ ok n)
        × Delivers
            (receive_fd kernel stream answers' arrivals true none lens
              (socket_of (send_fd kernel stream answers fd iov).wire))
            n
            (concat iov)
            fd
  receive_fd-send_fd answers answers' k arrivals fd iov n lens capacity m s m' c a r =
      let returns = send_fd_returns kernel bounded answers fd iov n progressing m s in
      let (bytes, led) = send_fd_frames kernel bounded answers fd iov n m returns in
      let (_, (_, (_, (p, _)))) = (message_size_iff (lengths iov) n).0 m in
      (
        returns,
        rw (socket_of_led (send_fd kernel stream answers fd iov).wire n (concat iov) fd bytes led) (
            receive_fd-Delivers answers' k arrivals lens capacity n (concat iov) fd a m' p c
              (sym (size-length iov n m)) r),
      )
