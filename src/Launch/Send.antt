-- ===== src/Launch/Send.antt =====
-- launch/protocol.c, lines 53 to 121: send_fd. What goes on the wire is a list of segments, one for
-- each sendmsg that moved something, with the descriptor that went with it.
use neuswc.Prelude.{
  ℕ, ◌+◌, ◌-◌, List, [], ◌∷◌, Option, none, if◌then◌else◌, leb, ◌==◌, length, take, drop,
}
use neuswc.Launch.Message.{
  Bytes, SocketType, stream, seqpacket, Outcome, ok, failed, blocked, epipe, eio, other, Kernel,
  message_size, encode, concat, lengths,
}

-- How a call of sendmsg ends: EINTR, an error, or that some bytes were taken.
pub data Answer : Type 0 where
  interrupted : Answer
  error : ℕ → Answer
  moved : ℕ → Answer

pub record Segment : Type 0 where
  pub bytes : Bytes
  pub rights : Option ℕ

pub record Sending : Type 0 where
  pub result : Outcome ℕ
  pub wire : List Segment

abbrev pub sending : Outcome ℕ → List Segment → Sending
sending r w = record { result = r; wire = w }

-- The loop over the vectors after a short write, with what is left of `consumed`.
unfoldable pub advance : (consumed : ℕ) → List Bytes → List Bytes
advance consumed [] = []
advance consumed (v ∷ vs) =
    let rest = advance (consumed - length v) vs in
    if leb (length v) consumed then rest else drop consumed v ∷ vs

-- A segment ahead of what the later rounds send.
abbrev pub after : Segment → Sending → Sending
after s r = sending r.result (s ∷ r.wire)

module _ (kernel : Kernel) where
  -- The loop. `control` is the descriptor that the next message carries, `size` the value to return.
  unfoldable pub send_loop :
      SocketType
      → (size : ℕ) → List Answer
      → List Bytes
      → (control : Option ℕ) → (remaining : ℕ) → Sending
  send_loop type size [] vectors control remaining =
      sending (if remaining == 0 then ok size else blocked) []
  send_loop type size (interrupted ∷ answers) vectors control remaining =
      let rest = send_loop type size answers vectors control remaining in
      if remaining == 0 then sending (ok size) [] else rest
  send_loop type size (error e ∷ answers) vectors control remaining =
      sending (if remaining == 0 then ok size else failed (other e)) []
  send_loop type size (moved k ∷ answers) vectors control remaining =
      let sent = kernel.count k (length (concat vectors)) in
      let segment : Segment = record { bytes = take sent (concat vectors); rights = control } in
      let rest = send_loop type size answers (advance sent vectors) none (remaining - sent) in
      if remaining == 0
      then sending (ok size) []
      else if sent == 0
      then sending (failed epipe) []
      else (elim type [
        | seqpacket ↦ sending (if remaining - sent == 0 then ok size else failed eio) (segment ∷ [])
        | stream ↦ after segment rest
      ])

  unfoldable pub send_sized : SocketType → List Answer → Option ℕ → List Bytes → Outcome ℕ → Sending
  send_sized stream answers fd iov (ok size) =
      send_loop stream size answers (encode size ∷ iov) fd (size + 4)
  send_sized seqpacket answers fd iov (ok size) = send_loop seqpacket size answers iov fd size
  send_sized type answers fd iov (failed e) = sending (failed e) []
  send_sized type answers fd iov blocked = sending blocked []

  -- `fd` is none when it is negative. getsockopt and setsockopt are taken to succeed.
  unfoldable pub send_fd : SocketType → List Answer → (fd : Option ℕ) → (iov : List Bytes) → Sending
  unfolding send_sized
  send_fd type answers fd iov = send_sized type answers fd iov (message_size (lengths iov))
