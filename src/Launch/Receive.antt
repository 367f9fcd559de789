-- ===== src/Launch/Receive.antt =====
-- launch/protocol.c, lines 123 to 234: receive_fd.
use neuswc.Prelude.{
  ℕ, ◌-◌, Bool, List, [], ◌∷◌, ◌++◌, Option, none, if◌then◌else◌, leb, ltb, ◌==◌, ◌||◌, length,
  take, drop,
}
use neuswc.Launch.Message.{
  Bytes, SocketType, stream, seqpacket, Errno, Outcome, ok, failed, blocked, emsgsize, eproto,
  etimedout, other, Kernel, message_size, decode,
}
use neuswc.Launch.Send.{Answer, interrupted, error, moved}
use neuswc.Launch.Descriptors.{Socket, Gathered, Received, gather, fail, finish, end_of_file}

-- How a round of poll and recv ends; `retried` is EINTR of either.
pub data Arrival : Type 0 where
  retried timed_out : Arrival
  broken : ℕ → Arrival
  arrived : ℕ → Arrival

-- What was read, with the arrivals and the bytes on the wire that are left.
pub data Read {ℓ} (A : Type ℓ) : Type ℓ where
  read : A → List Arrival → Bytes → Read A
  stopped : Errno → Read A
  pending : Read A

abbrev pub then_read {ℓ κ} :
    {A : Type ℓ} {B : Type κ} → Read A → (A → List Arrival → Bytes → Read B) → Read B
then_read (read a arrivals bytes) f = f a arrivals bytes
then_read (stopped e) f = stopped e
then_read pending f = pending

-- More of what a read gives, ahead of it.
abbrev pub ahead {ℓ} : {A : Type ℓ} → (A → A) → Read A → Read A
ahead f (read a arrivals bytes) = read (f a) arrivals bytes
ahead f (stopped e) = stopped e
ahead f pending = pending

abbrev pub least : ℕ → ℕ → ℕ
least a b = if leb a b then a else b

-- The bytes of a packet, over the vectors of these lengths.
unfoldable pub split : List ℕ → Bytes → List Bytes
split [] bytes = []
split (len ∷ lens) bytes = take len bytes ∷ split lens (drop len bytes)

-- The answers to the first recvmsg.
unfoldable pub first_answer : List Answer → Outcome ℕ
first_answer [] = blocked
first_answer (interrupted ∷ answers) = first_answer answers
first_answer (error e ∷ answers) = failed (other e)
first_answer (moved k ∷ answers) = ok k

module _ (kernel : Kernel) where
  unfoldable pub receive_bytes : List Arrival → Bytes → (size : ℕ) → Read Bytes
  receive_bytes [] bytes size = if size == 0 then read [] [] bytes else pending
  receive_bytes (retried ∷ arrivals) bytes size =
      let rest = receive_bytes arrivals bytes size in
      if size == 0 then read [] (retried ∷ arrivals) bytes else rest
  receive_bytes (timed_out ∷ arrivals) bytes size =
      if size == 0 then read [] (timed_out ∷ arrivals) bytes else stopped etimedout
  receive_bytes (broken e ∷ arrivals) bytes size =
      if size == 0 then read [] (broken e ∷ arrivals) bytes else stopped (other e)
  receive_bytes (arrived k ∷ arrivals) bytes size =
      let got = kernel.count k (least size (length bytes)) in
      let rest = receive_bytes arrivals (drop got bytes) (size - got) in
      if size == 0
      then read [] (arrived k ∷ arrivals) bytes
      else if got == 0
      then stopped eproto
      else ahead (take got bytes ++◌) rest

  -- The loop over the vectors.
  unfoldable pub scatter : List ℕ → (left : ℕ) → List Arrival → Bytes → Read (List Bytes)
  scatter [] left arrivals bytes = read [] arrivals bytes
  scatter (len ∷ lens) left arrivals bytes =
      let part = least len left in
      if left == 0
      then read [] arrivals bytes
      else then_read (receive_bytes arrivals bytes part)
          (λ got arrivals' bytes'. ahead (got ∷◌) (scatter lens (left - part) arrivals' bytes'))

  abbrev pub finish_read : (cloexec : Option ℕ) → Gathered → ℕ → Read (List Bytes) → Received
  finish_read cloexec g size (read contents _ _) = finish cloexec g size contents
  finish_read cloexec g size (stopped e) = fail e g
  finish_read cloexec g size pending = record {
    result = blocked;
    fd = none;
    closed = g.closed;
    contents = [];
  }

  -- What follows the header in a frame.
  abbrev pub receive_body :
      (cloexec : Option ℕ) → (capacity : ℕ) → List ℕ → Gathered → Read Bytes → Received
  receive_body cloexec capacity lens g (stopped e) = fail e g
  receive_body cloexec capacity lens g pending = record {
    result = blocked;
    fd = none;
    closed = g.closed;
    contents = [];
  }
  receive_body cloexec capacity lens g (read header arrivals bytes) =
      let size = decode header in
      if size == 0 || ltb capacity size
      then fail emsgsize g
      else finish_read cloexec g size (scatter lens size arrivals bytes)

  -- After a first recvmsg that has moved `size` bytes.
  unfoldable pub receive_rest :
      SocketType
      → List Arrival
      → (cloexec : Option ℕ) → (capacity : ℕ) → List ℕ
      → Socket
      → Gathered
      → (size : ℕ) → Received
  receive_rest type arrivals cloexec capacity lens socket g size =
      let head = take size socket.bytes in
      let tail = drop size socket.bytes in
      if socket.truncated
      then fail emsgsize g
      else if size == 0
      then end_of_file g
      else (elim type [
        | stream ↦
            receive_body cloexec capacity lens g
              (ahead (head ++◌) (receive_bytes arrivals tail (4 - size)))
        | seqpacket ↦ finish cloexec g size (split lens head)
      ])

  abbrev nothing_received : Outcome ℕ → Received
  nothing_received r = record { result = r; fd = none; closed = []; contents = [] }

  abbrev pub most : SocketType → (capacity : ℕ) → ℕ
  most stream capacity = 4
  most seqpacket capacity = capacity

  unfoldable pub receive_first :
      SocketType
      → List Arrival
      → Bool
      → Option ℕ
      → List ℕ
      → Socket
      → (capacity : ℕ) → Outcome ℕ
      → Received
  receive_first type arrivals wanted cloexec lens socket capacity (ok k) =
      receive_rest type arrivals cloexec capacity lens socket
        (gather wanted socket.controls (record { kept = none; closed = [] }))
        (kernel.count k (least (most type capacity) (length socket.bytes)))
  receive_first type arrivals wanted cloexec lens socket capacity (failed e) =
      nothing_received (failed e)
  receive_first type arrivals wanted cloexec lens socket capacity blocked = nothing_received blocked

  unfoldable pub receive_sized :
      SocketType
      → List Answer
      → List Arrival
      → Bool
      → Option ℕ
      → List ℕ
      → Socket
      → Outcome ℕ
      → Received
  receive_sized type answers arrivals wanted cloexec lens socket (ok capacity) =
      receive_first type arrivals wanted cloexec lens socket capacity (first_answer answers)
  receive_sized type answers arrivals wanted cloexec lens socket r = nothing_received r

  -- `wanted`: the caller has a place for a descriptor. getsockopt is taken to succeed.
  unfoldable pub receive_fd :
      SocketType
      → List Answer
      → List Arrival
      → (wanted : Bool) → (cloexec : Option ℕ) → (lens : List ℕ) → Socket
      → Received
  receive_fd type answers arrivals wanted cloexec lens socket =
      receive_sized type answers arrivals wanted cloexec lens socket (message_size lens)
