-- ===== src/Launch/Message.antt =====
-- launch/protocol.c, lines 18 to 51: the size of a message, and what the two ends share.
use neuswc.Prelude.{
  ℕ, ◌+◌, ◌-◌, ◌*◌, ◌/◌, ◌%◌, ◌^◌, ◌≤◌, ◌<◌, ◌||◌, List, [], ◌∷◌, ◌++◌, if◌then◌else◌, ltb, ◌==◌,
  length,
}

abbrev pub Bytes : Type 0
Bytes = List ℕ

pub data SocketType : Type 0 where
  stream seqpacket : SocketType

-- `other` is an error of a system call.
pub data Errno : Type 0 where
  einval emsgsize epipe eio eproto etimedout : Errno
  other : ℕ → Errno

-- `blocked`: the answers of the kernel are used up and the call has not returned.
pub data Outcome {ℓ} (A : Type ℓ) : Type ℓ where
  ok : A → Outcome A
  failed : Errno → Outcome A
  blocked : Outcome A

abbrev pub max_iov : ℕ
max_iov = 8

abbrev pub max_message_size : ℕ
max_message_size = 65536

abbrev pub u32 : ℕ
u32 = 2 ^ 32

-- The loop over the vectors, given their lengths. `MAX_MESSAGE_SIZE - *size` and `*size +=` are on
-- 32 bits.
unfoldable pub add_lengths : (size : ℕ) → List ℕ → Outcome ℕ
add_lengths size [] = ok size
add_lengths size (len ∷ lens) =
    let rest = add_lengths ((size + len) % u32) lens in
    if ltb ((max_message_size + u32 - size) % u32) len then failed emsgsize else rest

-- The test after the loop.
unfoldable pub check_size : Outcome ℕ → Outcome ℕ
check_size (ok size) = if size == 0 then failed einval else ok size
check_size (failed e) = failed e
check_size blocked = blocked

unfoldable pub message_size : List ℕ → Outcome ℕ
message_size iov =
    if ltb (length iov) 1 || ltb max_iov (length iov)
    then failed einval
    else check_size (add_lengths 0 iov)

-- The four bytes of a `uint32_t` in memory, the low one first.
unfoldable pub encode : ℕ → Bytes
encode n = n % 256 ∷ n / 256 % 256 ∷ n / 65536 % 256 ∷ n / 16777216 % 256 ∷ []

unfoldable pub decode : Bytes → ℕ
decode (a ∷ b ∷ c ∷ d ∷ _) = a + b * 256 + c * 65536 + d * 16777216
decode _ = 0

-- The bytes of all vectors.
abbrev pub concat : List Bytes → Bytes
concat [] = []
concat (v ∷ vs) = v ++ concat vs

abbrev pub lengths : List Bytes → List ℕ
lengths [] = []
lengths (v ∷ vs) = length v ∷ lengths vs

-- How many bytes a system call moves when it may move up to `most`, in the round that the first
-- number names.
pub record Kernel : Type 0 where
  pub count : ℕ → ℕ → ℕ

-- It never moves more than it may.
pub record IsBounded (kernel : Kernel) : Type 0 where
  pub bounded : (k most : ℕ) → kernel.count k most ≤ most

-- It moves something where there is something to move.
pub record IsProgressing (kernel : Kernel) : Type 0 where
  pub progress : (k most : ℕ) → 0 < most → 0 < kernel.count k most
