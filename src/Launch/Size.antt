-- ===== src/Launch/Size.antt =====
-- launch/protocol.c: which sizes message_size lets through.
use neuswc.Prelude.{
  ℕ, ◌+◌, ◌%◌, ap, ◌≤◌, ◌<◌, ◌≡◌, refl, ◌↔◌, ◌⊎◌, inl, inr, List, [], ◌∷◌, length, length-append,
  arith,
}
use neuswc.Launch.Message.{
  Bytes, Outcome, Errno, ok, failed, blocked, add_lengths, check_size, message_size, encode, decode,
  concat, lengths, u32,
}

-- Without wrapping around.
abbrev pub sum : List ℕ → ℕ
sum [] = 0
sum (n ∷ ns) = n + sum ns

pub sum-lengths : (vs : List Bytes) → sum (lengths vs) ≡ length (concat vs)
sum-lengths [] = refl
sum-lengths (v ∷ vs) = omega (arith, sum-lengths vs, length-append v (concat vs))

Outcome-cases {ℓ} :
    {A : Type ℓ} (o : Outcome A)
    → (((e : Errno) × (o ≡ failed e)) ⊎ (o ≡ blocked)) ⊎ ((a : A) × (o ≡ ok a))
Outcome-cases (ok a) = inr (a, refl)
Outcome-cases (failed e) = inl (inl (e, refl))
Outcome-cases blocked = inl (inr refl)

add_lengths_sound :
    (size : ℕ) (lens : List ℕ) (r : ℕ)
    → size ≤ 65536
    → add_lengths size lens ≡ ok r
    → (r ≡ size + sum lens) × (r ≤ 65536)
unfolding add_lengths
add_lengths_sound size [] r h e = ground arith
add_lengths_sound size (len ∷ lens) r h e =
    ground (arith, add_lengths_sound ((size + len) % u32) lens r)

add_lengths_complete :
    (size : ℕ) (lens : List ℕ)
    → size + sum lens ≤ 65536
    → add_lengths size lens ≡ ok (size + sum lens)
unfolding add_lengths
add_lengths_complete size [] h = ap ok (omega arith)
add_lengths_complete size (len ∷ lens) h =
    ground (arith, add_lengths_complete ((size + len) % u32) lens)

-- The vectors that message_size lets through.
abbrev pub IsSendable : List ℕ → ℕ → Type 0
IsSendable iov n = (n ≡ sum iov) × ((1 ≤ length iov) × ((length iov ≤ 8) × ((1 ≤ n) × (n ≤ 65536))))

message_size_sound : (iov : List ℕ) (n : ℕ) → message_size iov ≡ ok n → IsSendable iov n
unfolding message_size check_size
message_size_sound iov n e = elim (Outcome-cases (add_lengths 0 iov)) [
  | inl (inl f) ↦ absurd (ground (arith, f.1))
  | inl (inr f) ↦ absurd (ground arith)
  | inr (s, f) ↦ ground (arith, add_lengths_sound 0 iov s)
]

message_size_complete : (iov : List ℕ) (n : ℕ) → IsSendable iov n → message_size iov ≡ ok n
unfolding message_size check_size
message_size_complete iov n (e, (a, (b, (c, d)))) =
    ground (arith, add_lengths_complete 0 iov (omega arith))

-- A message is let through with a size exactly if it has one to eight vectors and the size is the sum
-- of their lengths, not 0 and at most 64 KiB; so no sum of lengths of 64 bits that wraps around on 32
-- bits is.
pub message_size_iff : (iov : List ℕ) (n : ℕ) → (message_size iov ≡ ok n) ↔ IsSendable iov n
message_size_iff iov n = (message_size_sound iov n, message_size_complete iov n)

pub decode-encode : (n : ℕ) → n < u32 → decode (encode n) ≡ n
unfolding decode encode
decode-encode n h = omega arith
