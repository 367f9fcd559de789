-- ===== src/Activation/Hex.antt =====
-- The random text of a token in libswc/xdg_activation.c.
use neuswc.Prelude.{
  ℕ, zero, suc, ◌*◌, ◌-◌, ◌/◌, ◌%◌, ◌≤◌, ◌≡◌, refl, inl, inr, Bool, true, false, List, [], ◌∷◌,
  ◌++◌, some, length, take, length-append, arith, Option-cases,
}
use neuswc.Activation.Token.{
  token_bytes, Read, bytes, interrupted, failed, read_loop, hex_digit, hex, generate_token,
}

length-take-le {ℓ} : {A : Type ℓ} (n : ℕ) (xs : List A) → length (take n xs) ≤ n
length-take-le zero xs = omega arith
length-take-le (suc n) [] = omega arith
length-take-le (suc n) (x ∷ xs) = omega (arith, length-take-le n xs)

-- The loop never takes more than it asks for, and ends only with all the bytes.
read_loop-length :
    (got : List ℕ) (reads : List Read) (bs : List ℕ)
    → length got ≤ token_bytes
    → read_loop got reads ≡ some bs
    → length bs ≡ token_bytes
unfolding read_loop
read_loop-length got [] bs h e = ground arith
read_loop-length got (bytes cs ∷ rs) bs h e = ground (
  arith,
  read_loop-length (got ++ take (token_bytes - length got) cs) rs bs,
  length-append {0} got (take (token_bytes - length got) cs),
  length-take-le {0} (token_bytes - length got) cs,
)
read_loop-length got (interrupted ∷ rs) bs h e = ground (arith, read_loop-length got rs bs)
read_loop-length got (failed ∷ rs) bs h e = ground arith

length-hex : (bs : List ℕ) → length (hex bs) ≡ 2 * length bs
unfolding hex
length-hex [] = refl
length-hex (b ∷ bs) = omega (arith, length-hex bs)

-- A committed text has 32 characters, however the reads of the random device were cut up.
generate_token-length :
    (opened : Bool) (reads : List Read) (text : List ℕ)
    → generate_token opened reads ≡ some text
    → length text ≡ 2 * token_bytes
unfolding generate_token
generate_token-length false reads text e = cc
generate_token-length true reads text e = elim (Option-cases (read_loop [] reads)) [
  | inl n ↦ ground arith
  | inr (bs, f) ↦ ground (arith, read_loop-length [] reads bs, length-hex bs)
]

hex_digit-injective : (c d : ℕ) → hex_digit c ≡ hex_digit d → c ≡ d
unfolding hex_digit
hex_digit-injective c d e = ground arith

-- Different bytes give different texts.
pub hex-injective : (bs cs : List ℕ) → hex bs ≡ hex cs → bs ≡ cs
unfolding hex
hex-injective [] [] e = refl
hex-injective [] (c ∷ cs) e = cc
hex-injective (b ∷ bs) [] e = cc
hex-injective (b ∷ bs) (c ∷ cs) e = ground (
  arith,
  hex_digit-injective (b / 16) (c / 16),
  hex_digit-injective (b % 16) (c % 16),
  hex-injective bs cs,
)
