-- ===== src/Activation/Modify.antt =====
-- modify of libswc/xdg_activation.c, a change of the token at an address, and the tokens of its list.
use mathlib.Core.List.{Memᴰ}
use mathlib.Core.List.Memᴰ
use neuswc.Prelude.{
  ℕ, suc, ◌≡◌, ◌≢◌, refl, ap, inl, inr, List, [], ◌∷◌, if◌then◌else◌, ◌==◌, ==_false, length,
}
use neuswc.Activation.Token.{Token, modify}

abbrev pub image : ℕ → (Token → Token) → Token → Token
image p f t = if t.id == p then f t else t

pub mem-modify :
    (p : ℕ) (f : Token → Token) (ts : List Token) (t : Token)
    → Memᴰ t (modify p f ts)
    → (u : Token) × Memᴰ u ts × (t ≡ image p f u)
unfolding modify
mem-modify p f [] t m = absurd (Memᴰ.not-nil m)
mem-modify p f (x ∷ ts) t m = elim (Memᴰ.cases_cons m) [
  | inl same ↦ (x, Memᴰ.head refl, same)
  | inr later ↦ let (u, mu, e) = mem-modify p f ts t later in (u, Memᴰ.tail mu, e)
]

pub modify-mem :
    (p : ℕ) (f : Token → Token) (ts : List Token) (u : Token)
    → Memᴰ u ts
    → Memᴰ (image p f u) (modify p f ts)
unfolding modify
modify-mem p f [] u m = absurd (Memᴰ.not-nil m)
modify-mem p f (x ∷ ts) u m = elim (Memᴰ.cases_cons m) [
  | inl same ↦ Memᴰ.head (ap (image p f) same)
  | inr later ↦ Memᴰ.tail (modify-mem p f ts u later)
]

pub length-modify :
    (p : ℕ) (f : Token → Token) (ts : List Token) → length (modify p f ts) ≡ length ts
unfolding modify
length-modify p f [] = refl
length-modify p f (t ∷ ts) = ap suc (length-modify p f ts)

pub image-other : (p : ℕ) (f : Token → Token) (u : Token) → u.id ≢ p → image p f u ≡ u
image-other p f u h = rw (==_false u.id p h)
