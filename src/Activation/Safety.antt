-- ===== src/Activation/Safety.antt =====
-- Pointers and bounds of libswc/xdg_activation.c.
use mathlib.Core.List.{Memᴰ}
use mathlib.Core.List.Memᴰ
use mathlib.Core.Bool.{false≢true}
use neuswc.Prelude.{
  ℕ, ◌≤◌, ◌<◌, ◌≡◌, ◌≢◌, refl, sym, ap, ◌∙◌, inl, inr, List, [], ◌∷◌, Option, none, some, ◌==◌,
  ==_iff, ==_false, length, arith, Bool-cases, Option-cases,
}
use neuswc.Activation.Token.{
  token_max, Token, Activation, find_id, unlink, token_free, clear_data, detach, handle_expiry,
  deref, token_of,
}

-- The tokens have addresses of their own, resources and tokens point at each other, no resource holds
-- the address of a token that is gone, and there are not more than 64.
pub record IsSafe (s : Activation) : Type 0 where
  pub bounded : length s.tokens ≤ token_max
  pub distinct : (t u : Token) → Memᴰ t s.tokens → Memᴰ u s.tokens → t.id ≡ u.id → t ≡ u
  pub below : (t : Token) → Memᴰ t s.tokens → t.id < s.next
  pub linked :
      (r p : ℕ)
      → s.user_data r ≡ some p
      → (t : Token) × Memᴰ t s.tokens × (t.id ≡ p) × (t.resource ≡ some r)
  pub back : (t : Token) (r : ℕ) → Memᴰ t s.tokens → t.resource ≡ some r → s.user_data r ≡ some t.id

pub mem-unlink :
    (p : ℕ) (ts : List Token) (t : Token) → Memᴰ t (unlink p ts) → Memᴰ t ts × (t.id ≢ p)
unfolding unlink
mem-unlink p [] t m = absurd (Memᴰ.not-nil m)
mem-unlink p (x ∷ ts) t m = elim (Bool-cases (x.id == p)) [
  | inl e ↦ let (m', ne) = mem-unlink p ts t (rw e at m) in (Memᴰ.tail m', ne)
  | inr e ↦ elim (Memᴰ.cases_cons (rw e at m)) [
    | inl same ↦ (
      Memᴰ.head same,
      λ h. cc (sym e ∙ (==_iff x.id p).1 (ap (λ (y : Token). y.id) (sym same) ∙ h)),
    )
    | inr later ↦ let (m', ne) = mem-unlink p ts t later in (Memᴰ.tail m', ne)
  ]
]

unlink-mem : (p : ℕ) (ts : List Token) (t : Token) → Memᴰ t ts → t.id ≢ p → Memᴰ t (unlink p ts)
unfolding unlink
unlink-mem p [] t m ne = m
unlink-mem p (x ∷ ts) t m ne = elim (Memᴰ.cases_cons m) [
  | inl same ↦ rw (==_false x.id p (λ h. ne (ap (λ (y : Token). y.id) same ∙ h))) (Memᴰ.head same)
  | inr later ↦ elim (Bool-cases (x.id == p)) [
    | inl e ↦ rw e (unlink-mem p ts t later ne)
    | inr e ↦ rw e (Memᴰ.tail (unlink-mem p ts t later ne))
  ]
]

pub length-unlink : (p : ℕ) (ts : List Token) → length (unlink p ts) ≤ length ts
unfolding unlink
length-unlink p [] = omega arith
length-unlink p (t ∷ ts) = ground (arith, length-unlink p ts)

pub some-clear_data :
    (o : Option ℕ) (u : ℕ → Option ℕ) (r p : ℕ)
    → clear_data o u r ≡ some p
    → (u r ≡ some p) × (o ≢ some r)
some-clear_data none u r p h = (h, λ e. cc)
some-clear_data (some q) u r p h = (ground arith, λ e. ground arith)

pub clear_data-none :
    (o : Option ℕ) (u : ℕ → Option ℕ) (r : ℕ) → u r ≡ none → clear_data o u r ≡ none
clear_data-none none u r e = e
clear_data-none (some q) u r e = ground arith

pub clear_data-other :
    (o : Option ℕ) (u : ℕ → Option ℕ) (r : ℕ) → o ≢ some r → clear_data o u r ≡ u r
clear_data-other none u r h = refl
clear_data-other (some q) u r h = rw (==_false r q (λ e. h (ap some (sym e))))

pub some-eq : (a b : ℕ) → some a ≡ some b → a ≡ b
some-eq a b e = cc

pub back-eq :
    (s : Activation)
    → IsSafe s
    → (a t : Token) (r : ℕ) → Memᴰ a s.tokens
    → Memᴰ t s.tokens
    → a.resource ≡ some r
    → t.resource ≡ some r
    → a.id ≡ t.id
back-eq s v a t r ma mt ra rt = some-eq _ _ (sym (v.back a r ma ra) ∙ v.back t r mt rt)

-- A token that is detached and freed leaves a safe state behind.
pub free-IsSafe :
    (t : Token) (s : Activation) → IsSafe s → Memᴰ t s.tokens → IsSafe (token_free t (detach t s))
unfolding token_free
free-IsSafe t s v m = record {
  bounded = omega (arith, v.bounded, length-unlink t.id s.tokens);
  distinct = λ a b ma mb e.
      v.distinct a b (mem-unlink t.id s.tokens a ma).0 (mem-unlink t.id s.tokens b mb).0 e;
  below = λ a ma. v.below a (mem-unlink t.id s.tokens a ma).0;
  linked = λ r p h.
      let (held, other) = some-clear_data t.resource s.user_data r p h in
      let (a, ma, ia, ra) = v.linked r p held in
      (
        a,
        unlink-mem t.id s.tokens a ma
            (λ e. other (ap (λ (y : Token). y.resource) (sym (v.distinct a t ma m e)) ∙ ra)),
        ia,
        ra,
      );
  back = λ a r ma ra.
      let (ma', ne) = mem-unlink t.id s.tokens a ma in
      clear_data-other t.resource s.user_data r (λ e. ne (back-eq s v a t r ma' m ra e))
      ∙ v.back a r ma' ra;
}

pub handle_expiry-IsSafe :
    (t : Token) (s : Activation) → IsSafe s → Memᴰ t s.tokens → IsSafe (handle_expiry t s)
unfolding handle_expiry
handle_expiry-IsSafe t s v m = free-IsSafe t s v m

find_id_complete :
    (p : ℕ) (ts : List Token) (t : Token)
    → Memᴰ t ts
    → t.id ≡ p
    → (u : Token) × (find_id p ts ≡ some u) × Memᴰ u ts × (u.id ≡ p)
unfolding find_id
find_id_complete p [] t m e = absurd (Memᴰ.not-nil m)
find_id_complete p (x ∷ ts) t m e = elim (Bool-cases (x.id == p)) [
  | inl h ↦ (x, rw h, Memᴰ.head refl, (==_iff x.id p).0 h)
  | inr h ↦ elim (Memᴰ.cases_cons m) [
    | inl same ↦
        absurd (false≢true (sym h ∙ (==_iff x.id p).1 (ap (λ (y : Token). y.id) (sym same) ∙ e)))
    | inr later ↦
        let (u, f, mu, eu) = find_id_complete p ts t later e in (u, rw h f, Memᴰ.tail mu, eu)
  ]
]

deref-found :
    (p : ℕ) (ts : List Token) (u : Token)
    → find_id p ts ≡ some u
    → deref ts (some p) ≡ some (some u)
unfolding deref
deref-found p ts u f = ground arith

-- What a resource holds is a token that is there, with this very resource, or nothing.
abbrev pub Held : ℕ → Activation → Option Token → Type 0
Held r s none = s.user_data r ≡ none
Held r s (some t) = Memᴰ t s.tokens × (t.resource ≡ some r)

-- No resource ever holds a dangling pointer.
pub token_of-total :
    (r : ℕ) (s : Activation) → IsSafe s → (o : Option Token) × (token_of r s ≡ some o) × Held r s o
unfolding token_of
token_of-total r s v = elim (Option-cases (s.user_data r)) [
  | inl e ↦ (none, rw e, e)
  | inr (p, e) ↦
      let (t, mt, it, rt) = v.linked r p e in
      let (u, f, mu, iu) = find_id_complete p s.tokens t mt it in
      (
        some u,
        rw e (deref-found p s.tokens u f),
        (mu, ap (λ (y : Token). y.resource) (v.distinct u t mu mt (iu ∙ sym it)) ∙ rt),
      )
]
