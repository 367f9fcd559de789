-- ===== src/Activation/Use.antt =====
-- Asking for a token in libswc/xdg_activation.c, and spending it.
use mathlib.Core.List.{Memᴰ}
use mathlib.Core.List.Memᴰ
use neuswc.Prelude.{
  ◌≢◌, ◌↔◌, ℕ, suc, ◌≤◌, ◌<◌, ◌≡◌, refl, sym, ap, subst, ◌∙◌, inl, inr, Bool, true, false, List, [],
  ◌∷◌, ◌++◌, Option, none, some, ◌==◌, ==_iff, ltb, length, length-append, arith, Bool-cases,
  Option-cases, ◌&&◌,
}
use neuswc.Activation.Token.{token_max, Token, Activation, set_user_data, unlink, token_free}
use neuswc.Activation.Manager.{
  drop_oldest, make_room, new_token, get_activation_token, find_token, same_text, Surface, View,
  Window, request, spend, activate,
}
use neuswc.Activation.Safety.{IsSafe, mem-unlink, length-unlink, clear_data-none, some-eq}
use neuswc.Activation.Moves.{drop_oldest-IsSafe, find_token-mem}

length-unlink_head : (t : Token) (ts : List Token) → length (unlink t.id (t ∷ ts)) ≤ length ts
unfolding unlink
length-unlink_head t ts = rw ((==_iff t.id t.id).1 refl) (length-unlink t.id ts)

drop_oldest-length :
    (ts : List Token) (s : Activation)
    → s.tokens ≡ ts
    → 0 < length ts
    → suc (length (drop_oldest ts s).tokens) ≤ length s.tokens
unfolding drop_oldest token_free
drop_oldest-length [] s e h = absurd (omega arith)
drop_oldest-length (t ∷ ts) s e h = rw e (omega (arith, length-unlink_head t ts))

drop_oldest-none :
    (ts : List Token) (s : Activation) (r : ℕ)
    → s.user_data r ≡ none
    → (drop_oldest ts s).user_data r ≡ none
unfolding drop_oldest token_free
drop_oldest-none [] s r e = e
drop_oldest-none (t ∷ ts) s r e = clear_data-none t.resource s.user_data r e

make_room-IsSafe : (s : Activation) → IsSafe s → IsSafe (make_room s)
make_room-IsSafe s v = elim (Bool-cases (ltb (length s.tokens) token_max)) [
  | inl e ↦ simp e v
  | inr e ↦ simp e (drop_oldest-IsSafe s.tokens s v refl)
]

make_room-lt : (s : Activation) → IsSafe s → length (make_room s).tokens < token_max
make_room-lt s v = elim (Bool-cases (ltb (length s.tokens) token_max)) [
  | inl e ↦ simp e (ground arith)
  | inr e ↦ simp e (ground (arith, drop_oldest-length s.tokens s refl, v.bounded))
]

make_room-none : (s : Activation) (r : ℕ) → s.user_data r ≡ none → (make_room s).user_data r ≡ none
make_room-none s r h = elim (Bool-cases (ltb (length s.tokens) token_max)) [
  | inl e ↦ simp e h
  | inr e ↦ simp e (drop_oldest-none s.tokens s r h)
]

add-distinct :
    (s : Activation) (r : ℕ)
    → IsSafe s
    → (a b : Token) → Memᴰ a (s.tokens ++ new_token s.next r ∷ [])
    → Memᴰ b (s.tokens ++ new_token s.next r ∷ [])
    → a.id ≡ b.id
    → a ≡ b
add-distinct s r v a b ma mb same = elim (Memᴰ.append_cases s.tokens ma) [
  | inl old ↦ elim (Memᴰ.append_cases s.tokens mb) [
    | inl old' ↦ v.distinct a b old old' same
    | inr new ↦
        absurd (omega (arith, v.below a old, ap (λ (t : Token). t.id) (Memᴰ.eq_of_singleton new)))
  ]
  | inr new ↦ elim (Memᴰ.append_cases s.tokens mb) [
    | inl old ↦
        absurd (omega (arith, v.below b old, ap (λ (t : Token). t.id) (Memᴰ.eq_of_singleton new)))
    | inr new' ↦ Memᴰ.eq_of_singleton new ∙ sym (Memᴰ.eq_of_singleton new')
  ]
]

-- A token at the end of the list, with a resource that held nothing.
add-IsSafe :
    (s : Activation) (r : ℕ)
    → IsSafe s
    → length s.tokens < token_max
    → s.user_data r ≡ none
    → IsSafe (record {
      tokens = s.tokens ++ new_token s.next r ∷ [];
      user_data = set_user_data r (some s.next) s.user_data;
      next = suc s.next;
    })
add-IsSafe s r v h e = record {
  bounded = omega (arith, length-append s.tokens (new_token s.next r ∷ []));
  distinct = add-distinct s r v;
  below = λ a ma. elim (Memᴰ.append_cases s.tokens ma) [
    | inl old ↦ omega (arith, v.below a old)
    | inr new ↦
        subst (λ (t : Token). t.id < suc s.next) (sym (Memᴰ.eq_of_singleton new)) (omega arith)
  ];
  linked = λ q p h'. elim (Bool-cases (q == r)) [
    | inl here ↦ (
      new_token s.next r,
      Memᴰ.append_right s.tokens (Memᴰ.head refl),
      some-eq _ _ (rw here at h'),
      ap some (sym ((==_iff q r).0 here)),
    )
    | inr there ↦
        let (a, ma, ia, ra) = v.linked q p (rw there at h') in (a, Memᴰ.append_left _ ma, ia, ra)
  ];
  back = λ a q ma ra. elim (Memᴰ.append_cases s.tokens ma) [
    | inl old ↦ ground (arith, v.back a q old ra)
    | inr new ↦
        let eq = Memᴰ.eq_of_singleton new in
        ground (arith, ap (λ (t : Token). t.id) eq, ap (λ (t : Token). t.resource) eq)
  ];
}

-- A client may ask for any number of tokens: there are never more than 64, and the pointers stay
-- right, whether or not the memory is to be had, if the new resource is one that holds nothing yet.
pub get_activation_token-IsSafe :
    (granted : Bool) (r : ℕ) (s : Activation)
    → IsSafe s
    → s.user_data r ≡ none
    → IsSafe (get_activation_token granted r s).0
unfolding get_activation_token
get_activation_token-IsSafe true r s v e =
    add-IsSafe (make_room s) r (make_room-IsSafe s v) (make_room-lt s v) (make_room-none s r e)
get_activation_token-IsSafe false r s v e = make_room-IsSafe s v

same_text-eq : (a b : List ℕ) → same_text a b ≡ true → a ≡ b
same_text-eq [] [] e = refl
same_text-eq [] (d ∷ ds) e = cc
same_text-eq (c ∷ cs) [] e = cc
same_text-eq (c ∷ cs) (d ∷ ds) e = ground (arith, same_text-eq cs ds)

find_token_sound :
    (needle : List ℕ) (ts : List Token) (t : Token)
    → find_token needle ts ≡ some t
    → (t.committed ≡ true) × (t.token ≡ needle)
unfolding find_token
find_token_sound needle [] t e = cc
find_token_sound needle (x ∷ ts) t e = elim (Bool-cases (x.committed && same_text x.token needle)) [
  | inl h ↦ ground (arith, same_text-eq x.token needle)
  | inr h ↦ find_token_sound needle ts t (ground arith)
]

-- The texts of the committed tokens differ; they are 128 random bits each.
abbrev pub AreRandom : List Token → Type 0
AreRandom ts =
    (t u : Token)
    → Memᴰ t ts
    → Memᴰ u ts
    → t.committed ≡ true
    → u.committed ≡ true
    → t.token ≡ u.token
    → t ≡ u

unlinked-none :
    (needle : List ℕ) (s : Activation) (t : Token)
    → AreRandom s.tokens
    → find_token needle s.tokens ≡ some t
    → find_token needle (unlink t.id s.tokens) ≡ none
unlinked-none needle s t random e = elim (Option-cases (find_token needle (unlink t.id s.tokens))) [
  | inl nobody ↦ nobody
  | inr (u, f) ↦
      let (ct, tt') = find_token_sound needle s.tokens t e in
      let (cu, tu) = find_token_sound needle (unlink t.id s.tokens) u f in
      let (mu, ne) =
        mem-unlink t.id s.tokens u (find_token-mem needle (unlink t.id s.tokens) u f) in
      absurd (
        ne (
          ap (λ (y : Token). y.id)
            (random u t mu (find_token-mem needle s.tokens t e) cu ct (tu ∙ sym tt'))))
]

-- In a safe state, where the texts of the committed tokens differ, a text is good for one activation,
-- whether or not that names a window that can be raised.
pub activate_once :
    (needle : List ℕ) (surface : Option Surface) (s : Activation)
    → IsSafe s
    → AreRandom s.tokens
    → find_token needle (activate needle surface s).0.tokens ≡ none
unfolding activate spend token_free
activate_once needle surface s v random = elim (Option-cases (find_token needle s.tokens)) [
  | inl e ↦ rw (e, spend) e
  | inr (t, e) ↦ rw (e, spend) (unlinked-none needle s t random e)
]

-- The surface has a window with this name, whose handler can raise it.
abbrev pub CanRaise : Option Surface → ℕ → Type 0
CanRaise surface w =
    (u : Surface) × (v : View) × (x : Window) × (surface ≡ some u)
    × (u.view ≡ some v)
    × (v.window ≡ some x)
    × (x.handles ≡ true)
    × (x.name ≡ w)

-- A committed token with this text is still there.
abbrev pub IsCurrent : List ℕ → Activation → Token → Type 0
IsCurrent needle s t = Memᴰ t s.tokens × (t.committed ≡ true) × (t.token ≡ needle)

some-none : {w : ℕ} → some w ≢ none
some-none e = cc

request-CanRaise :
    (surface : Option Surface) (w : ℕ) → request surface ≡ some w → CanRaise surface w
unfolding request
request-CanRaise none w e = cc
request-CanRaise (some u) w e = elim (Option-cases u.view) [
  | inl p ↦ absurd (some-none (sym e ∙ rw p refl))
  | inr (v, p) ↦ elim (Option-cases v.window) [
    | inl q ↦ absurd (some-none (sym e ∙ rw (p, q) refl))
    | inr (x, q) ↦ elim (Bool-cases x.handles) [
      | inl h ↦ (u, v, x, refl, p, q, h, some-eq _ _ (sym (rw (p, q, h) refl) ∙ e))
      | inr h ↦ absurd (some-none (sym e ∙ rw (p, q, h) refl))
    ]
  ]
]

CanRaise-request :
    (surface : Option Surface) (w : ℕ) → CanRaise surface w → request surface ≡ some w
unfolding request
CanRaise-request surface w (u, v, x, a, b, c, d, e) = rw (a, b, c, d, e) refl

same_text_refl : (a : List ℕ) → same_text a a ≡ true
same_text_refl [] = refl
same_text_refl (c ∷ cs) = ground (arith, same_text_refl cs)

some-token : {t : Token} → some t ≢ none
some-token e = cc

find_token-none :
    (needle : List ℕ) (ts : List Token) (t : Token)
    → find_token needle ts ≡ none
    → Memᴰ t ts
    → t.committed ≡ true
    → t.token ≢ needle
unfolding find_token
find_token-none needle [] t e m c q = Memᴰ.not-nil m
find_token-none needle (x ∷ ts) t e m c q = elim (Memᴰ.cases_cons m) [
  | inl same ↦
      let passes : (x.committed && same_text x.token needle) ≡ true =
        subst (λ (u : Token). (u.committed && same_text u.token needle) ≡ true) same
          (rw (c, q) (same_text_refl needle)) in
      let found : find_token needle (x ∷ ts) ≡ some x = rw passes refl in some-token (sym found ∙ e)
  | inr later ↦ find_token-none needle ts t (ground arith) later c q
]

-- A window is asked to raise itself exactly if a committed token with the text is still there, the surface
-- has that window, and that has a handler. Where there is such a token, one is unlinked, whether or not a
-- window is asked; where there is none, nothing changes.
pub activate_exact :
    (needle : List ℕ) (surface : Option Surface) (s : Activation)
    → ((w : ℕ)
        → ((activate needle surface s).1 ≡ some w)
          ↔ (((t : Token) × IsCurrent needle s t) × CanRaise surface w))
      × (((t : Token) → ¬ IsCurrent needle s t) → activate needle surface s ≡ (s, none))
      × (((t : Token) × IsCurrent needle s t)
          → (t : Token) × IsCurrent needle s t
            × ((activate needle surface s).0.tokens ≡ unlink t.id s.tokens))
unfolding activate spend token_free
activate_exact needle surface s = elim (Option-cases (find_token needle s.tokens)) [
  | inl e ↦
      let nobody : (t : Token) → ¬ IsCurrent needle s t =
        λ t (m, c, q). find_token-none needle s.tokens t e m c q in
      (
        λ w. (λ h. cc, λ ((t, i), r). absurd (nobody t i)),
        λ _. rw e refl,
        λ (t, i). absurd (nobody t i),
      )
  | inr (t, e) ↦
      let (committed, text) = find_token_sound needle s.tokens t e in
      let current : IsCurrent needle s t = (find_token-mem needle s.tokens t e, committed, text) in
      (
        λ w. (
          λ h. ((t, current), request-CanRaise surface w (rw e at h)),
          λ (_, r). rw e (CanRaise-request surface w r),
        ),
        λ none_left. absurd (none_left t current),
        λ _. (t, current, rw e refl),
      )
]
