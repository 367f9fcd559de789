-- ===== src/Bindings/Releases.antt =====
-- libswc/bindings.c: releases reach the entry that took the press, and entries that are removed stay as
-- long as they are held.
use neuswc.Prelude.{
  ℕ, ◌+◌, ◌≤◌, ◌≡◌, ◌⊎◌, inl, inr, refl, sym, ap, subst, Bool, true, false, List, [], ◌∷◌, Option,
  none, some, All, arith, Bool-cases, Option-cases, ◌==◌, if_intro,
}
use neuswc.Bindings.Handle.{
  Taker, nobody, bindings, another, Held, Device, tell, drop_press, handle_release, release_button,
  let_go, first_held, forget, release_taken, key_up, button_up, release_all,
}
use neuswc.Bindings.Counts.{IsTracked, one_at}
use neuswc.Bindings.Tracked.{IsTracked-ext, IsTracked-release, counted_at, at_address-id}
use neuswc.Bindings.Pairing.{owned, holding, IsAimed, IsFit}

-- The release of a press that `c` does not count.
abbrev Releases : ℕ → (ℕ → ℕ) → Device → Option Device → Type 0
Releases n c d r = (d' : Device) × ((r ≡ some d') × (IsTracked n d'.entries c × (d'.held ≡ d.held)))

handle_release-Releases :
    (n : ℕ) (c : ℕ → ℕ) (d : Device) (id : ℕ)
    → IsTracked n d.entries (λ j. one_at id j + c j)
    → Releases n c d (handle_release (some id) d)
unfolding handle_release
handle_release-Releases n c d id t =
    let (b, e) = counted_at n d.entries _ id t (ground arith) in
    let same = at_address-id d.entries id b e in
    (
      drop_press b (tell b false d),
      (
        rw e refl,
        (
          IsTracked-release n d.entries c b
              (subst (λ i. IsTracked n d.entries (λ j. one_at i j + c j)) (sym same) t) (rw same e),
          refl,
        ),
      ),
    )

release_taken-Releases :
    (n : ℕ) (c : ℕ → ℕ) (d : Device) (taker : Taker) (p : Option ℕ)
    → (taker ≡ bindings → (id : ℕ) × (p ≡ some id))
    → IsTracked n d.entries (λ j. owned j taker p + c j)
    → Releases n c d (release_taken handle_release taker p d)
release_taken-Releases n c d bindings none a t = absurd (ground (arith, (a refl).1))
release_taken-Releases n c d bindings (some id) a t = handle_release-Releases n c d id t
release_taken-Releases n c d nobody p a t =
    (d, (refl, (IsTracked-ext n d.entries _ c t (λ j. omega arith), refl)))
release_taken-Releases n c d another p a t =
    (d, (refl, (IsTracked-ext n d.entries _ c t (λ j. omega arith), refl)))

some_same : {x h : Held} → some x ≡ some h → x ≡ h
some_same e = cc

first_held-cases :
    (value : ℕ) (x : Held) (hs : List Held) (h : Held)
    → first_held value (x ∷ hs) ≡ some h
    → (((x.value == value) ≡ true) × (x ≡ h))
      ⊎ (((x.value == value) ≡ false) × (first_held value hs ≡ some h))
first_held-cases value x hs h e = elim (Bool-cases (x.value == value)) [
  | inl q ↦ inl (q, some_same (rw q at e))
  | inr q ↦ inr (q, rw q at e)
]

-- What is held without the first press of a value.
pub holding-let_go :
    (id value : ℕ) (hs : List Held) (h : Held)
    → first_held value hs ≡ some h
    → holding id hs ≡ owned id h.handler h.target + holding id (let_go value hs)
holding-let_go id value [] h e = absurd (ground arith)
holding-let_go id value (x ∷ hs) h e = elim (first_held-cases value x hs h e) [
  | inl (q, s) ↦ rw q (ap (λ k. owned id k.handler k.target + holding id hs) s)
  | inr (q, r) ↦ rw q (omega (arith, holding-let_go id value hs h r))
]

All-let_go : (value : ℕ) (hs : List Held) → All IsAimed hs → All IsAimed (let_go value hs)
All-let_go value [] a = tt
All-let_go value (x ∷ hs) (p, a) =
    if_intro (All IsAimed) (x.value == value) _ _ (λ _. a) (λ _. (p, All-let_go value hs a))

first_held-IsAimed :
    (value : ℕ) (hs : List Held) (h : Held)
    → All IsAimed hs
    → first_held value hs ≡ some h
    → IsAimed h
first_held-IsAimed value [] h a e = absurd (ground arith)
first_held-IsAimed value (x ∷ hs) h (p, a) e = elim (first_held-cases value x hs h e) [
  | inl (_, s) ↦ subst IsAimed s p
  | inr (_, r) ↦ first_held-IsAimed value hs h a r
]

-- A release of a value, by a function that releases the press itself.
-- No more is held on an entry or lost to it than `limit` says.
abbrev pub Released : ℕ → (lost limit : ℕ → ℕ) → Option Device → Type 0
Released n lost limit r =
    (d' : Device) × ((r ≡ some d')
      × (IsFit n lost d' × ((id : ℕ) → holding id d'.held + lost id ≤ limit id)))

pub key_up-Released :
    (n : ℕ) (lost : ℕ → ℕ) (d : Device) (value : ℕ)
    → IsFit n lost d
    → Released n lost (λ id. holding id d.held + lost id) (key_up value d)
unfolding key_up
key_up-Released n lost d value f = elim (Option-cases (first_held value d.held)) [
  | inl e ↦ (d, (rw e refl, (f, λ id. omega arith)))
  | inr (h, e) ↦
      let (d', (r, (t, same))) =
        release_taken-Releases n (λ j. holding j (let_go value d.held) + lost j) d h.handler
          h.target (first_held-IsAimed value d.held h f.aimed e)
          (IsTracked-ext n d.entries _ _ f.tracked
            (λ j. omega (arith, holding-let_go j value d.held h e))) in
      (
        forget value d',
        (
          rw (e, r) refl,
          (
            record { tracked = rw same t; aimed = rw same (All-let_go value d.held f.aimed) },
            λ id. rw same (omega (arith, holding-let_go id value d.held h e)),
          ),
        ),
      )
]

pub IsFit-ext :
    (n : ℕ) (lost lost' : ℕ → ℕ) (d : Device)
    → ((j : ℕ) → lost j ≡ lost' j)
    → IsFit n lost d
    → IsFit n lost' d
IsFit-ext n lost lost' d h f = record {
  tracked = IsTracked-ext n d.entries _ _ f.tracked (λ j. ap (holding j d.held +◌) (h j));
  aimed = f.aimed;
}

locked_release :
    (taker : Taker) (p : Option ℕ) (d : Device)
    → release_taken (release_button true) taker p d ≡ some d
unfolding release_button
locked_release nobody p d = refl
locked_release bindings p d = refl
locked_release another p d = refl

-- A button that is released while the session is locked: its entry still counts the press.
pub button_up-Released :
    (n : ℕ) (lost : ℕ → ℕ) (d : Device) (locked : Bool) (value : ℕ)
    → IsFit n lost d
    → (more : ℕ → ℕ) × Released n
        (λ j. more j + lost j)
        (λ id. holding id d.held + lost id)
        (button_up locked value d)
unfolding button_up release_button key_up
button_up-Released n lost d false value f =
    let (d', (e, (f', few))) = key_up-Released n lost d value f in
    (
      (λ _. 0),
      (d', (e, (IsFit-ext n lost _ d' (λ j. omega arith) f', λ id. omega (arith, few id)))),
    )
button_up-Released n lost d true value f = elim (Option-cases (first_held value d.held)) [
  | inl e ↦
      ((λ _. 0), (d, (rw e refl, (IsFit-ext n lost _ d (λ j. omega arith) f, λ id. omega arith))))
  | inr (h, e) ↦ (
    (λ j. owned j h.handler h.target),
    (
      forget value d,
      (
        rw (e, locked_release h.handler h.target d) refl,
        (
          record {
            tracked =
                IsTracked-ext n d.entries _ _ f.tracked
                  (λ j. omega (arith, holding-let_go j value d.held h e));
            aimed = All-let_go value d.held f.aimed;
          },
          λ id. omega (arith, holding-let_go id value d.held h e),
        ),
      ),
    ),
  )
]

-- keyboard_reset releases every press, and nothing is held then.
pub release_all-Released :
    (n : ℕ) (lost : ℕ → ℕ) (hs : List Held) (d : Device)
    → All IsAimed hs
    → IsTracked n d.entries (λ j. holding j hs + lost j)
    → Released n lost (λ id. holding id hs + lost id) (release_all hs d)
unfolding release_all
release_all-Released n lost [] d a t =
    (_, (refl, (record { tracked = t; aimed = tt }, λ id. omega arith)))
release_all-Released n lost (h ∷ hs) d (p, a) t =
    let (d', (r, (t', _))) =
      release_taken-Releases n (λ j. holding j hs + lost j) d h.handler h.target p
        (IsTracked-ext n d.entries _ _ t (λ j. omega arith)) in
    let (e, (q, (f, few))) = release_all-Released n lost hs d' a t' in
    (e, (rw r q, (f, λ id. omega (arith, few id))))
