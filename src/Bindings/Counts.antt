-- ===== src/Bindings/Counts.antt =====
-- libswc/bindings.c: the count of presses of each entry, and the addresses of entries.
use neuswc.Prelude.{
  ℕ, ◌+◌, ◌<◌, ◌≤◌, ◌≡◌, ◌≢◌, inl, inr, refl, ap, ◌∙◌, Bool, true, List, [], ◌∷◌, ◌++◌, Option,
  none, some, All, arith, Bool-cases, ◌==◌, if◌then◌else◌, if_intro,
}
use neuswc.Bindings.Entries.{Binding, first_entry, at_address, write, unlink}

abbrev pub presses_of : Option Binding → ℕ
presses_of none = 0
presses_of (some b) = b.presses

abbrev pub presses_at : List Binding → ℕ → ℕ
presses_at bs id = presses_of (at_address bs id)

-- No two entries have one address.
abbrev pub Distinct : List Binding → Type 0
Distinct [] = Unit
Distinct (b ∷ bs) = (at_address bs b.id ≡ none) × Distinct bs

abbrev pub Below : ℕ → Binding → Type 0
Below n b = b.id < n

-- Each entry has as many presses as `c` says of its address, and `c` says 0 of any other address.
pub record IsTracked (n : ℕ) (bs : List Binding) (c : ℕ → ℕ) : Type 0 where
  pub distinct : Distinct bs
  pub below : All (Below n) bs
  pub counted : (id : ℕ) → presses_at bs id ≡ c id

abbrev pub one_at : ℕ → ℕ → ℕ
one_at id j = if id == j then 1 else 0

module _ (f : Binding → Binding) (same_id : (b : Binding) → (f b).id ≡ b.id) where
  -- A write is seen at its address.
  pub at-write :
      (bs : List Binding) (id : ℕ) (b : Binding)
      → at_address bs id ≡ some b
      → at_address (write id f bs) id ≡ some (f b)
  at-write [] id b e = absurd (ground arith)
  at-write (x ∷ bs) id b e = ground (arith, same_id x, at-write bs id b)

  -- And nowhere else.
  pub at-write_other :
      (bs : List Binding) (id j : ℕ) → id ≢ j → at_address (write id f bs) j ≡ at_address bs j
  at-write_other [] id j h = refl
  at-write_other (x ∷ bs) id j h = ground (arith, same_id x, at-write_other bs id j h)

  pub Distinct-write : (bs : List Binding) (id : ℕ) → Distinct bs → Distinct (write id f bs)
  Distinct-write [] id d = tt
  Distinct-write (x ∷ bs) id (e, d) =
      if_intro Distinct (x.id == id) _ _ (λ h. (rw (same_id x) e, d))
        (λ h. (at-write_other bs id x.id (ground arith) ∙ e, Distinct-write bs id d))

  pub Below-write :
      (n : ℕ) (bs : List Binding) (id : ℕ) → All (Below n) bs → All (Below n) (write id f bs)
  Below-write n [] id h = tt
  Below-write n (x ∷ bs) id (l, h) =
      if_intro (All (Below n)) (x.id == id) _ _ (λ _. (rw (same_id x) l, h))
        (λ _. (l, Below-write n bs id h))

-- An address that is unlinked is free.
pub at-unlink : (bs : List Binding) (id : ℕ) → Distinct bs → at_address (unlink id bs) id ≡ none
at-unlink [] id d = refl
at-unlink (x ∷ bs) id (e, d) = ground (arith, at-unlink bs id d)

pub at-unlink_other :
    (bs : List Binding) (id j : ℕ) → id ≢ j → at_address (unlink id bs) j ≡ at_address bs j
at-unlink_other [] id j h = refl
at-unlink_other (x ∷ bs) id j h = ground (arith, at-unlink_other bs id j h)

pub at-unlink_free :
    (bs : List Binding) (id j : ℕ) → at_address bs j ≡ none → at_address (unlink id bs) j ≡ none
at-unlink_free [] id j h = refl
at-unlink_free (x ∷ bs) id j h = ground (arith, at-unlink_free bs id j)

pub Distinct-unlink : (bs : List Binding) (id : ℕ) → Distinct bs → Distinct (unlink id bs)
Distinct-unlink [] id d = tt
Distinct-unlink (x ∷ bs) id (e, d) =
    if_intro Distinct (x.id == id) _ _ (λ _. d)
      (λ _. (at-unlink_free bs id x.id e, Distinct-unlink bs id d))

pub Below-unlink :
    (n : ℕ) (bs : List Binding) (id : ℕ) → All (Below n) bs → All (Below n) (unlink id bs)
Below-unlink n [] id h = tt
Below-unlink n (x ∷ bs) id (l, h) =
    if_intro (All (Below n)) (x.id == id) _ _ (λ _. h) (λ _. (l, Below-unlink n bs id h))

-- An entry that a search finds is the one at its address.
pub at-first_entry :
    (p : Binding → Bool) (bs : List Binding) (b : Binding)
    → Distinct bs
    → first_entry p bs ≡ some b
    → at_address bs b.id ≡ some b
at-first_entry p [] b d e = absurd (ground arith)
at-first_entry p (x ∷ bs) b (f, d) e = elim (Bool-cases (p x)) [
  | inl h ↦ ground (arith, e)
  | inr h ↦
      ground
        (arith, at-first_entry p bs b d (ground arith), ap (at_address bs) {x = x.id} {y = b.id})
]

pub first_entry-passes :
    (p : Binding → Bool) (bs : List Binding) (b : Binding) → first_entry p bs ≡ some b → p b ≡ true
first_entry-passes p [] b e = absurd (ground arith)
first_entry-passes p (x ∷ bs) b e = ground (arith, first_entry-passes p bs b)

pub at_none :
    (n : ℕ) (bs : List Binding) (id : ℕ) → All (Below n) bs → n ≤ id → at_address bs id ≡ none
at_none n [] id h l = refl
at_none n (x ∷ bs) id (m, h) l = ground (arith, at_none n bs id h l)

pub at-append :
    (bs : List Binding) (b : Binding) (id : ℕ)
    → at_address bs b.id ≡ none
    → presses_at (bs ++ (b ∷ [])) id ≡ presses_at bs id + (if b.id == id then b.presses else 0)
at-append [] b id h = ground arith
at-append (x ∷ bs) b id h = ground (arith, at-append bs b id)

pub free-append :
    (bs : List Binding) (b : Binding) (id : ℕ)
    → at_address bs id ≡ none
    → b.id ≢ id
    → at_address (bs ++ (b ∷ [])) id ≡ none
free-append [] b id h e = ground arith
free-append (x ∷ bs) b id h e = ground (arith, free-append bs b id)

pub Distinct-append :
    (bs : List Binding) (b : Binding)
    → Distinct bs
    → at_address bs b.id ≡ none
    → Distinct (bs ++ (b ∷ []))
Distinct-append [] b d h = (refl, tt)
Distinct-append (x ∷ bs) b (e, d) h =
    (free-append bs b x.id e (ground arith), Distinct-append bs b d (ground arith))
