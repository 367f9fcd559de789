-- ===== src/Bindings/Tracked.antt =====
-- libswc/bindings.c: what the counts are after one operation on the entries.
use neuswc.Prelude.{
  ℕ, suc, ◌+◌, ◌^◌, ◌<◌, ◌≡◌, inl, inr, refl, sym, ap, subst, ◌∙◌, true, ◌&&◌, List, [], ◌∷◌, ◌++◌,
  some, All, arith, Bool-cases, Option-cases, ◌==◌, ==_iff, if◌then◌else◌, if_intro,
}
use neuswc.Bindings.Entries.{Binding, at_address, write, unlink, new_binding, mark_removed}
use neuswc.Bindings.Handle.{press_more, press_less, without_press}
use neuswc.Bindings.Counts.{
  presses_of, presses_at, Distinct, Below, IsTracked, one_at, at-write, at-write_other,
  Distinct-write, Below-write, at-unlink, at-unlink_other, Distinct-unlink, Below-unlink, at_none,
  at-append, Distinct-append,
}

-- The counts of two functions that agree.
pub IsTracked-ext :
    (n : ℕ) (bs : List Binding) (c c' : ℕ → ℕ)
    → IsTracked n bs c
    → ((id : ℕ) → c id ≡ c' id)
    → IsTracked n bs c'
IsTracked-ext n bs c c' t e = record {
  distinct = t.distinct;
  below = t.below;
  counted = λ id. t.counted id ∙ e id;
}

-- A write that keeps the address and changes the presses of one entry.
module _ (f : Binding → Binding) (same_id : (b : Binding) → (f b).id ≡ b.id) where
  presses_at-write :
      (bs : List Binding) (id j : ℕ) (b : Binding)
      → at_address bs id ≡ some b
      → presses_at (write id f bs) j ≡ (if id == j then (f b).presses else presses_at bs j)
  presses_at-write bs id j b e = elim (Bool-cases (id == j)) [
    | inl h ↦ rw h (
        subst (λ k. presses_at (write id f bs) k ≡ (f b).presses) ((==_iff id j).0 h)
          (ap presses_of (at-write f same_id bs id b e)))
    | inr h ↦ rw h (ap presses_of (at-write_other f same_id bs id j (ground arith)))
  ]

  pub IsTracked-write :
      (n : ℕ) (bs : List Binding) (c c' : ℕ → ℕ) (id : ℕ) (b : Binding)
      → IsTracked n bs c
      → at_address bs id ≡ some b
      → ((j : ℕ) → (if id == j then (f b).presses else c j) ≡ c' j)
      → IsTracked n (write id f bs) c'
  IsTracked-write n bs c c' id b t e h = record {
    distinct = Distinct-write f same_id bs id t.distinct;
    below = Below-write f same_id n bs id t.below;
    counted = λ j.
        presses_at-write bs id j b e
        ∙ ap (λ k. if id == j then (f b).presses else k) (t.counted j)
        ∙ h j;
  }

presses_at-unlink :
    (bs : List Binding) (id j : ℕ)
    → Distinct bs
    → presses_at (unlink id bs) j ≡ (if id == j then 0 else presses_at bs j)
presses_at-unlink bs id j d = elim (Bool-cases (id == j)) [
  | inl h ↦ rw h (
      subst (λ k. presses_at (unlink id bs) k ≡ 0) ((==_iff id j).0 h)
        (ap presses_of (at-unlink bs id d)))
  | inr h ↦ rw h (ap presses_of (at-unlink_other bs id j (ground arith)))
]

pub IsTracked-unlink :
    (n : ℕ) (bs : List Binding) (c c' : ℕ → ℕ) (id : ℕ)
    → IsTracked n bs c
    → ((j : ℕ) → (if id == j then 0 else c j) ≡ c' j)
    → IsTracked n (unlink id bs) c'
IsTracked-unlink n bs c c' id t h = record {
  distinct = Distinct-unlink bs id t.distinct;
  below = Below-unlink n bs id t.below;
  counted = λ j.
      presses_at-unlink bs id j t.distinct ∙ ap (λ k. if id == j then 0 else k) (t.counted j) ∙ h j;
}

-- What the entry at an address is counted as.
pub presses-counted :
    (n : ℕ) (bs : List Binding) (c : ℕ → ℕ) (id : ℕ) (b : Binding)
    → IsTracked n bs c
    → at_address bs id ≡ some b
    → b.presses ≡ c id
presses-counted n bs c id b t e = ap presses_of (sym e) ∙ t.counted id

-- A count that is not 0 belongs to an entry.
pub counted_at :
    (n : ℕ) (bs : List Binding) (c : ℕ → ℕ) (id : ℕ)
    → IsTracked n bs c
    → 0 < c id
    → (b : Binding) × (at_address bs id ≡ some b)
counted_at n bs c id t p = elim (Option-cases (at_address bs id)) [
  | inl e ↦ absurd (omega (arith, t.counted id, ap presses_of e))
  | inr e ↦ e
]

pub at_address-id :
    (bs : List Binding) (id : ℕ) (b : Binding) → at_address bs id ≡ some b → b.id ≡ id
at_address-id [] id b e = absurd (ground arith)
at_address-id (x ∷ bs) id b e = ground (arith, at_address-id bs id b)

-- One more press, short of the 2 ^ 32th.
pub IsTracked-press :
    (n : ℕ) (bs : List Binding) (c : ℕ → ℕ) (b : Binding)
    → IsTracked n bs c
    → at_address bs b.id ≡ some b
    → c b.id + 1 < 2 ^ 32
    → IsTracked n (write b.id press_more bs) (λ j. one_at b.id j + c j)
IsTracked-press n bs c b t e few =
    let more : (press_more b).presses ≡ 1 + c b.id =
      omega (arith, presses-counted n bs c b.id b t e) in
    IsTracked-write press_more (λ _. refl) n bs c _ b.id b t e
      (λ j. ground (arith, more, ap c {x = b.id} {y = j}))

last_press : (b : Binding) → ((press_less b).presses == 0 && b.removed) ≡ true → b.presses ≡ 1
last_press b h = ground arith

pub IsTracked-release :
    (n : ℕ) (bs : List Binding) (c : ℕ → ℕ) (b : Binding)
    → IsTracked n bs (λ j. one_at b.id j + c j)
    → at_address bs b.id ≡ some b
    → IsTracked n (without_press b bs) c
IsTracked-release n bs c b t e =
    let before : b.presses ≡ 1 + c b.id = ground (arith, presses-counted n bs _ b.id b t e) in
    if_intro (λ x. IsTracked n x c) ((press_less b).presses == 0 && b.removed) _ _
      (λ h.
        IsTracked-unlink n bs _ c b.id t
          (λ j. ground (arith, ap c {x = b.id} {y = j}, last_press b h)))
      (λ _.
        IsTracked-write press_less (λ _. refl) n bs _ c b.id b t e
          (λ j. ground (arith, ap c {x = b.id} {y = j})))

pub IsTracked-mark :
    (n : ℕ) (bs : List Binding) (c : ℕ → ℕ) (b : Binding)
    → IsTracked n bs c
    → at_address bs b.id ≡ some b
    → IsTracked n (write b.id mark_removed bs) c
IsTracked-mark n bs c b t e =
    IsTracked-write mark_removed (λ _. refl) n bs c _ b.id b t e
      (λ j. ground (arith, presses-counted n bs c b.id b t e, ap c {x = b.id} {y = j}))

Below-weaken : (n : ℕ) (bs : List Binding) → All (Below n) bs → All (Below (suc n)) bs
Below-weaken n [] h = tt
Below-weaken n (x ∷ bs) (l, h) = (omega arith, Below-weaken n bs h)

Below-append :
    (n : ℕ) (bs : List Binding) (b : Binding)
    → All (Below (suc n)) bs
    → b.id < suc n
    → All (Below (suc n)) (bs ++ (b ∷ []))
Below-append n [] b h l = (l, tt)
Below-append n (x ∷ bs) b (m, h) l = (m, Below-append n bs b h l)

-- An entry that is added for the other device.
pub IsTracked-weaken :
    (n : ℕ) (bs : List Binding) (c : ℕ → ℕ) → IsTracked n bs c → IsTracked (suc n) bs c
IsTracked-weaken n bs c t = record {
  distinct = t.distinct;
  below = Below-weaken n bs t.below;
  counted = t.counted;
}

pub IsTracked-append :
    (n : ℕ) (bs : List Binding) (c : ℕ → ℕ) (modifiers value client : ℕ)
    → IsTracked n bs c
    → IsTracked (suc n) (bs ++ (new_binding n modifiers value client ∷ [])) c
IsTracked-append n bs c modifiers value client t =
    let b = new_binding n modifiers value client in
    let free = at_none n bs n t.below (omega arith) in
    record {
      distinct = Distinct-append bs b t.distinct free;
      below = Below-append n bs b (Below-weaken n bs t.below) (omega arith);
      counted = λ id. ground (arith, at-append bs b id free, t.counted id);
    }
