-- ===== src/Subsurface/Agreement.antt =====
-- libswc/subsurface.c: the children that no request has moved keep their order.
use neuswc.Prelude.{
  ℕ, ◌+◌, ◌-◌, ◌≤◌, ◌<◌, ◌≡◌, refl, ap, Bool, true, false, not, List, [], ◌∷◌, none, some,
  if◌then◌else◌, ◌==◌, ==_iff, Bool-cases, inl, inr, if_intro, arith,
}
use neuswc.Subsurface.State.{Child, member, erase}
use neuswc.Subsurface.Stack.{Layer, same_layer, without, put_over, put_under}

-- The layers that pass a test.
abbrev pub filter : (Layer → Bool) → List Layer → List Layer
filter k [] = []
filter k (x ∷ xs) = if k x then x ∷ filter k xs else filter k xs

-- The parent, and the children whose order no request has changed.
abbrev pub keep : (ℕ → Child) → Layer → Bool
keep child none = true
keep child (some x) = not (child x).order_dirty

same_layer_refl : (x : Layer) → same_layer x x ≡ true
same_layer_refl none = refl
same_layer_refl (some x) = ground arith

pub same_layer_sound : (x y : Layer) → same_layer x y ≡ true → x ≡ y
same_layer_sound none none e = refl
same_layer_sound none (some y) e = absurd (ground arith)
same_layer_sound (some x) none e = absurd (ground arith)
same_layer_sound (some x) (some y) e = ap some ((==_iff x y).0 e)

-- A layer that does not pass may be taken out or put anywhere.
pub filter-without_dropped :
    (k : Layer → Bool) (e : Layer) (l : List Layer)
    → k e ≡ false
    → filter k (without e l) ≡ filter k l
filter-without_dropped k e [] h = refl
filter-without_dropped k e (x ∷ l) h = elim (Bool-cases (same_layer x e)) [
  | inl q ↦ rw (q, same_layer_sound x e q, h) refl
  | inr q ↦ rw (q, filter-without_dropped k e l h) refl
]

pub filter-put_over_dropped :
    (k : Layer → Bool) (t e : Layer) (l : List Layer)
    → k e ≡ false
    → filter k (put_over t e l) ≡ filter k l
filter-put_over_dropped k t e [] h = refl
filter-put_over_dropped k t e (x ∷ l) h = elim (Bool-cases (same_layer x t)) [
  | inl q ↦ rw (q, h) refl
  | inr q ↦ rw (q, filter-put_over_dropped k t e l h) refl
]

pub filter-put_under_dropped :
    (k : Layer → Bool) (t e : Layer) (l : List Layer)
    → k e ≡ false
    → filter k (put_under t e l) ≡ filter k l
filter-put_under_dropped k t e [] h = refl
filter-put_under_dropped k t e (x ∷ l) h = elim (Bool-cases (same_layer x t)) [
  | inl q ↦ rw (q, h) refl
  | inr q ↦ rw (q, filter-put_under_dropped k t e l h) refl
]

-- One that passes is taken out before or after.
pub filter-without_kept :
    (k : Layer → Bool) (e : Layer) (l : List Layer)
    → k e ≡ true
    → filter k (without e l) ≡ without e (filter k l)
filter-without_kept k e [] h = refl
filter-without_kept k e (x ∷ l) h = elim (Bool-cases (same_layer x e)) [
  | inl q ↦ rw (q, same_layer_sound x e q, h, same_layer_refl e) refl
  | inr q ↦ elim (Bool-cases (k x)) [
    | inl r ↦ simp (q, r, filter-without_kept k e l h)
    | inr r ↦ simp (q, r, filter-without_kept k e l h)
  ]
]

-- A test that is stricter may come second.
pub filter-filter :
    (k k' : Layer → Bool) (l : List Layer)
    → ((x : Layer) → k' x ≡ true → k x ≡ true)
    → filter k' (filter k l) ≡ filter k' l
filter-filter k k' [] h = refl
filter-filter k k' (x ∷ l) h = elim (Bool-cases (k x)) [
  | inl q ↦ rw q (ap (λ r. if k' x then x ∷ r else r) (filter-filter k k' l h))
  | inr q ↦ elim (Bool-cases (k' x)) [
    | inl r ↦ absurd (ground (arith, h x r))
    | inr r ↦ rw (q, r) (filter-filter k k' l h)
  ]
]

-- How often a child is on a list.
abbrev pub times : ℕ → List Layer → ℕ
times x [] = 0
times x (e ∷ l) = (if same_layer e (some x) then 1 else 0) + times x l

abbrev pub occurs : ℕ → List ℕ → ℕ
occurs x [] = 0
occurs x (y ∷ l) = (if y == x then 1 else 0) + occurs x l

pub occurs-member : (x : ℕ) (l : List ℕ) → 0 < occurs x l → member x l ≡ true
occurs-member x [] h = absurd (omega arith)
occurs-member x (y ∷ l) h = ground (arith, occurs-member x l)

pub member-occurs : (x : ℕ) (l : List ℕ) → member x l ≡ true → 0 < occurs x l
member-occurs x [] h = absurd (ground arith)
member-occurs x (y ∷ l) h = ground (arith, member-occurs x l)

pub occurs-erase :
    (x id : ℕ) (l : List ℕ) → occurs x (erase id l) ≡ occurs x l - (if id == x then 1 else 0)
occurs-erase x id [] = ground arith
occurs-erase x id (y ∷ l) = ground (arith, occurs-erase x id l)

pub times-without :
    (x id : ℕ) (l : List Layer)
    → times x (without (some id) l) ≡ times x l - (if id == x then 1 else 0)
times-without x id [] = ground arith
times-without x id (none ∷ l) = omega (arith, times-without x id l)
times-without x id (some y ∷ l) = ground (arith, times-without x id l)

pub times-put_over :
    (x id : ℕ) (t : Layer) (l : List Layer)
    → times x (put_over t (some id) l) ≤ (if id == x then 1 else 0) + times x l
times-put_over x id t [] = omega arith
times-put_over x id t (y ∷ l) =
    if_intro (λ r. times x r ≤ (if id == x then 1 else 0) + times x (y ∷ l)) (same_layer y t) _ _
      (λ _. omega arith) (λ _. omega (arith, times-put_over x id t l))

pub times-put_under :
    (x id : ℕ) (t : Layer) (l : List Layer)
    → times x (put_under t (some id) l) ≤ (if id == x then 1 else 0) + times x l
times-put_under x id t [] = omega arith
times-put_under x id t (y ∷ l) =
    if_intro (λ r. times x r ≤ (if id == x then 1 else 0) + times x (y ∷ l)) (same_layer y t) _ _
      (λ _. omega arith) (λ _. omega (arith, times-put_under x id t l))

-- If all children on a list pass, so does the list.
pub filter_all :
    (child : ℕ → Child) (l : List Layer)
    → ((x : ℕ) → 0 < times x l → (child x).order_dirty ≡ false)
    → filter (keep child) l ≡ l
filter_all child [] h = refl
filter_all child (none ∷ l) h = ap (none ∷◌) (filter_all child l (λ x p. h x (omega arith)))
filter_all child (some y ∷ l) h =
    let here : 0 < times y (some y ∷ l) = ground arith in
    rw (h y here) (ap (some y ∷◌) (filter_all child l (λ x p. h x (omega arith))))
