-- ===== src/View/Screens.antt =====
-- Which screens a view of libswc/view.c is on, and which references it holds.
use mathlib.Core.Bool.{false≢true}
use neuswc.Prelude.{
  ◌≢◌, ℕ, zero, suc, ◌<◌, ◌≡◌, refl, sym, ap, subst, ◌∙◌, ◌⊎◌, inl, inr, Bool, true, false, not,
  ◌&&◌, ◌||◌, List, [], ◌∷◌, ◌++◌, ◌==◌, ==_iff, length, get_or, set, Bool-cases, arith,
}
use neuswc.View.Geometry.{Rectangle, rectangle_overlap}
use neuswc.View.State.{
  screens_changed, View, no_screens, zeroes, and_not, same_mask, view_set_screens, Screen,
  overlapping, view_update_screens,
}

length-set_eq : (m : List Bool) (i : ℕ) (b : Bool) → length (set m i b) ≡ length m
length-set_eq [] i b = refl
length-set_eq (x ∷ xs) zero b = refl
length-set_eq (x ∷ xs) (suc i) b = omega (arith, length-set_eq xs i b)

get_or-set_same : (m : List Bool) (i : ℕ) → i < length m → get_or (set m i true) i false ≡ true
get_or-set_same [] i h = absurd (omega (arith, h))
get_or-set_same (x ∷ xs) zero h = refl
get_or-set_same (x ∷ xs) (suc i) h = get_or-set_same xs i (omega (arith, h))

get_or-set_other :
    (m : List Bool) (i j : ℕ) → i == j ≡ false → get_or (set m i true) j false ≡ get_or m j false
get_or-set_other [] i j h = refl
get_or-set_other (x ∷ xs) zero zero h = ground (arith, h)
get_or-set_other (x ∷ xs) zero (suc j) h = refl
get_or-set_other (x ∷ xs) (suc i) zero h = refl
get_or-set_other (x ∷ xs) (suc i) (suc j) h = get_or-set_other xs i j (ground (arith, h))

-- Whether a screen with this number overlaps the rectangle.
abbrev pub is_on : Rectangle → ℕ → List Screen → Bool
is_on g i [] = false
is_on g i (s ∷ ss) = (s.id == i && rectangle_overlap s.geometry g) || is_on g i ss

abbrev pub AreNumbered : List Screen → Type 0
AreNumbered [] = Unit
AreNumbered (s ∷ ss) = (s.id < 32) × AreNumbered ss

and_false : (b : Bool) → b && false ≡ false
and_false true = refl
and_false false = refl

hit_or : (a b c : Bool) → a ≡ true → a || b ≡ c || true
hit_or a b c e = ground arith

overlapping-bit :
    (g : Rectangle) (ss : List Screen) (m : List Bool) (i : ℕ)
    → AreNumbered ss
    → length m ≡ 32
    → get_or (overlapping g ss m) i false ≡ get_or m i false || is_on g i ss
unfolding overlapping
overlapping-bit g [] m i n h = ground arith
overlapping-bit g (s ∷ ss) m i (k, n) h = elim (Bool-cases (rectangle_overlap s.geometry g)) [
  | inl e ↦
      let rest = overlapping-bit g ss (set m s.id true) i n (length-set_eq m s.id true ∙ h) in
      elim (Bool-cases (s.id == i)) [
        | inl q ↦
            let hit : get_or (set m s.id true) i false ≡ true =
              subst (λ (j : ℕ). get_or (set m s.id true) j false ≡ true) ((==_iff s.id i).0 q)
                (get_or-set_same m s.id (omega (arith, k, h))) in
            simp (e, q) (rest ∙ hit_or _ _ _ hit)
        | inr q ↦
            simp (e, q) (rest ∙ ap (λ (b : Bool). b || is_on g i ss) (get_or-set_other m s.id i q))
      ]
  | inr e ↦ simp e (
      overlapping-bit g ss m i n h
      ∙ ap (λ (b : Bool). get_or m i false || (b || is_on g i ss)) (sym (and_false (s.id == i))))
]

length-overlapping :
    (g : Rectangle) (ss : List Screen) (m : List Bool) → length (overlapping g ss m) ≡ length m
unfolding overlapping
length-overlapping g [] m = refl
length-overlapping g (s ∷ ss) m = elim (Bool-cases (rectangle_overlap s.geometry g)) [
  | inl e ↦ simp e (length-overlapping g ss (set m s.id true) ∙ length-set_eq m s.id true)
  | inr e ↦ simp e (length-overlapping g ss m)
]

and_not-bit :
    (a b : List Bool) (i : ℕ)
    → length a ≡ length b
    → get_or (and_not a b) i false ≡ get_or a i false && not (get_or b i false)
and_not-bit [] b i h = refl
and_not-bit (x ∷ xs) [] i h = absurd (omega (arith, h))
and_not-bit (x ∷ xs) (y ∷ ys) zero h = refl
and_not-bit (x ∷ xs) (y ∷ ys) (suc i) h = and_not-bit xs ys i (omega (arith, h))

same_mask-eq : (a b : List Bool) → same_mask a b ≡ true → a ≡ b
same_mask-eq [] [] e = refl
same_mask-eq [] (y ∷ ys) e = cc
same_mask-eq (x ∷ xs) [] e = cc
same_mask-eq (true ∷ xs) (true ∷ ys) e = ap (λ (zs : List Bool). true ∷ zs) (same_mask-eq xs ys e)
same_mask-eq (true ∷ xs) (false ∷ ys) e = cc
same_mask-eq (false ∷ xs) (true ∷ ys) e = cc
same_mask-eq (false ∷ xs) (false ∷ ys) e =
    ap (λ (zs : List Bool). false ∷ zs) (same_mask-eq xs ys e)

zeroes-bit : (n i : ℕ) → get_or (zeroes n) i false ≡ false
zeroes-bit zero i = refl
zeroes-bit (suc n) zero = refl
zeroes-bit (suc n) (suc i) = zeroes-bit n i

length-zeroes : (n : ℕ) → length (zeroes n) ≡ n
length-zeroes zero = refl
length-zeroes (suc n) = omega (arith, length-zeroes n)

-- What the handlers hear of a new mask: nothing if it is the old one, and otherwise, once, the bits that
-- are new and the bits that are gone.
abbrev pub IsHeard : List Bool → View → View → Type 0
IsHeard m v t =
    ((v.screens ≡ m) × (t ≡ v))
    ⊎ ((v.screens ≢ m)
        × ((entered : List Bool) × (left : List Bool) × (t.events
              ≡ v.events ++ screens_changed entered left ∷ [])
            × ((i : ℕ)
                → get_or entered i false ≡ get_or m i false && not (get_or v.screens i false))
            × ((i : ℕ) → get_or left i false ≡ get_or v.screens i false && not (get_or m i false))))

same_mask_refl : (a : List Bool) → same_mask a a ≡ true
same_mask_refl [] = refl
same_mask_refl (true ∷ xs) = same_mask_refl xs
same_mask_refl (false ∷ xs) = same_mask_refl xs

set_screens-IsHeard :
    (m : List Bool) (v : View)
    → length v.screens ≡ length m
    → ((view_set_screens m v).screens ≡ m) × IsHeard m v (view_set_screens m v)
unfolding view_set_screens
set_screens-IsHeard m v h = elim (Bool-cases (same_mask v.screens m)) [
  | inl e ↦ simp e (same_mask-eq v.screens m e, inl (same_mask-eq v.screens m e, refl))
  | inr e ↦ simp e (
    refl,
    inr (
      λ q. absurd (
          false≢true (
            sym e
            ∙ subst (λ (k : List Bool). same_mask v.screens k ≡ true) q
                (same_mask_refl v.screens))),
      (
        and_not m v.screens,
        and_not v.screens m,
        refl,
        λ i. and_not-bit m v.screens i (sym h),
        λ i. and_not-bit v.screens m i h,
      ),
    ),
  )
]

-- Where the numbers of the screens are below 32, after an update a view is on a screen exactly if one
-- with that number overlaps it. If that changes nothing its handlers hear nothing, and else they hear once
-- of the screens that it enters and leaves.
pub view_update_screens_exact :
    (ss : List Screen) (v : View)
    → AreNumbered ss
    → length v.screens ≡ 32
    → ((i : ℕ) → get_or (view_update_screens ss v).screens i false ≡ is_on v.geometry i ss)
      × IsHeard (view_update_screens ss v).screens v (view_update_screens ss v)
unfolding view_update_screens
view_update_screens_exact ss v n h =
    let m : List Bool = overlapping v.geometry ss no_screens in
    let size : length m ≡ 32 = length-overlapping v.geometry ss no_screens ∙ length-zeroes 32 in
    let (now, heard) = set_screens-IsHeard m v (h ∙ sym size) in
    (
      λ i.
          ap (λ (k : List Bool). get_or k i false) now
          ∙ overlapping-bit v.geometry ss no_screens i n (length-zeroes 32)
          ∙ ap (λ (b : Bool). b || is_on v.geometry i ss) (zeroes-bit 32 i),
      subst (λ (k : List Bool). IsHeard k v (view_set_screens m v)) (sym now) heard,
    )
