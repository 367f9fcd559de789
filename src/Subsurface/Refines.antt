-- ===== src/Subsurface/Refines.antt =====
-- libswc/subsurface.c: place_above and place_below on one list of layers.
use mathlib.Core.List.{Memᴰ}
use mathlib.Core.List.Memᴰ
use neuswc.Prelude.{
  ◌≢◌, ◌⊎◌, not, ◌&&◌, ◌||◌, if_intro, ℕ, ◌≡◌, refl, sym, ap, ◌∙◌, Bool, true, false, List, [], ◌∷◌,
  ◌++◌, Option, none, some, ◌==◌, inl, inr, arith,
}
use neuswc.Subsurface.State.{
  find_with_surface, or_found, sibling_of, subsurface_find_sibling, Child, Order, Parent, Sibling,
  invalid, the_parent, the_child, member, is_valid_sibling, above_sibling, below_sibling, place,
  place_above, place_below,
}
use neuswc.Subsurface.Stack.{Layer, stack, without, put_over, put_under}
use neuswc.Subsurface.Layers.{next_to, stack-above_sibling, stack-below_sibling}

-- Whether a layer is what has a surface: the parent, or else a child other than the one to place.
abbrev pub HasSurface : (id : ℕ) → Parent → (surface : ℕ) → Layer → Type 0
HasSurface id p surface none = surface ≡ p.surface
HasSurface id p surface (some x) =
    (surface ≢ p.surface)
    × Memᴰ x (p.pending.below ++ p.pending.above)
    × ((p.child x).surface ≡ surface)
    × (x ≢ id)

-- A layer that a child of this parent may be placed at, by a surface that is not its own.
abbrev pub IsTarget : (id : ℕ) → Parent → (sibling : Option ℕ) → Layer → Type 0
IsTarget id p sibling t =
    (surface : ℕ) × (sibling ≡ some surface)
    × (member id p.subsurfaces ≡ true)
    × (surface ≢ (p.child id).surface)
    × HasSurface id p surface t

some-equal : {a b : ℕ} → some a ≡ some b → a ≡ b
some-equal e = cc

-- What a search of one list finds.
abbrev Searched : (ℕ → Child) → (id surface : ℕ) → List ℕ → Option ℕ → Type 0
Searched child id surface xs (some x) = Memᴰ x xs × ((child x).surface ≡ surface) × (x ≢ id)
Searched child id surface xs none = (x : ℕ) → Memᴰ x xs → (child x).surface ≡ surface → x ≡ id

find-Searched :
    (child : ℕ → Child) (id surface : ℕ) (xs : List ℕ)
    → Searched child id surface xs (find_with_surface child id surface xs)
find-Searched child id surface [] = λ x m. absurd (Memᴰ.not-nil m)
find-Searched child id surface (y ∷ ys) =
    if_intro (Searched child id surface (y ∷ ys)) ((child y).surface == surface && not (y == id)) _
      _ (λ e. (Memᴰ.head refl, ground arith, ground arith))
      (λ e. later (find_with_surface child id surface ys) e (find-Searched child id surface ys))
  where
    later :
        (o : Option ℕ)
        → ((child y).surface == surface && not (y == id)) ≡ false
        → Searched child id surface ys o
        → Searched child id surface (y ∷ ys) o
    later (some x) e (m, has, ne) = (Memᴰ.tail m, has, ne)
    later none e h = λ x m q. elim (Memᴰ.cases_cons m) [
      | inl same ↦ ground (arith, ap (λ (k : ℕ). (child k).surface) same)
      | inr rest ↦ h x rest q
    ]

both-Searched :
    (child : ℕ → Child) (id surface : ℕ) (xs ys : List ℕ) (o q : Option ℕ)
    → Searched child id surface xs o
    → Searched child id surface ys q
    → Searched child id surface (xs ++ ys) (or_found o q)
both-Searched child id surface xs ys none none h k =
    λ x m e. elim (Memᴰ.append_cases xs m) [ inl l ↦ h x l e | inr r ↦ k x r e ]
both-Searched child id surface xs ys none (some x) h (m, has, ne) =
    (Memᴰ.append_right xs m, has, ne)
both-Searched child id surface xs ys (some x) q (m, has, ne) k = (Memᴰ.append_left ys m, has, ne)

abbrev sibling_at : Layer → Sibling
sibling_at none = the_parent
sibling_at (some x) = the_child x

-- A valid sibling is a target, and there is one if there is a target.
abbrev Judged : (id : ℕ) → Parent → Option ℕ → Sibling → Type 0
Judged id p sibling r =
    ((t : Layer) × IsTarget id p sibling t × (r ≡ sibling_at t))
    ⊎ (((t : Layer) → ¬ IsTarget id p sibling t) × (r ≡ invalid))

unfound :
    (id : ℕ) (p : Parent) (surface : ℕ)
    → Searched p.child id surface (p.pending.below ++ p.pending.above) none
    → surface ≢ p.surface
    → (t : Layer) → ¬ IsTarget id p (some surface) t
unfound id p surface h n none (u, e, m, own, at) = n (some-equal e ∙ at)
unfound id p surface h n (some x) (u, e, m, own, (other, on, has, ne)) =
    ne (h x on (has ∙ sym (some-equal e)))

sibling-Judged :
    (id : ℕ) (p : Parent) (surface : ℕ) (o : Option ℕ)
    → Searched p.child id surface (p.pending.below ++ p.pending.above) o
    → member id p.subsurfaces ≡ true
    → surface ≢ (p.child id).surface
    → surface ≢ p.surface
    → Judged id p (some surface) (sibling_of o)
sibling-Judged id p surface none h m own n = inr (unfound id p surface h n, refl)
sibling-Judged id p surface (some x) (on, has, ne) m own n =
    inl (some x, (surface, refl, m, own, (n, on, has, ne)), refl)

valid_sibling-Judged :
    (id : ℕ) (sibling : Option ℕ) (p : Parent) → Judged id p sibling (is_valid_sibling id sibling p)
unfolding is_valid_sibling subsurface_find_sibling
valid_sibling-Judged id none p = inr (λ t (u, e, m, own, at). cc, refl)
valid_sibling-Judged id (some surface) p =
    if_intro (Judged id p (some surface))
      (not (member id p.subsurfaces) || surface == (p.child id).surface) _ _
      (λ e. inr (λ t (u, q, m, own, at). refused u q m own e, refl))
      (λ e.
        if_intro (Judged id p (some surface)) (surface == p.surface) _ _
          (λ f. inl (none, (surface, refl, ground arith, ground arith, ground arith), refl))
          (λ f.
            sibling-Judged id p surface _
              (both-Searched p.child id surface p.pending.below p.pending.above _ _
                (find-Searched p.child id surface p.pending.below)
                (find-Searched p.child id surface p.pending.above))
              (ground arith) (ground arith) (ground arith)))
  where
    refused :
        (u : ℕ)
        → some surface ≡ some u
        → member id p.subsurfaces ≡ true
        → u ≢ (p.child id).surface
        → (not (member id p.subsurfaces) || surface == (p.child id).surface) ≡ true
        → ⊥
    refused u q m own e = ground (arith, some-equal q)

-- What a request to place a child does, by an operation on the list of layers.
abbrev pub Places :
    ((t e : Layer) → List Layer → List Layer) → ℕ → Option ℕ → (p : Parent) → Parent × Bool → Type 0
Places put id sibling p r =
    ((t : Layer) × IsTarget id p sibling t
      × (r.1 ≡ false)
      × (stack r.0.pending ≡ put t (some id) (without (some id) (stack p.pending))))
    ⊎ (((t : Layer) → ¬ IsTarget id p sibling t) × (r ≡ (p, true)))

place-Places :
    (f : Sibling → Order → Order) (put : (t e : Layer) → List Layer → List Layer) (id : ℕ)
    (sibling : Option ℕ) (p : Parent)
    → ((u : Sibling) (o : Order) → stack (f u o) ≡ next_to put id u (stack o))
    → Places put id sibling p (place f id (is_valid_sibling id sibling p) p)
place-Places f put id sibling p h = elim (valid_sibling-Judged id sibling p) [
  | inl (none, target, e) ↦ rw e (inl (none, target, refl, h the_parent p.pending))
  | inl (some x, target, e) ↦ rw e (inl (some x, target, refl, h (the_child x) p.pending))
  | inr (nothing, e) ↦ rw e (inr (nothing, refl))
]

-- On one list of layers, with the children below the parent, then the parent, then those above it, a
-- request to place a child above or below a sibling takes the child out and puts it just over or just
-- under the layer that has the sibling's surface, the parent or another child. An error is posted exactly
-- if there is no such layer, the surface is the child's own, or the child has no parent any more; then
-- nothing changes.
pub place_refines :
    (id : ℕ) (surface : Option ℕ) (p : Parent)
    → Places put_over id surface p (place_above id surface p)
      × Places put_under id surface p (place_below id surface p)
unfolding place_above place_below
place_refines id surface p = (
  place-Places (above_sibling id) put_over id surface p (stack-above_sibling id),
  place-Places (below_sibling id) put_under id surface p (stack-below_sibling id),
)
