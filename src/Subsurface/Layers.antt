-- ===== src/Subsurface/Layers.antt =====
-- libswc/subsurface.c: changes of an order and of the list of layers that it stands for.
use neuswc.Prelude.{
  ℕ, ◌≡◌, refl, sym, ap, ◌∙◌, true, false, List, [], ◌∷◌, ◌++◌, none, some, map, ◌==◌, Bool-cases,
  inl, inr, arith,
}
use neuswc.Subsurface.State.{
  Order, Sibling, invalid, the_parent, the_child, member, erase, remove_link, insert_after,
  insert_before, at_link, above_sibling, below_sibling,
}
use neuswc.Subsurface.Stack.{Layer, stack, without, put_over, put_under}

-- An operation on the list of layers, and one on a list of children, that act on the first occurrence
-- of a child.
record IsFirst (x : ℕ) (f : List Layer → List Layer) (g : List ℕ → List ℕ) : Type 0 where
  empty : f [] ≡ []
  past_parent : (l : List Layer) → f (none ∷ l) ≡ none ∷ f l
  past : (y : ℕ) (l : List Layer) → (y == x) ≡ false → f (some y ∷ l) ≡ some y ∷ f l
  past_child : (y : ℕ) (l : List ℕ) → (y == x) ≡ false → g (y ∷ l) ≡ y ∷ g l
  here :
      (y : ℕ) (l : List ℕ) (r : List Layer)
      → (y == x) ≡ true
      → f (some y ∷ map some l ++ r) ≡ map some (g (y ∷ l)) ++ r
  here_alone :
      (y : ℕ) (l : List ℕ) → (y == x) ≡ true → f (some y ∷ map some l) ≡ map some (g (y ∷ l))
  empty_child : g [] ≡ []

module _ (x : ℕ) (f : List Layer → List Layer) (g : List ℕ → List ℕ) (first : IsFirst x f g) where
  at_member :
      (l : List ℕ) (r : List Layer) → member x l ≡ true → f (map some l ++ r) ≡ map some (g l) ++ r
  at_member [] r h = absurd (ground arith)
  at_member (y ∷ l) r h = elim (Bool-cases (y == x)) [
    | inl e ↦ first.here y l r e
    | inr e ↦
        first.past y (map some l ++ r) e
        ∙ ap (some y ∷◌) (at_member l r (rw e at h))
        ∙ ap (λ k. map some k ++ r) (sym (first.past_child y l e))
  ]

  past_members :
      (l : List ℕ) (r : List Layer) → member x l ≡ false → f (map some l ++ r) ≡ map some l ++ f r
  past_members [] r h = refl
  past_members (y ∷ l) r h =
      let e : (y == x) ≡ false = ground arith in
      first.past y (map some l ++ r) e ∙ ap (some y ∷◌) (past_members l r (rw e at h))

  alone : (l : List ℕ) → f (map some l) ≡ map some (g l)
  alone [] = first.empty ∙ ap (map some) (sym first.empty_child)
  alone (y ∷ l) = elim (Bool-cases (y == x)) [
    | inl e ↦ first.here_alone y l e
    | inr e ↦
        first.past y (map some l) e
        ∙ ap (some y ∷◌) (alone l)
        ∙ ap (map some) (sym (first.past_child y l e))
  ]

  -- On the two lists of an order.
  stack-at_link : (o : Order) → stack (at_link g x o) ≡ f (stack o)
  stack-at_link o = elim (Bool-cases (member x o.below)) [
    | inl e ↦ rw e (sym (at_member o.below (none ∷ map some o.above) e))
    | inr e ↦ rw e (
        sym (
          past_members o.below (none ∷ map some o.above) e
          ∙ ap (map some o.below ++◌)
              (first.past_parent (map some o.above) ∙ ap (none ∷◌) (alone o.above))))
  ]

erase-IsFirst : (id : ℕ) → IsFirst id (without (some id)) (erase id)
erase-IsFirst id = record {
  empty = refl;
  past_parent = λ l. refl;
  past = λ y l e. rw e refl;
  past_child = λ y l e. rw e refl;
  here = λ y l r e. rw e refl;
  here_alone = λ y l e. rw e refl;
  empty_child = refl;
}

after-IsFirst : (s id : ℕ) → IsFirst s (put_over (some s) (some id)) (insert_after s id)
after-IsFirst s id = record {
  empty = refl;
  past_parent = λ l. refl;
  past = λ y l e. rw e refl;
  past_child = λ y l e. rw e refl;
  here = λ y l r e. rw e refl;
  here_alone = λ y l e. rw e refl;
  empty_child = refl;
}

before-IsFirst : (s id : ℕ) → IsFirst s (put_under (some s) (some id)) (insert_before s id)
before-IsFirst s id = record {
  empty = refl;
  past_parent = λ l. refl;
  past = λ y l e. rw e refl;
  past_child = λ y l e. rw e refl;
  here = λ y l r e. rw e refl;
  here_alone = λ y l e. rw e refl;
  empty_child = refl;
}

pub stack-remove_link :
    (id : ℕ) (o : Order) → stack (remove_link id o) ≡ without (some id) (stack o)
unfolding remove_link
stack-remove_link id o = stack-at_link id _ _ (erase-IsFirst id) o

-- At the ends of the two lists that are next to the parent.
over_parent :
    (e : Layer) (b : List ℕ) (r : List Layer)
    → map some b ++ none ∷ e ∷ r ≡ put_over none e (map some b ++ none ∷ r)
over_parent e [] r = refl
over_parent e (x ∷ b) r = ap (some x ∷◌) (over_parent e b r)

under_parent :
    (id : ℕ) (b : List ℕ) (r : List Layer)
    → map some (b ++ (id ∷ [])) ++ none ∷ r ≡ put_under none (some id) (map some b ++ none ∷ r)
under_parent id [] r = refl
under_parent id (x ∷ b) r = ap (some x ∷◌) (under_parent id b r)

-- What placing a child does to the list of layers: it is taken out and put next to its sibling.
abbrev pub next_to :
    ((t e : Layer) → List Layer → List Layer) → ℕ → Sibling → List Layer → List Layer
next_to put id invalid l = l
next_to put id the_parent l = put none (some id) (without (some id) l)
next_to put id (the_child s) l = put (some s) (some id) (without (some id) l)

pub stack-above_sibling :
    (id : ℕ) (t : Sibling) (o : Order)
    → stack (above_sibling id t o) ≡ next_to put_over id t (stack o)
stack-above_sibling id invalid o = refl
stack-above_sibling id the_parent o =
    let rest = remove_link id o in
    over_parent (some id) rest.below (map some rest.above)
    ∙ ap (put_over none (some id)) (stack-remove_link id o)
stack-above_sibling id (the_child s) o =
    stack-at_link s _ _ (after-IsFirst s id) (remove_link id o)
    ∙ ap (put_over (some s) (some id)) (stack-remove_link id o)

pub stack-below_sibling :
    (id : ℕ) (t : Sibling) (o : Order)
    → stack (below_sibling id t o) ≡ next_to put_under id t (stack o)
stack-below_sibling id invalid o = refl
stack-below_sibling id the_parent o =
    let rest = remove_link id o in
    under_parent id rest.below (map some rest.above)
    ∙ ap (put_under none (some id)) (stack-remove_link id o)
stack-below_sibling id (the_child s) o =
    stack-at_link s _ _ (before-IsFirst s id) (remove_link id o)
    ∙ ap (put_under (some s) (some id)) (stack-remove_link id o)
