-- ===== src/Subsurface/Marks.antt =====
-- libswc/subsurface.c: requests mark the children that they move, and the others keep their order.
use neuswc.Prelude.{
  ℕ, ◌+◌, ◌≤◌, ◌<◌, ◌≡◌, ◌≢◌, refl, sym, ap, subst, ◌∙◌, Bool, true, false, List, [], ◌∷◌, Option,
  none, some, if◌then◌else◌, ◌==◌, Bool-cases, inl, inr, arith,
}
use neuswc.Subsurface.State.{
  Child, Order, Parent, Sibling, invalid, the_parent, the_child, member, erase, write_child,
  set_order_dirty, remove_link, is_valid_sibling, place, above_sibling, below_sibling, place_above,
  place_below,
}
use neuswc.Subsurface.Stack.{Layer, stack, without, put_over, put_under}
use neuswc.Subsurface.Layers.{next_to, stack-remove_link, stack-above_sibling, stack-below_sibling}
use neuswc.Subsurface.Agreement.{
  filter, keep, filter-without_dropped, filter-put_over_dropped, filter-put_under_dropped,
  filter-without_kept, filter-filter, times, occurs, member-occurs, occurs-erase, times-without,
  times-put_over, times-put_under,
}
use neuswc.Subsurface.Commit.{subsurface_destroy, all_dirty}

-- Every child on a list is among the children of the surface, at least as often.
abbrev pub IsListed : List ℕ → Order → Type 0
IsListed subs o = (x : ℕ) → times x (stack o) ≤ occurs x subs

abbrev pub Agree : (ℕ → Child) → Order → Order → Type 0
Agree child o o' = filter (keep child) (stack o) ≡ filter (keep child) (stack o')

-- The current and the pending order are the same for the children that are not marked.
pub record IsAgreed (p : Parent) : Type 0 where
  pub agreed : Agree p.child p.state p.pending
  pub pending_listed : IsListed p.subsurfaces p.pending
  pub state_listed : IsListed p.subsurfaces p.state

abbrev pub Marks : (child child' : ℕ → Child) → Type 0
Marks child child' = (x : ℕ) → (child' x).order_dirty ≡ false → (child x).order_dirty ≡ false

keep-Marks :
    (child child' : ℕ → Child)
    → Marks child child'
    → (e : Layer) → keep child' e ≡ true
    → keep child e ≡ true
keep-Marks child child' m none h = refl
keep-Marks child child' m (some x) h = ground (arith, m x)

-- More marks ask for less.
pub Agree-marked :
    (child child' : ℕ → Child) (o o' : Order)
    → Marks child child'
    → Agree child o o'
    → Agree child' o o'
Agree-marked child child' o o' m a =
    sym (filter-filter (keep child) (keep child') (stack o) (keep-Marks child child' m))
    ∙ ap (filter (keep child')) a
    ∙ filter-filter (keep child) (keep child') (stack o') (keep-Marks child child' m)

mark_one : (id : ℕ) (child : ℕ → Child) → Marks child (write_child id set_order_dirty child)
mark_one id child x h = ground arith

marked :
    (id : ℕ) (child : ℕ → Child) → keep (write_child id set_order_dirty child) (some id) ≡ false
marked id child = ground arith

-- Placing by one of the two functions on lists of layers.
record IsPut (put : (t e : Layer) → List Layer → List Layer) : Type 0 where
  dropped :
      (k : Layer → Bool) (t e : Layer) (l : List Layer)
      → k e ≡ false
      → filter k (put t e l) ≡ filter k l
  few :
      (x id : ℕ) (t : Layer) (l : List Layer)
      → times x (put t (some id) l) ≤ (if id == x then 1 else 0) + times x l

over-IsPut : IsPut put_over
over-IsPut = record { dropped = filter-put_over_dropped; few = times-put_over }

under-IsPut : IsPut put_under
under-IsPut = record { dropped = filter-put_under_dropped; few = times-put_under }

module _ (put : (t e : Layer) → List Layer → List Layer) (is_put : IsPut put) (id : ℕ) where
  moved-Agree :
      (p : Parent) (t : Layer) (o : Order)
      → stack o ≡ put t (some id) (without (some id) (stack p.pending))
      → IsAgreed p
      → Agree (write_child id set_order_dirty p.child) p.state o
  moved-Agree p t o e a =
      let k = keep (write_child id set_order_dirty p.child) in
      Agree-marked p.child (write_child id set_order_dirty p.child) p.state p.pending
        (mark_one id p.child) a.agreed
      ∙ sym (
          ap (filter k) e
          ∙ is_put.dropped k t (some id) _ (marked id p.child)
          ∙ filter-without_dropped k (some id) (stack p.pending) (marked id p.child))

  moved-IsListed :
      (p : Parent) (t : Layer) (o : Order)
      → stack o ≡ put t (some id) (without (some id) (stack p.pending))
      → member id p.subsurfaces ≡ true
      → IsAgreed p
      → IsListed p.subsurfaces o
  moved-IsListed p t o e m a x =
      let few = is_put.few x id t (without (some id) (stack p.pending)) in
      let one : id ≡ x → 0 < occurs x p.subsurfaces =
        λ q. subst (λ y. 0 < occurs y p.subsurfaces) q (member-occurs id p.subsurfaces m) in
      ground
        (arith, ap (times x) e, few, times-without x id (stack p.pending), a.pending_listed x, one)

-- A sibling is valid only for a child of the surface.
valid-member :
    (id : ℕ) (surface : Option ℕ) (p : Parent)
    → is_valid_sibling id surface p ≢ invalid
    → member id p.subsurfaces ≡ true
unfolding is_valid_sibling
valid-member id none p h = absurd (h refl)
valid-member id (some s) p h = elim (Bool-cases (member id p.subsurfaces)) [
  | inl e ↦ e
  | inr e ↦ absurd (h (rw e refl))
]

place-IsAgreed :
    (f : Sibling → Order → Order) (put : (t e : Layer) → List Layer → List Layer) (id : ℕ)
    (t : Sibling) (p : Parent)
    → ((u : Sibling) (o : Order) → stack (f u o) ≡ next_to put id u (stack o))
    → IsPut put
    → (t ≢ invalid → member id p.subsurfaces ≡ true)
    → IsAgreed p
    → IsAgreed (place f id t p).0
place-IsAgreed f put id invalid p e i m a = a
place-IsAgreed f put id the_parent p e i m a = record {
  agreed = moved-Agree put i id p none (f the_parent p.pending) (e the_parent p.pending) a;
  pending_listed =
      moved-IsListed put i id p none (f the_parent p.pending) (e the_parent p.pending)
        (m (λ q. absurd (ground arith))) a;
  state_listed = a.state_listed;
}
place-IsAgreed f put id (the_child s) p e i m a = record {
  agreed =
      moved-Agree put i id p (some s) (f (the_child s) p.pending) (e (the_child s) p.pending) a;
  pending_listed =
      moved-IsListed put i id p (some s) (f (the_child s) p.pending) (e (the_child s) p.pending)
        (m (λ q. absurd (ground arith))) a;
  state_listed = a.state_listed;
}

pub place_above-IsAgreed :
    (id : ℕ) (surface : Option ℕ) (p : Parent) → IsAgreed p → IsAgreed (place_above id surface p).0
unfolding place_above
place_above-IsAgreed id surface p a =
    place-IsAgreed (above_sibling id) put_over id (is_valid_sibling id surface p) p
      (stack-above_sibling id) over-IsPut (valid-member id surface p) a

pub place_below-IsAgreed :
    (id : ℕ) (surface : Option ℕ) (p : Parent) → IsAgreed p → IsAgreed (place_below id surface p).0
unfolding place_below
place_below-IsAgreed id surface p a =
    place-IsAgreed (below_sibling id) put_under id (is_valid_sibling id surface p) p
      (stack-below_sibling id) under-IsPut (valid-member id surface p) a

-- The children change, and the lists do not.
pub children-IsAgreed :
    (p : Parent) (child : ℕ → Child)
    → Marks p.child child
    → IsAgreed p
    → IsAgreed (record p { child = child })
children-IsAgreed p child m a = record {
  agreed = Agree-marked p.child child p.state p.pending m a.agreed;
  pending_listed = a.pending_listed;
  state_listed = a.state_listed;
}

pub all_dirty-Marks : (xs : List ℕ) (child : ℕ → Child) → Marks child (all_dirty xs child)
all_dirty-Marks [] child x h = h
all_dirty-Marks (y ∷ xs) child x h =
    mark_one y child x (all_dirty-Marks xs (write_child y set_order_dirty child) x h)

-- A child that is unlinked from every list.
without-Agree :
    (k : Layer → Bool) (e : Layer) (l l' : List Layer)
    → filter k l ≡ filter k l'
    → filter k (without e l) ≡ filter k (without e l')
without-Agree k e l l' a = elim (Bool-cases (k e)) [
  | inl q ↦ filter-without_kept k e l q ∙ ap (without e) a ∙ sym (filter-without_kept k e l' q)
  | inr q ↦ filter-without_dropped k e l q ∙ a ∙ sym (filter-without_dropped k e l' q)
]

erase-IsListed :
    (id : ℕ) (subs : List ℕ) (o : Order)
    → IsListed subs o
    → IsListed (erase id subs) (remove_link id o)
erase-IsListed id subs o h x = omega (
  arith,
  ap (times x) (stack-remove_link id o),
  times-without x id (stack o),
  occurs-erase x id subs,
  h x,
)

pub subsurface_destroy-IsAgreed :
    (id : ℕ) (p : Parent) → IsAgreed p → IsAgreed (subsurface_destroy id p)
unfolding subsurface_destroy
subsurface_destroy-IsAgreed id p a = record {
  agreed =
      ap (filter (keep p.child)) (stack-remove_link id p.state)
      ∙ without-Agree (keep p.child) (some id) (stack p.state) (stack p.pending) a.agreed
      ∙ ap (filter (keep p.child)) (sym (stack-remove_link id p.pending));
  pending_listed = erase-IsListed id p.subsurfaces p.pending a.pending_listed;
  state_listed = erase-IsListed id p.subsurfaces p.state a.state_listed;
}
