-- ===== src/Subsurface/Reached.antt =====
-- libswc/subsurface.c: a commit leaves the children in the pending order, though it makes the order again
-- only if a child is marked.
use neuswc.Prelude.{
  ℕ, ◌+◌, ◌≡◌, refl, sym, ap, subst, ◌∙◌, Bool, true, false, ◌||◌, List, [], ◌∷◌, ◌++◌, none, some,
  map, if◌then◌else◌, ◌==◌, ==_iff, Bool-cases, inl, inr, if_intro, arith,
}
use neuswc.Subsurface.State.{Point, Child, Order, Parent, member, write_child}
use neuswc.Subsurface.Stack.{Layer, stack}
use neuswc.Subsurface.Agreement.{filter, keep, times, occurs-member, filter_all}
use neuswc.Subsurface.Commit.{
  subsurface_parent_commit, take_order_dirty, clear_dirty, subsurface_new, set_position,
  set_parent_view, all_dirty, new_child,
}
use neuswc.Subsurface.Marks.{
  IsListed, IsAgreed, Marks, Agree-marked, place_above-IsAgreed, place_below-IsAgreed,
  children-IsAgreed, all_dirty-Marks, subsurface_destroy-IsAgreed,
}
use neuswc.Subsurface.Session.{
  Event, placed_above, placed_below, positioned, created, destroyed, view_changed, committed,
  commit_at_once, step, run, childless,
}

or_false : (a b : Bool) → (a || b) ≡ false → (a ≡ false) × (b ≡ false)
or_false true b h = absurd (ground arith)
or_false false b h = (refl, h)

-- What take_order_dirty has not seen is not there.
unseen :
    (xs : List ℕ) (child : ℕ → Child) (x : ℕ)
    → (take_order_dirty false xs child).0 ≡ false
    → member x xs ≡ true
    → (child x).order_dirty ≡ false
unfolding take_order_dirty
unseen [] child x h m = absurd (ground arith)
unseen (y ∷ xs) child x h m =
    let rest = take_order_dirty false xs (write_child y (clear_dirty false) child) in
    let (clean, unseen_rest) = or_false (child y).order_dirty rest.0 h in
    elim (Bool-cases (y == x)) [
      | inl e ↦ subst (λ z. (child z).order_dirty ≡ false) ((==_iff y x).0 e) clean
      | inr e ↦
          ground
            (arith, unseen xs (write_child y (clear_dirty false) child) x unseen_rest (rw e at m))
    ]

clean-listed :
    (p : Parent) (o : Order)
    → (take_order_dirty false p.subsurfaces p.child).0 ≡ false
    → IsListed p.subsurfaces o
    → filter (keep p.child) (stack o) ≡ stack o
clean-listed p o h l =
    filter_all p.child (stack o)
      (λ x q. unseen p.subsurfaces p.child x h (occurs-member x p.subsurfaces (omega (arith, l x))))

-- What a commit does to the lists.
abbrev Settles : Parent → Parent → Type 0
Settles p r =
    (stack r.state ≡ stack p.pending) × ((r.pending ≡ p.pending) × (r.subsurfaces ≡ p.subsurfaces))

commit-Settles : (p : Parent) → IsAgreed p → Settles p (commit_at_once p)
unfolding commit_at_once subsurface_parent_commit
commit-Settles p a =
    let dirty = take_order_dirty false p.subsurfaces p.child in
    if_intro (Settles p) dirty.0 _ _ (λ _. (refl, (refl, refl)))
      (λ h. (
        sym (clean-listed p p.state h a.state_listed)
            ∙ a.agreed
            ∙ clean-listed p p.pending h a.pending_listed,
        (refl, refl),
      ))

commit_at_once-IsAgreed : (p : Parent) → IsAgreed p → IsAgreed (commit_at_once p)
commit_at_once-IsAgreed p a =
    let r = commit_at_once p in
    let (same, (pending, subs)) = commit-Settles p a in
    let now : stack r.state ≡ stack r.pending = rw pending same in
    let listed : IsListed r.subsurfaces r.pending = rw (pending, subs) a.pending_listed in
    record {
      agreed = ap (filter (keep r.child)) now;
      pending_listed = listed;
      state_listed = λ x. rw now (listed x);
    }

map_last : (a : List ℕ) (id : ℕ) → map some (a ++ (id ∷ [])) ≡ map some a ++ (some id ∷ [])
map_last [] id = refl
map_last (y ∷ a) id = ap (some y ∷◌) (map_last a id)

-- A new child is marked, and last on the pending list.
stack_last :
    (b a : List ℕ) (id : ℕ)
    → map some b ++ none ∷ map some (a ++ (id ∷ []))
      ≡ (map some b ++ none ∷ map some a) ++ (some id ∷ [])
stack_last [] a id = ap (none ∷◌) (map_last a id)
stack_last (y ∷ b) a id = ap (some y ∷◌) (stack_last b a id)

filter_last :
    (k : Layer → Bool) (e : Layer) (l : List Layer)
    → k e ≡ false
    → filter k (l ++ (e ∷ [])) ≡ filter k l
filter_last k e [] h = rw h refl
filter_last k e (x ∷ l) h = rw (filter_last k e l h) refl

times_last :
    (x id : ℕ) (l : List Layer)
    → times x (l ++ (some id ∷ [])) ≡ (if id == x then 1 else 0) + times x l
times_last x id [] = refl
times_last x id (y ∷ l) = omega (arith, times_last x id l)

subsurface_new-IsAgreed :
    (made : Bool) (id surface : ℕ) (p : Parent)
    → IsAgreed p
    → IsAgreed (subsurface_new made id surface p)
unfolding subsurface_new
subsurface_new-IsAgreed false id surface p a = a
subsurface_new-IsAgreed true id surface p a =
    let child = write_child id (λ _. new_child surface) p.child in
    let k = keep child in
    let last = stack_last p.pending.below p.pending.above id in
    let m : Marks p.child child = λ x h. ground arith in
    let gone : k (some id) ≡ false = ground arith in
    record {
      agreed =
          Agree-marked p.child child p.state p.pending m a.agreed
          ∙ sym (ap (filter k) last ∙ filter_last k (some id) (stack p.pending) gone);
      pending_listed = λ x.
          omega (arith, ap (times x) last, times_last x id (stack p.pending), a.pending_listed x);
      state_listed = λ x. omega (arith, a.state_listed x);
    }

set_position-IsAgreed :
    (id : ℕ) (point : Point) (p : Parent) → IsAgreed p → IsAgreed (set_position id point p)
unfolding set_position
set_position-IsAgreed id point p a = children-IsAgreed p _ (λ x h. ground arith) a

step-IsAgreed : (e : Event) (p : Parent) → IsAgreed p → IsAgreed (step e p)
unfolding step set_parent_view
step-IsAgreed (placed_above id sibling) p a = place_above-IsAgreed id sibling p a
step-IsAgreed (placed_below id sibling) p a = place_below-IsAgreed id sibling p a
step-IsAgreed (positioned id point) p a = set_position-IsAgreed id point p a
step-IsAgreed (created made id surface) p a = subsurface_new-IsAgreed made id surface p a
step-IsAgreed (destroyed id) p a = subsurface_destroy-IsAgreed id p a
step-IsAgreed (view_changed true) p a =
    let b =
      children-IsAgreed p (all_dirty p.subsurfaces p.child) (all_dirty-Marks p.subsurfaces p.child)
        a in
    record { agreed = b.agreed; pending_listed = b.pending_listed; state_listed = b.state_listed }
step-IsAgreed (view_changed false) p a = record {
  agreed = a.agreed;
  pending_listed = a.pending_listed;
  state_listed = a.state_listed;
}
step-IsAgreed committed p a = commit_at_once-IsAgreed p a

run-IsAgreed : (es : List Event) (p : Parent) → IsAgreed p → IsAgreed (run es p)
unfolding run
run-IsAgreed [] p a = a
run-IsAgreed (e ∷ es) p a = run-IsAgreed es (step e p) (step-IsAgreed e p a)

-- After any sequence of requests on the children of a new surface, of commits that are applied at once and
-- of changes of its view, a further such commit makes the current order of the surface and its children
-- the pending one and leaves the pending order, whether it makes the order again or finds no mark.
pub commit_exact :
    (es : List Event) (surface : ℕ) (child : ℕ → Child) (has_view : ℕ → Bool)
    → let p = run es (childless surface child has_view) in
      (stack (commit_at_once p).state ≡ stack p.pending) × ((commit_at_once p).pending ≡ p.pending)
commit_exact es surface child has_view =
    let start : IsAgreed (childless surface child has_view) = record {
      agreed = refl;
      pending_listed = λ x. omega arith;
      state_listed = λ x. omega arith;
    } in
    let (same, (pending, _)) = commit-Settles _ (run-IsAgreed es _ start) in (same, pending)
