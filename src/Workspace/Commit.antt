-- ===== src/Workspace/Commit.antt =====
-- `manager_commit` of libswc/workspace.c: which calls it makes, and what it leaves.
use mathlib.Core.List.{Memᴰ}
use mathlib.Core.List.Memᴰ
use neuswc.Prelude.{
  ℕ, ◌+◌, ◌<◌, ◌≡◌, refl, sym, subst, ◌↔◌, ◌&&◌, ltb, inl, inr, Bool, true, List, [], ◌∷◌, none,
  some, if◌then◌else◌, arith, Bool-cases, Option-cases, All,
}
use neuswc.Workspace.Types.{workspace_count, Group, Manager, Screen, Event, activate}
use neuswc.Workspace.Requests.{commit_call, commit_groups, manager_commit, screen_is_live}

commit_groups-groups :
    (h : Bool) (screens : List Screen) (gs : List Group)
    → All (λ g. g.pending_active ≡ none) (commit_groups h screens gs).groups
unfolding commit_groups
commit_groups-groups h screens [] = tt
commit_groups-groups h screens (g ∷ gs) = (refl, commit_groups-groups h screens gs)

commit_groups-idle :
    (h : Bool) (screens : List Screen) (gs : List Group)
    → All (λ g. g.pending_active ≡ none) gs
    → commit_groups h screens gs ≡ record { groups = gs; sent = [] }
unfolding commit_groups
commit_groups-idle h screens [] v = refl
commit_groups-idle h screens (g ∷ gs) v = rw (commit_groups-idle h screens gs v.1) (ground arith)

-- A call that some group asks for: a workspace of it that exists was activated, its screen is listed,
-- and the window manager has a handler.
abbrev pub Asked : Bool → List Screen → List Group → Event → Type 0
Asked h screens gs e =
    (g : Group) × (i : ℕ) × Memᴰ g gs
    × (g.pending_active ≡ some i)
    × (i < workspace_count)
    × (h ≡ true)
    × (screen_is_live screens g.screen ≡ true)
    × (e ≡ activate g.screen (i + 1))

-- The three tests of the loop's body, as one.
abbrev passes : Bool → List Screen → Group → ℕ → Bool
passes h screens g i = ltb i workspace_count && (h && screen_is_live screens g.screen)

call-passes :
    (h : Bool) (screens : List Screen) (g : Group) (i : ℕ)
    → g.pending_active ≡ some i
    → commit_call h screens g
      ≡ (if passes h screens g i then activate g.screen (i + 1) ∷ [] else [])
unfolding commit_call
call-passes h screens g i p = ground arith

call-idle :
    (h : Bool) (screens : List Screen) (g : Group)
    → g.pending_active ≡ none
    → commit_call h screens g ≡ []
unfolding commit_call
call-idle h screens g p = ground arith

passes-true :
    (h : Bool) (screens : List Screen) (g : Group) (i : ℕ)
    → passes h screens g i ≡ true
    → (i < workspace_count) × (h ≡ true) × (screen_is_live screens g.screen ≡ true)
passes-true h screens g i p = ground arith

true-passes :
    (h : Bool) (screens : List Screen) (g : Group) (i : ℕ)
    → i < workspace_count
    → h ≡ true
    → screen_is_live screens g.screen ≡ true
    → passes h screens g i ≡ true
true-passes h screens g i p q r = ground arith

call_sound :
    (h : Bool) (screens : List Screen) (g : Group) (e : Event)
    → Memᴰ e (commit_call h screens g)
    → Asked h screens (g ∷ []) e
call_sound h screens g e m = elim (Option-cases g.pending_active) [
  | inl n ↦ absurd (Memᴰ.not-nil (rw (call-idle h screens g n) at m))
  | inr (i, p) ↦ elim (Bool-cases (passes h screens g i)) [
    | inl t ↦
        let (small, handled, live) = passes-true h screens g i t in
        (
          g,
          i,
          Memᴰ.head refl,
          p,
          small,
          handled,
          live,
          Memᴰ.eq_of_singleton (rw (call-passes h screens g i p, t) at m),
        )
    | inr f ↦ absurd (Memᴰ.not-nil (rw (call-passes h screens g i p, f) at m))
  ]
]

call_complete :
    (h : Bool) (screens : List Screen) (g : Group) (i : ℕ)
    → g.pending_active ≡ some i
    → i < workspace_count
    → h ≡ true
    → screen_is_live screens g.screen ≡ true
    → Memᴰ (activate g.screen (i + 1)) (commit_call h screens g)
call_complete h screens g i p small handled live =
    rw (call-passes h screens g i p, true-passes h screens g i small handled live) (Memᴰ.head refl)

groups_sound :
    (h : Bool) (screens : List Screen) (gs : List Group) (e : Event)
    → Memᴰ e (commit_groups h screens gs).sent
    → Asked h screens gs e
unfolding commit_groups
groups_sound h screens [] e m = absurd (Memᴰ.not-nil m)
groups_sound h screens (g ∷ gs) e m = elim (Memᴰ.append_cases (commit_call h screens g) m) [
  | inl here ↦
      let (g', i, at, p, s, q, l, eq) = call_sound h screens g e here in
      (g', i, Memᴰ.head (Memᴰ.eq_of_singleton at), p, s, q, l, eq)
  | inr there ↦
      let (g', i, at, p, s, q, l, eq) = groups_sound h screens gs e there in
      (g', i, Memᴰ.tail at, p, s, q, l, eq)
]

groups_complete :
    (h : Bool) (screens : List Screen) (gs : List Group) (g : Group) (i : ℕ)
    → Memᴰ g gs
    → g.pending_active ≡ some i
    → i < workspace_count
    → h ≡ true
    → screen_is_live screens g.screen ≡ true
    → Memᴰ (activate g.screen (i + 1)) (commit_groups h screens gs).sent
unfolding commit_groups
groups_complete h screens [] g i m p small handled live = absurd (Memᴰ.not-nil m)
groups_complete h screens (x ∷ gs) g i (Memᴰ.head e) p small handled live = Memᴰ.append_left _ (
    subst (λ x. Memᴰ (activate g.screen (i + 1)) (commit_call h screens x)) e
      (call_complete h screens g i p small handled live))
groups_complete h screens (x ∷ gs) g i (Memᴰ.tail m) p small handled live =
    Memᴰ.append_right _ (groups_complete h screens gs g i m p small handled live)

-- A commit calls the window manager exactly for the groups with a pending workspace that exists and
-- a screen that is still listed, if there is a handler, with the workspace's number, which counts
-- from one.
pub commit_calls :
    (h : Bool) (screens : List Screen) (m : Manager) (e : Event)
    → Memᴰ e (manager_commit h screens m).1 ↔ Asked h screens m.groups e
unfolding manager_commit
commit_calls h screens m e = (
  groups_sound h screens m.groups e,
  λ (g, i, at, p, small, handled, live, eq).
      subst (λ e. Memᴰ e (commit_groups h screens m.groups).sent) (sym eq)
        (groups_complete h screens m.groups g i at p small handled live),
)

-- A request is committed once: a second commit, with whatever screens and handler, calls nobody and
-- changes nothing.
commit_once :
    (h h' : Bool) (screens screens' : List Screen) (m : Manager)
    → let m' = (manager_commit h screens m).0 in manager_commit h' screens' m' ≡ (m', [])
unfolding manager_commit
commit_once h h' screens screens' m =
    rw (commit_groups-idle h' screens' _ (commit_groups-groups h screens m.groups))
