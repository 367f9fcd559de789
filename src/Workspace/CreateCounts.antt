-- ===== src/Workspace/CreateCounts.antt =====
-- The reference counts after `create_group` and `bind_manager`, whichever allocation fails.
use neuswc.Prelude.{
  All-append, ℕ, zero, suc, ◌+◌, ◌<◌, ◌≡◌, refl, ap, ◌∙◌, inl, inr, Bool, true, false, ◌&&◌, List,
  [], ◌∷◌, ◌++◌, get_or, set, length, length-append, arith, Bool-cases, map,
}
use neuswc.Prelude.Word.{u32_mod, incr32}
use neuswc.Workspace.Types.{workspace_count, Group, Manager, Event, Screen, Alloc}
use neuswc.Workspace.Create.{create_workspaces, new_group, create_group}
use neuswc.Workspace.Counts.{live_from, live_from-suc, live_from-le}
use neuswc.Workspace.Teardown.{IsGroup}
use neuswc.Workspace.ManagerTeardown.{IsCounted, all_live}

-- A group that the loop has filled in part.
pub record IsFresh (s : Screen) (g : Group) : Type 0 where
  pub own : g.resource ≡ true
  pub all : length g.workspaces ≡ workspace_count
  pub counted : g.live_resources ≡ suc (live_from 0 g.workspaces)
  pub screen : g.screen ≡ s.name

live_from-set-true :
    (i : ℕ) (bs : List Bool)
    → i < length bs
    → get_or bs i false ≡ false
    → live_from 0 (set bs i true) ≡ suc (live_from 0 bs)
live_from-set-true i [] h e = absurd (omega arith)
live_from-set-true zero (b ∷ bs) h e = ground arith
live_from-set-true (suc i) (b ∷ bs) h e = omega (arith, live_from-set-true i bs (omega arith) e)

live_from-set_after :
    (i : ℕ) (bs : List Bool) → live_from (suc i) (set bs i true) ≡ live_from (suc i) bs
live_from-set_after i [] = refl
live_from-set_after zero (b ∷ []) = refl
live_from-set_after zero (b ∷ c ∷ bs) = refl
live_from-set_after (suc i) (b ∷ bs) = live_from-set_after i bs

pub length-set-true : (i : ℕ) (bs : List Bool) → length (set bs i true) ≡ length bs
length-set-true i [] = refl
length-set-true zero (b ∷ bs) = refl
length-set-true (suc i) (b ∷ bs) = ap suc (length-set-true i bs)

get_or-zero : (i : ℕ) (bs : List Bool) → live_from i bs ≡ 0 → get_or bs i false ≡ false
get_or-zero i bs h = ground (arith, live_from-suc i bs)

set-true-IsFresh :
    (s : Screen) (i : ℕ) (g : Group)
    → IsFresh s g
    → live_from i g.workspaces ≡ 0
    → i < workspace_count
    → IsFresh s (record g {
      workspaces = set g.workspaces i true;
      live_resources = incr32 g.live_resources;
    })
set-true-IsFresh s i g v z h = record {
  own = v.own;
  all = length-set-true i g.workspaces ∙ v.all;
  counted = omega (
    arith,
    live_from-set-true i g.workspaces (omega arith) (get_or-zero i g.workspaces z),
    live_from-le 0 g.workspaces,
  );
  screen = v.screen;
}

pub filled-IsFresh :
    (s : Screen) (a : Alloc) (n i : ℕ) (g : Group) (sent : List Event)
    → IsFresh s g
    → i + n ≡ workspace_count
    → live_from i g.workspaces ≡ 0
    → IsFresh s (create_workspaces s a n i g sent).group
unfolding create_workspaces
filled-IsFresh s a zero i g sent v h z = v
filled-IsFresh s a (suc n) i g sent v h z = elim (Bool-cases (a.workspace_resource i)) [
  | inl e ↦ rw e (
      filled-IsFresh s a n (suc i) _ _ (set-true-IsFresh s i g v z (omega arith)) (omega arith)
        (omega (arith, live_from-set_after i g.workspaces, live_from-suc i g.workspaces)))
  | inr e ↦ rw e v
]

pub new_group-IsFresh : (s : Screen) → IsFresh s (new_group s)
new_group-IsFresh s = record { own = refl; all = refl; counted = refl; screen = refl }

pub IsFresh-IsGroup : {s : Screen} {g : Group} → IsFresh s g → IsGroup g
IsFresh-IsGroup v = record { all = v.all; counted = ground arith; held = omega arith }

pub all_live-append :
    (xs : List Group) (g : Group)
    → all_live xs ≡ true
    → g.resource ≡ true
    → all_live (xs ++ g ∷ []) ≡ true
all_live-append [] g e r = rw r
all_live-append (x ∷ xs) g e r = ground (arith, all_live-append xs g)

-- The names of the screens that a manager has groups for, in order.
abbrev pub screens_of : List Group → List ℕ
screens_of = map (λ g. g.screen)

add_group-IsCounted :
    (k : ℕ) (m : Manager) (g : Group)
    → IsCounted k m
    → IsGroup g
    → m.live_resources + 2 < u32_mod
    → IsCounted k (record {
      core = record (m.core) { live_resources = incr32 m.live_resources };
      groups = m.groups ++ g ∷ [];
    })
add_group-IsCounted k m g v w h = record {
  all = All-append IsGroup m.groups (g ∷ []) v.all (w, tt);
  counted = omega (arith, v.counted, length-append m.groups (g ∷ []));
  held = omega arith;
  small = omega arith;
}

-- Creating a group keeps the reference counts of the manager right, whichever allocation fails,
-- however many holds it is under.
pub create_group-IsCounted :
    (k : ℕ) (m : Manager) (s : Screen) (a : Alloc) (sent : List Event)
    → IsCounted k m
    → m.live_resources + 2 < u32_mod
    → IsCounted k (create_group m s a sent).manager
unfolding create_group
create_group-IsCounted k m s a sent v h = elim (Bool-cases (a.group && a.group_resource)) [
  | inl e ↦ rw e (
      add_group-IsCounted k m _ v
        (IsFresh-IsGroup
          (filled-IsFresh s a workspace_count 0 (new_group s) _ (new_group-IsFresh s) refl refl))
        h)
  | inr e ↦ rw e v
]
