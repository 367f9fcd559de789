-- ===== src/Workspace/Dangling.antt =====
-- A group handle that a client destroys on its own, before the workspaces of the group.
use neuswc.Prelude.{
  ℕ, ◌<◌, ◌≡◌, refl, subst, ◌∙◌, true, false, List, [], ◌∷◌, ◌++◌, none, some, arith, ==_false,
}
use neuswc.Prelude.Word.{decr32}
use neuswc.Workspace.Types.{Group, Core, Manager, Event}
use neuswc.Workspace.Destroy.{group_resource_destroy, maybe_free_group}
use neuswc.Workspace.Teardown.{IsGroup}
use neuswc.Workspace.ManagerTeardown.{IsManager, all_live}
use neuswc.Workspace.Requests.{Split, split_at, on_split, on_found, group_destroy, manager_stop}
use neuswc.Workspace.Left.{stays-IsLeft, with_groups}
use neuswc.Workspace.RequestCounts.{group_small, split-IsGroup, split_at-eq, manager_stop_exact}

abbrev pub bereft : Group → Group
bereft g = record g { resource = false; live_resources = decr32 g.live_resources }

bereft-IsGroup :
    (g : Group) → IsGroup g → g.resource ≡ true → 1 < g.live_resources → IsGroup (bereft g)
bereft-IsGroup g v r h = record {
  all = v.all;
  counted = ground (arith, group_small g v);
  held = omega (arith, group_small g v);
}

destroyed_alone :
    (m : Core) (sent : List Event) (s : Split)
    → IsGroup s.group
    → (s.group).resource ≡ true
    → 1 < (s.group).live_resources
    → on_split group_resource_destroy m sent s
      ≡ some
          (record { manager = some m; groups = s.before ++ bereft s.group ∷ s.after; sent = sent })
unfolding on_split group_resource_destroy maybe_free_group
destroyed_alone m sent s v r h =
    rw (==_false (decr32 (s.group).live_resources) 0 (omega (arith, group_small s.group v)))

all_live-bereft :
    (xs : List Group) (g : Group) (ys : List Group) → all_live (xs ++ bereft g ∷ ys) ≡ false
all_live-bereft [] g ys = refl
all_live-bereft (x ∷ xs) g ys = ground (arith, all_live-bereft xs g ys)

-- The finding: for every manager with right counts that is not stopped, a client that destroys the
-- live handle of a group while some workspace of it is live, which is a legal request and leaves
-- right counts, and then stops the manager, makes the code read freed memory.
pub group_destroy_then_stop :
    (k : ℕ) (m : Manager) (sent : List Event) (s : Split)
    → IsManager m
    → m.stopped ≡ false
    → split_at k m.groups ≡ some s
    → (s.group).resource ≡ true
    → 1 < (s.group).live_resources
    → let m' = with_groups m.core (s.before ++ bereft s.group ∷ s.after) in
      (group_destroy k m sent
        ≡ some (record { manager = some m.core; groups = m'.groups; sent = sent }))
      × IsManager m'
      × (manager_stop m' sent ≡ none)
unfolding group_destroy on_found
group_destroy_then_stop k m sent s v running e r h =
    let g = split-IsGroup k m s v e in
    let valid =
      stays-IsLeft m.core s.before s.group (bereft s.group) s.after sent
        (subst (λ gs. IsManager (with_groups m.core gs)) (split_at-eq k m.groups s e) v)
        (bereft-IsGroup s.group g r h) in
    (
      rw e (destroyed_alone m.core sent s g r h),
      valid,
      manager_stop_exact _ sent valid running ∙ rw (all_live-bereft s.before s.group s.after),
    )
