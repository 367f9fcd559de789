-- ===== src/Workspace/Destroy.antt =====
-- The destructors of libswc/workspace.c: reference counts, and the teardown of groups and managers.
-- `wl_resource_destroy` runs the destructor that was set for the resource. An access to memory that
-- has been freed is a fault, `none`.
use neuswc.Prelude.{
  ℕ, zero, suc, Bool, false, not, ◌&&◌, List, [], ◌∷◌, ◌++◌, Option, none, some, ◌>>=◌,
  if◌then◌else◌, ◌==◌, get_or, set,
}
use neuswc.Prelude.Word.{incr32, decr32}
use neuswc.Workspace.Types.{
  workspace_count, Group, Core, Manager, Event, workspace_removed, group_removed, Focus, Walk,
}

-- `none` when the manager is unlinked and freed.
unfoldable pub maybe_free_manager : Core → Option Core
maybe_free_manager m = if m.live_resources == 0 then none else some m

-- `g` is the group as the destructor left it.
unfoldable pub maybe_free_group : Group → Focus → Option Focus
unfolding maybe_free_manager
maybe_free_group g f =
    if g.live_resources == 0
    then (do
      m ← f.manager
      some (record f {
        group = none;
        manager = maybe_free_manager (record m { live_resources = decr32 m.live_resources });
      }))
    else some (record f { group = some g })

unfoldable pub manager_resource_destroy : Core → Option Core
unfolding maybe_free_manager
manager_resource_destroy m =
    maybe_free_manager (record m { resource = false; live_resources = decr32 m.live_resources })

unfoldable pub group_resource_destroy : Focus → Option Focus
unfolding maybe_free_group
group_resource_destroy f = do
  g ← f.group
  maybe_free_group (record g { resource = false; live_resources = decr32 g.live_resources }) f

unfoldable pub workspace_resource_destroy : ℕ → Focus → Option Focus
unfolding maybe_free_group
workspace_resource_destroy i f = do
  g ← f.group
  maybe_free_group
      (record g { workspaces = set g.workspaces i false; live_resources = decr32 g.live_resources })
      f

-- `f` after an event that is sent only if `announce`.
abbrev pub say : Bool → Event → Focus → Focus
say announce e f = record f { sent = if announce then f.sent ++ e ∷ [] else f.sent }

-- One round of the loop over the workspaces.
unfoldable pub destroy_workspace_at : Bool → ℕ → Focus → Option Focus
destroy_workspace_at announce i f = do
  g ← f.group
  if get_or g.workspaces i false
      then workspace_resource_destroy i (say announce (workspace_removed g.screen i) f)
      else some f

-- `n` rounds are left, and `i` is the loop's counter.
unfoldable pub destroy_workspaces : Bool → ℕ → ℕ → Focus → Option Focus
destroy_workspaces announce zero i f = some f
destroy_workspaces announce (suc n) i f =
    destroy_workspace_at announce i f >>= destroy_workspaces announce n (suc i)

-- What follows the loop.
unfoldable pub destroy_group_last : Bool → Focus → Option Focus
destroy_group_last announce f = do
  g ← f.group
  if g.resource then group_resource_destroy (say announce (group_removed g.screen) f) else some f

unfoldable pub destroy_group_resources : Bool → Focus → Option Focus
destroy_group_resources announce f = do
  m ← f.manager
  let loud = announce && not m.stopped
  destroy_workspaces loud workspace_count 0 f >>= destroy_group_last loud

-- A group that its destructors did not free stays on the list.
abbrev pub keep : Option Group → List Group → List Group
keep none gs = gs
keep (some g) gs = gs ++ g ∷ []

-- The loop over the manager's groups; the next group is read before the body runs.
unfoldable pub destroy_groups : List Group → Walk → Option Walk
destroy_groups [] w = some w
destroy_groups (g ∷ gs) w =
    destroy_group_resources false (record { group = some g; manager = w.manager; sent = w.sent })
    >>= λ f.
        destroy_groups gs
          (record { manager = f.manager; groups = keep f.group w.groups; sent = f.sent })

-- `if (manager->resource) wl_resource_destroy(manager->resource)`.
unfoldable pub destroy_manager_resource : Core → Option Core
unfolding manager_resource_destroy
destroy_manager_resource m = if m.resource then manager_resource_destroy m else some m

-- `--manager->live_resources; maybe_free_manager(manager)`, after a hold.
unfoldable pub drop_hold : Core → Option Core
unfolding maybe_free_manager
drop_hold m = maybe_free_manager (record m { live_resources = decr32 m.live_resources })

abbrev pub hold : Core → Core
hold m = record m { live_resources = incr32 m.live_resources }

-- What follows the loop over the groups.
unfoldable pub destroy_manager_last : Walk → Option Walk
unfolding destroy_manager_resource drop_hold
destroy_manager_last w = do
  m ← w.manager
  held ← destroy_manager_resource m
  some (record w { manager = drop_hold held })

unfoldable pub destroy_manager_resources : Manager → List Event → Option Walk
destroy_manager_resources m sent =
    destroy_groups m.groups (record { manager = some (hold m.core); groups = []; sent = sent })
    >>= destroy_manager_last
