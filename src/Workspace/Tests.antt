-- ===== src/Workspace/Tests.antt =====
-- The theorems about libswc/workspace.c at concrete managers, and runs of the code.
use mathlib.Core.List.{Memᴰ}
use neuswc.Prelude.{
  map, ◌++◌, ◌≡◌, refl, ◌↔◌, Bool, true, false, List, [], ◌∷◌, ◌++◌, none, some, arith,
}
use neuswc.Workspace.Types.{Group, Core, Manager, Walk, Screen, Alloc, activate, done, finished}
use neuswc.Workspace.Destroy.{drop_hold, destroy_group_resources, destroy_manager_resources}
use neuswc.Workspace.Create.{bind_manager, create_group}
use neuswc.Workspace.Requests.{workspace_destroy, manager_commit, manager_stop, split_at}
use neuswc.Workspace.Screens.{remove_screen, find_split, find_group, tell_active, manager_finish}
use neuswc.Workspace.Teardown.{IsGroup, freed, focus, destroy_group_exact}
use neuswc.Workspace.ManagerTeardown.{IsManager, IsCounted, destroy_manager_exact}
use neuswc.Workspace.CreateCounts.{create_group-IsCounted}
use neuswc.Workspace.Bind.{IsBound, bind_manager_total}
use neuswc.Workspace.Left.{IsLeft}
use neuswc.Workspace.RequestCounts.{Requested, workspace_destroy-IsLeft, manager_stop_exact}
use neuswc.Workspace.Commit.{Asked, commit_calls}
use neuswc.Workspace.ScreenCounts.{farewells, remove_screen_exact, manager_finish_total}
use neuswc.Workspace.Active.{live_places, state_at, tell_active_exact}
use neuswc.Workspace.Dangling.{group_destroy_then_stop}

abbrev all_nine : List Bool
all_nine = true ∷ true ∷ true ∷ true ∷ true ∷ true ∷ true ∷ true ∷ true ∷ []

abbrev group : Group
group = record {
  screen = 3;
  resource = true;
  workspaces = all_nine;
  pending_active = some 4;
  live_resources = 10;
}

abbrev core : Core
core = record { client = 1; resource = true; live_resources = 2; stopped = false }

abbrev manager : Manager
manager = record { core = core; groups = group ∷ [] }

abbrev screen : Screen
screen = record { name = 3; active_workspace = 5; outputs = [] }

abbrev granted : Alloc
granted = record {
  group = true;
  group_resource = true;
  workspace_resource = λ _. true;
  coordinate = λ _. true;
}

group-IsGroup : IsGroup group
group-IsGroup = record { all = refl; counted = refl; held = omega arith }

manager-IsManager : IsManager manager
manager-IsManager = record {
  all = (group-IsGroup, tt);
  counted = refl;
  held = omega arith;
  small = omega arith;
}

destroy_group_exact_example :
    destroy_group_resources false (focus group core []) ≡ some (freed core [])
destroy_group_exact_example = destroy_group_exact false group core [] group-IsGroup

destroy_manager_exact_example :
    destroy_manager_resources manager [] ≡ some (record { manager = none; groups = []; sent = [] })
destroy_manager_exact_example = destroy_manager_exact manager [] manager-IsManager

create_group-IsCounted_example : IsCounted 0 (create_group manager screen granted []).manager
create_group-IsCounted_example =
    create_group-IsCounted 0 manager screen granted [] manager-IsManager (omega arith)

bind_manager_total_example :
    (w : Walk) × (bind_manager 1 (screen ∷ []) true true (λ _. granted) ≡ some w)
    × IsBound (screen ∷ []) w
bind_manager_total_example =
    bind_manager_total 1 (screen ∷ []) true true (λ _. granted) (omega arith)

workspace_destroy-IsLeft_example : Requested (workspace_destroy 0 8 manager [])
unfolding split_at
workspace_destroy-IsLeft_example =
    workspace_destroy-IsLeft 0 8 manager [] (record { before = []; group = group; after = [] })
      manager-IsManager refl refl

manager_stop_exact_example :
    manager_stop manager [] ≡ some (record { manager = none; groups = []; sent = finished ∷ [] })
manager_stop_exact_example = manager_stop_exact manager [] manager-IsManager refl

group_destroy_then_stop_example :
    manager_stop
      (record { core = core; groups = record group { resource = false; live_resources = 9 } ∷ [] })
      []
    ≡ none
unfolding split_at
group_destroy_then_stop_example =
    (group_destroy_then_stop 0 manager [] (record { before = []; group = group; after = [] })
      manager-IsManager refl refl refl (omega arith)).2

commit_calls_example :
    Memᴰ (activate 3 5) (manager_commit true (screen ∷ []) manager).1
    ↔ Asked true (screen ∷ []) (group ∷ []) (activate 3 5)
commit_calls_example = commit_calls true (screen ∷ []) manager (activate 3 5)

remove_screen_exact_example :
    (remove_screen 3 manager []
      ≡ some (record {
        manager = drop_hold core;
        groups = [];
        sent = [] ++ farewells true group ++ done ∷ [];
      }))
    × IsLeft (record {
      manager = drop_hold core;
      groups = [];
      sent = [] ++ farewells true group ++ done ∷ [];
    })
unfolding find_split
remove_screen_exact_example =
    remove_screen_exact 3 manager [] (record { before = []; group = group; after = [] })
      manager-IsManager (omega arith) refl

tell_active_exact_example :
    tell_active 3 5 manager ≡ map (state_at 5 group) (live_places group) ++ done ∷ []
unfolding find_group
tell_active_exact_example = tell_active_exact 3 5 manager group refl refl refl

manager_finish_total_example : manager_finish 1 (manager ∷ []) ≡ some []
manager_finish_total_example = manager_finish_total (manager ∷ []) ((manager-IsManager, refl), tt)

commit_run : (manager_commit true (screen ∷ []) manager).1 ≡ activate 3 5 ∷ []
unfolding manager_commit
commit_run = refl
