-- ===== src/Workspace/Screens.antt =====
-- libswc/workspace.c, lines 375 to 491: the list of managers follows the screens.
use neuswc.Prelude.{
  ℕ, zero, suc, ◌+◌, Bool, true, false, not, ◌&&◌, ◌||◌, List, [], ◌∷◌, ◌++◌, Option, none, some,
  ◌>>=◌, if◌then◌else◌, ◌==◌, ltb, get_or,
}
use neuswc.Workspace.Types.{
  workspace_count, Group, Manager, Walk, Screen, OutputResource, Alloc, Event, done, no_memory,
  state,
}
use neuswc.Workspace.Destroy.{destroy_group_resources, destroy_manager_resources, drop_hold, hold}
use neuswc.Workspace.Create.{send_output, create_group}
use neuswc.Workspace.Requests.{Split, walk_of, on_split}

-- The first group of the screen, with the groups round it.
unfoldable pub find_split : ℕ → List Group → Option Split
find_split screen [] = none
find_split screen (g ∷ gs) =
    if g.screen == screen
    then some (record { before = []; group = g; after = gs })
    else (do s ← find_split screen gs; some (record s { before = g ∷ s.before }))

unfoldable pub find_group : ℕ → List Group → Option Group
find_group screen [] = none
find_group screen (g ∷ gs) = if g.screen == screen then some g else find_group screen gs

-- `workspace_output_bound` and `workspace_output_removed`, for one manager and one resource.
unfoldable pub tell_output : (entered : Bool) → ℕ → OutputResource → Manager → List Event
tell_output entered screen r m = elim (find_group screen m.groups) [
  | none ↦ []
  | some g ↦ send_output g m.core r entered
]

unfoldable pub workspace_output_bound : ℕ → OutputResource → List Manager → List Event
unfolding tell_output
workspace_output_bound screen r [] = []
workspace_output_bound screen r (m ∷ ms) =
    tell_output true screen r m ++ workspace_output_bound screen r ms

unfoldable pub leave_output : ℕ → OutputResource → List Manager → List Event
unfolding tell_output
leave_output screen r [] = []
leave_output screen r (m ∷ ms) = tell_output false screen r m ++ leave_output screen r ms

unfoldable pub workspace_output_removed : ℕ → List OutputResource → List Manager → List Event
unfolding leave_output
workspace_output_removed screen [] ms = []
workspace_output_removed screen (r ∷ rs) ms =
    leave_output screen r ms ++ workspace_output_removed screen rs ms

-- The test that lets `workspace_screen_added` pass a manager over.
abbrev pub has_group : ℕ → List Group → Bool
has_group screen gs = elim (find_group screen gs) [ none ↦ false | some g ↦ true ]

-- One round of `workspace_screen_added`.
unfoldable pub add_screen : Screen → Alloc → Manager → List Event → Walk
unfolding find_group create_group drop_hold
add_screen s a m sent =
    if not m.resource || m.stopped || has_group s.name m.groups
    then walk_of m sent
    else (let created = create_group (record m { core = hold m.core }) s a sent in
        record {
          manager = drop_hold (created.manager).core;
          groups = (created.manager).groups;
          sent = created.sent ++ (if created.success then done else no_memory) ∷ [];
        })

-- What `workspace_screen_removed` does after the group is gone.
unfoldable pub remove_screen_last : Walk → Option Walk
unfolding drop_hold
remove_screen_last w = do
  m ← w.manager
  some (record w {
    manager = drop_hold m;
    sent = if m.resource && not m.stopped then w.sent ++ done ∷ [] else w.sent;
  })

-- `find_group` has found no group, or the one that goes.
unfoldable pub remove_found : Manager → List Event → Option Split → Option Walk
unfolding on_split
remove_found m sent none = some (walk_of m sent)
remove_found m sent (some s) =
    on_split (destroy_group_resources true) (hold m.core) sent s >>= remove_screen_last

-- One round of `workspace_screen_removed`.
unfoldable pub remove_screen : ℕ → Manager → List Event → Option Walk
remove_screen screen m sent = remove_found m sent (find_split screen m.groups)

-- The loop over the managers; `none` is a fault.
unfoldable pub workspace_screen_removed : ℕ → List Manager → Option (List Walk)
unfolding remove_screen
workspace_screen_removed screen [] = some []
workspace_screen_removed screen (m ∷ ms) =
    remove_screen screen m [] >>= λ w. workspace_screen_removed screen ms >>= λ ws. some (w ∷ ws)

-- The loop of `swc_workspace_set_active` over the workspaces of a group.
unfoldable pub send_states : ℕ → Group → (n i : ℕ) → List Event
send_states active g zero i = []
send_states active g (suc n) i =
    let rest = send_states active g n (suc i) in
    if get_or g.workspaces i false then state g.screen i (i + 1 == active) ∷ rest else rest

unfoldable pub tell_active : ℕ → ℕ → Manager → List Event
unfolding send_states find_group
tell_active screen active m =
    if m.stopped || not m.resource then [] else elim (find_group screen m.groups) [
      | none ↦ []
      | some g ↦ send_states active g workspace_count 0 ++ done ∷ []
    ]

unfoldable pub tell_managers : ℕ → ℕ → List Manager → List Event
unfolding tell_active
tell_managers screen active [] = []
tell_managers screen active (m ∷ ms) = tell_active screen active m ++ tell_managers screen active ms

-- `managers` is `none` until the global exists.
unfoldable pub set_active : Screen → ℕ → Option (List Manager) → Screen × List Event
unfolding tell_managers
set_active s active managers = if ltb active 1 || ltb workspace_count active then (s, []) else (
  record s { active_workspace = active },
  elim managers [ none ↦ [] | some ms ↦ tell_managers s.name active ms ],
)

-- `workspace_manager_finish` with fuel; the first manager is destroyed as long as there is one.
unfoldable pub manager_finish : (fuel : ℕ) → List Manager → Option (List Manager)
manager_finish zero ms = some ms
manager_finish (suc n) [] = some []
manager_finish (suc n) (m ∷ ms) = destroy_manager_resources m [] >>= λ w. elim w.manager [
  | none ↦ manager_finish n ms
  | some c ↦ manager_finish n (record { core = c; groups = w.groups } ∷ ms)
]
