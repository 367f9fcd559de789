-- ===== src/Workspace/Create.antt =====
-- libswc/workspace.c, lines 235 to 373: a group for each screen, and a manager for a client.
use neuswc.Prelude.{
  ℕ, zero, suc, ◌+◌, Bool, true, false, not, ◌&&◌, ◌||◌, List, [], ◌∷◌, ◌++◌, Option, none, some,
  if◌then◌else◌, ◌==◌, set,
}
use neuswc.Prelude.Word.{incr32}
use neuswc.Workspace.Types.{
  workspace_count, Group, Core, Manager, Walk, Screen, OutputResource, Alloc, Created, Event, done,
  workspace_group, group_capabilities, output_enter, output_leave, workspace, id, name, coordinates,
  state, workspace_capabilities, workspace_enter, no_memory,
}
use neuswc.Workspace.Destroy.{destroy_manager_resources}

-- The event of `send_output`, if it sends one.
unfoldable pub send_output : Group → Core → OutputResource → Bool → List Event
send_output g m r entered =
    if not g.resource || m.stopped || not (m.client == r.client)
    then []
    else ((if entered then output_enter g.screen r.name else output_leave g.screen r.name) ∷ [])

-- `wl_resource_find_for_client`: the first resource of the client.
unfoldable pub find_for_client : ℕ → List OutputResource → Option OutputResource
find_for_client client [] = none
find_for_client client (r ∷ rs) = if r.client == client then some r else find_for_client client rs

unfoldable pub enter_output : Group → Core → List OutputResource → List Event
unfolding find_for_client send_output
enter_output g m rs = elim (find_for_client m.client rs) [
  | none ↦ []
  | some r ↦ send_output g m r true
]

unfoldable pub enter_outputs : Group → Core → List (List OutputResource) → List Event
enter_outputs g m [] = []
enter_outputs g m (rs ∷ rest) = enter_output g m rs ++ enter_outputs g m rest

-- What is sent for workspace `i` once it has its resource. The text of `id` is formatted from the
-- screen's name and the number, the text of `name` from the number.
abbrev pub publish_workspace : Screen → Alloc → ℕ → List Event
publish_workspace s a i =
    (workspace s.name i ∷ id s.name (i + 1) ∷ name s.name (i + 1) ∷ [])
    ++ ((if a.coordinate i then coordinates s.name i ∷ [] else [])
        ++ (state s.name i (i + 1 == s.active_workspace)
            ∷ workspace_capabilities s.name i
            ∷ workspace_enter s.name i
            ∷ []))

-- How far the loop over the workspaces came, and whether to its end.
pub record Filled : Type 0 where
  pub success : Bool
  pub group : Group
  pub sent : List Event

-- `n` rounds are left, and `i` is the loop's counter.
unfoldable pub create_workspaces : Screen → Alloc → ℕ → ℕ → Group → List Event → Filled
create_workspaces s a zero i g sent = record { success = true; group = g; sent = sent }
create_workspaces s a (suc n) i g sent =
    let rest =
      create_workspaces s a n (suc i)
        (record g {
          workspaces = set g.workspaces i true;
          live_resources = incr32 g.live_resources;
        })
        (sent ++ publish_workspace s a i) in
    if a.workspace_resource i then rest else record { success = false; group = g; sent = sent }

abbrev pub no_workspaces : List Bool
no_workspaces = false ∷ false ∷ false ∷ false ∷ false ∷ false ∷ false ∷ false ∷ false ∷ []

-- The group once its own resource is there.
abbrev pub new_group : Screen → Group
new_group s = record {
  screen = s.name;
  resource = true;
  workspaces = no_workspaces;
  pending_active = none;
  live_resources = 1;
}

unfoldable pub create_group : Manager → Screen → Alloc → List Event → Created
create_group m s a sent =
    if not (a.group && a.group_resource)
    then record { success = false; manager = m; sent = sent }
    else (let core = record (m.core) { live_resources = incr32 m.live_resources } in
        let filled = create_workspaces s a workspace_count 0 (new_group s) (
          sent
          ++ (workspace_group s.name
              ∷ group_capabilities s.name
              ∷ enter_outputs (new_group s) core s.outputs)) in
        record {
          success = filled.success;
          manager = record { core = core; groups = m.groups ++ filled.group ∷ [] };
          sent = filled.sent;
        })

-- The loop of `bind_manager` over the screens; each screen has allocations of its own.
unfoldable pub create_groups : List Screen → (ℕ → Alloc) → Manager → List Event → Created
create_groups [] allocs m sent = record { success = true; manager = m; sent = sent }
create_groups (s ∷ ss) allocs m sent =
    let created = create_group m s (allocs s.name) sent in
    let rest = create_groups ss allocs created.manager created.sent in
    if created.success then rest else created

abbrev pub new_manager : ℕ → Manager
new_manager client = record {
  core = record { client = client; resource = true; live_resources = 1; stopped = false };
  groups = [];
}

abbrev pub refused : Option Walk
refused = some (record { manager = none; groups = []; sent = no_memory ∷ [] })

-- What `bind_manager` does after the loop.
unfoldable pub bind_last : Created → Option Walk
bind_last created =
    if created.success
    then some (record {
      manager = some (created.manager).core;
      groups = (created.manager).groups;
      sent = created.sent ++ done ∷ [];
    })
    else destroy_manager_resources created.manager (created.sent ++ no_memory ∷ [])

-- `calloc` and `create` are the answers for the manager itself.
unfoldable pub bind_manager : ℕ → List Screen → (calloc create : Bool) → (ℕ → Alloc) → Option Walk
bind_manager client screens calloc create allocs =
    if calloc && create
    then bind_last (create_groups screens allocs (new_manager client) [])
    else refused
