-- ===== src/Workspace/Types.antt =====
-- The structs of libswc/workspace.c (lines 24 to 46) and the events that its functions send.
use neuswc.Prelude.{ℕ, Bool, List, Option}

abbrev pub workspace_count : ℕ
workspace_count = 9

-- `workspaces` says of each `struct workspace_ref` whether its resource is not NULL; its index is its
-- place. `none` for `pending_active` is the -1 of the source.
pub record Group : Type 0 where
  pub screen : ℕ
  pub resource : Bool
  pub workspaces : List Bool
  pub pending_active : Option ℕ
  pub live_resources : ℕ

-- `struct workspace_manager` without its list of groups.
pub record Core : Type 0 where
  pub client : ℕ
  pub resource : Bool
  pub live_resources : ℕ
  pub stopped : Bool

pub record Manager : Type 0 where
  pub core : Core
  pub open core use *
  pub groups : List Group

-- What goes over the wire, named by the screen of the group and the index of the workspace; and the
-- call of the window manager's `workspace_activate`.
pub data Event : Type 0 where
  workspace_removed : (screen i : ℕ) → Event
  group_removed : (screen : ℕ) → Event
  finished : Event
  done : Event
  workspace_group : (screen : ℕ) → Event
  group_capabilities : (screen : ℕ) → Event
  output_enter : (screen output : ℕ) → Event
  output_leave : (screen output : ℕ) → Event
  workspace : (screen i : ℕ) → Event
  id : (screen number : ℕ) → Event
  name : (screen number : ℕ) → Event
  coordinates : (screen i : ℕ) → Event
  state : (screen i : ℕ) → Bool → Event
  workspace_capabilities : (screen i : ℕ) → Event
  workspace_enter : (screen i : ℕ) → Event
  no_memory : Event
  activate : (screen number : ℕ) → Event

-- A group and its manager while a destructor runs on the group. `none` is freed memory.
pub record Focus : Type 0 where
  pub group : Option Group
  pub manager : Option Core
  pub sent : List Event

-- A manager while its groups are walked; `none` is freed memory.
pub record Walk : Type 0 where
  pub manager : Option Core
  pub groups : List Group
  pub sent : List Event

-- `struct output` and `struct screen`, as far as this file reads them.
pub record OutputResource : Type 0 where
  pub name : ℕ
  pub client : ℕ

pub record Screen : Type 0 where
  pub name : ℕ
  pub active_workspace : ℕ
  pub outputs : List (List OutputResource)

-- What `calloc`, `wl_resource_create` and `wl_array_add` answer while a group is created.
pub record Alloc : Type 0 where
  pub group : Bool
  pub group_resource : Bool
  pub workspace_resource : ℕ → Bool
  pub coordinate : ℕ → Bool

-- The answer of `create_group`, with the manager and the events as it left them.
pub record Created : Type 0 where
  pub success : Bool
  pub manager : Manager
  pub sent : List Event
