-- ===== src/Workspace/Requests.antt =====
-- The requests of a client, libswc/workspace.c lines 102 to 233, and the end of a client.
use neuswc.Prelude.{
  ℕ, zero, suc, ◌+◌, Bool, true, false, not, ◌||◌, List, [], ◌∷◌, ◌++◌, Option, none, some, ◌>>=◌,
  if◌then◌else◌, ◌==◌, ltb,
}
use neuswc.Workspace.Types.{
  workspace_count, Group, Core, Manager, Focus, Walk, Screen, Event, finished, activate,
}
use neuswc.Workspace.Destroy.{
  group_resource_destroy, workspace_resource_destroy, manager_resource_destroy,
  destroy_manager_resources,
}

-- The manager's groups round the one that a request names.
pub record Split : Type 0 where
  pub before : List Group
  pub group : Group
  pub after : List Group

unfoldable pub split_at : ℕ → List Group → Option Split
split_at k [] = none
split_at zero (g ∷ gs) = some (record { before = []; group = g; after = gs })
split_at (suc k) (g ∷ gs) = do s ← split_at k gs; some (record s { before = g ∷ s.before })

-- The place of the group, once a destructor has run on it.
abbrev pub put_back : Option Group → List Group → List Group
put_back none gs = gs
put_back (some g) gs = g ∷ gs

-- A destructor runs on the group that was found.
unfoldable pub on_split : (Focus → Option Focus) → Core → List Event → Split → Option Walk
on_split op m sent s = do
  f ← op (record { group = some s.group; manager = some m; sent = sent })
  some
      (record { manager = f.manager; groups = s.before ++ put_back f.group s.after; sent = f.sent })

abbrev pub walk_of : Manager → List Event → Walk
walk_of m sent = record { manager = some m.core; groups = m.groups; sent = sent }

-- Without such a group there is no resource to act on, and nothing happens.
unfoldable pub on_found : (Focus → Option Focus) → Manager → List Event → Option Split → Option Walk
unfolding on_split
on_found op m sent none = some (walk_of m sent)
on_found op m sent (some s) = on_split op m.core sent s

-- A request on a resource that belongs to group `k`.
abbrev pub on_group : (Focus → Option Focus) → ℕ → Manager → List Event → Option Walk
on_group op k m sent = on_found op m sent (split_at k m.groups)

unfoldable pub group_destroy : ℕ → Manager → List Event → Option Walk
group_destroy k = on_group group_resource_destroy k

unfoldable pub workspace_destroy : (k i : ℕ) → Manager → List Event → Option Walk
workspace_destroy k i = on_group (workspace_resource_destroy i) k

unfoldable pub workspace_activate : (stopped : Bool) → ℕ → Group → Group
workspace_activate stopped i g = if not stopped then record g { pending_active = some i } else g

-- A screen is live while it is listed.
unfoldable pub screen_is_live : List Screen → ℕ → Bool
screen_is_live [] s = false
screen_is_live (x ∷ xs) s = x.name == s || screen_is_live xs s

-- One round of the loop of `manager_commit`: the call that it makes. `handler` says whether the window
-- manager has set `workspace_activate`.
unfoldable pub commit_call : (handler : Bool) → List Screen → Group → List Event
unfolding screen_is_live
commit_call handler screens g = elim g.pending_active [
  | none ↦ []
  | some i ↦
      if not (ltb i workspace_count)
      then []
      else if not handler || not (screen_is_live screens g.screen)
      then []
      else (activate g.screen (i + 1) ∷ [])
]

abbrev pub commit_group : Group → Group
commit_group g = record g { pending_active = none }

pub record Committed : Type 0 where
  pub groups : List Group
  pub sent : List Event

unfoldable pub commit_groups : (handler : Bool) → List Screen → List Group → Committed
unfolding commit_call
commit_groups handler screens [] = record { groups = []; sent = [] }
commit_groups handler screens (g ∷ gs) =
    let rest = commit_groups handler screens gs in
    record {
      groups = commit_group g ∷ rest.groups;
      sent = commit_call handler screens g ++ rest.sent;
    }

unfoldable pub manager_commit : (handler : Bool) → List Screen → Manager → Manager × List Event
unfolding commit_groups
manager_commit handler screens m =
    let c = commit_groups handler screens m.groups in (record m { groups = c.groups }, c.sent)

unfoldable pub manager_stop : Manager → List Event → Option Walk
manager_stop m sent =
    if m.stopped
    then some (walk_of m sent)
    else destroy_manager_resources (record m { core = record (m.core) { stopped = true } })
        (sent ++ finished ∷ [])

-- The manager's resource goes, as when the client disconnects.
unfoldable pub manager_gone : Manager → List Event → Walk
unfolding manager_resource_destroy
manager_gone m sent = record {
  manager = manager_resource_destroy m.core;
  groups = m.groups;
  sent = sent;
}
