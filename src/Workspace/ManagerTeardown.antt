-- ===== src/Workspace/ManagerTeardown.antt =====
-- The teardown of a manager (libswc/workspace.c, lines 175 to 188).
use mathlib.Core.List.{append-nil}
use neuswc.Prelude.{
  ℕ, suc, ◌+◌, ◌<◌, ◌≡◌, refl, inl, inr, Bool, true, false, ◌&&◌, List, [], ◌∷◌, Option, none, some,
  if◌then◌else◌, length, arith, Bool-cases, All,
}
use neuswc.Prelude.Word.{u32_mod, decr32}
use neuswc.Workspace.Types.{workspace_count, Group, Core, Manager, Event, Walk}
use neuswc.Workspace.Destroy.{
  maybe_free_manager, destroy_groups, hold, destroy_manager_last, destroy_manager_resources,
}
use neuswc.Workspace.Counts.{num, removals-quiet}
use neuswc.Workspace.Teardown.{IsGroup, destroy_group_exact}

-- The reference counts of a manager: its own resource, its groups, and `holds` more that the running
-- code has taken.
pub record IsCounted (holds : ℕ) (m : Manager) : Type 0 where
  pub all : All IsGroup m.groups
  pub counted : m.live_resources ≡ holds + (num m.resource + length m.groups)
  pub held : 0 < m.live_resources
  pub small : m.live_resources + 1 < u32_mod

-- A manager between two calls.
abbrev pub IsManager : Manager → Type 0
IsManager = IsCounted 0

abbrev pub all_live : List Group → Bool
all_live [] = true
all_live (g ∷ gs) = g.resource && all_live gs

abbrev walk : Option Core → List Event → Walk
walk m sent = record { manager = m; groups = []; sent = sent }

pub maybe_free-held :
    (m : Core) (k : ℕ)
    → m.live_resources ≡ suc (suc k)
    → m.live_resources < u32_mod
    → maybe_free_manager (record m { live_resources = decr32 m.live_resources })
      ≡ some (record m { live_resources = suc k })
unfolding maybe_free_manager
maybe_free-held m k h b = ground arith

destroy_groups-exact :
    (gs : List Group) (m : Core) (sent : List Event) (k : ℕ)
    → All IsGroup gs
    → m.live_resources ≡ suc (length gs + k)
    → m.live_resources < u32_mod
    → destroy_groups gs (walk (some m) sent) ≡ (
        if all_live gs then some (walk (some (record m { live_resources = suc k })) sent) else none)
unfolding destroy_groups
destroy_groups-exact [] m sent k v c b = ground arith
destroy_groups-exact (g ∷ gs) m sent k v c b =
    rw (destroy_group_exact false g m sent v.0) (elim (Bool-cases g.resource) [
      | inl r ↦
          rw (r, removals-quiet g.screen workspace_count 0 g.workspaces)
            (rw (append-nil, maybe_free-held m (length gs + k) (omega arith) b)
              (destroy_groups-exact gs (record m { live_resources = suc (length gs + k) }) sent k
                v.1 refl (omega arith)))
      | inr r ↦ rw r
    ])

-- The last part frees the manager, whether or not its own resource is still live.
destroy_manager_last-frees :
    (m : Core) (sent : List Event)
    → m.live_resources ≡ suc (num m.resource)
    → destroy_manager_last (walk (some m) sent) ≡ some (walk none sent)
unfolding destroy_manager_last
destroy_manager_last-frees m sent c = ground arith

-- The teardown of a manager whose counts are right frees all of its groups and then the manager,
-- and sends nothing, provided that the own resource of each group is live. Otherwise the code reads
-- freed memory.
pub destroy_manager_exact :
    (m : Manager) (sent : List Event)
    → IsManager m
    → destroy_manager_resources m sent ≡ (
        if all_live m.groups
        then some (record { manager = none; groups = []; sent = sent })
        else none)
unfolding destroy_manager_resources
destroy_manager_exact m sent v =
    rw
      (destroy_groups-exact m.groups (hold m.core) sent (num m.resource) v.all
        (omega (arith, v.counted, v.small)) (omega (arith, v.small)))
      (elim (Bool-cases (all_live m.groups)) [
        | inl e ↦ rw e (
            destroy_manager_last-frees
              (record (hold m.core) { live_resources = suc (num m.resource) }) sent refl)
        | inr e ↦ rw e
      ])
