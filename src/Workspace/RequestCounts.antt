-- ===== src/Workspace/RequestCounts.antt =====
-- What the requests of a client leave behind: counts that are right, or no manager at all.
use neuswc.Prelude.{
  ℕ, zero, suc, ◌<◌, ◌≤◌, ◌≡◌, refl, subst, ◌∙◌, inl, inr, true, false, List, [], ◌∷◌, ◌++◌, Option,
  none, some, if◌then◌else◌, get_or, arith, ==_false, Option-cases, All,
}
use native.Mathlib.Decide.{ℕ_discrete}
use neuswc.Prelude.Word.{decr32}
use neuswc.Workspace.Types.{Group, Core, Manager, Event, Focus, Walk, finished}
use neuswc.Workspace.Destroy.{
  maybe_free_manager, group_resource_destroy, workspace_resource_destroy, maybe_free_group,
}
use neuswc.Workspace.Counts.{live_from-le, live_from-set-false, length-set}
use neuswc.Workspace.Teardown.{IsGroup, freed, focus, cleared}
use neuswc.Workspace.ManagerTeardown.{IsManager, all_live, destroy_manager_exact}
use neuswc.Workspace.Requests.{
  Split, on_found, split_at, on_split, group_destroy, workspace_destroy, manager_stop, manager_gone,
}
use neuswc.Workspace.Left.{
  IsLeft, Released, All-split, length_zero, landed, with_groups, Released-IsLeft,
}

pub group_small : (g : Group) → IsGroup g → g.live_resources ≤ 10
group_small g v = ground (arith, live_from-le 0 g.workspaces)

cleared-IsGroup :
    (i : ℕ) (g : Group)
    → IsGroup g
    → get_or g.workspaces i false ≡ true
    → 1 < g.live_resources
    → IsGroup (cleared i g)
cleared-IsGroup i g v r h = record {
  all = length-set i g.workspaces ∙ v.all;
  counted = ground (arith, live_from-set-false i g.workspaces r, group_small g v);
  held = ground (arith, group_small g v);
}

group_resource_destroy-Released :
    (g : Group) (m : Core) (sent : List Event)
    → IsGroup g
    → g.resource ≡ true
    → (f : Focus) × (group_resource_destroy (focus g m sent) ≡ some f) × Released m sent f
unfolding group_resource_destroy maybe_free_group
group_resource_destroy-Released g m sent v r = elim (ℕ_discrete g.live_resources 1) [
  | yes one ↦ (freed m sent, ground arith, inl refl)
  | no more ↦ (
    focus (record g { resource = false; live_resources = decr32 g.live_resources }) m sent,
    ground (arith, group_small g v),
    inr (
      _,
      record {
        all = v.all;
        counted = ground (arith, group_small g v);
        held = omega (arith, group_small g v);
      },
      refl,
    ),
  )
]

workspace_resource_destroy-Released :
    (i : ℕ) (g : Group) (m : Core) (sent : List Event)
    → IsGroup g
    → get_or g.workspaces i false ≡ true
    → (f : Focus) × (workspace_resource_destroy i (focus g m sent) ≡ some f) × Released m sent f
unfolding workspace_resource_destroy
workspace_resource_destroy-Released i g m sent v r = elim (ℕ_discrete g.live_resources 1) [
  | yes one ↦ (freed m sent, ground arith, inl refl)
  | no more ↦ (
    focus (cleared i g) m sent,
    ground (arith, group_small g v),
    inr (_, cleared-IsGroup i g v r (omega arith), refl),
  )
]

pub split_at-eq :
    (k : ℕ) (gs : List Group) (s : Split)
    → split_at k gs ≡ some s
    → gs ≡ s.before ++ s.group ∷ s.after
unfolding split_at
split_at-eq k [] s e = cc
split_at-eq zero (g ∷ gs) s e = ground arith
split_at-eq (suc k) (g ∷ gs) s e = elim (Option-cases (split_at k gs)) [
  | inl n ↦ ground arith
  | inr (t, h) ↦ ground (arith, split_at-eq k gs t h)
]

-- A run that reads no freed memory, and leaves right counts or no manager and no groups.
abbrev pub Requested : Option Walk → Type 0
Requested r = (w : Walk) × (r ≡ some w) × IsLeft w

on_split-IsLeft :
    (op : Focus → Option Focus) (m : Manager) (sent : List Event) (s : Split)
    → IsManager m
    → m.groups ≡ s.before ++ s.group ∷ s.after
    → ((f : Focus) × (op (focus s.group m.core sent) ≡ some f) × Released m.core sent f)
    → Requested (on_split op m.core sent s)
unfolding on_split
on_split-IsLeft op m sent s v e (f, ran, out) = (
  landed s.before s.after f,
  rw ran,
  Released-IsLeft m.core s.before s.group s.after sent f
      (subst (λ gs. IsManager (with_groups m.core gs)) e v) out,
)

pub split-IsGroup :
    (k : ℕ) (m : Manager) (s : Split) → IsManager m → split_at k m.groups ≡ some s → IsGroup s.group
split-IsGroup k m s v e =
    (All-split s.before s.group s.after (subst (All IsGroup) (split_at-eq k m.groups s e) v.all)).1

-- A client that destroys the live handle of a group never makes the code read freed memory, and
-- leaves right counts, or no manager and no groups.
group_destroy-IsLeft :
    (k : ℕ) (m : Manager) (sent : List Event) (s : Split)
    → IsManager m
    → split_at k m.groups ≡ some s
    → (s.group).resource ≡ true
    → Requested (group_destroy k m sent)
unfolding group_destroy on_found
group_destroy-IsLeft k m sent s v e r = rw e (
    on_split-IsLeft group_resource_destroy m sent s v (split_at-eq k m.groups s e)
      (group_resource_destroy-Released s.group m.core sent (split-IsGroup k m s v e) r))

-- A client that destroys a live handle of a workspace never makes the code read freed memory, and
-- leaves right counts, or no manager and no groups.
pub workspace_destroy-IsLeft :
    (k i : ℕ) (m : Manager) (sent : List Event) (s : Split)
    → IsManager m
    → split_at k m.groups ≡ some s
    → get_or (s.group).workspaces i false ≡ true
    → Requested (workspace_destroy k i m sent)
unfolding workspace_destroy on_found
workspace_destroy-IsLeft k i m sent s v e r = rw e (
    on_split-IsLeft (workspace_resource_destroy i) m sent s v (split_at-eq k m.groups s e)
      (workspace_resource_destroy-Released i s.group m.core sent (split-IsGroup k m s v e) r))

-- The end of the manager's own resource leaves right counts, or no manager and no groups.
pub manager_gone-IsLeft :
    (m : Manager) (sent : List Event)
    → IsManager m
    → m.resource ≡ true
    → IsLeft (manager_gone m sent)
unfolding manager_gone maybe_free_manager
manager_gone-IsLeft m sent v r = elim (ℕ_discrete m.live_resources 1) [
  | yes one ↦ rw one (length_zero m.groups (ground arith))
  | no more ↦
      rw (==_false (decr32 m.live_resources) 0 (omega arith))
        (record { all = v.all; counted = ground arith; held = omega arith; small = omega arith })
]

-- Stopping frees the manager and all its groups exactly if each group's own resource is still live;
-- else the code reads freed memory.
pub manager_stop_exact :
    (m : Manager) (sent : List Event)
    → IsManager m
    → m.stopped ≡ false
    → manager_stop m sent ≡ (
        if all_live m.groups
        then some (record { manager = none; groups = []; sent = sent ++ finished ∷ [] })
        else none)
unfolding manager_stop
manager_stop_exact m sent v r = rw r (
    destroy_manager_exact _ (sent ++ finished ∷ [])
      (record { all = v.all; counted = v.counted; held = v.held; small = v.small }))
