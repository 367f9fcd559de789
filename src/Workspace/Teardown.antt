-- ===== src/Workspace/Teardown.antt =====
-- The teardown of a group (libswc/workspace.c, lines 157 to 173), for every state that the reference
-- counts allow.
use mathlib.Core.List.{append-nil, append_assoc}
use native.Mathlib.Decide.{ℕ_discrete}
use neuswc.Prelude.{
  ℕ, zero, suc, ◌+◌, ◌<◌, ◌≡◌, refl, ap, ◌∙◌, ◌≢◌, inl, inr, Bool, true, false, not, ◌&&◌, List, [],
  ◌∷◌, ◌++◌, Option, none, some, ◌>>=◌, if◌then◌else◌, get_or, set, length, arith, Bool-cases,
}
use neuswc.Prelude.Word.{u32_mod, decr32}
use neuswc.Workspace.Types.{
  workspace_count, Group, Core, Event, workspace_removed, group_removed, Focus,
}
use neuswc.Workspace.Destroy.{
  maybe_free_manager, group_resource_destroy, workspace_resource_destroy, say, destroy_workspace_at,
  destroy_workspaces, destroy_group_last, destroy_group_resources,
}
use neuswc.Workspace.Counts.{
  num, live_from, live_from-length, live_from-le, live_from-set, live_from-hit, live_from-miss,
  length-set, removals, removals-set, removals-miss,
}

-- The focus on group `g` of a manager that is alive, and the focus once `g` is freed.
abbrev pub focus : Group → Core → List Event → Focus
focus g m sent = record { group = some g; manager = some m; sent = sent }

abbrev pub freed : Core → List Event → Focus
freed m sent = record {
  group = none;
  manager = maybe_free_manager (record m { live_resources = decr32 m.live_resources });
  sent = sent;
}

abbrev pub cleared : ℕ → Group → Group
cleared i g = record g {
  workspaces = set g.workspaces i false;
  live_resources = decr32 g.live_resources;
}

destroy_at-stays :
    (announce : Bool) (i : ℕ) (g : Group) (m : Core) (sent : List Event)
    → get_or g.workspaces i false ≡ true
    → decr32 g.live_resources ≢ 0
    → destroy_workspace_at announce i (focus g m sent)
      ≡ some (say announce (workspace_removed g.screen i) (focus (cleared i g) m sent))
unfolding destroy_workspace_at workspace_resource_destroy
destroy_at-stays announce i g m sent e h = ground arith

destroy_at-skips :
    (announce : Bool) (i : ℕ) (g : Group) (m : Core) (sent : List Event)
    → get_or g.workspaces i false ≡ false
    → destroy_workspace_at announce i (focus g m sent) ≡ some (focus g m sent)
unfolding destroy_workspace_at
destroy_at-skips announce i g m sent e = ground arith

destroy_at-frees :
    (announce : Bool) (i : ℕ) (g : Group) (m : Core) (sent : List Event)
    → get_or g.workspaces i false ≡ true
    → decr32 g.live_resources ≡ 0
    → destroy_workspace_at announce i (focus g m sent)
      ≡ some (say announce (workspace_removed g.screen i) (freed m sent))
unfolding destroy_workspace_at workspace_resource_destroy
destroy_at-frees announce i g m sent e h = ground arith

-- The rest of the teardown: the loop from `i` on, and what follows it.
abbrev rest_of : Bool → ℕ → ℕ → Focus → Option Focus
rest_of announce n i f = destroy_workspaces announce n i f >>= destroy_group_last announce

abbrev pub farewell : Bool → ℕ → List Event
farewell announce screen = if announce then group_removed screen ∷ [] else []

say-append :
    (announce : Bool) (g : Group) (m : Core) (e : Event) (sent : List Event)
    → say announce e (focus g m sent) ≡ focus g m (sent ++ (if announce then e ∷ [] else []))
say-append true g m e sent = refl
say-append false g m e sent = rw append-nil

removals-cons :
    (announce : Bool) (screen n i : ℕ) (bs : List Bool) (sent tail : List Event)
    → get_or bs i false ≡ true
    → (sent ++ (if announce then workspace_removed screen i ∷ [] else []))
        ++ (removals announce screen n (suc i) bs ++ tail)
      ≡ sent ++ (removals announce screen (suc n) i bs ++ tail)
removals-cons true screen n i bs sent tail e = rw (e, append_assoc)
removals-cons false screen n i bs sent tail e = rw append-nil

group_last-live :
    (announce : Bool) (g : Group) (m : Core) (sent : List Event)
    → g.resource ≡ true
    → g.live_resources ≡ 1
    → destroy_group_last announce (focus g m sent)
      ≡ some (freed m (sent ++ farewell announce g.screen))
unfolding destroy_group_last group_resource_destroy
group_last-live true g m sent r l = ground arith
group_last-live false g m sent r l = rw append-nil (ground arith)

-- The count of a group after the destructor of a live workspace.
cleared_count :
    (i k : ℕ) (g : Group)
    → get_or g.workspaces i false ≡ true
    → g.live_resources ≡ k + live_from i g.workspaces
    → g.live_resources < u32_mod
    → (cleared i g).live_resources ≡ k + live_from (suc i) (cleared i g).workspaces
cleared_count i k g e c b =
    omega (arith, live_from-hit i g.workspaces e, live_from-set i g.workspaces)

-- A group whose own resource is live goes with its last resource, when the loop is over.
rest_of-live :
    (announce : Bool) (n i : ℕ) (g : Group) (m : Core) (sent : List Event)
    → g.resource ≡ true
    → length g.workspaces ≡ i + n
    → g.live_resources ≡ 1 + live_from i g.workspaces
    → g.live_resources < u32_mod
    → rest_of announce n i (focus g m sent)
      ≡ some (
          freed m
            (sent ++ (removals announce g.screen n i g.workspaces ++ farewell announce g.screen)))
unfolding destroy_workspaces
rest_of-live announce zero i g m sent r l c b =
    group_last-live announce g m sent r
      (omega (arith, live_from-length i g.workspaces (omega arith)))
rest_of-live announce (suc n) i g m sent r l c b = elim (Bool-cases (get_or g.workspaces i false)) [
  | inl e ↦ rw (destroy_at-stays announce i g m sent e (omega (arith, cleared_count i 1 g e c b))) (
      rw (say-append announce (cleared i g) m (workspace_removed g.screen i) sent) (
        rest_of-live announce n (suc i) (cleared i g) m _ r
          (omega (arith, length-set i g.workspaces)) (cleared_count i 1 g e c b)
          (omega (
            arith,
            cleared_count i 1 g e c b,
            live_from-set i g.workspaces,
            live_from-hit i g.workspaces e,
          ))
        ∙ ap (λ es. some (freed m es))
            (rw (removals-set announce g.screen n i (suc i) g.workspaces (omega arith))
              (removals-cons announce g.screen n i g.workspaces sent _ e))))
  | inr e ↦ rw (destroy_at-skips announce i g m sent e) (
      rest_of-live announce n (suc i) g m sent r (omega arith)
        (omega (arith, live_from-miss i g.workspaces e)) b
      ∙ ap (λ rs. some (freed m (sent ++ (rs ++ farewell announce g.screen))))
          (removals-miss announce g.screen n i g.workspaces e))
]

-- Without it the last workspace to go takes the group with it, and the code reads it once more.
rest_of-freed :
    (announce : Bool) (n i : ℕ) (f : Focus) → f.group ≡ none → rest_of announce n i f ≡ none
unfolding destroy_workspaces destroy_group_last destroy_workspace_at
rest_of-freed announce zero i f e = rw e
rest_of-freed announce (suc n) i f e = rw e

rest_of-dangling :
    (announce : Bool) (n i : ℕ) (g : Group) (m : Core) (sent : List Event)
    → g.resource ≡ false
    → length g.workspaces ≡ i + n
    → g.live_resources ≡ live_from i g.workspaces
    → 0 < g.live_resources
    → g.live_resources < u32_mod
    → rest_of announce n i (focus g m sent) ≡ none
unfolding destroy_workspaces
rest_of-dangling announce zero i g m sent r l c p b =
    absurd (omega (arith, live_from-length i g.workspaces (omega arith)))
rest_of-dangling announce (suc n) i g m sent r l c p b =
    elim (Bool-cases (get_or g.workspaces i false)) [
      | inl e ↦ elim (ℕ_discrete (decr32 g.live_resources) 0) [
        | yes last ↦
            rw (destroy_at-frees announce i g m sent e last)
              (rest_of-freed announce n (suc i) _ refl)
        | no more ↦ rw (destroy_at-stays announce i g m sent e more) (
            rw (say-append announce (cleared i g) m (workspace_removed g.screen i) sent) (
              rest_of-dangling announce n (suc i) (cleared i g) m _ r
                (omega (arith, length-set i g.workspaces))
                (omega (arith, cleared_count i 0 g e (omega arith) b)) (omega arith) (omega arith)))
      ]
      | inr e ↦ rw (destroy_at-skips announce i g m sent e) (
          rest_of-dangling announce n (suc i) g m sent r (omega arith)
            (omega (arith, live_from-miss i g.workspaces e)) p b)
    ]

-- The reference counts of a group: its own resource and those of its workspaces.
pub record IsGroup (g : Group) : Type 0 where
  pub all : length g.workspaces ≡ workspace_count
  pub counted : g.live_resources ≡ num g.resource + live_from 0 g.workspaces
  pub held : 0 < g.live_resources

destroy_group-live :
    (announce : Bool) (g : Group) (m : Core) (sent : List Event)
    → IsGroup g
    → g.resource ≡ true
    → let loud = announce && not m.stopped in
      destroy_group_resources announce (focus g m sent)
      ≡ some (
          freed m (
            sent
            ++ (removals loud g.screen workspace_count 0 g.workspaces ++ farewell loud g.screen)))
unfolding destroy_group_resources
destroy_group-live announce g m sent v r =
    rest_of-live (announce && not m.stopped) workspace_count 0 g m sent r (omega arith)
      (ground arith) (ground (arith, live_from-le 0 g.workspaces))

destroy_group-dangling :
    (announce : Bool) (g : Group) (m : Core) (sent : List Event)
    → IsGroup g
    → g.resource ≡ false
    → destroy_group_resources announce (focus g m sent) ≡ none
unfolding destroy_group_resources
destroy_group-dangling announce g m sent v r =
    rest_of-dangling (announce && not m.stopped) workspace_count 0 g m sent r (omega arith)
      (ground arith) (ground arith) (ground (arith, live_from-le 0 g.workspaces))

-- The teardown of a group whose counts are right: where the group's own resource is live, every
-- resource is destroyed, the group is freed and the manager's count drops by one, and the removal
-- events are those of the live resources in order if they are announced and the manager is not
-- stopped, else none. Where the group's own resource is gone, the code reads freed memory.
pub destroy_group_exact :
    (announce : Bool) (g : Group) (m : Core) (sent : List Event)
    → IsGroup g
    → let loud = announce && not m.stopped in
      destroy_group_resources announce (focus g m sent) ≡ (
        if g.resource
        then some (
            freed m (
              sent
              ++ (removals loud g.screen workspace_count 0 g.workspaces ++ farewell loud g.screen)))
        else none)
destroy_group_exact announce g m sent v = elim (Bool-cases g.resource) [
  | inl r ↦ destroy_group-live announce g m sent v r ∙ rw r
  | inr r ↦ destroy_group-dangling announce g m sent v r ∙ rw r
]
