-- ===== src/Workspace/ScreenCounts.antt =====
-- The walks over the managers, libswc/workspace.c lines 382 to 491.
use native.Mathlib.Decide.{ℕ_discrete}
use neuswc.Prelude.{
  All-append, ℕ, ◌+◌, ◌<◌, ◌≡◌, refl, ap, subst, inl, inr, Bool, true, not, ◌&&◌, ◌||◌, List, [],
  ◌∷◌, ◌++◌, none, some, if◌then◌else◌, length, arith, ==_false, Bool-cases, Option-cases, All,
}
use neuswc.Prelude.Word.{u32_mod, incr32, decr32}
use neuswc.Workspace.Types.{workspace_count, Group, Core, Manager, Event, Walk, Screen, Alloc, done}
use neuswc.Workspace.Destroy.{maybe_free_manager, hold, drop_hold, destroy_group_resources}
use neuswc.Workspace.Counts.{removals}
use neuswc.Workspace.Teardown.{IsGroup, farewell, destroy_group_exact}
use neuswc.Workspace.ManagerTeardown.{IsCounted, IsManager, all_live, destroy_manager_exact}
use neuswc.Workspace.CreateCounts.{create_group-IsCounted}
use neuswc.Workspace.Requests.{Split, on_split}
use neuswc.Workspace.Left.{IsLeft, All-split, length-middle, length_zero, with_groups}
use neuswc.Workspace.Screens.{
  find_split, remove_found, remove_screen, remove_screen_last, add_screen, has_group,
  manager_finish,
}

-- Dropping the only hold leaves a manager with right counts, or frees one that has nothing left.
drop_hold-IsLeft :
    (m : Core) (gs : List Group) (sent : List Event)
    → IsCounted 1 (with_groups m gs)
    → IsLeft (record { manager = drop_hold m; groups = gs; sent = sent })
unfolding drop_hold
drop_hold-IsLeft m gs sent v = elim (ℕ_discrete m.live_resources 1) [
  | yes one ↦ rw one (length_zero gs (omega (arith, v.counted)))
  | no more ↦ rw (==_false (decr32 m.live_resources) 0 (omega arith)) (record {
    all = v.all;
    counted = omega (arith, v.counted);
    held = omega arith;
    small = omega arith;
  })
]

hold-IsCounted :
    (m : Manager)
    → IsManager m
    → m.live_resources + 2 < u32_mod
    → IsCounted 1 (record m { core = hold m.core })
hold-IsCounted m v h = record {
  all = v.all;
  counted = omega (arith, v.counted);
  held = omega arith;
  small = omega arith;
}

-- A new screen leaves each manager with right counts, whichever allocation fails.
add_screen-IsLeft :
    (s : Screen) (a : Alloc) (m : Manager) (sent : List Event)
    → IsManager m
    → m.live_resources + 3 < u32_mod
    → IsLeft (add_screen s a m sent)
unfolding add_screen
add_screen-IsLeft s a m sent v h =
    elim (Bool-cases (not m.resource || m.stopped || has_group s.name m.groups)) [
      | inl skip ↦ rw skip v
      | inr new ↦ rw new (
          drop_hold-IsLeft _ _ sent (
            create_group-IsCounted 1 (record m { core = hold m.core }) s a sent
              (hold-IsCounted m v (omega arith)) (omega arith)))
    ]

find_split-eq :
    (screen : ℕ) (gs : List Group) (s : Split)
    → find_split screen gs ≡ some s
    → gs ≡ s.before ++ s.group ∷ s.after
unfolding find_split
find_split-eq screen [] s e = cc
find_split-eq screen (g ∷ gs) s e = elim (Option-cases (find_split screen gs)) [
  | inl n ↦ ground arith
  | inr (t, h) ↦ ground (arith, find_split-eq screen gs t h)
]

-- The events of a group that goes with its screen.
abbrev pub farewells : Bool → Group → List Event
farewells loud g = removals loud g.screen workspace_count 0 g.workspaces ++ farewell loud g.screen

hold-freed :
    (m : Core)
    → 0 < m.live_resources
    → m.live_resources + 1 < u32_mod
    → maybe_free_manager (record (hold m) { live_resources = decr32 (incr32 m.live_resources) })
      ≡ some m
unfolding maybe_free_manager
hold-freed m p h = ground arith

split-destroyed :
    (m : Core) (sent : List Event) (s : Split)
    → IsGroup s.group
    → 0 < m.live_resources
    → m.live_resources + 1 < u32_mod
    → on_split (destroy_group_resources true) (hold m) sent s ≡ (
        if (s.group).resource
        then some (record {
          manager = some m;
          groups = s.before ++ s.after;
          sent = sent ++ farewells (not m.stopped) s.group;
        })
        else none)
unfolding on_split
split-destroyed m sent s v p h =
    rw (destroy_group_exact true s.group (hold m) sent v)
      (elim (Bool-cases (s.group).resource) [ inl r ↦ rw (r, hold-freed m p h) | inr r ↦ rw r ])

-- A screen that goes: the manager loses its group of that screen and no other, the removals are
-- announced, then the batch is closed if the manager's own resource is live and it is not stopped,
-- and the counts are right or the manager was freed with its last group; provided that the group's
-- own resource is live. Otherwise the code reads freed memory.
pub remove_screen_exact :
    (screen : ℕ) (m : Manager) (sent : List Event) (s : Split)
    → IsManager m
    → m.live_resources + 2 < u32_mod
    → find_split screen m.groups ≡ some s
    → let loud = not m.stopped in
      let w : Walk = record {
        manager = drop_hold m.core;
        groups = s.before ++ s.after;
        sent =
            if m.resource && loud
            then (sent ++ farewells loud s.group) ++ done ∷ []
            else sent ++ farewells loud s.group;
      } in
      (remove_screen screen m sent ≡ (if (s.group).resource then some w else none)) × IsLeft w
unfolding remove_screen remove_found remove_screen_last
remove_screen_exact screen m sent s v h e =
    let (xs, g, ys) =
      All-split s.before s.group s.after
        (subst (All IsGroup) (find_split-eq screen m.groups s e) v.all) in
    let lengths = ap length (find_split-eq screen m.groups s e) in
    let left : IsCounted 1 (with_groups m.core (s.before ++ s.after)) = record {
      all = All-append IsGroup s.before s.after xs ys;
      counted = omega (arith, v.counted, lengths, length-middle s.before s.group s.after);
      held = v.held;
      small = v.small;
    } in
    rw e (
      rw (split-destroyed m.core sent s g v.held v.small)
          (elim (Bool-cases (s.group).resource) [ inl r ↦ rw r | inr r ↦ rw r ]),
      drop_hold-IsLeft m.core (s.before ++ s.after) sent left,
    )

-- At the end of the compositor, as many rounds as there are managers free them all, if the own
-- resource of each group is live.
pub manager_finish_total :
    (ms : List Manager)
    → All (λ m. IsManager m × (all_live m.groups ≡ true)) ms
    → manager_finish (length ms) ms ≡ some []
unfolding manager_finish
manager_finish_total [] v = refl
manager_finish_total (m ∷ ms) v =
    rw (destroy_manager_exact m [] v.0.0, v.0.1) (manager_finish_total ms v.1)
