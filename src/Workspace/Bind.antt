-- ===== src/Workspace/Bind.antt =====
-- `bind_manager` of libswc/workspace.c: what a client that binds the global is left with.
use mathlib.Core.List.{append_assoc, append-nil, map-append}
use neuswc.Prelude.{
  All, Bool, ℕ, ◌+◌, ◌<◌, ◌≤◌, ◌≡◌, refl, ap, sym, ◌∙◌, inl, inr, true, ◌&&◌, List, [], ◌∷◌, ◌++◌,
  none, some, length, arith, Bool-cases, map,
}
use neuswc.Prelude.Word.{u32_mod}
use neuswc.Workspace.Types.{workspace_count, Manager, Event, Walk, Screen, Alloc, no_memory, done}
use neuswc.Workspace.Create.{
  create_group, create_groups, new_manager, new_group, bind_last, bind_manager,
}
use neuswc.Workspace.ManagerTeardown.{IsManager, all_live, destroy_manager_exact}
use neuswc.Workspace.CreateCounts.{
  screens_of, create_group-IsCounted, filled-IsFresh, new_group-IsFresh, all_live-append,
}
use neuswc.Workspace.Complete.{IsComplete, create_groups-IsComplete}

abbrev names_of : List Screen → List ℕ
names_of = map (λ s. s.name)

create_group-live :
    (m : Manager) (s : Screen) (a : Alloc) (sent : List Event)
    → all_live m.groups ≡ true
    → all_live ((create_group m s a sent).manager).groups ≡ true
unfolding create_group
create_group-live m s a sent l = elim (Bool-cases (a.group && a.group_resource)) [
  | inl e ↦ rw e (
      all_live-append m.groups _ l
        (filled-IsFresh s a workspace_count 0 (new_group s) _ (new_group-IsFresh s) refl refl).own)
  | inr e ↦ rw e l
]

create_group-names :
    (m : Manager) (s : Screen) (a : Alloc) (sent : List Event)
    → (create_group m s a sent).success ≡ true
    → screens_of ((create_group m s a sent).manager).groups ≡ screens_of m.groups ++ s.name ∷ []
unfolding create_group
create_group-names m s a sent = elim (Bool-cases (a.group && a.group_resource)) [
  | inl e ↦ rw e λ _.
      map-append _ m.groups _
      ∙ ap (λ n. screens_of m.groups ++ n ∷ [])
          (filled-IsFresh s a workspace_count 0 (new_group s) _ (new_group-IsFresh s) refl
            refl).screen
  | inr e ↦ rw e (λ h. cc)
]

create_group-count :
    (m : Manager) (s : Screen) (a : Alloc) (sent : List Event)
    → m.live_resources + 1 < u32_mod
    → ((create_group m s a sent).manager).live_resources ≤ m.live_resources + 1
unfolding create_group
create_group-count m s a sent h = ground arith

create_groups-IsManager :
    (ss : List Screen) (allocs : ℕ → Alloc) (m : Manager) (sent : List Event)
    → IsManager m
    → all_live m.groups ≡ true
    → m.live_resources + length ss + 1 < u32_mod
    → let created = create_groups ss allocs m sent in
      IsManager created.manager × (all_live (created.manager).groups ≡ true)
unfolding create_groups
create_groups-IsManager [] allocs m sent v l h = (v, l)
create_groups-IsManager (s ∷ ss) allocs m sent v l h =
    let valid = create_group-IsCounted 0 m s (allocs s.name) sent v (omega arith) in
    let live = create_group-live m s (allocs s.name) sent l in
    elim (Bool-cases (create_group m s (allocs s.name) sent).success) [
      | inl e ↦ rw e (
          create_groups-IsManager ss allocs _ _ valid live
            (omega (arith, create_group-count m s (allocs s.name) sent (omega arith))))
      | inr e ↦ rw e (valid, live)
    ]

create_groups-names :
    (ss : List Screen) (allocs : ℕ → Alloc) (m : Manager) (sent : List Event)
    → (create_groups ss allocs m sent).success ≡ true
    → screens_of ((create_groups ss allocs m sent).manager).groups
      ≡ screens_of m.groups ++ names_of ss
unfolding create_groups
create_groups-names [] allocs m sent = λ h. sym (append-nil _)
create_groups-names (s ∷ ss) allocs m sent =
    elim (Bool-cases (create_group m s (allocs s.name) sent).success) [
      | inl e ↦ rw e λ h.
          create_groups-names ss allocs _ _ h
          ∙ rw (create_group-names m s (allocs s.name) sent e, append_assoc)
      | inr e ↦ rw e λ h. cc
    ]

new_manager-IsManager : (client : ℕ) → IsManager (new_manager client)
new_manager-IsManager client = record {
  all = tt;
  counted = refl;
  held = omega arith;
  small = omega arith;
}

-- What a bind ends in: no manager and the error, or a manager with one live group for each screen, in
-- the order of the screens, each with all its workspaces, and counts that are right.
abbrev pub IsBound : List Screen → Walk → Type 0
IsBound screens w = elim w.manager [
  | none ↦ (w.groups ≡ []) × ((es : List Event) × (w.sent ≡ es ++ no_memory ∷ []))
  | some m ↦
      let bound : Manager = record { core = m; groups = w.groups } in
      IsManager bound
      × (all_live w.groups ≡ true)
      × (screens_of w.groups ≡ names_of screens)
      × All IsComplete w.groups
]

-- Binding never reads freed memory, whichever allocation fails. It ends with a manager that has one
-- live group for each screen, in order, each with its nine workspaces, and right counts; or with everything freed and a no-memory
-- error as the last thing sent.
pub bind_manager_total :
    (client : ℕ) (screens : List Screen) (calloc create : Bool) (allocs : ℕ → Alloc)
    → length screens + 2 < u32_mod
    → (w : Walk) × (bind_manager client screens calloc create allocs ≡ some w) × IsBound screens w
unfolding bind_manager bind_last
bind_manager_total client screens calloc create allocs h = elim (Bool-cases (calloc && create)) [
  | inr e ↦
      (record { manager = none; groups = []; sent = no_memory ∷ [] }, rw e, (refl, ([], refl)))
  | inl e ↦
      let created = create_groups screens allocs (new_manager client) [] in
      let (valid, live) =
        create_groups-IsManager screens allocs (new_manager client) []
          (new_manager-IsManager client) refl (omega arith) in
      elim (Bool-cases created.success) [
        | inl ok ↦ (
          record {
            manager = some (created.manager).core;
            groups = (created.manager).groups;
            sent = created.sent ++ done ∷ [];
          },
          rw (e, ok),
          (
            valid,
            live,
            create_groups-names screens allocs (new_manager client) [] ok,
            create_groups-IsComplete screens allocs (new_manager client) [] tt ok,
          ),
        )
        | inr bad ↦ (
          record { manager = none; groups = []; sent = created.sent ++ no_memory ∷ [] },
          rw (
            e,
            bad,
            destroy_manager_exact created.manager (created.sent ++ no_memory ∷ []) valid,
            live,
          ),
          (refl, (created.sent, refl)),
        )
      ]
]
