-- ===== src/Workspace/Complete.antt =====
-- Groups that create_group of libswc/workspace.c fills to the end.
use native.Mathlib.Decide.{ℕ_discrete}
use neuswc.Prelude.{
  All-append, All, zero, suc, ◌⊎◌, Bool, false, get_or, set, ℕ, ◌+◌, ◌<◌, ◌≡◌, refl, ◌∙◌, inl, inr,
  true, ◌&&◌, List, [], ◌∷◌, length, arith, Bool-cases,
}
use neuswc.Workspace.Types.{workspace_count, Group, Manager, Event, Screen, Alloc}
use neuswc.Workspace.Create.{create_workspaces, create_group, create_groups, new_group}
use neuswc.Workspace.CreateCounts.{length-set-true}

-- All nine workspaces are there.
abbrev pub IsComplete : Group → Type 0
IsComplete g = (j : ℕ) → j < workspace_count → get_or g.workspaces j false ≡ true

set-fills :
    (i j : ℕ) (bs : List Bool)
    → i < length bs
    → (j ≡ i) ⊎ (get_or bs j false ≡ true)
    → get_or (set bs i true) j false ≡ true
set-fills i j [] h e = absurd (omega arith)
set-fills zero zero (b ∷ bs) h e = refl
set-fills zero (suc j) (b ∷ bs) h (inl e) = absurd (omega (arith, e))
set-fills zero (suc j) (b ∷ bs) h (inr e) = e
set-fills (suc i) zero (b ∷ bs) h (inl e) = absurd (omega (arith, e))
set-fills (suc i) zero (b ∷ bs) h (inr e) = e
set-fills (suc i) (suc j) (b ∷ bs) h (inl e) =
    set-fills i j bs (omega arith) (inl (omega (arith, e)))
set-fills (suc i) (suc j) (b ∷ bs) h (inr e) = set-fills i j bs (omega arith) (inr e)

filled-IsComplete :
    (s : Screen) (a : Alloc) (n i : ℕ) (g : Group) (sent : List Event)
    → length g.workspaces ≡ workspace_count
    → i + n ≡ workspace_count
    → ((j : ℕ) → j < i → get_or g.workspaces j false ≡ true)
    → (create_workspaces s a n i g sent).success ≡ true
    → IsComplete (create_workspaces s a n i g sent).group
unfolding create_workspaces
filled-IsComplete s a zero i g sent l h c = λ _ j k. c j (omega arith)
filled-IsComplete s a (suc n) i g sent l h c = elim (Bool-cases (a.workspace_resource i)) [
  | inl e ↦ rw e (
      filled-IsComplete s a n (suc i) _ _ (length-set-true i g.workspaces ∙ l) (omega arith) (λ j k.
        set-fills i j g.workspaces (omega arith)
          (elim (ℕ_discrete j i) [ yes q ↦ inl q | no q ↦ inr (c j (omega arith)) ])))
  | inr e ↦ rw e (λ q. cc)
]

create_group-IsComplete :
    (m : Manager) (s : Screen) (a : Alloc) (sent : List Event)
    → All IsComplete m.groups
    → (create_group m s a sent).success ≡ true
    → All IsComplete ((create_group m s a sent).manager).groups
unfolding create_group
create_group-IsComplete m s a sent v = elim (Bool-cases (a.group && a.group_resource)) [
  | inl e ↦ rw e λ q. All-append IsComplete m.groups (_ ∷ []) v (
    (filled-IsComplete s a workspace_count 0 (new_group s) _ refl refl (λ j k. absurd (omega arith))
        q),
    tt,
  )
  | inr e ↦ rw e (λ q. cc)
]

pub create_groups-IsComplete :
    (ss : List Screen) (allocs : ℕ → Alloc) (m : Manager) (sent : List Event)
    → All IsComplete m.groups
    → (create_groups ss allocs m sent).success ≡ true
    → All IsComplete ((create_groups ss allocs m sent).manager).groups
unfolding create_groups
create_groups-IsComplete [] allocs m sent v = λ _. v
create_groups-IsComplete (s ∷ ss) allocs m sent v =
    elim (Bool-cases (create_group m s (allocs s.name) sent).success) [
      | inl e ↦ rw e (
          create_groups-IsComplete ss allocs _ _
            (create_group-IsComplete m s (allocs s.name) sent v e))
      | inr e ↦ rw e λ q. cc
    ]
