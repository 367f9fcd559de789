-- ===== src/Workspace/Active.antt =====
-- `swc_workspace_set_active` of libswc/workspace.c: what the panels are told.
use neuswc.Prelude.{
  ℕ, zero, suc, ◌+◌, ◌≡◌, refl, ap, ◌∙◌, inl, inr, Bool, true, false, List, [], ◌∷◌, ◌++◌, some,
  ◌==◌, get_or, Bool-cases, map, if◌then◌else◌,
}
use neuswc.Workspace.Types.{workspace_count, Group, Manager, Event, state, done}
use neuswc.Workspace.Screens.{find_group, send_states, tell_active}

-- The places of the workspaces of a group.
abbrev places : List ℕ
places = 0 ∷ 1 ∷ 2 ∷ 3 ∷ 4 ∷ 5 ∷ 6 ∷ 7 ∷ 8 ∷ []

abbrev among : List Bool → List ℕ → List ℕ
among live [] = []
among live (j ∷ js) = if get_or live j false then j ∷ among live js else among live js

-- The places of those that are live, in order.
abbrev pub live_places : Group → List ℕ
live_places g = among g.workspaces places

-- The state of the workspace at a place: active exactly if it is the one with the number `active`.
abbrev pub state_at : (active : ℕ) → Group → ℕ → Event
state_at active g j = state g.screen j (j + 1 == active)

counted_from : ℕ → ℕ → List ℕ
counted_from zero i = []
counted_from (suc n) i = i ∷ counted_from n (suc i)

send_states-among :
    (active : ℕ) (g : Group) (n i : ℕ)
    → send_states active g n i ≡ map (state_at active g) (among g.workspaces (counted_from n i))
unfolding send_states counted_from
send_states-among active g zero i = refl
send_states-among active g (suc n) i = elim (Bool-cases (get_or g.workspaces i false)) [
  | inl r ↦ rw r (ap (state_at active g i ∷◌) (send_states-among active g n (suc i)))
  | inr r ↦ rw r (send_states-among active g n (suc i))
]

-- A panel whose manager is alive and has a group of the screen is told, once each and in order, the state
-- of every workspace of that group that is live, active exactly if it is the screen's workspace. Then the
-- batch is closed. Nothing else is sent.
pub tell_active_exact :
    (screen active : ℕ) (m : Manager) (g : Group)
    → m.stopped ≡ false
    → m.resource ≡ true
    → find_group screen m.groups ≡ some g
    → tell_active screen active m ≡ map (state_at active g) (live_places g) ++ done ∷ []
unfolding tell_active counted_from
tell_active_exact screen active m g running live found =
    let all : tell_active screen active m ≡ send_states active g workspace_count 0 ++ done ∷ [] =
      rw (running, live, found) refl in
    all ∙ ap (λ (es : List Event). es ++ done ∷ []) (send_states-among active g workspace_count 0)
