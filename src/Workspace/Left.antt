-- ===== src/Workspace/Left.antt =====
-- Walks of libswc/workspace.c that leave counts that are right, or no manager at all.
use neuswc.Prelude.{
  All-append, suc, ◌-◌, ◌≡◌, refl, ap, sym, subst, ◌⊎◌, inl, inr, List, [], ◌∷◌, ◌++◌, none, some,
  length, arith, All,
}
use native.Mathlib.Decide.{ℕ_discrete}
use neuswc.Workspace.Types.{Group, Core, Manager, Event, Focus, Walk}
use neuswc.Workspace.Destroy.{maybe_free_manager}
use neuswc.Workspace.Teardown.{IsGroup, freed, focus}
use neuswc.Workspace.ManagerTeardown.{IsManager, maybe_free-held}
use neuswc.Workspace.Requests.{put_back}

-- A manager that is freed has no groups left; one that is not has right counts.
abbrev pub IsLeft : Walk → Type 0
IsLeft w = elim w.manager [
  | none ↦ w.groups ≡ []
  | some m ↦ let left : Manager = record { core = m; groups = w.groups } in IsManager left
]

-- What a destructor may make of the group `g` that it runs on.
abbrev pub Released : Core → List Event → Focus → Type 0
Released m sent f = (f ≡ freed m sent) ⊎ ((g : Group) × IsGroup g × (f ≡ focus g m sent))

pub All-split :
    (xs : List Group) (g : Group) (ys : List Group)
    → All IsGroup (xs ++ g ∷ ys)
    → All IsGroup xs × IsGroup g × All IsGroup ys
All-split [] g ys v = (tt, v.0, v.1)
All-split (x ∷ xs) g ys v = let (a, b, c) = All-split xs g ys v.1 in ((v.0, a), b, c)

pub length_zero : (xs : List Group) → length xs ≡ 0 → xs ≡ []
length_zero [] h = refl
length_zero (x ∷ xs) h = absurd (omega arith)

pub length-middle :
    (xs : List Group) (g : Group) (ys : List Group)
    → length (xs ++ g ∷ ys) ≡ suc (length (xs ++ ys))
length-middle [] g ys = refl
length-middle (x ∷ xs) g ys = ap suc (length-middle xs g ys)

abbrev pub landed : List Group → List Group → Focus → Walk
landed xs ys f = record { manager = f.manager; groups = xs ++ put_back f.group ys; sent = f.sent }

abbrev pub with_groups : Core → List Group → Manager
with_groups m gs = record { core = m; groups = gs }

freed-IsLeft :
    (m : Core) (xs : List Group) (g : Group) (ys : List Group) (sent : List Event)
    → IsManager (with_groups m (xs ++ g ∷ ys))
    → IsLeft (landed xs ys (freed m sent))
unfolding maybe_free_manager
freed-IsLeft m xs g ys sent v = elim (ℕ_discrete m.live_resources 1) [
  | yes one ↦ rw one (length_zero (xs ++ ys) (omega (arith, v.counted, length-middle xs g ys)))
  | no more ↦ rw (maybe_free-held m (m.live_resources - 2) (omega arith) (omega arith)) (
      let (a, b, c) = All-split xs g ys v.all in
      record {
        all = All-append IsGroup xs ys a c;
        counted = omega (arith, v.counted, length-middle xs g ys);
        held = omega arith;
        small = omega arith;
      })
]

pub stays-IsLeft :
    (m : Core) (xs : List Group) (g g' : Group) (ys : List Group) (sent : List Event)
    → IsManager (with_groups m (xs ++ g ∷ ys))
    → IsGroup g'
    → IsLeft (landed xs ys (focus g' m sent))
stays-IsLeft m xs g g' ys sent v w = record {
  all = let (a, b, c) = All-split xs g ys v.all in All-append IsGroup xs (g' ∷ ys) a (w, c);
  counted = omega (arith, v.counted, length-middle xs g ys, length-middle xs g' ys);
  held = v.held;
  small = v.small;
}

-- The walk after a destructor ran on one group of a manager.
pub Released-IsLeft :
    (m : Core) (xs : List Group) (g : Group) (ys : List Group) (sent : List Event) (f : Focus)
    → IsManager (with_groups m (xs ++ g ∷ ys))
    → Released m sent f
    → IsLeft (landed xs ys f)
Released-IsLeft m xs g ys sent f v (inl e) =
    subst (λ f. IsLeft (landed xs ys f)) (sym e) (freed-IsLeft m xs g ys sent v)
Released-IsLeft m xs g ys sent f v (inr (g', w, e)) =
    subst (λ f. IsLeft (landed xs ys f)) (sym e) (stays-IsLeft m xs g g' ys sent v w)
