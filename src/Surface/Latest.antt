-- ===== src/Surface/Latest.antt =====
-- libswc/surface.c: a commit that is cached with another one, and the two applied one after the other.
use neuswc.Prelude.{
  ◌≡◌, refl, sym, ap, ◌∙◌, Bool, true, false, ◌||◌, [], Option, some, if◌then◌else◌,
}
use neuswc.Surface.State.{Rect, Regions, IsRegions, State, Pending}
use neuswc.Surface.Cache.{merged}
use neuswc.Surface.Commit.{assigned, assigned_window}

-- The state without the callbacks.
abbrev pub without_callbacks : {R : Type 0} → State R → State R
without_callbacks s = record s { frame_callbacks = [] }

-- A value that the later commit gives, or else the earlier one, or else the state.
latest {ℓ} :
    {A : Type ℓ} (earlier later : Bool) (p c s : A)
    → (if earlier || later then (if later then p else c) else s)
      ≡ (if later then p else if earlier then c else s)
latest true true p c s = refl
latest true false p c s = refl
latest false true p c s = refl
latest false false p c s = refl

module _ {R : Type 0} (regions : Regions R) (laws : IsRegions regions) where
  accumulated :
      (earlier later : Bool) (p c s : R)
      → (earlier ≡ false → c ≡ regions.empty)
      → (if earlier || later then regions.union s (if later then regions.union c p else c) else s)
        ≡ (if later
            then regions.union (if earlier then regions.union s c else s) p
            else if earlier
            then regions.union s c
            else s)
  accumulated true true p c s h = sym (laws.union_assoc s c p)
  accumulated true false p c s h = refl
  accumulated false false p c s h = refl
  accumulated false true p c s h =
      sym (laws.union_assoc s c p)
      ∙ ap (λ k. regions.union k p) (ap (regions.union s) (h refl) ∙ laws.union-empty s)

  -- Before trimming, a pending state that is added to a cached one and assigned with it leaves the current
  -- state, without the callbacks, and the window geometry, as if the cached one had been assigned first and
  -- the pending one after it, provided that the cached one has no damage unless its bit for damage is set.
  pub assigned-merged :
      (p c : Pending R) (s : State R) (w : Option Rect)
      → (c.commit.damage ≡ false → c.state.damage ≡ regions.empty)
      → (without_callbacks (assigned regions (merged regions p c) s)
          ≡ without_callbacks (assigned regions p (assigned regions c s)))
        × (assigned_window regions (merged regions p c) w
            ≡ assigned_window regions p (assigned_window regions c w))
  unfolding assigned merged assigned_window
  assigned-merged p c s w h =
      let a = c.commit in
      let b = p.commit in
      (
        λ i. record {
          buffer = latest a.attach b.attach p.state.buffer c.state.buffer s.buffer i;
          buffer_resource =
              latest a.attach b.attach p.state.buffer_resource c.state.buffer_resource
                s.buffer_resource i;
          damage = accumulated a.damage b.damage p.state.damage c.state.damage s.damage h i;
          opaque_region =
              latest a.opaque_region b.opaque_region p.state.opaque_region c.state.opaque_region
                s.opaque_region i;
          input = latest a.input b.input p.state.input c.state.input s.input i;
          buffer_scale =
              latest a.scale b.scale p.state.buffer_scale c.state.buffer_scale s.buffer_scale i;
          buffer_transform =
              latest a.transform b.transform p.state.buffer_transform c.state.buffer_transform
                s.buffer_transform i;
          frame_callbacks = [];
        },
        latest_some a.geometry b.geometry p.window_geometry c.window_geometry w,
      )
    where
      latest_some :
          (earlier later : Bool) (p c : Rect) (s : Option Rect)
          → (if earlier || later then some (if later then p else c) else s)
            ≡ (if later then some p else if earlier then some c else s)
      latest_some true true p c s = refl
      latest_some true false p c s = refl
      latest_some false true p c s = refl
      latest_some false false p c s = refl
