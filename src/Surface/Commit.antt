-- ===== src/Surface/Commit.antt =====
-- libswc/surface.c, lines 462 to 622: how a commit is applied.
use neuswc.Prelude.{
  ℕ, Bool, true, false, not, ◌||◌, ◌&&◌, List, [], ◌∷◌, ◌++◌, Option, none, some, if◌then◌else◌,
}
use neuswc.Surface.State.{Rect, Regions, Flags, no_flags, State, Pending, Surface}
use neuswc.Prelude.Int.{pos}
use neuswc.Surface.Pixels.{Size}
use neuswc.Surface.Cache.{same_buffer, resource_list, cache_pending}

-- What the rest of a commit needs from elsewhere. `ready`: explicit synchronization shows the buffer at
-- once; `keeps`: it keeps the replaced one. `shown` is the buffer of the view, none if there is no view.
-- `size` and `logical` are what wld and logical_buffer make of a buffer.
pub record Outside : Type 0 where
  pub ready : Bool
  pub keeps : Bool
  pub shown : Option (Option ℕ)
  pub size : ℕ → Size
  pub logical : ℕ → (scale transform : ℕ) → Option ℕ

abbrev size_of : Outside → Option ℕ → Size
size_of o none = record { width = 0; height = 0 }
size_of o (some b) = o.size b

abbrev shown_or : Option (Option ℕ) → Option ℕ → Option ℕ
shown_or none b = b
shown_or (some b) _ = b

abbrev attaches : Flags → Bool
attaches f = f.attach || (f.scale || (f.transform || f.damage_buffer))

abbrev pub refreshes : Outside → Flags → Bool
refreshes o f = o.ready && (attaches f || f.damage)

-- The buffer that is rasterized, or none when that fails.
abbrev rasterize :
    {R : Type 0} → Outside → State R → (refresh : Bool) → Option ℕ → Option (Option ℕ)
rasterize o s false b = some b
rasterize o s true none = some none
rasterize o s true (some b) = elim (o.logical b s.buffer_scale s.buffer_transform) [
  | none ↦ none
  | some l ↦ some (some l)
]

module _ {R : Type 0} (regions : Regions R) where
  -- surface_apply_pending up to `Frame`: what a commit puts into the current state.
  unfoldable pub assigned : Pending R → State R → State R
  assigned p s = record {
    buffer = if p.commit.attach then p.state.buffer else s.buffer;
    buffer_resource = if p.commit.attach then p.state.buffer_resource else s.buffer_resource;
    damage = if p.commit.damage then regions.union s.damage p.state.damage else s.damage;
    opaque_region = if p.commit.opaque_region then p.state.opaque_region else s.opaque_region;
    input = if p.commit.input then p.state.input else s.input;
    buffer_scale = if p.commit.scale then p.state.buffer_scale else s.buffer_scale;
    buffer_transform = if p.commit.transform then p.state.buffer_transform else s.buffer_transform;
    frame_callbacks =
        if p.commit.frame then p.state.frame_callbacks ++ s.frame_callbacks else s.frame_callbacks;
  }

  unfoldable pub assigned_window : Pending R → Option Rect → Option Rect
  assigned_window p w = if p.commit.geometry then some p.window_geometry else w

  -- The wl_buffer that the commit replaces.
  abbrev pub replaced : Pending R → State R → List ℕ
  replaced p s =
      if p.commit.attach
        && (not (same_buffer s.buffer none) && not (same_buffer s.buffer p.state.buffer))
      then resource_list s.buffer_resource
      else []

  abbrev full : Size → R
  full n =
      regions.rectangle
        (record { x = pos 0; y = pos 0; width = pos n.width; height = pos n.height })

  abbrev trimmed : Flags → Size → Size → State R → State R
  trimmed f n m s = record s {
    damage =
        regions.trim (if attaches f then regions.union s.damage (full n) else s.damage) m.width
          m.height;
    opaque_region = regions.trim s.opaque_region m.width m.height;
  }

  -- The pending state once it was applied.
  abbrev applied_pending : Pending R → Pending R
  applied_pending p = record p {
    state = record (p.state) {
      buffer = none;
      buffer_resource = none;
      damage = if p.commit.damage then regions.empty else p.state.damage;
      frame_callbacks = if p.commit.frame then [] else p.state.frame_callbacks;
    };
    commit = no_flags;
  }

  abbrev view_attached : Outside → (refresh : Bool) → Flags → Option ℕ → List (Option ℕ)
  view_attached o refresh f b = elim o.shown [
    | none ↦ []
    | some _ ↦ if refresh || f.geometry then b ∷ [] else []
  ]

  -- The rest of a commit, for a pending state of the two; the third component is what is left of it.
  -- When the buffer cannot be rasterized, the function returns with the commit's bits still set.
  abbrev pub finish_apply :
      Outside → Pending R → Surface R → (refresh : Bool) → Option (Option ℕ) → Surface R × Pending R
  finish_apply o p s refresh none = (
    s,
    record p {
      state = record (p.state) {
        damage = if p.commit.damage then regions.empty else p.state.damage;
        frame_callbacks = if p.commit.frame then [] else p.state.frame_callbacks;
      };
    },
  )
  finish_apply o p s refresh (some b) =
      let shown = if refresh then b else shown_or o.shown b in
      (
        record s {
          state = trimmed p.commit (size_of o b) (size_of o shown) s.state;
          attached = view_attached o refresh p.commit shown ++ s.attached;
        },
        applied_pending p,
      )

  -- The surface once its state is assigned.
  abbrev pub begun : Outside → Pending R → Surface R → Surface R
  begun o p s = record s {
    state = assigned p s.state;
    window = assigned_window p s.window;
    released = (if o.keeps then [] else replaced p s.state) ++ s.released;
  }

  -- The buffer to show, once it is rasterized.
  abbrev pub prepared : Outside → Flags → State R → Option (Option ℕ)
  prepared o f now =
      rasterize o now (refreshes o f) (if o.ready then now.buffer else shown_or o.shown now.buffer)

  abbrev pub apply_commit : Outside → Pending R → Surface R → Surface R × Pending R
  apply_commit o p s =
      finish_apply o p (begun o p s) (refreshes o p.commit)
        (prepared o p.commit (assigned p s.state))

  -- `passes`: the checks of explicit synchronization and of shared memory let the commit through.
  unfoldable pub surface_apply_pending : Outside → (passes cached : Bool) → Surface R → Surface R
  surface_apply_pending o false cached s = s
  surface_apply_pending o true true s =
      let (s', p) = apply_commit o s.cached s in record s' { cached = p }
  surface_apply_pending o true false s =
      let (s', p) = apply_commit o s.pending s in record s' { pending = p }

  -- `synchronized`: the surface is a subsurface that is.
  abbrev pub commit : Outside → (passes synchronized : Bool) → Surface R → Surface R
  commit o passes true s = if passes then cache_pending regions s else s
  commit o passes false s = surface_apply_pending o passes false s
