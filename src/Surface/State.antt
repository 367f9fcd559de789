-- ===== src/Surface/State.antt =====
-- libswc/surface.c, lines 171 to 186 and 302 to 380 and 623 to 665, and libswc/surface.h: the states of a
-- surface, and the requests that change the pending one.
use neuswc.Prelude.{
  ℕ, ◌≡◌, Bool, true, false, ◌||◌, List, [], ◌∷◌, ◌++◌, Option, none, some, if◌then◌else◌, ◌==◌,
  ltb,
}
use neuswc.Prelude.Int.{ℤ, pos, ltb_ℤ}

pub record Rect : Type 0 where
  pub x : ℤ
  pub y : ℤ
  pub width : ℤ
  pub height : ℤ

-- The regions of pixman.
pub record Regions (R : Type 0) : Type 0 where
  pub empty : R
  pub infinite : R
  pub union : R → R → R
  pub rectangle : Rect → R
  pub trim : R → (width height : ℕ) → R

-- What pixman says of its unions.
pub record IsRegions {R : Type 0} (regions : Regions R) : Type 0 where
  pub union_assoc :
      (a b c : R) → regions.union (regions.union a b) c ≡ regions.union a (regions.union b c)
  pub union-empty : (a : R) → regions.union a regions.empty ≡ a

-- The bits of `commit`.
pub record Flags : Type 0 where
  pub attach : Bool
  pub damage : Bool
  pub opaque_region : Bool
  pub input : Bool
  pub frame : Bool
  pub geometry : Bool
  pub scale : Bool
  pub transform : Bool
  pub damage_buffer : Bool

abbrev pub no_flags : Flags
no_flags = record {
  attach = false;
  damage = false;
  opaque_region = false;
  input = false;
  frame = false;
  geometry = false;
  scale = false;
  transform = false;
  damage_buffer = false;
}

-- struct surface_state without the order of subsurfaces. A buffer is named by its address, and so are a
-- wl_buffer and a callback.
pub record State (R : Type 0) : Type 0 where
  pub buffer : Option ℕ
  pub buffer_resource : Option ℕ
  pub damage : R
  pub opaque_region : R
  pub input : R
  pub buffer_scale : ℕ
  pub buffer_transform : ℕ
  pub frame_callbacks : List ℕ

pub record Pending (R : Type 0) : Type 0 where
  pub state : State R
  pub commit : Flags
  pub x : ℤ
  pub y : ℤ
  pub window_geometry : Rect

-- `window` is the window geometry once there is one. `released` are the wl_buffers that release_buffer was
-- called for, and `attached` the buffers that were given to the view, the last one first.
pub record Surface (R : Type 0) : Type 0 where
  pub state : State R
  pub pending : Pending R
  pub cached : Pending R
  pub window : Option Rect
  pub released : List ℕ
  pub attached : List (Option ℕ)

module _ {R : Type 0} (regions : Regions R) where
  abbrev pub state_initialize : State R
  state_initialize = record {
    buffer = none;
    buffer_resource = none;
    damage = regions.empty;
    opaque_region = regions.empty;
    input = regions.infinite;
    buffer_scale = 1;
    buffer_transform = 0;
    frame_callbacks = [];
  }

  -- wayland_buffer_get, if there is a wl_buffer.
  abbrev pub buffer_of : (ℕ → Option ℕ) → Option ℕ → Option ℕ
  buffer_of get none = none
  buffer_of get (some r) = get r

  abbrev pub attach : (get : ℕ → Option ℕ) → Option ℕ → (x y : ℤ) → Pending R → Pending R
  attach get resource x y p = record p {
    state = record (p.state) { buffer = buffer_of get resource; buffer_resource = resource };
    commit = record (p.commit) { attach = true };
    x = x;
    y = y;
  }

  -- `width <= 0 || height <= 0`
  abbrev pub is_void : Rect → Bool
  is_void r = ltb_ℤ r.width (pos 1) || ltb_ℤ r.height (pos 1)

  abbrev pub damage : Rect → Pending R → Pending R
  damage r p = if is_void r then p else record p {
    state = record (p.state) { damage = regions.union p.state.damage (regions.rectangle r) };
    commit = record (p.commit) { damage = true };
  }

  -- `callback` is the resource, if there is memory for it.
  abbrev pub frame : Option ℕ → Pending R → Pending R
  frame none p = p
  frame (some c) p = record p {
    state = record (p.state) { frame_callbacks = p.state.frame_callbacks ++ (c ∷ []) };
    commit = record (p.commit) { frame = true };
  }

  abbrev region_or : R → Option R → R
  region_or r none = r
  region_or r (some q) = q

  abbrev pub set_opaque_region : Option R → Pending R → Pending R
  set_opaque_region r p = record p {
    state = record (p.state) { opaque_region = region_or regions.empty r };
    commit = record (p.commit) { opaque_region = true };
  }

  abbrev pub set_input_region : Option R → Pending R → Pending R
  set_input_region r p = record p {
    state = record (p.state) { input = region_or regions.infinite r };
    commit = record (p.commit) { input = true };
  }

  -- The second component says whether the error is posted. The least transform is 0, and the greatest 7.
  abbrev pub set_buffer_transform : ℤ → Pending R → Pending R × Bool
  set_buffer_transform (pos t) p = if ltb 7 t then (p, true) else (
    record p {
      state = record (p.state) { buffer_transform = t };
      commit = record (p.commit) { transform = true };
    },
    false,
  )
  set_buffer_transform _ p = (p, true)

  abbrev pub set_buffer_scale : ℤ → Pending R → Pending R × Bool
  set_buffer_scale (pos s) p = if s == 0 then (p, true) else (
    record p {
      state = record (p.state) { buffer_scale = s };
      commit = record (p.commit) { scale = true };
    },
    false,
  )
  set_buffer_scale _ p = (p, true)

  abbrev pub damage_buffer : Rect → Pending R → Pending R
  damage_buffer r p =
      if is_void r then p else record p { commit = record (p.commit) { damage_buffer = true } }
