-- ===== src/Surface/Cache.antt =====
-- libswc/surface.c, lines 227 to 255: how a commit is cached.
use neuswc.Prelude.{
  ℕ, Bool, true, false, not, ◌||◌, ◌&&◌, List, [], ◌∷◌, ◌++◌, Option, none, some, if◌then◌else◌,
  ◌==◌,
}
use neuswc.Surface.State.{Regions, Flags, no_flags, State, Pending, Surface}

abbrev pub or_flags : Flags → Flags → Flags
or_flags a b = record {
  attach = a.attach || b.attach;
  damage = a.damage || b.damage;
  opaque_region = a.opaque_region || b.opaque_region;
  input = a.input || b.input;
  frame = a.frame || b.frame;
  geometry = a.geometry || b.geometry;
  scale = a.scale || b.scale;
  transform = a.transform || b.transform;
  damage_buffer = a.damage_buffer || b.damage_buffer;
}

abbrev pub same_buffer : Option ℕ → Option ℕ → Bool
same_buffer none none = true
same_buffer none (some _) = false
same_buffer (some _) none = false
same_buffer (some a) (some b) = a == b

abbrev pub resource_list : Option ℕ → List ℕ
resource_list none = []
resource_list (some r) = r ∷ []

module _ {R : Type 0} (regions : Regions R) where
  -- What cache_pending puts into the cached state.
  abbrev pub merged_state : Flags → State R → State R → State R
  merged_state f p c = record {
    buffer = if f.attach then p.buffer else c.buffer;
    buffer_resource = if f.attach then p.buffer_resource else c.buffer_resource;
    damage = if f.damage then regions.union c.damage p.damage else c.damage;
    opaque_region = if f.opaque_region then p.opaque_region else c.opaque_region;
    input = if f.input then p.input else c.input;
    buffer_scale = if f.scale then p.buffer_scale else c.buffer_scale;
    buffer_transform = if f.transform then p.buffer_transform else c.buffer_transform;
    frame_callbacks = c.frame_callbacks ++ p.frame_callbacks;
  }

  unfoldable pub merged : Pending R → Pending R → Pending R
  merged p c = record {
    state = merged_state p.commit p.state c.state;
    commit = or_flags c.commit p.commit;
    x = if p.commit.attach then p.x else c.x;
    y = if p.commit.attach then p.y else c.y;
    window_geometry = if p.commit.geometry then p.window_geometry else c.window_geometry;
  }

  -- The pending state after cache_pending.
  abbrev drained : Pending R → Pending R
  drained p = record p {
    state = record (p.state) {
      buffer = if p.commit.attach then none else p.state.buffer;
      buffer_resource = if p.commit.attach then none else p.state.buffer_resource;
      damage = regions.empty;
      frame_callbacks = [];
    };
    commit = no_flags;
  }

  -- The wl_buffer of a cached commit that another one replaces goes back to the client.
  abbrev cache_released : Pending R → Pending R → List ℕ
  cache_released p c =
      if p.commit.attach && not (same_buffer c.state.buffer p.state.buffer)
      then resource_list c.state.buffer_resource
      else []

  unfoldable pub cache_pending : Surface R → Surface R
  cache_pending s = record s {
    cached = merged s.pending s.cached;
    pending = drained s.pending;
    released = cache_released s.pending s.cached ++ s.released;
  }
