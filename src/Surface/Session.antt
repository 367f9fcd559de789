-- ===== src/Surface/Session.antt =====
-- libswc/surface.c: all sequences of requests, commits and frames of a surface.
use neuswc.Prelude.{ℕ, Bool, true, List, [], ◌∷◌, ◌++◌, Option, none}
use neuswc.Prelude.Int.{ℤ, pos}
use neuswc.Surface.State.{
  Rect, Regions, State, Pending, Surface, no_flags, state_initialize, attach, damage, frame,
  set_opaque_region, set_input_region, set_buffer_transform, set_buffer_scale, damage_buffer,
}
use neuswc.Surface.Commit.{Outside, commit, surface_apply_pending}

-- handle_frame: the callbacks in the order in which they are done, and the state without them.
abbrev pub handle_frame : {R : Type 0} → State R → List ℕ × State R
handle_frame s = (s.frame_callbacks, record s { frame_callbacks = [] })

-- `cached_applied` is the commit of a parent surface, or set_desync, that applies what is cached.
pub data Event (R : Type 0) : Type 0 where
  attached : Option ℕ → (x y : ℤ) → Event R
  damaged buffer_damaged : Rect → Event R
  framed : Option ℕ → Event R
  opaque_set input_set : Option R → Event R
  transform_set scale_set : ℤ → Event R
  committed : Outside → (passes synchronized : Bool) → Event R
  cached_applied : Outside → (passes : Bool) → Event R
  frame_done : Event R

-- A surface with the callbacks that were done, the last ones first.
pub record Session (R : Type 0) : Type 0 where
  pub surface : Surface R
  pub done : List ℕ

module _ {R : Type 0} (regions : Regions R) (get : ℕ → Option ℕ) where
  abbrev on_pending : (Pending R → Pending R) → Session R → Session R
  on_pending f s = record s { surface = record (s.surface) { pending = f s.surface.pending } }

  abbrev on_surface : (Surface R → Surface R) → Session R → Session R
  on_surface f s = record s { surface = f s.surface }

  unfoldable pub step : Event R → Session R → Session R
  step (attached resource x y) s = on_pending (attach regions get resource x y) s
  step (damaged r) s = on_pending (damage regions r) s
  step (buffer_damaged r) s = on_pending (damage_buffer regions r) s
  step (framed callback) s = on_pending (frame regions callback) s
  step (opaque_set r) s = on_pending (set_opaque_region regions r) s
  step (input_set r) s = on_pending (set_input_region regions r) s
  step (transform_set t) s = on_pending (λ p. (set_buffer_transform regions t p).0) s
  step (scale_set n) s = on_pending (λ p. (set_buffer_scale regions n p).0) s
  step (committed o passes synchronized) s = on_surface (commit regions o passes synchronized) s
  step (cached_applied o passes) s = on_surface (surface_apply_pending regions o passes true) s
  step frame_done s =
      let (callbacks, state) = handle_frame s.surface.state in
      record { surface = record (s.surface) { state = state }; done = callbacks ++ s.done }

  unfoldable pub run : List (Event R) → Session R → Session R
  run [] s = s
  run (e ∷ es) s = run es (step e s)

module _ {R : Type 0} (regions : Regions R) where
  -- The source leaves the position and the window geometry unset, and reads them only once they are set.
  abbrev pending_initialize : Pending R
  pending_initialize = record {
    state = state_initialize regions;
    commit = no_flags;
    x = pos 0;
    y = pos 0;
    window_geometry = record { x = pos 0; y = pos 0; width = pos 0; height = pos 0 };
  }

  abbrev pub surface_new : Session R
  surface_new = record {
    surface = record {
      state = state_initialize regions;
      pending = pending_initialize;
      cached = pending_initialize;
      window = none;
      released = [];
      attached = [];
    };
    done = [];
  }
