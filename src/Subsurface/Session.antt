-- ===== src/Subsurface/Session.antt =====
-- libswc/subsurface.c: all sequences of requests on the children of a surface, with the commits of
-- the surface that libswc/surface.c applies at once.
use neuswc.Prelude.{ℕ, Bool, false, List, [], ◌∷◌, Option}
use neuswc.Subsurface.State.{Point, Child, Order, Parent, place_above, place_below}
use neuswc.Subsurface.Commit.{
  subsurface_parent_commit, subsurface_new, subsurface_destroy, set_position, set_parent_view,
}

pub data Event : Type 0 where
  placed_above placed_below : (id : ℕ) → (sibling : Option ℕ) → Event
  positioned : (id : ℕ) → Point → Event
  created : (made : Bool) → (id surface : ℕ) → Event
  destroyed : (id : ℕ) → Event
  view_changed : (given : Bool) → Event
  committed : Event

-- surface_apply_pending with `cached` false.
unfoldable pub commit_at_once : Parent → Parent
commit_at_once p = subsurface_parent_commit (record p { applying_cached = false })

unfoldable pub step : Event → Parent → Parent
step (placed_above id sibling) p = (place_above id sibling p).0
step (placed_below id sibling) p = (place_below id sibling p).0
step (positioned id point) p = set_position id point p
step (created made id surface) p = subsurface_new made id surface p
step (destroyed id) p = subsurface_destroy id p
step (view_changed given) p = set_parent_view given p
step committed p = commit_at_once p

unfoldable pub run : List Event → Parent → Parent
run [] p = p
run (e ∷ es) p = run es (step e p)

abbrev pub no_children : Order
no_children = record { below = []; above = [] }

-- A new surface.
abbrev pub childless : (surface : ℕ) → (child : ℕ → Child) → (has_view : ℕ → Bool) → Parent
childless surface child has_view = record {
  surface = surface;
  subsurfaces = [];
  child = child;
  pending = no_children;
  cached = no_children;
  state = no_children;
  applying_cached = false;
  has_view = has_view;
  restacks = [];
}
