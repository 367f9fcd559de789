-- ===== src/Subsurface/State.antt =====
-- libswc/subsurface.c, lines 72 to 103 and 165 to 317, and the lists of libswc/surface.h: the children of
-- one parent surface and its three orders of them.
use neuswc.Prelude.{
  ℕ, Bool, true, false, not, ◌&&◌, ◌||◌, List, [], ◌∷◌, ◌++◌, Option, none, some, if◌then◌else◌,
  ◌==◌,
}
use neuswc.Prelude.Int.{ℤ}

pub record Point : Type 0 where
  pub x : ℤ
  pub y : ℤ

-- struct subsurface without its links; `surface` is the address of its wl_surface.
pub record Child : Type 0 where
  pub surface : ℕ
  pub position : Point
  pub pending_point : Point
  pub pending_position : Bool
  pub cached_point : Point
  pub cached_position : Bool
  pub order_dirty : Bool
  pub cached_order_dirty : Bool
  pub sync : Bool
  pub added : Bool

-- `subsurfaces_below` and `subsurfaces_above` of a surface_state, by the addresses of the children.
pub record Order : Type 0 where
  pub below : List ℕ
  pub above : List ℕ

-- compositor_view_restack: the view of `child` goes just above or below that of `next_to`, which is that
-- of the parent when there is none.
pub record Restack : Type 0 where
  pub child : ℕ
  pub next_to : Option ℕ
  pub above : Bool

-- A parent surface. `child` is what an address holds. `state`, `pending` and `cached` are the orders on
-- the lists of current_link, pending_link and cached_link. `has_view`: the surfaces, by their addresses,
-- that have a view.
pub record Parent : Type 0 where
  pub surface : ℕ
  pub subsurfaces : List ℕ
  pub child : ℕ → Child
  pub pending : Order
  pub cached : Order
  pub state : Order
  pub applying_cached : Bool
  pub has_view : ℕ → Bool
  pub restacks : List Restack

abbrev pub member : ℕ → List ℕ → Bool
member id [] = false
member id (x ∷ xs) = if x == id then true else member id xs

-- `wl_list_remove` of the link of a child.
abbrev pub erase : ℕ → List ℕ → List ℕ
erase id [] = []
erase id (x ∷ xs) = if x == id then xs else x ∷ erase id xs

unfoldable pub remove_link : ℕ → Order → Order
remove_link id o =
    if member id o.below
    then record o { below = erase id o.below }
    else record o { above = erase id o.above }

-- `wl_list_insert` at the link of a sibling, and at the link before it.
abbrev pub insert_after : (sibling id : ℕ) → List ℕ → List ℕ
insert_after sibling id [] = []
insert_after sibling id (x ∷ xs) =
    if x == sibling then x ∷ id ∷ xs else x ∷ insert_after sibling id xs

abbrev pub insert_before : (sibling id : ℕ) → List ℕ → List ℕ
insert_before sibling id [] = []
insert_before sibling id (x ∷ xs) =
    if x == sibling then id ∷ x ∷ xs else x ∷ insert_before sibling id xs

-- On the list that the sibling's link is on.
abbrev pub at_link : (List ℕ → List ℕ) → (sibling : ℕ) → Order → Order
at_link f sibling o =
    if member sibling o.below
    then record o { below = f o.below }
    else record o { above = f o.above }

-- A search of the children for a surface.
abbrev pub find_with_surface : (ℕ → Child) → (id : ℕ) → (surface : ℕ) → List ℕ → Option ℕ
find_with_surface child id surface [] = none
find_with_surface child id surface (x ∷ xs) =
    if (child x).surface == surface && not (x == id)
    then some x
    else find_with_surface child id surface xs

abbrev pub or_found : Option ℕ → Option ℕ → Option ℕ
or_found none o = o
or_found (some x) o = some x

unfoldable pub subsurface_find_sibling : ℕ → (surface : ℕ) → Parent → Option ℕ
subsurface_find_sibling id surface p =
    or_found (find_with_surface p.child id surface p.pending.below)
      (find_with_surface p.child id surface p.pending.above)

-- A valid sibling is the parent or another child.
pub data Sibling : Type 0 where
  invalid the_parent : Sibling
  the_child : ℕ → Sibling

abbrev pub sibling_of : Option ℕ → Sibling
sibling_of none = invalid
sibling_of (some s) = the_child s

-- A child whose `parent` is this surface is on its list `subsurfaces`.
abbrev valid_surface : ℕ → (surface : ℕ) → Parent → Sibling
valid_surface id surface p =
    if not (member id p.subsurfaces) || surface == (p.child id).surface
    then invalid
    else if surface == p.surface
    then the_parent
    else sibling_of (subsurface_find_sibling id surface p)

-- A wl_surface that has no data any more is none.
unfoldable pub is_valid_sibling : ℕ → (sibling_surface : Option ℕ) → Parent → Sibling
is_valid_sibling id none p = invalid
is_valid_sibling id (some surface) p = valid_surface id surface p

abbrev pub write_child : ℕ → (Child → Child) → (ℕ → Child) → ℕ → Child
write_child id f child x = if x == id then f (child x) else child x

abbrev pub set_order_dirty : Child → Child
set_order_dirty c = record c { order_dirty = true }

abbrev placed : ℕ → Order → Parent → Parent
placed id o p = record p { pending = o; child = write_child id set_order_dirty p.child }

-- What is done once the sibling is known.
abbrev pub above_sibling : ℕ → Sibling → Order → Order
above_sibling id invalid o = o
above_sibling id the_parent o =
    let rest = remove_link id o in record rest { above = id ∷ rest.above }
above_sibling id (the_child s) o = at_link (insert_after s id) s (remove_link id o)

abbrev pub below_sibling : ℕ → Sibling → Order → Order
below_sibling id invalid o = o
below_sibling id the_parent o =
    let rest = remove_link id o in record rest { below = rest.below ++ (id ∷ []) }
below_sibling id (the_child s) o = at_link (insert_before s id) s (remove_link id o)

-- The parent, and whether the error bad_surface is posted.
abbrev pub place : (Sibling → Order → Order) → ℕ → Sibling → Parent → Parent × Bool
place f id invalid p = (p, true)
place f id the_parent p = (placed id (f the_parent p.pending) p, false)
place f id (the_child s) p = (placed id (f (the_child s) p.pending) p, false)

unfoldable pub place_above : ℕ → Option ℕ → Parent → Parent × Bool
place_above id surface p = place (above_sibling id) id (is_valid_sibling id surface p) p

unfoldable pub place_below : ℕ → Option ℕ → Parent → Parent × Bool
place_below id surface p = place (below_sibling id) id (is_valid_sibling id surface p) p
