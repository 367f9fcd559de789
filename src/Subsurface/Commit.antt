-- ===== src/Subsurface/Commit.antt =====
-- libswc/subsurface.c, lines 34 to 48, 150 to 153, 230 to 261, 319 to 488 and 499 to 632: the commits of
-- the parent, and the life of a child.
use neuswc.Prelude.{
  ℕ, Bool, true, false, not, ◌&&◌, ◌||◌, List, [], ◌∷◌, ◌++◌, Option, none, some, if◌then◌else◌,
  ◌==◌,
}
use neuswc.Prelude.Int.{pos}
use neuswc.Subsurface.State.{
  Point, Child, Order, Restack, Parent, erase, remove_link, write_child, set_order_dirty,
}

-- subsurface_is_synchronized, on the flags `sync` from a child up to the last ancestor that is one.
abbrev pub subsurface_is_synchronized : List Bool → Bool
subsurface_is_synchronized [] = false
subsurface_is_synchronized (sync ∷ ancestors) =
    if sync then true else subsurface_is_synchronized ancestors

abbrev pub is_dirty : (applying_cached : Bool) → Child → Bool
is_dirty applying_cached c = if applying_cached then c.cached_order_dirty else c.order_dirty

abbrev pub clear_dirty : (applying_cached : Bool) → Child → Child
clear_dirty applying_cached c = record c {
  order_dirty = if applying_cached then c.order_dirty else false;
  cached_order_dirty = if applying_cached then false else c.cached_order_dirty;
}

-- The loop of take_order_dirty.
unfoldable pub take_order_dirty :
    (applying_cached : Bool) → List ℕ → (ℕ → Child) → Bool × (ℕ → Child)
take_order_dirty cached [] child = (false, child)
take_order_dirty cached (x ∷ xs) child =
    let rest = take_order_dirty cached xs (write_child x (clear_dirty cached) child) in
    (is_dirty cached (child x) || rest.0, rest.1)

abbrev apply_position : (applying_cached : Bool) → Child → Child
apply_position true c =
    if c.cached_position then record c { cached_position = false; position = c.cached_point } else c
apply_position false c =
    if c.pending_position
    then record c { pending_position = false; position = c.pending_point }
    else c

-- The loop of apply_pending_positions.
unfoldable pub apply_pending_positions : (applying_cached : Bool) → List ℕ → (ℕ → Child) → ℕ → Child
apply_pending_positions cached [] child = child
apply_pending_positions cached (x ∷ xs) child =
    apply_pending_positions cached xs (write_child x (apply_position cached) child)

-- The views of the children that have one, each next to the one before.
unfoldable pub restack_all :
    (has_view : ℕ → Bool)
    → (ℕ → Child)
    → (above : Bool) → (next_to : Option ℕ) → List ℕ
    → List Restack
restack_all has_view child above t [] = []
restack_all has_view child above t (x ∷ xs) =
    if has_view (child x).surface
    then record { child = x; next_to = t; above = above }
      ∷ restack_all has_view child above (some x) xs
    else restack_all has_view child above t xs

abbrev reverse_onto : List ℕ → List ℕ → List ℕ
reverse_onto ys [] = ys
reverse_onto ys (x ∷ xs) = reverse_onto (x ∷ ys) xs

abbrev restacked : Parent → (ℕ → Child) → Order → List Restack
restacked p child o =
    if p.has_view p.surface
    then restack_all p.has_view child false none (reverse_onto [] o.below)
      ++ restack_all p.has_view child true none o.above
    else []

-- `added` of every child on a list.
abbrev mark_added : List ℕ → (ℕ → Child) → ℕ → Child
mark_added [] child = child
mark_added (x ∷ xs) child = mark_added xs (write_child x (λ c. record c { added = true }) child)

-- The commit when an order changed: the lists of current_link are made again.
abbrev pub commit_order : Parent → (ℕ → Child) → Parent
commit_order p child =
    let o = if p.applying_cached then p.cached else p.pending in
    let moved = apply_pending_positions p.applying_cached p.subsurfaces child in
    record p {
      state = o;
      restacks = p.restacks ++ restacked p child o;
      child = mark_added o.above (mark_added o.below moved);
    }

-- And when none did.
abbrev pub commit_positions : Parent → (ℕ → Child) → Parent
commit_positions p child = record p {
  child = apply_pending_positions p.applying_cached p.subsurfaces child;
}

unfoldable pub subsurface_parent_commit : Parent → Parent
subsurface_parent_commit p =
    let dirty = take_order_dirty p.applying_cached p.subsurfaces p.child in
    if dirty.0 then commit_order p dirty.1 else commit_positions p dirty.1

abbrev pub cache_child : Child → Child
cache_child c = record c {
  cached_order_dirty = c.cached_order_dirty || c.order_dirty;
  order_dirty = false;
  cached_point = if c.pending_position then c.pending_point else c.cached_point;
  cached_position = if c.pending_position then true else c.cached_position;
  pending_position = false;
}

abbrev pub cache_all : List ℕ → (ℕ → Child) → ℕ → Child
cache_all [] child = child
cache_all (x ∷ xs) child = cache_all xs (write_child x cache_child child)

-- Every child on the pending lists has its link put on the cached ones.
unfoldable pub subsurface_cache_parent_commit : Parent → Parent
subsurface_cache_parent_commit p = record p {
  cached = p.pending;
  child = cache_all p.subsurfaces p.child;
}

unfoldable pub set_position : ℕ → Point → Parent → Parent
set_position id point p = record p {
  child = write_child id (λ c. record c { pending_point = point; pending_position = true }) p.child;
}

abbrev pub set_sync : ℕ → Parent → Parent
set_sync id p = record p { child = write_child id (λ c. record c { sync = true }) p.child }

-- `ancestors` are the flags of the ancestors, `pending` says whether a commit of the child's surface is
-- cached; the second component whether that is committed now.
unfoldable pub set_desync : ℕ → (ancestors : List Bool) → (pending : Bool) → Parent → Parent × Bool
set_desync id ancestors pending p = (
  record p { child = write_child id (λ c. record c { sync = false }) p.child },
  subsurface_is_synchronized ((p.child id).sync ∷ ancestors)
      && (not (subsurface_is_synchronized (false ∷ ancestors)) && pending),
)

abbrev origin : Point
origin = record { x = pos 0; y = pos 0 }

abbrev pub new_child : ℕ → Child
new_child surface = record {
  surface = surface;
  position = origin;
  pending_point = origin;
  pending_position = false;
  cached_point = origin;
  cached_position = false;
  order_dirty = true;
  cached_order_dirty = false;
  sync = true;
  added = false;
}

-- `made`: memory, the role and the views are there. Otherwise nothing is linked.
unfoldable pub subsurface_new : (made : Bool) → (id surface : ℕ) → Parent → Parent
subsurface_new made id surface p =
    if made
    then record p {
      subsurfaces = id ∷ p.subsurfaces;
      pending = record (p.pending) { above = p.pending.above ++ (id ∷ []) };
      child = write_child id (λ _. new_child surface) p.child;
    }
    else p

unfoldable pub subsurface_destroy : ℕ → Parent → Parent
subsurface_destroy id p = record p {
  subsurfaces = erase id p.subsurfaces;
  pending = remove_link id p.pending;
  cached = remove_link id p.cached;
  state = remove_link id p.state;
}

abbrev pub all_dirty : List ℕ → (ℕ → Child) → ℕ → Child
all_dirty [] child = child
all_dirty (x ∷ xs) child = all_dirty xs (write_child x set_order_dirty child)

-- subsurface_set_parent_view for every child, with the new view of the parent or none.
unfoldable pub set_parent_view : (given : Bool) → Parent → Parent
set_parent_view given p = record p {
  child = if given then all_dirty p.subsurfaces p.child else p.child;
  has_view = λ s. if s == p.surface then given else p.has_view s;
}
