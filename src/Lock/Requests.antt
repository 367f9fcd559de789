-- ===== src/Lock/Requests.antt =====
-- libswc/session_lock.c, lines 405 to 648: the requests on a lock, and the frames.
use neuswc.Prelude.{
  ℕ, Bool, true, false, not, ◌||◌, List, [], ◌∷◌, ◌++◌, Option, none, some, if◌then◌else◌, ◌==◌,
}
use neuswc.Lock.State.{
  Screen, LockSurface, role, already_constructed, duplicate_output, invalid_unlock, no_memory,
  error, finished, damage_all, Lock, say, clear_saved_focus, maybe_send_locked, begin_lock,
  end_lock,
}
use neuswc.Lock.Surfaces.{send_configure, destroy_lock_surface}

-- `lock.resource == resource`.
abbrev pub is_holder : ℕ → Option ℕ → Bool
is_holder r none = false
is_holder r (some q) = q == r

-- `screen && lock_surface->screen == screen`.
abbrev pub same_screen : Option ℕ → Option ℕ → Bool
same_screen none s = false
same_screen (some n) none = false
same_screen (some n) (some m) = m == n

unfoldable pub has_duplicate : Option ℕ → List LockSurface → Bool
has_duplicate screen [] = false
has_duplicate screen (s ∷ ss) =
    if same_screen screen s.screen then true else has_duplicate screen ss

abbrev pub new_surface : ℕ → Option ℕ → LockSurface
new_surface id screen = record {
  resource = id;
  screen = screen;
  configure_serial = 0;
  acked = false;
  mapped = false;
}

-- What the surface and the allocator answer: whether the object is a surface, whether that has a
-- buffer, whether there is memory for the struct, the resource and the view, and whether the surface
-- takes the role.
pub record Found : Type 0 where
  pub is_surface : Bool
  pub has_buffer : Bool
  pub granted : Bool
  pub takes_role : Bool

unfoldable pub get_lock_surface : (resource id : ℕ) → Found → (screen : Option ℕ) → Lock → Lock
unfolding has_duplicate send_configure
get_lock_surface r id f screen l =
    if not (is_holder r l.resource)
    then l
    else if not f.is_surface
    then say (error r role) l
    else if f.has_buffer
    then say (error r already_constructed) l
    else if has_duplicate screen l.surfaces
    then say (error r duplicate_output) l
    else if not f.granted
    then say (error r no_memory) l
    else if not f.takes_role
    then say (error r role) l
    else send_configure (new_surface id screen)
        (record l { surfaces = l.surfaces ++ new_surface id screen ∷ [] })

-- The resource is destroyed after the end; its destructor then finds that it is not the holder.
unfoldable pub unlock_and_destroy : ℕ → Lock → Lock
unfolding end_lock
unlock_and_destroy r l =
    if not (is_holder r l.resource)
    then say (error r invalid_unlock) l
    else if not l.sent_locked
    then say (error r invalid_unlock) l
    else end_lock l

unfoldable pub destroy_lock : ℕ → Lock → Lock
destroy_lock r l =
    if not (is_holder r l.resource)
    then l
    else (let left = record l { resource = none } in if l.locked then say damage_all left else left)

unfoldable pub manager_lock : (granted : Bool) (id : ℕ) (owner : Option ℕ → Option ℕ) → Lock → Lock
unfolding begin_lock
manager_lock granted id owner l =
    if not granted
    then say (error id no_memory) l
    else if l.locked
    then say (finished id) l
    else begin_lock owner (record l { resource = some id })

unfoldable pub session_lock_generation : Lock → ℕ
session_lock_generation l = if l.locked then l.generation else 0

unfoldable pub set_presented : (screen generation : ℕ) → List Screen → List Screen
set_presented n g [] = []
set_presented n g (s ∷ ss) =
    (if s.name == n then record s { presented = g } else s) ∷ set_presented n g ss

unfoldable pub session_lock_frame_presented : (screen generation : ℕ) → Lock → Lock
unfolding set_presented maybe_send_locked
session_lock_frame_presented n g l =
    if not l.locked || g == 0 || not (g == l.generation)
    then l
    else maybe_send_locked (record l { screens = set_presented n g l.screens })

unfoldable pub destroy_surfaces : List LockSurface → Lock → Lock
unfolding destroy_lock_surface
destroy_surfaces [] l = l
destroy_surfaces (s ∷ ss) l = destroy_surfaces ss (destroy_lock_surface s l)

-- The resource's destructor finds the session unlocked.
unfoldable pub session_lock_finish : Lock → Lock
unfolding destroy_surfaces
session_lock_finish l = record (clear_saved_focus (destroy_surfaces l.surfaces l)) {
  locked = false;
  resource = none;
}
