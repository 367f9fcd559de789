-- ===== src/Lock/Surfaces.antt =====
-- libswc/session_lock.c, lines 253 to 403: the surfaces of the locker.
use neuswc.Prelude.{
  ℕ, ◌+◌, ◌^◌, ◌%◌, Bool, true, false, not, ◌&&◌, ◌||◌, List, [], ◌∷◌, Option, none, some,
  if◌then◌else◌, ◌==◌,
}
use neuswc.Lock.State.{
  Screen, LockSurface, invalid_serial, before_first_ack, null_buffer, dimensions_mismatch,
  configure, error, show_surface, hide_surface, damage_all, Lock, say, focus_a_lock_surface,
  maybe_send_locked,
}

unfoldable pub find_screen : ℕ → List Screen → Option Screen
find_screen n [] = none
find_screen n (s ∷ ss) = if s.name == n then some s else find_screen n ss

unfoldable pub find_surface : ℕ → List LockSurface → Option LockSurface
find_surface r [] = none
find_surface r (s ∷ ss) = if s.resource == r then some s else find_surface r ss

-- A write through the pointer to a surface.
unfoldable pub modify : ℕ → (LockSurface → LockSurface) → List LockSurface → List LockSurface
modify r f [] = []
modify r f (s ∷ ss) = (if s.resource == r then f s else s) ∷ modify r f ss

unfoldable pub unlink : ℕ → List LockSurface → List LockSurface
unlink r [] = []
unlink r (s ∷ ss) = if s.resource == r then unlink r ss else s ∷ unlink r ss

abbrev pub screen_of : Option ℕ → List Screen → Option Screen
screen_of none ss = none
screen_of (some n) ss = find_screen n ss

-- The next serial of the display, on 32 bits.
abbrev pub next_serial : ℕ → ℕ
next_serial n = (n + 1) % 2 ^ 32

abbrev pub configure_on : LockSurface → Option Screen → Lock → Lock
configure_on s none l = l
configure_on s (some screen) l =
    say (configure s.resource (next_serial l.serial) screen.width screen.height) (record l {
      serial = next_serial l.serial;
      surfaces =
          modify s.resource (λ s. record s { configure_serial = next_serial l.serial }) l.surfaces;
    })

unfoldable pub send_configure : LockSurface → Lock → Lock
unfolding find_screen modify
send_configure s l = configure_on s (screen_of s.screen l.screens) l

-- The resource's user data, which is NULL when the surface is gone.
abbrev pub ack_found : ℕ → Option LockSurface → Lock → Lock
ack_found serial none l = l
ack_found serial (some s) l =
    if not (serial == s.configure_serial)
    then say (error s.resource invalid_serial) l
    else record l { surfaces = modify s.resource (λ s. record s { acked = true }) l.surfaces }

unfoldable pub lock_surface_ack_configure : (resource serial : ℕ) → Lock → Lock
unfolding modify find_surface
lock_surface_ack_configure r serial l = ack_found serial (find_surface r l.surfaces) l

abbrev pub map_surface : (under : ℕ → Bool) → LockSurface → Lock → Lock
map_surface under s l =
    if not s.mapped
    then focus_a_lock_surface under (
        say (show_surface s.resource)
          (record l { surfaces = modify s.resource (λ s. record s { mapped = true }) l.surfaces }))
    else l

-- A commit of a buffer, when it was acknowledged, on the surface's screen.
abbrev pub commit_on :
    (under : ℕ → Bool) (width height : ℕ) → LockSurface → Option Screen → Lock → Lock
commit_on under width height s none l = l
commit_on under width height s (some screen) l =
    if not (width == screen.width) || not (height == screen.height)
    then say (error s.resource dimensions_mismatch) l
    else maybe_send_locked (map_surface under s l)

abbrev pub commit_found :
    (under : ℕ → Bool) (has_buffer : Bool) (width height : ℕ) → LockSurface → Lock → Lock
commit_found under has_buffer width height s l =
    if has_buffer && not s.acked
    then say (error s.resource before_first_ack) l
    else if not has_buffer
    then (if s.mapped then say (error s.resource null_buffer) l else l)
    else commit_on under width height s (screen_of s.screen l.screens) l

-- The buffer and the size are those of the surface's view.
unfoldable pub handle_lock_surface_commit :
    (under : ℕ → Bool) (has_buffer : Bool) (width height : ℕ) → LockSurface → Lock → Lock
unfolding focus_a_lock_surface maybe_send_locked modify find_screen
handle_lock_surface_commit under has_buffer width height s l =
    commit_found under has_buffer width height s l

-- The destructor, also of a surface that ends first.
unfoldable pub destroy_lock_surface : LockSurface → Lock → Lock
unfolding unlink
destroy_lock_surface s l =
    let rest = record l { surfaces = unlink s.resource l.surfaces } in
    if l.locked then say damage_all rest else rest

unfoldable pub handle_lock_screen_destroy : LockSurface → Lock → Lock
unfolding modify maybe_send_locked
handle_lock_screen_destroy s l =
    let off = record l {
      surfaces = modify s.resource (λ s. record s { screen = none; mapped = false }) l.surfaces;
    } in
    maybe_send_locked (if s.mapped then say (hide_surface s.resource) off else off)
