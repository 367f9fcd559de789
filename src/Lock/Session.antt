-- ===== src/Lock/Session.antt =====
-- Every sequence of events of libswc/session_lock.c.
use mathlib.Core.List.{Memᴰ}
use neuswc.Prelude.{ℕ, ◌≡◌, Bool, false, List, [], ◌∷◌, Option, none, some, if◌then◌else◌, ◌==◌}
use neuswc.Lock.State.{Screen, LockSurface, Lock, clear_saved_focus}
use neuswc.Lock.Surfaces.{
  lock_surface_ack_configure, handle_lock_surface_commit, destroy_lock_surface,
  handle_lock_screen_destroy,
}
use neuswc.Lock.Requests.{
  same_screen, Found, get_lock_surface, unlock_and_destroy, destroy_lock, manager_lock,
  session_lock_frame_presented,
}

unfoldable pub drop_screen : ℕ → List Screen → List Screen
drop_screen n [] = []
drop_screen n (s ∷ ss) = if s.name == n then drop_screen n ss else s ∷ drop_screen n ss

-- The listeners of the screen's destroy signal.
unfoldable pub tell_surfaces : ℕ → List LockSurface → Lock → Lock
tell_surfaces n [] l = l
tell_surfaces n (s ∷ ss) l =
    tell_surfaces n ss (if same_screen (some n) s.screen then handle_lock_screen_destroy s l else l)

-- A screen leaves the list before its destroy signal.
unfoldable pub end_screen : ℕ → Lock → Lock
unfolding drop_screen tell_surfaces
end_screen n l = tell_surfaces n l.surfaces (record l { screens = drop_screen n l.screens })

-- The calls and callbacks, each with what it leaves behind.
pub data Step (l : Lock) (t : Lock) : Type 0 where
  ask :
      (granted : Bool) (id : ℕ) (owner : Option ℕ → Option ℕ)
      → manager_lock granted id owner l ≡ t
      → Step l t
  unlock : (r : ℕ) → unlock_and_destroy r l ≡ t → Step l t
  leave : (r : ℕ) → destroy_lock r l ≡ t → Step l t
  get : (r id : ℕ) (f : Found) (screen : Option ℕ) → get_lock_surface r id f screen l ≡ t → Step l t
  ack : (r serial : ℕ) → lock_surface_ack_configure r serial l ≡ t → Step l t
  commit :
      (under : ℕ → Bool) (has_buffer : Bool) (width height : ℕ) (s : LockSurface)
      → Memᴰ s l.surfaces
      → handle_lock_surface_commit under has_buffer width height s l ≡ t
      → Step l t
  end_surface : (s : LockSurface) → Memᴰ s l.surfaces → destroy_lock_surface s l ≡ t → Step l t
  present :
      (screen generation : ℕ) → session_lock_frame_presented screen generation l ≡ t → Step l t
  plug : (s : Screen) → s.presented ≡ 0 → record l { screens = s ∷ l.screens } ≡ t → Step l t
  unplug : (n : ℕ) → end_screen n l ≡ t → Step l t
  end_focus : clear_saved_focus l ≡ t → Step l t

-- `session_lock_manager_create`, the rest of the struct being 0.
abbrev pub created : Bool → Lock
created has_keyboard = record {
  resource = none;
  locked = false;
  sent_locked = false;
  views_hidden = false;
  generation = 0;
  surfaces = [];
  saved_focus = none;
  screens = [];
  has_keyboard = has_keyboard;
  focus = none;
  serial = 0;
  sent = [];
}

pub data Reach : Lock → Type 0 where
  start : (has_keyboard : Bool) → Reach (created has_keyboard)
  later : {l t : Lock} → Reach l → Step l t → Reach t
