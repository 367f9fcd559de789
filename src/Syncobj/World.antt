-- ===== src/Syncobj/World.antt =====
-- libswc/drm_syncobj.c, lines 46 to 60, 112 to 140 and 256 to 359: timelines, points, and the ends of
-- a release point.
use neuswc.Prelude.{
  ℕ, zero, suc, ◌-◌, Bool, true, false, not, ◌&&◌, List, [], ◌∷◌, Option, none, some, if◌then◌else◌,
  ◌==◌,
}

-- `timeline` is the address of the timeline, or NULL.
pub record Point : Type 0 where
  pub timeline : Option ℕ
  pub value : ℕ

-- What the rest of the system sees: the fate of a release point (signalled from here, handed to the
-- kernel behind the fence of the renderer, or given up), `wl_buffer.release`, a buffer put on
-- screen, the references of a buffer, and an error of the client.
pub data Event : Type 0 where
  signalled fenced abandoned : Point → Event
  released : ℕ → Event
  shown : (buffer scale transform : ℕ) → Event
  referenced unreferenced : ℕ → Event
  posted : Event

-- `refs` of a timeline that is freed is 0, and `faulty` says that one has been used after that.
-- `deferred` are the points of `deferred_releases`, and `log` the events, the last one first.
pub record World : Type 0 where
  pub refs : ℕ → ℕ
  pub faulty : Bool
  pub deferred : List Point
  pub log : List Event

abbrev pub null_point : Point
null_point = record { timeline = none; value = 0 }

abbrev pub note : Event → World → World
note e w = record w { log = e ∷ w.log }

abbrev pub set_refs : ℕ → ℕ → (ℕ → ℕ) → ℕ → ℕ
set_refs t n refs u = if u == t then n else refs u

unfoldable pub timeline_ref : ℕ → World → World
timeline_ref t w =
    if w.refs t == 0
    then record w { faulty = true }
    else record w { refs = set_refs t (suc (w.refs t)) w.refs }

unfoldable pub timeline_unref : Option ℕ → World → World
timeline_unref none w = w
timeline_unref (some t) w =
    if w.refs t == 0
    then record w { faulty = true }
    else record w { refs = set_refs t (w.refs t - 1) w.refs }

-- The point itself is null afterwards, which the callers write.
abbrev pub point_clear : Point → World → World
point_clear p w = timeline_unref p.timeline w

-- `if (timeline) timeline_ref(timeline)`.
unfoldable pub ref_point : Option ℕ → World → World
ref_point none w = w
ref_point (some t) w = timeline_ref t w

-- The new point is `p`.
abbrev pub point_set : (old p : Point) → World → World
point_set old p w = timeline_unref old.timeline (ref_point p.timeline w)

-- Whether a pointer is not NULL.
abbrev pub is_some : Option ℕ → Bool
is_some none = false
is_some (some t) = true

unfoldable pub point_signal : Point → World → World
point_signal p w = if is_some p.timeline then point_clear p (note (signalled p) w) else w

-- What the renderer and the kernel answer to `point_release`: the work is done already, or there is
-- a fence, with whether the kernel attached it to the point, whether it is readable, and whether the
-- event loop can watch it.
pub data Gpu : Type 0 where
  finished : Gpu
  fence : (attached readable watchable : Bool) → Gpu

-- The point is put into a record of its own, and then cleared here.
unfoldable pub defer_release : Point → World → World
defer_release p w = point_clear p (record (point_set null_point p w) { deferred = p ∷ w.deferred })

-- The record that could not be watched is cleared again, if there was one; the point is given up.
unfoldable pub abandon : Point → World → World
abandon p w = point_clear p (note (abandoned p) w)

unfoldable pub release_behind : Gpu → Point → World → World
unfolding defer_release abandon
release_behind finished p w = point_signal p w
release_behind (fence attached readable watchable) p w =
    if not attached && not readable
    then (if watchable then defer_release p w else abandon p w)
    else (if attached then point_clear p (note (fenced p) w) else point_signal p w)

unfoldable pub point_release : Gpu → Point → World → World
point_release gpu p w = if is_some p.timeline then release_behind gpu p w else w

-- Whether `complete_point_release` and the end of the manager signal a deferred point.
unfoldable pub complete : (readable : Bool) → Point → World → World
complete readable p w = if readable then point_signal p w else point_clear p w

-- A deferred point is the `i`th of the list.
unfoldable pub remove_at {ℓ} : {A : Type ℓ} → ℕ → List A → List A
remove_at i [] = []
remove_at zero (x ∷ xs) = xs
remove_at (suc i) (x ∷ xs) = x ∷ remove_at i xs

unfoldable pub get_at {ℓ} : {A : Type ℓ} → List A → ℕ → Option A
get_at [] i = none
get_at (x ∷ xs) zero = some x
get_at (x ∷ xs) (suc i) = get_at xs i

-- `failed` is the error or hangup of the descriptor.
abbrev pub complete_found : (readable failed : Bool) → ℕ → Option Point → World → World
complete_found readable failed i none w = w
complete_found readable failed i (some p) w =
    if readable
    then complete true p (record w { deferred = remove_at i w.deferred })
    else (if failed then complete false p (record w { deferred = remove_at i w.deferred }) else w)

unfoldable pub complete_point_release : (readable failed : Bool) → ℕ → World → World
complete_point_release readable failed i w =
    complete_found readable failed i (get_at w.deferred i) w

unfoldable pub finish_all : (readable : ℕ → Bool) → ℕ → List Point → World → World
finish_all readable i [] w = record w { deferred = [] }
finish_all readable i (p ∷ ps) w = finish_all readable (suc i) ps (complete (readable i) p w)

unfoldable pub drm_syncobj_manager_finish : (readable : ℕ → Bool) → World → World
unfolding finish_all complete
drm_syncobj_manager_finish readable w = finish_all readable 0 w.deferred w
