-- ===== src/Syncobj/Commits.antt =====
-- libswc/drm_syncobj.c, lines 598 to 740 and 788 to 839: waiting for acquire points, and setting points.
use neuswc.Prelude.{
  ℕ, ◌+◌, ◌-◌, ◌*◌, ◌^◌, Bool, true, false, not, ◌||◌, [], ◌∷◌, ◌++◌, Option, none, some,
  if◌then◌else◌, ◌==◌, length,
}
use neuswc.Syncobj.World.{Point, referenced, posted, null_point, note, point_set, Gpu, get_at}
use neuswc.Syncobj.Queue.{
  max_pending_buffers, Commit, Pending, Synced, Committed, on_world, queue_drop, queue_show,
}

-- What exporting the acquire point gave: a descriptor, with whether it is readable and whether the
-- renderer waits for it; no descriptor was left; or none of these, with the eventfd that the kernel
-- agreed to signal, if it did.
pub data Export : Type 0 where
  exported : (fd : ℕ) (readable waited : Bool) → Export
  exhausted : Export
  unexported : Option ℕ → Export

unfoldable pub acquire_ready : Export → Bool × Option ℕ
acquire_ready (exported fd readable waited) =
    if readable || waited then (true, none) else (false, some fd)
acquire_ready exhausted = (false, none)
acquire_ready (unexported fd) = (false, fd)

-- What `drm_syncobj_surface_apply_commit` finds and is told: the committed state, with the buffer's
-- scale and transform of the commit; whether the commit is the cached one; the export; whether
-- memory and an event source are to be had, and the address of the struct; whether the renderer
-- samples the buffer; whether the replaced buffer is the one of the view; whether the point signals
-- before the deadline; and the renderer's fence.
pub record Answers : Type 0 where
  pub now : Committed
  pub applying_cached : Bool
  pub export : Export
  pub granted : Bool
  pub address : ℕ
  pub sampled : Bool
  pub on_view : Bool
  pub signals : Bool
  pub gpu : Gpu

-- The points of the new struct are null before they are set.
abbrev pub new_pending : Committed → (address buffer : ℕ) → Option ℕ → Commit → Pending
new_pending now address buffer fd commit = record {
  id = address;
  resource = now.resource;
  fd = fd;
  release = commit.release;
  acquire = commit.acquire;
  buffer = buffer;
  scale = now.scale;
  transform = now.transform;
}

abbrev pub make_room : Synced → Synced
make_room s =
    if length s.queue == max_pending_buffers then queue_drop (max_pending_buffers - 1) true s else s

-- The references that the new struct takes.
unfoldable pub hold_points : Pending → Synced → Synced
hold_points p s =
    on_world
      (λ w.
        point_set null_point p.release
          (point_set null_point p.acquire (note (referenced p.buffer) w)))
      s

abbrev pub enqueue : Pending → Synced → Synced
enqueue p s = record s { queue = s.queue ++ p ∷ [] }

-- `queue_add` once the event source is there.
unfoldable pub queue_add : Pending → Synced → Synced
unfolding queue_drop hold_points
queue_add p s = enqueue p (make_room (hold_points p s))

-- Whether the newest one has a descriptor, and that is readable.
abbrev pub is_readable : (readable : ℕ → Bool) → Option ℕ → Bool
is_readable readable none = false
is_readable readable (some fd) = readable fd

-- What `queue_settle` does with the newest one, at an index.
abbrev pub settle_at :
    (readable : ℕ → Bool) → Gpu → Committed → ℕ → Option Pending → Synced → Synced
settle_at readable gpu now index none s = s
settle_at readable gpu now index (some p) s =
    if is_readable readable p.fd then queue_show gpu now index s else s

unfoldable pub queue_settle : (readable : ℕ → Bool) → Gpu → Committed → Synced → Synced
queue_settle readable gpu now s =
    if length s.queue == 0
    then s
    else settle_at readable gpu now (length s.queue - 1) (get_at s.queue (length s.queue - 1)) s

pub data Error : Type 0 where
  no_buffer no_acquire_point no_release_point conflicting_points no_surface : Error

-- `point_hi << 32 | point_lo` of two 32-bit numbers.
abbrev pub point_value : (point_hi point_lo : ℕ) → ℕ
point_value point_hi point_lo = point_hi * 2 ^ 32 + point_lo

abbrev pub resource_point : (timeline value : ℕ) → Point
resource_point timeline value = record { timeline = some timeline; value = value }

-- `timeline` is the user data of the resource of a timeline.
unfoldable pub set_point :
    (timeline point_hi point_lo : ℕ) (acquire : Bool) → Synced → Synced × Option Error
set_point timeline point_hi point_lo acquire s =
    let p = resource_point timeline (point_value point_hi point_lo) in
    if not s.has_surface
    then (on_world (note posted) s, some no_surface)
    else (if acquire
        then (
          record s {
            pending = record s.pending { acquire = p; has_acquire = true };
            world = point_set s.pending.acquire p s.world;
          },
          none,
        )
        else (
          record s {
            pending = record s.pending { release = p; has_release = true };
            world = point_set s.pending.release p s.world;
          },
          none,
        ))
