-- ===== src/Syncobj/Queue.antt =====
-- libswc/drm_syncobj.c, lines 62 to 110 and 385 to 596: the buffer on screen and those that wait.
use neuswc.Prelude.{
  ℕ, zero, suc, Bool, true, false, ◌||◌, List, [], ◌∷◌, Option, none, some, if◌then◌else◌, ◌==◌,
  length,
}
use neuswc.Syncobj.World.{
  Point, released, shown, referenced, unreferenced, posted, World, null_point, note, point_clear,
  point_set, point_signal, Gpu, point_release, remove_at, get_at,
}

abbrev pub max_pending_buffers : ℕ
max_pending_buffers = 2

pub record Commit : Type 0 where
  pub acquire : Point
  pub release : Point
  pub has_acquire : Bool
  pub has_release : Bool

-- `memset` to 0.
abbrev pub null_commit : Commit
null_commit = record {
  acquire = null_point;
  release = null_point;
  has_acquire = false;
  has_release = false;
}

-- Clears a commit that nobody waits for.
abbrev pub discard : Commit → World → World
discard c w = point_clear c.release (point_clear c.acquire w)

-- Clears a commit that was cached, whose release point is signalled.
abbrev pub surrender : Commit → World → World
surrender c w = point_signal c.release (point_clear c.acquire w)

-- `id` is the address of the struct, `resource` the `wl_buffer`, and a negative `fd` is none.
pub record Pending : Type 0 where
  pub id : ℕ
  pub resource : Option ℕ
  pub fd : Option ℕ
  pub release : Point
  pub acquire : Point
  pub buffer : ℕ
  pub scale : ℕ
  pub transform : ℕ

-- `has_resource` and `has_surface` say that these pointers are not NULL.
pub record Synced : Type 0 where
  pub has_resource : Bool
  pub has_surface : Bool
  pub pending : Commit
  pub cached : Commit
  pub release : Point
  pub has_release : Bool
  pub queue : List Pending
  pub failed_acquire : Bool
  pub held : Option ℕ
  pub world : World

-- `surface->state`, after the commit at hand.
pub record Committed : Type 0 where
  pub buffer : Option ℕ
  pub resource : Option ℕ
  pub scale : ℕ
  pub transform : ℕ

-- Equality of pointers, where the first one may be NULL.
abbrev pub is_pointer : Option ℕ → ℕ → Bool
is_pointer none r = false
is_pointer (some q) r = q == r

abbrev pub on_world : (World → World) → Synced → Synced
on_world f s = record s { world = f s.world }

unfoldable pub handle_held_destroy : Synced → Synced
handle_held_destroy s = record s { held = none }

unfoldable pub held_set : ℕ → Synced → Synced
held_set r s = record s { held = some r }

abbrev pub send_release : Bool → Option ℕ → World → World
send_release release none w = w
send_release release (some r) w = if release then note (released r) w else w

unfoldable pub held_clear : (release : Bool) → Synced → Synced
held_clear release s = record s { held = none; world = send_release release s.held s.world }

-- The release point of the buffer on screen, if there is one.
unfoldable pub owed_release : Gpu → Synced → Synced
owed_release gpu s =
    if s.has_release
    then record s {
      release = null_point;
      has_release = false;
      world = point_release gpu s.release s.world;
    }
    else s

unfoldable pub shown_release : Gpu → Synced → Synced
unfolding owed_release held_clear
shown_release gpu s = held_clear true (owed_release gpu s)

unfoldable pub pending_free : Pending → World → World
pending_free p w = note (unreferenced p.buffer) (point_clear p.acquire (point_clear p.release w))

-- What `queue_drop` does with a buffer that has left the queue. Its release point is null when
-- `pending_free` comes to it.
unfoldable pub drop_pending : (release : Bool) → Pending → World → World
unfolding pending_free
drop_pending release p w =
    pending_free (record p { release = null_point })
      (point_signal p.release (send_release release p.resource w))

-- `queue_drop` of what is at an index.
abbrev pub drop_found : (index : ℕ) (release : Bool) → Option Pending → Synced → Synced
drop_found index release none s = s
drop_found index release (some p) s = record s {
  queue = remove_at index s.queue;
  world = drop_pending release p s.world;
}

unfoldable pub queue_drop : (index : ℕ) (release : Bool) → Synced → Synced
queue_drop index release s = drop_found index release (get_at s.queue index) s

-- The loop that drops the last one while there are any.
unfoldable pub drop_last : (queued : ℕ) → Synced → Synced
drop_last zero s = s
drop_last (suc n) s = drop_last n (queue_drop n true s)

unfoldable pub queue_clear : Synced → Synced
queue_clear s = drop_last (length s.queue) s

abbrev pub hold_older : Committed → Option ℕ → Synced → Synced
hold_older now none s = s
hold_older now (some r) s = if is_pointer now.resource r then s else held_set r s

-- The release point of the buffer that goes up is owed from now on.
unfoldable pub owe : Pending → Synced → Synced
owe p s = record s {
  release = p.release;
  has_release = true;
  world = point_set s.release p.release s.world;
}

abbrev pub show_buffer : Pending → World → World
show_buffer p w =
    note (unreferenced p.buffer)
      (note (shown p.buffer p.scale p.transform) (pending_free p (note (referenced p.buffer) w)))

-- What `queue_show` does once the buffer has left the queue.
unfoldable pub put_up : Gpu → Committed → Pending → Synced → Synced
unfolding shown_release held_set pending_free owe
put_up gpu now p s =
    on_world (show_buffer p) (hold_older now p.resource (owe p (shown_release gpu s)))

-- The older ones are dropped from the front; the second argument is the queue.
unfoldable pub show_walk : Gpu → Committed → ℕ → List Pending → Synced → Synced
unfolding put_up drop_pending
show_walk gpu now index [] s = s
show_walk gpu now zero (p ∷ ps) s = put_up gpu now p (record s { queue = ps })
show_walk gpu now (suc index) (p ∷ ps) s =
    show_walk gpu now index ps (record s { queue = ps; world = drop_pending true p s.world })

unfoldable pub queue_show : Gpu → Committed → (index : ℕ) → Synced → Synced
unfolding show_walk
queue_show gpu now index s = show_walk gpu now index s.queue s

-- The loop over the queue, which ends at its end if the buffer is not there.
unfoldable pub queue_index : ℕ → List Pending → ℕ
queue_index id [] = 0
queue_index id (p ∷ ps) = if p.id == id then 0 else suc (queue_index id ps)

-- The result of looking whether a fence is readable.
pub data Wait : Type 0 where
  ready waiting failed : Wait

-- Whether the fence that failed is the one of the buffer that the surface has now.
abbrev pub note_failure : Committed → Pending → Synced → Synced
note_failure now p s = record s {
  failed_acquire = if is_pointer now.buffer p.buffer then true else s.failed_acquire;
  world = note posted s.world;
}

unfoldable pub handle_acquire : Gpu → Committed → Wait → Pending → Synced → Synced
unfolding queue_show queue_drop
handle_acquire gpu now ready p s = queue_show gpu now (queue_index p.id s.queue) s
handle_acquire gpu now waiting p s = s
handle_acquire gpu now failed p s =
    queue_drop (queue_index p.id s.queue) true (note_failure now p s)

unfoldable pub clear_resource : ℕ → List Pending → List Pending
clear_resource id [] = []
clear_resource id (p ∷ ps) =
    (if p.id == id then record p { resource = none } else p) ∷ clear_resource id ps

unfoldable pub handle_pending_destroy : Pending → Synced → Synced
handle_pending_destroy p s = record s { queue = clear_resource p.id s.queue }

-- Whether the `index`th of the queue is of this `wl_buffer`.
abbrev pub is_queued : ℕ → Option Pending → Bool
is_queued r none = false
is_queued r (some p) = is_pointer p.resource r

unfoldable pub forget_loop : (index : ℕ) → ℕ → Synced → Synced
forget_loop zero r s = s
forget_loop (suc n) r s =
    forget_loop n r (if is_queued r (get_at s.queue n) then queue_drop n false s else s)

unfoldable pub forget_resource : ℕ → Synced → Synced
unfolding held_clear
forget_resource r s =
    let rest = if is_pointer s.held r then held_clear false s else s in
    forget_loop (length rest.queue) r rest

unfoldable pub any_queued : ℕ → List Pending → Bool
any_queued r [] = false
any_queued r (p ∷ ps) = is_pointer p.resource r || any_queued r ps

unfoldable pub owns_resource : Synced → ℕ → Bool
owns_resource s r = is_pointer s.held r || any_queued r s.queue
