-- ===== src/Syncobj/Apply.antt =====
-- libswc/drm_syncobj.c, lines 980 to 1138: checking, applying and caching a commit.
use neuswc.Prelude.{
  ℕ, Bool, true, false, not, ◌&&◌, ◌||◌, Option, none, some, if◌then◌else◌, ◌==◌, leb, length,
}
use neuswc.Syncobj.World.{posted, null_point, note, point_clear, point_set, Gpu}
use neuswc.Syncobj.Queue.{
  Commit, null_commit, discard, surrender, Synced, on_world, held_set, held_clear, shown_release,
  queue_clear, forget_resource, owns_resource,
}
use neuswc.Syncobj.Commits.{
  acquire_ready, Answers, new_pending, queue_add, Error, no_buffer, no_acquire_point,
  no_release_point, conflicting_points,
}

abbrev pub commit_of : (applying_cached : Bool) → Synced → Commit
commit_of applying_cached s = if applying_cached then s.cached else s.pending

abbrev pub with_commit : (applying_cached : Bool) → Commit → Synced → Synced
with_commit applying_cached c s =
    if applying_cached then record s { cached = c } else record s { pending = c }

-- `==` of the pointers to two timelines.
abbrev pub same_timeline : Option ℕ → Option ℕ → Bool
same_timeline none none = true
same_timeline none (some u) = false
same_timeline (some t) none = false
same_timeline (some t) (some u) = t == u

-- The error is none when the commit may be applied.
unfoldable pub drm_syncobj_surface_check_commit :
    (has_resource attached has_buffer : Bool) → Commit → Option Error
drm_syncobj_surface_check_commit has_resource attached has_buffer c =
    if not has_resource && not c.has_acquire && not c.has_release
    then none
    else if not (attached && has_buffer)
    then (if c.has_acquire || c.has_release then some no_buffer else none)
    else if not c.has_acquire
    then some no_acquire_point
    else if not c.has_release
    then some no_release_point
    else if same_timeline c.acquire.timeline c.release.timeline
        && leb c.release.value c.acquire.value
    then some conflicting_points
    else none

-- The buffer replaced, unless it is waiting, or still up.
abbrev pub disown : Option ℕ → Synced → Option ℕ
disown none s = none
disown (some r) s = if owns_resource s r then none else some r

abbrev pub forget_attached : Option ℕ → Synced → Synced
forget_attached none s = s
forget_attached (some r) s = forget_resource r s

unfoldable pub clear_release : (applying_cached : Bool) → Synced → Synced
clear_release applying_cached s =
    let c = commit_of applying_cached s in
    with_commit applying_cached (record c { release = null_point; has_release = false })
      (on_world (point_clear c.release) s)

-- No buffer is attached: nothing is left to wait for.
unfoldable pub apply_null : Answers → Synced → Synced
unfolding queue_clear shown_release clear_release
apply_null a s = clear_release a.applying_cached (shown_release a.gpu (queue_clear s))

-- The points go to the struct in the queue.
unfoldable pub clear_commit : (applying_cached : Bool) → Synced → Synced
clear_commit applying_cached s =
    let c = commit_of applying_cached s in
    with_commit applying_cached null_commit (on_world (discard c) s)

-- The replaced buffer, if it is the one on screen, stays there, and its release waits.
abbrev pub keep_replaced : (on_view : Bool) → Option ℕ → Synced → Synced × Option ℕ
keep_replaced on_view none s = (s, none)
keep_replaced on_view (some r) s =
    if on_view then (held_set r (held_clear true s), none) else (s, some r)

-- The point neither signalled nor can it be waited for.
unfoldable pub fail_commit : (applying_cached : Bool) → Synced → Synced
fail_commit applying_cached s =
    let c = commit_of applying_cached s in
    with_commit applying_cached null_commit
      (record s { failed_acquire = true; world = surrender c (note posted s.world) })

-- The points of the commit become those of the buffer on screen.
unfoldable pub take_points : (applying_cached : Bool) → Synced → Synced
take_points applying_cached s =
    let c = commit_of applying_cached s in
    with_commit applying_cached null_commit (record s {
      release = c.release;
      has_release = true;
      world = point_clear c.release (point_set s.release c.release (point_clear c.acquire s.world));
    })

-- The buffer goes up at once, over anything still waiting.
unfoldable pub go_up : Gpu → (applying_cached : Bool) → Synced → Synced
unfolding queue_clear shown_release take_points
go_up gpu applying_cached s = take_points applying_cached (shown_release gpu (queue_clear s))

unfoldable pub apply_points : Answers → (buffer : ℕ) → Option ℕ → Synced → Synced × Bool × Option ℕ
unfolding queue_add clear_commit held_clear held_set fail_commit go_up
apply_points a buffer replaced s =
    let c = commit_of a.applying_cached s in
    let fd = (acquire_ready a.export).1 in
    if a.granted
    then (let (kept, rest) =
          keep_replaced a.on_view replaced
            (queue_add (new_pending a.now a.address buffer fd c) s) in
        (clear_commit a.applying_cached kept, false, rest))
    else (if a.signals
        then (go_up a.gpu a.applying_cached s, true, replaced)
        else (fail_commit a.applying_cached s, false, replaced))

-- Whether the renderer may not sample the buffer yet.
abbrev pub must_wait : Answers → Bool
must_wait a = a.sampled && not (acquire_ready a.export).0

-- The last branches, where an acquire point is set, by the buffer of the surface.
unfoldable pub apply_acquire : Answers → Option ℕ → Option ℕ → Synced → Synced × Bool × Option ℕ
unfolding apply_points go_up
apply_acquire a none replaced s = (go_up a.gpu a.applying_cached s, true, replaced)
apply_acquire a (some buffer) replaced s =
    if must_wait a
    then apply_points a buffer replaced s
    else (go_up a.gpu a.applying_cached s, true, replaced)

-- What is left once the claims on the attached buffer are void.
unfoldable pub apply_known : Answers → Option ℕ → Synced → Synced × Bool × Option ℕ
unfolding apply_null apply_acquire
apply_known a rest s =
    if not (commit_of a.applying_cached s).has_acquire
    then (apply_null a s, true, rest)
    else apply_acquire a a.now.buffer rest s

-- The result is whether the surface shows its buffer, and the buffer still to be released.
unfoldable pub drm_syncobj_surface_apply_commit :
    Answers → (attached : Bool) → (replaced : Option ℕ) → Synced → Synced × Bool × Option ℕ
unfolding apply_known
drm_syncobj_surface_apply_commit a attached replaced s =
    let known = forget_attached a.now.resource (record s { failed_acquire = false }) in
    if not attached then (s, true, replaced) else apply_known a (disown replaced known) known

unfoldable pub drm_syncobj_surface_cache_commit : (attached : Bool) → Synced → Synced
drm_syncobj_surface_cache_commit attached s =
    if not attached
    then s
    else record s { cached = s.pending; pending = null_commit; world = surrender s.cached s.world }

unfoldable pub drm_syncobj_surface_buffer_ready : Synced → Bool
drm_syncobj_surface_buffer_ready s = not s.failed_acquire && length s.queue == 0
