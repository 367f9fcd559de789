-- ===== src/Syncobj/Life.antt =====
-- libswc/drm_syncobj.c, lines 361 to 366, 742 to 780, 847 to 930 and 1150 to 1162: the objects of
-- timelines and surfaces, and their ends.
use neuswc.Prelude.{ℕ, Bool, true, false, not, [], none, some, if◌then◌else◌}
use neuswc.Syncobj.World.{posted, World, null_point, note, set_refs, timeline_unref, Gpu}
use neuswc.Syncobj.Queue.{
  null_commit, discard, surrender, Synced, on_world, queue_clear, shown_release,
}

-- The object of a surface is there, or it is not, or not any more.
pub data Object : Type 0 where
  kept : Synced → Object
  gone : World → Object

-- `calloc`, with the fields that `get_surface` sets.
abbrev pub new_synced : World → Synced
new_synced w = record {
  has_resource = true;
  has_surface = true;
  pending = null_commit;
  cached = null_commit;
  release = null_point;
  has_release = false;
  queue = [];
  failed_acquire = false;
  held = none;
  world = w;
}

-- `granted` says that the memory and the resource were to be had. An object that has outlived its
-- resource is taken again.
unfoldable pub get_surface : (granted : Bool) → Object → Object
get_surface granted (gone w) = if granted then kept (new_synced w) else gone (note posted w)
get_surface granted (kept s) =
    if s.has_resource
    then kept (on_world (note posted) s)
    else (if granted
        then kept (record s { has_resource = true; has_surface = true })
        else kept (on_world (note posted) s))

unfoldable pub drm_syncobj_surface_finish : Gpu → Synced → Synced
unfolding queue_clear shown_release
drm_syncobj_surface_finish gpu s =
    let down = shown_release gpu (queue_clear s) in
    record down {
      cached = record down.cached { acquire = null_point; release = null_point };
      world = surrender down.cached down.world;
    }

unfoldable pub handle_surface_destroy : Gpu → Synced → Object
unfolding queue_clear shown_release
handle_surface_destroy gpu s =
    let down = record (shown_release gpu (queue_clear s)) { has_surface = false } in
    if not down.has_resource
    then gone (surrender down.cached (discard down.pending down.world))
    else kept down

unfoldable pub destroy_syncobj_surface_resource : Synced → Object
destroy_syncobj_surface_resource s =
    let off = record s {
      has_resource = false;
      pending = null_commit;
      world = discard s.pending s.world;
    } in
    if s.has_surface then kept off else gone (discard s.cached off.world)

-- `imported` says that the kernel took the descriptor, `allocated` that there was memory for the
-- timeline, at an address, and `granted` that there was some for its resource.
unfoldable pub import_timeline : (imported allocated granted : Bool) (address : ℕ) → World → World
import_timeline imported allocated granted address w =
    if not imported
    then note posted w
    else if not allocated
    then note posted w
    else (let made = record w { refs = set_refs address 1 w.refs } in
        if granted then made else note posted (timeline_unref (some address) made))

unfoldable pub destroy_timeline_resource : ℕ → World → World
destroy_timeline_resource address w = timeline_unref (some address) w
