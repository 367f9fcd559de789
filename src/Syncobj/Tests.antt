-- ===== src/Syncobj/Tests.antt =====
-- The theorems about explicit synchronization at concrete states.
use neuswc.Prelude.{[], arith, false, none, refl, some, true, ℕ, ◌+◌, ◌↔◌, ◌∷◌, ◌≡◌}
use neuswc.Syncobj.World.{finished}
use neuswc.Syncobj.Queue.{Pending, Wait, handle_acquire, Commit, null_commit, Synced}
use neuswc.Syncobj.Commits.{exported, Answers, resource_point, set_point}
use neuswc.Syncobj.Apply.{
  commit_of, drm_syncobj_surface_check_commit, drm_syncobj_surface_apply_commit,
}
use neuswc.Syncobj.Life.{drm_syncobj_surface_finish, kept, get_surface, new_synced, import_timeline}
use neuswc.Syncobj.Shape.{IsOpen}
use neuswc.Syncobj.Due.{count, ended, due}
use neuswc.Syncobj.Shown.{handle_acquire_exact}
use neuswc.Syncobj.DueApply.{apply_commit-due, finish_settles}
use neuswc.Syncobj.Check.{AreOrdered, check_commit_attached}
use neuswc.Syncobj.Session.{
  System, world_of, onto, put, set, apply, move, get, import, created, Reach, start, later, IsValid,
}
use neuswc.Syncobj.Reached.{Reach-IsValid}

-- Two timelines, and the object of a surface.
abbrev imported : System
imported = record {
  alive = put 1 true created.alive;
  object = onto (import_timeline true true true 1) created.object;
}

abbrev asked : System
asked = record { alive = imported.alive; object = get_surface true imported.object }

imported-Reach : Reach imported
imported-Reach = later start (import 1 refl refl)

asked-Reach : Reach asked
asked-Reach = later imported-Reach (get true tt refl)

abbrev object : Synced
object = new_synced (import_timeline true true true 1 (world_of created.object))

asked_kept : asked.object ≡ kept object
unfolding get_surface
asked_kept = refl

abbrev acquiring : Synced
acquiring = (set_point 1 0 4 true object).0

abbrev releasing : Synced
releasing = (set_point 1 0 5 false acquiring).0

abbrev staged : System
staged = record { alive = imported.alive; object = kept releasing }

abbrev answers : Answers
answers = record {
  now = record { buffer = some 9; resource = some 8; scale = 1; transform = 0 };
  applying_cached = false;
  export = exported 3 false false;
  granted = true;
  address = 70;
  sampled = true;
  on_view = false;
  signals = false;
  gpu = finished;
}

-- The buffer waits for its fence.
abbrev queued : System
queued = record {
  alive = imported.alive;
  object = kept (drm_syncobj_surface_apply_commit answers true none releasing).0;
}

staged-Reach : Reach staged
unfolding set_point
staged-Reach =
    later
      (later asked-Reach
        (move object (kept acquiring) asked_kept refl (set 1 0 4 true refl refl) refl))
      (move acquiring (kept releasing) refl refl (set 1 0 5 false refl refl) refl)

queued-Reach : Reach queued
unfolding set_point
queued-Reach =
    later staged-Reach (move releasing queued.object refl refl (apply answers true none refl) refl)

Reach-IsValid_example : IsValid queued × ((world_of queued.object).faulty ≡ false)
Reach-IsValid_example = Reach-IsValid queued-Reach

abbrev good : Commit
good = record {
  acquire = resource_point 1 4;
  release = resource_point 1 5;
  has_acquire = true;
  has_release = true;
}

check_commit_attached_example :
    (drm_syncobj_surface_check_commit true true true good ≡ none) ↔ AreOrdered good
check_commit_attached_example = check_commit_attached good

abbrev waiting_buffer : (id value : ℕ) → Pending
waiting_buffer id value = record {
  id = id;
  resource = some (10 + id);
  fd = some id;
  release = resource_point 1 value;
  acquire = resource_point 2 value;
  buffer = 20 + id;
  scale = 1;
  transform = 0;
}

-- A buffer on screen, two that wait, and a commit that is staged.
abbrev busy : Synced
busy = record {
  has_resource = true;
  has_surface = true;
  pending = good;
  cached = null_commit;
  release = resource_point 1 3;
  has_release = true;
  queue = waiting_buffer 1 6 ∷ waiting_buffer 2 7 ∷ [];
  failed_acquire = false;
  held = none;
  world = record { refs = λ t. 9; faulty = false; deferred = []; log = [] };
}

busy-IsOpen : IsOpen busy
busy-IsOpen = record { surface = refl; bounded = omega arith; unowed = λ h. cc }

apply_commit-due_example :
    due 1 5 (drm_syncobj_surface_apply_commit answers true none busy).0
    ≡ due 1 5 busy + count 1 5 (commit_of false busy).release
apply_commit-due_example = apply_commit-due 1 5 answers none busy busy-IsOpen refl

handle_acquire_exact_example :
    let shown = handle_acquire finished answers.now Wait.ready (waiting_buffer 2 7) busy in
    (due 1 6 shown ≡ due 1 6 busy)
    × (shown.queue ≡ [])
    × (shown.release ≡ resource_point 1 7)
    × (ended 1 6 shown.world ≡ ended 1 6 busy.world + 1 + count 1 6 busy.release)
handle_acquire_exact_example =
    handle_acquire_exact 1 6 finished answers.now Wait.ready busy (waiting_buffer 1 6 ∷ [])
      (waiting_buffer 2 7) [] busy-IsOpen refl ((λ e. omega (arith, e)), tt)

finish_settles_example :
    ended 1 6 (drm_syncobj_surface_finish finished busy).world
    ≡ due 1 6 busy + count 1 6 busy.cached.release
finish_settles_example = finish_settles 1 6 finished busy busy-IsOpen
