-- ===== src/Syncobj/Session.antt =====
-- Every sequence of events of libswc/drm_syncobj.c, for the object of one surface.
use mathlib.Core.List.{Memᴰ}
use neuswc.Prelude.{ℕ, ◌≡◌, Bool, true, false, ◌&&◌, [], Option, if◌then◌else◌, ◌==◌}
use neuswc.Syncobj.World.{World, Gpu, complete_point_release}
use neuswc.Syncobj.Queue.{
  Pending, Synced, Committed, Wait, on_world, handle_acquire, handle_pending_destroy,
  handle_held_destroy,
}
use neuswc.Syncobj.Commits.{Answers, set_point, queue_settle}
use neuswc.Syncobj.Apply.{drm_syncobj_surface_apply_commit, drm_syncobj_surface_cache_commit}
use neuswc.Syncobj.Life.{
  Object, kept, gone, get_surface, drm_syncobj_surface_finish, handle_surface_destroy,
  destroy_syncobj_surface_resource, import_timeline, destroy_timeline_resource,
}
use neuswc.Syncobj.Ends.{IsLegal, IsCallable}

-- Which timelines have a resource, and the object of the surface.
pub record System : Type 0 where
  pub alive : ℕ → Bool
  pub object : Object

abbrev pub world_of : Object → World
world_of (kept s) = s.world
world_of (gone w) = w

abbrev pub onto : (World → World) → Object → Object
onto f (kept s) = kept (on_world f s)
onto f (gone w) = gone (f w)

-- The reference that the resource of a timeline holds.
abbrev pub resources : (ℕ → Bool) → ℕ → ℕ
resources alive t = if alive t then 1 else 0

abbrev pub put : ℕ → Bool → (ℕ → Bool) → ℕ → Bool
put t b alive u = if u == t then b else alive u

-- The calls and callbacks while the surface is there.
pub data Move (alive : ℕ → Bool) (s : Synced) (o : Object) : Type 0 where
  set :
      (timeline hi lo : ℕ) (acquire : Bool)
      → alive timeline ≡ true
      → kept (set_point timeline hi lo acquire s).0 ≡ o
      → Move alive s o
  apply :
      (a : Answers) (attached : Bool) (replaced : Option ℕ)
      → kept (drm_syncobj_surface_apply_commit a attached replaced s).0 ≡ o
      → Move alive s o
  cache :
      (attached : Bool) → kept (drm_syncobj_surface_cache_commit attached s) ≡ o → Move alive s o
  settle :
      (readable : ℕ → Bool) (gpu : Gpu) (now : Committed)
      → kept (queue_settle readable gpu now s) ≡ o
      → Move alive s o
  acquire :
      (gpu : Gpu) (now : Committed) (wait : Wait) (p : Pending)
      → Memᴰ p s.queue
      → kept (handle_acquire gpu now wait p s) ≡ o
      → Move alive s o
  end_buffer : (p : Pending) → kept (handle_pending_destroy p s) ≡ o → Move alive s o
  end_held : kept (handle_held_destroy s) ≡ o → Move alive s o
  finish : (gpu : Gpu) → kept (drm_syncobj_surface_finish gpu s) ≡ o → Move alive s o
  end_surface : (gpu : Gpu) → handle_surface_destroy gpu s ≡ o → Move alive s o

-- A timeline is made at an address that no timeline has.
pub data Step (a b : System) : Type 0 where
  move :
      (s : Synced) (o : Object)
      → a.object ≡ kept s
      → s.has_surface ≡ true
      → Move a.alive s o
      → record { alive = a.alive; object = o } ≡ b
      → Step a b
  end_resource :
      (s : Synced)
      → a.object ≡ kept s
      → record { alive = a.alive; object = destroy_syncobj_surface_resource s } ≡ b
      → Step a b
  get :
      (granted : Bool)
      → IsCallable a.object
      → record { alive = a.alive; object = get_surface granted a.object } ≡ b
      → Step a b
  complete :
      (readable broken : Bool) (i : ℕ)
      → record {
        alive = a.alive;
        object = onto (complete_point_release readable broken i) a.object;
      }
        ≡ b
      → Step a b
  import :
      (t : ℕ)
      → (world_of a.object).refs t ≡ 0
      → record {
        alive = put t true a.alive;
        object = onto (import_timeline true true true t) a.object;
      }
        ≡ b
      → Step a b
  refuse :
      (imported allocated granted : Bool) (t : ℕ)
      → imported && (allocated && granted) ≡ false
      → (world_of a.object).refs t ≡ 0
      → record {
        alive = a.alive;
        object = onto (import_timeline imported allocated granted t) a.object;
      }
        ≡ b
      → Step a b
  end_timeline :
      (t : ℕ)
      → a.alive t ≡ true
      → record { alive = put t false a.alive; object = onto (destroy_timeline_resource t) a.object }
        ≡ b
      → Step a b

abbrev pub created : System
created = record {
  alive = λ t. false;
  object = gone (record { refs = λ t. 0; faulty = false; deferred = []; log = [] });
}

pub data Reach : System → Type 0 where
  start : Reach created
  later : {a b : System} → Reach a → Step a b → Reach b

abbrev pub IsValid : System → Type 0
IsValid a = IsLegal (resources a.alive) a.object
