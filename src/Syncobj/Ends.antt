-- ===== src/Syncobj/Ends.antt =====
-- The ends of a surface and of its object in libswc/drm_syncobj.c.
use neuswc.Prelude.{
  ℕ, ◌+◌, ◌≡◌, refl, ap, ◌∙◌, ◌⊎◌, inl, inr, Bool, true, false, [], none, arith, Bool-cases,
}
use neuswc.Syncobj.World.{posted, World, Gpu}
use neuswc.Syncobj.Queue.{Synced, shown_release, queue_clear}
use neuswc.Syncobj.Life.{
  Object, kept, gone, get_surface, drm_syncobj_surface_finish, handle_surface_destroy,
  destroy_syncobj_surface_resource,
}
use neuswc.Syncobj.Balance.{points_to, total, IsBalanced, recount, note-IsBalanced}
use neuswc.Syncobj.QueueBalance.{
  commit_names, pending_names, IsAccounted, shown_release-IsAccounted, queue_clear-IsAccounted,
}
use neuswc.Syncobj.Shape.{
  IsOpen, shown_release-IsOpen, shown_release-none, shown_release-queue, queue_clear-IsOpen,
  queue_clear-nil,
}
use neuswc.Syncobj.Applied.{discard-IsBalanced, surrender-IsBalanced}
use neuswc.Syncobj.Sound.{IsSound}

-- The surface is gone: nothing waits and nothing is owed, and only the resource keeps the object.
pub record IsClosed (s : Synced) : Type 0 where
  pub no_surface : s.has_surface ≡ false
  pub empty : s.queue ≡ []
  pub unowed : s.release.timeline ≡ none

-- What holds of the object of a surface, before, while and after it is there.
abbrev pub IsLegal : (others : ℕ → ℕ) → Object → Type 0
IsLegal others (kept s) = IsAccounted others s × (IsOpen s ⊎ IsClosed s)
IsLegal others (gone w) = IsBalanced others w

-- `get_surface` is called with a surface, so the object is not one whose surface is gone.
abbrev pub IsCallable : Object → Type 0
IsCallable (kept s) = s.has_surface ≡ true
IsCallable (gone w) = Unit

module _ (others : ℕ → ℕ) where
  down-IsSound :
      (gpu : Gpu) (s : Synced)
      → IsSound others s
      → IsSound others (shown_release gpu (queue_clear s))
  down-IsSound gpu s (b, o) = (
    shown_release-IsAccounted others gpu (queue_clear s) (queue_clear-IsAccounted others s b),
    shown_release-IsOpen gpu (queue_clear s) (queue_clear-IsOpen s o),
  )

  pub finish-IsSound :
      (gpu : Gpu) (s : Synced)
      → IsSound others s
      → IsSound others (drm_syncobj_surface_finish gpu s)
  unfolding drm_syncobj_surface_finish
  finish-IsSound gpu s v =
      let down : Synced = shown_release gpu (queue_clear s) in
      let (b, o) = down-IsSound gpu s v in
      (
        surrender-IsBalanced _ down.cached down.world (recount _ _ down.world (λ t. omega arith) b),
        record { surface = o.surface; bounded = o.bounded; unowed = o.unowed },
      )

  -- The object outlives its surface only if a resource still points to it.
  pub handle_surface_destroy-IsLegal :
      (gpu : Gpu) (s : Synced) → IsSound others s → IsLegal others (handle_surface_destroy gpu s)
  unfolding handle_surface_destroy
  handle_surface_destroy-IsLegal gpu s (b, o) =
      let down : Synced = shown_release gpu (queue_clear s) in
      let (b', o') = down-IsSound gpu s (b, o) in
      let unowed : down.release.timeline ≡ none =
        shown_release-none gpu (queue_clear s) (queue_clear-IsOpen s o) in
      let empty : down.queue ≡ [] = shown_release-queue gpu (queue_clear s) ∙ queue_clear-nil s in
      elim (Bool-cases down.has_resource) [
        | inl e ↦ simp e (b', inr (record { no_surface = refl; empty = empty; unowed = unowed }))
        | inr e ↦ simp e (
            surrender-IsBalanced _ down.cached _ (
              discard-IsBalanced _ down.pending down.world (
                recount _ _ down.world
                  (λ t. omega (arith, ap (points_to t) unowed, ap (total (pending_names t)) empty))
                  b')))
      ]

  -- Points that were committed survive the object's resource, as long as the surface is there.
  pub destroy_resource-IsLegal :
      (s : Synced) → IsLegal others (kept s) → IsLegal others (destroy_syncobj_surface_resource s)
  unfolding destroy_syncobj_surface_resource
  destroy_resource-IsLegal s (b, inl o) = simp o.surface (
    discard-IsBalanced _ s.pending s.world (recount _ _ s.world (λ t. omega arith) b),
    inl (record { surface = refl; bounded = o.bounded; unowed = o.unowed }),
  )
  destroy_resource-IsLegal s (b, inr c) = simp c.no_surface (
      discard-IsBalanced _ s.cached _ (
        discard-IsBalanced (λ t. others t + commit_names t s.cached) s.pending s.world
          (recount _ _ s.world
            (λ t. omega (arith, ap (points_to t) c.unowed, ap (total (pending_names t)) c.empty))
            b)))

  get_kept-IsLegal :
      (granted : Bool) (s : Synced)
      → IsSound others s
      → IsLegal others (get_surface granted (kept s))
  unfolding get_surface
  get_kept-IsLegal granted s (b, o) = elim (Bool-cases s.has_resource) [
    | inl e ↦ simp e (
      note-IsBalanced _ posted s.world b,
      inl (record { surface = o.surface; bounded = o.bounded; unowed = o.unowed }),
    )
    | inr e ↦ elim (Bool-cases granted) [
      | inl g ↦
          simp (e, g) (b, inl (record { surface = refl; bounded = o.bounded; unowed = o.unowed }))
      | inr g ↦
          simp (e, g)
            (
              note-IsBalanced _ posted s.world b,
              inl (record { surface = o.surface; bounded = o.bounded; unowed = o.unowed }),
            )
    ]
  ]

  get_gone-IsLegal :
      (granted : Bool) (w : World)
      → IsBalanced others w
      → IsLegal others (get_surface granted (gone w))
  unfolding get_surface
  get_gone-IsLegal true w b = (
    recount _ _ w (λ t. omega arith) b,
    inl (record { surface = refl; bounded = omega arith; unowed = λ h. refl }),
  )
  get_gone-IsLegal false w b = note-IsBalanced _ posted w b

-- The surface of an object that has one is there.
pub open-cases :
    (others : ℕ → ℕ) (s : Synced)
    → IsLegal others (kept s)
    → s.has_surface ≡ true
    → IsSound others s
open-cases others s (b, inl o) h = (b, o)
open-cases others s (b, inr c) h = cc

pub get_surface-IsLegal :
    (others : ℕ → ℕ) (granted : Bool) (o : Object)
    → IsCallable o
    → IsLegal others o
    → IsLegal others (get_surface granted o)
get_surface-IsLegal others granted (gone w) h b = get_gone-IsLegal others granted w b
get_surface-IsLegal others granted (kept s) h v =
    get_kept-IsLegal others granted s (open-cases others s v h)
