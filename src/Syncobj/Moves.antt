-- ===== src/Syncobj/Moves.antt =====
-- The events of one surface in libswc/drm_syncobj.c keep its references and its bound.
use neuswc.Prelude.{
  ℕ, ◌+◌, ◌-◌, ◌<◌, ◌≡◌, refl, inl, inr, Bool, true, false, List, [], ◌∷◌, Option, none, some, ◌==◌,
  arith, Bool-cases, Option-cases, length,
}
use neuswc.Syncobj.World.{Point, posted, World, Gpu, get_at, remove_at, complete_point_release}
use neuswc.Syncobj.Queue.{
  Pending, Synced, Committed, handle_held_destroy, queue_index, Wait, ready, waiting, failed,
  note_failure, handle_acquire, clear_resource, handle_pending_destroy,
}
use neuswc.Syncobj.Commits.{
  resource_point, point_value, set_point, settle_at, is_readable, queue_settle,
}
use neuswc.Syncobj.Apply.{drm_syncobj_surface_cache_commit}
use neuswc.Syncobj.Balance.{
  total, names, IsBalanced, recount, note-IsBalanced, point_set-IsBalanced, complete-IsBalanced,
}
use neuswc.Syncobj.QueueBalance.{
  commit_names, pending_names, IsAccounted, queue_drop-IsAccounted, queue_show-IsAccounted,
  total-remove_at,
}
use neuswc.Syncobj.Shape.{IsOpen, queue_drop-IsOpen, queue_show-IsOpen}
use neuswc.Syncobj.Applied.{surrender-IsBalanced}
use neuswc.Syncobj.Sound.{IsSound}

-- A deferred release that ends, or does not yet.
pub complete_point_release-IsBalanced :
    (c : ℕ → ℕ) (readable broken : Bool) (i : ℕ) (w : World)
    → IsBalanced c w
    → IsBalanced c (complete_point_release readable broken i w)
unfolding complete_point_release
complete_point_release-IsBalanced c readable broken i w b =
    elim (Option-cases (get_at w.deferred i)) [
      | inl e ↦ simp e b
      | inr (p, e) ↦
          let fewer : World = record w { deferred = remove_at i w.deferred } in
          let less : IsBalanced (λ t. c t + names t p) fewer = record {
            refs_eq = λ t. omega (arith, b.refs_eq t, total-remove_at (names t) w.deferred i p e);
            unfaulty = b.unfaulty;
          } in
          elim (Bool-cases readable) [
            | inl r ↦ simp (e, r) (complete-IsBalanced c p fewer less true)
            | inr r ↦ elim (Bool-cases broken) [
              | inl f ↦ simp (e, r, f) (complete-IsBalanced c p fewer less false)
              | inr f ↦ simp (e, r, f) b
            ]
          ]
    ]

module _ (others : ℕ → ℕ) where
  note_failure-IsSound :
      (now : Committed) (p : Pending) (s : Synced)
      → IsSound others s
      → IsSound others (note_failure now p s)
  note_failure-IsSound now p s (b, o) = (
    note-IsBalanced _ posted s.world b,
    record { surface = o.surface; bounded = o.bounded; unowed = o.unowed },
  )

  -- Whatever an acquire fence or the poll of a point comes to.
  pub handle_acquire-IsSound :
      (gpu : Gpu) (now : Committed) (wait : Wait) (p : Pending) (s : Synced)
      → IsSound others s
      → IsSound others (handle_acquire gpu now wait p s)
  unfolding handle_acquire
  handle_acquire-IsSound gpu now ready p s (b, o) = (
    queue_show-IsAccounted others gpu now (queue_index p.id s.queue) s b,
    queue_show-IsOpen gpu now (queue_index p.id s.queue) s o,
  )
  handle_acquire-IsSound gpu now waiting p s v = v
  handle_acquire-IsSound gpu now failed p s v =
      let (b, o) = note_failure-IsSound now p s v in
      (
        queue_drop-IsAccounted others (queue_index p.id s.queue) true (note_failure now p s) b,
        queue_drop-IsOpen (queue_index p.id s.queue) true (note_failure now p s) o,
      )

  settle_at-IsSound :
      (readable : ℕ → Bool) (gpu : Gpu) (now : Committed) (i : ℕ) (o : Option Pending) (s : Synced)
      → IsSound others s
      → IsSound others (settle_at readable gpu now i o s)
  settle_at-IsSound readable gpu now i none s v = v
  settle_at-IsSound readable gpu now i (some p) s (b, o) =
      elim (Bool-cases (is_readable readable p.fd)) [
        | inl e ↦
            simp e (queue_show-IsAccounted others gpu now i s b, queue_show-IsOpen gpu now i s o)
        | inr e ↦ simp e (b, o)
      ]

  pub queue_settle-IsSound :
      (readable : ℕ → Bool) (gpu : Gpu) (now : Committed) (s : Synced)
      → IsSound others s
      → IsSound others (queue_settle readable gpu now s)
  unfolding queue_settle
  queue_settle-IsSound readable gpu now s v = elim (Bool-cases (length s.queue == 0)) [
    | inl e ↦ simp e v
    | inr e ↦
        simp e (settle_at-IsSound readable gpu now _ (get_at s.queue (length s.queue - 1)) s v)
  ]

  total-clear_resource :
      (t id : ℕ) (q : List Pending)
      → total (pending_names t) (clear_resource id q) ≡ total (pending_names t) q
  unfolding clear_resource
  total-clear_resource t id [] = refl
  total-clear_resource t id (p ∷ ps) = elim (Bool-cases (p.id == id)) [
    | inl e ↦ simp e (omega (arith, total-clear_resource t id ps))
    | inr e ↦ simp e (omega (arith, total-clear_resource t id ps))
  ]

  length-clear_resource : (id : ℕ) (q : List Pending) → length (clear_resource id q) ≡ length q
  unfolding clear_resource
  length-clear_resource id [] = refl
  length-clear_resource id (p ∷ ps) = omega (arith, length-clear_resource id ps)

  pub handle_pending_destroy-IsSound :
      (p : Pending) (s : Synced) → IsSound others s → IsSound others (handle_pending_destroy p s)
  unfolding handle_pending_destroy
  handle_pending_destroy-IsSound p s (b, o) = (
    recount _ _ s.world (λ t. omega (arith, total-clear_resource t p.id s.queue)) b,
    record {
      surface = o.surface;
      bounded = omega (arith, o.bounded, length-clear_resource p.id s.queue);
      unowed = o.unowed;
    },
  )

  pub handle_held_destroy-IsSound :
      (s : Synced) → IsSound others s → IsSound others (handle_held_destroy s)
  unfolding handle_held_destroy
  handle_held_destroy-IsSound s (b, o) =
      (b, record { surface = o.surface; bounded = o.bounded; unowed = o.unowed })

  -- A commit that is cached in the place of another.
  pub cache_commit-IsSound :
      (attached : Bool) (s : Synced)
      → IsSound others s
      → IsSound others (drm_syncobj_surface_cache_commit attached s)
  unfolding drm_syncobj_surface_cache_commit
  cache_commit-IsSound false s v = v
  cache_commit-IsSound true s (b, o) = (
    surrender-IsBalanced _ s.cached s.world (recount _ _ s.world (λ t. omega arith) b),
    record { surface = o.surface; bounded = o.bounded; unowed = o.unowed },
  )

  -- Setting a point of a timeline that is there, which the object of a surface that is gone refuses.
  pub set_point-IsAccounted :
      (timeline hi lo : ℕ) (acquire : Bool) (s : Synced)
      → 0 < s.world.refs timeline
      → IsAccounted others s
      → IsAccounted others (set_point timeline hi lo acquire s).0
  unfolding set_point
  set_point-IsAccounted timeline hi lo true s h b = elim (Bool-cases s.has_surface) [
    | inl e ↦
        let p : Point = resource_point timeline (point_value hi lo) in
        simp e (
          recount _ _ _ (λ t. omega arith)
            (point_set-IsBalanced
              (λ t.
                others t
                + names t s.pending.release
                + commit_names t s.cached
                + names t s.release
                + total (pending_names t) s.queue)
              s.pending.acquire p s.world h (recount _ _ s.world (λ t. omega arith) b)))
    | inr e ↦ simp e (note-IsBalanced _ posted s.world b)
  ]
  set_point-IsAccounted timeline hi lo false s h b = elim (Bool-cases s.has_surface) [
    | inl e ↦
        let p : Point = resource_point timeline (point_value hi lo) in
        simp e (
          recount _ _ _ (λ t. omega arith)
            (point_set-IsBalanced
              (λ t.
                others t
                + names t s.pending.acquire
                + commit_names t s.cached
                + names t s.release
                + total (pending_names t) s.queue)
              s.pending.release p s.world h (recount _ _ s.world (λ t. omega arith) b)))
    | inr e ↦ simp e (note-IsBalanced _ posted s.world b)
  ]

pub set_point-IsOpen :
    (timeline hi lo : ℕ) (acquire : Bool) (s : Synced)
    → IsOpen s
    → IsOpen (set_point timeline hi lo acquire s).0
unfolding set_point
set_point-IsOpen timeline hi lo true s o =
    simp o.surface (record { surface = refl; bounded = o.bounded; unowed = o.unowed })
set_point-IsOpen timeline hi lo false s o =
    simp o.surface (record { surface = refl; bounded = o.bounded; unowed = o.unowed })
