-- ===== src/Syncobj/Sound.antt =====
-- Every branch of applying a commit in libswc/drm_syncobj.c.
use neuswc.Prelude.{ℕ, inl, inr, Bool, true, false, Option, none, some, arith, Bool-cases}
use neuswc.Syncobj.World.{Gpu}
use neuswc.Syncobj.Queue.{
  Commit, null_commit, Pending, Synced, held_set, shown_release, queue_clear,
}
use neuswc.Syncobj.Commits.{acquire_ready, Answers, new_pending, queue_add}
use neuswc.Syncobj.Apply.{
  commit_of, with_commit, forget_attached, apply_null, clear_commit, keep_replaced, clear_release,
  fail_commit, take_points, go_up, apply_points, must_wait, apply_acquire, apply_known,
  drm_syncobj_surface_apply_commit,
}
use neuswc.Syncobj.QueueBalance.{
  IsAccounted, held_clear-IsAccounted, shown_release-IsAccounted, queue_clear-IsAccounted,
  forget_resource-IsAccounted,
}
use neuswc.Syncobj.Shape.{
  IsOpen, shown_release-IsOpen, queue_clear-IsOpen, forget_resource-IsOpen, queue_add-IsOpen,
  held_clear-IsOpen,
}
use neuswc.Syncobj.Applied.{
  commit_of-le, queue_add-IsAccounted, clear_commit-IsAccounted, fail_commit-IsAccounted,
  clear_release-IsAccounted, go_up-IsAccounted,
}

-- The references are those that the object and the `others` hold, and it is that of a surface.
abbrev pub IsSound : (others : ℕ → ℕ) → Synced → Type 0
IsSound others s = IsAccounted others s × IsOpen s

with_commit-IsOpen :
    (cached : Bool) (d : Commit) (s : Synced) → IsOpen s → IsOpen (with_commit cached d s)
with_commit-IsOpen true d s o = record {
  surface = o.surface;
  bounded = o.bounded;
  unowed = o.unowed;
}
with_commit-IsOpen false d s o = record {
  surface = o.surface;
  bounded = o.bounded;
  unowed = o.unowed;
}

clear_commit-IsOpen : (cached : Bool) (s : Synced) → IsOpen s → IsOpen (clear_commit cached s)
unfolding clear_commit
clear_commit-IsOpen cached s o =
    with_commit-IsOpen cached null_commit _
      (record { surface = o.surface; bounded = o.bounded; unowed = o.unowed })

fail_commit-IsOpen : (cached : Bool) (s : Synced) → IsOpen s → IsOpen (fail_commit cached s)
unfolding fail_commit
fail_commit-IsOpen cached s o =
    with_commit-IsOpen cached null_commit _
      (record { surface = o.surface; bounded = o.bounded; unowed = o.unowed })

clear_release-IsOpen : (cached : Bool) (s : Synced) → IsOpen s → IsOpen (clear_release cached s)
unfolding clear_release
clear_release-IsOpen cached s o =
    with_commit-IsOpen cached _ _
      (record { surface = o.surface; bounded = o.bounded; unowed = o.unowed })

take_points-IsOpen : (cached : Bool) (s : Synced) → IsOpen s → IsOpen (take_points cached s)
unfolding take_points
take_points-IsOpen cached s o =
    with_commit-IsOpen cached null_commit _
      (record { surface = o.surface; bounded = o.bounded; unowed = λ h. cc })

down-IsOpen : (gpu : Gpu) (s : Synced) → IsOpen s → IsOpen (shown_release gpu (queue_clear s))
down-IsOpen gpu s o = shown_release-IsOpen gpu (queue_clear s) (queue_clear-IsOpen s o)

module _ (others : ℕ → ℕ) where
  go_up-IsSound :
      (gpu : Gpu) (cached : Bool) (s : Synced)
      → IsSound others s
      → IsSound others (go_up gpu cached s)
  unfolding go_up
  go_up-IsSound gpu cached s (b, o) = (
    go_up-IsAccounted others gpu cached s b,
    take_points-IsOpen cached (shown_release gpu (queue_clear s)) (down-IsOpen gpu s o),
  )

  apply_null-IsSound :
      (a : Answers) (s : Synced) → IsSound others s → IsSound others (apply_null a s)
  unfolding apply_null
  apply_null-IsSound a s (b, o) = (
    clear_release-IsAccounted others a.applying_cached (shown_release a.gpu (queue_clear s)) (
        shown_release-IsAccounted others a.gpu (queue_clear s)
          (queue_clear-IsAccounted others s b)),
    clear_release-IsOpen a.applying_cached (shown_release a.gpu (queue_clear s))
        (down-IsOpen a.gpu s o),
  )

  keep_replaced-IsSound :
      (on_view : Bool) (replaced : Option ℕ) (s : Synced)
      → IsSound others s
      → IsSound others (keep_replaced on_view replaced s).0
  unfolding held_set
  keep_replaced-IsSound on_view none s v = v
  keep_replaced-IsSound true (some r) s (b, o) =
      let o' = held_clear-IsOpen true s o in
      (
        held_clear-IsAccounted others true s b,
        record { surface = o'.surface; bounded = o'.bounded; unowed = o'.unowed },
      )
  keep_replaced-IsSound false (some r) s v = v

  forget_attached-IsSound :
      (o : Option ℕ) (s : Synced) → IsSound others s → IsSound others (forget_attached o s)
  forget_attached-IsSound none s v = v
  forget_attached-IsSound (some r) s (b, o) =
      (forget_resource-IsAccounted others r s b, forget_resource-IsOpen r s o)

  apply_points-IsSound :
      (a : Answers) (buffer : ℕ) (replaced : Option ℕ) (s : Synced)
      → IsSound others s
      → IsSound others (apply_points a buffer replaced s).0
  unfolding apply_points
  apply_points-IsSound a buffer replaced s (b, o) = elim (Bool-cases a.granted) [
    | inl e ↦
        let p : Pending =
          new_pending a.now a.address buffer (acquire_ready a.export).1
            (commit_of a.applying_cached s) in
        let (b', o') = keep_replaced-IsSound a.on_view replaced (queue_add p s) (
          queue_add-IsAccounted others p s (λ t. omega (arith, commit_of-le t a.applying_cached s))
              b,
          queue_add-IsOpen p s o,
        ) in
        simp e (
          clear_commit-IsAccounted others a.applying_cached _ b',
          clear_commit-IsOpen a.applying_cached _ o',
        )
    | inr e ↦ elim (Bool-cases a.signals) [
      | inl h ↦ simp (e, h) (go_up-IsSound a.gpu a.applying_cached s (b, o))
      | inr h ↦
          simp (e, h)
            (
              fail_commit-IsAccounted others a.applying_cached s b,
              fail_commit-IsOpen a.applying_cached s o,
            )
    ]
  ]

  apply_acquire-IsSound :
      (a : Answers) (buffer replaced : Option ℕ) (s : Synced)
      → IsSound others s
      → IsSound others (apply_acquire a buffer replaced s).0
  unfolding apply_acquire
  apply_acquire-IsSound a none replaced s v = go_up-IsSound a.gpu a.applying_cached s v
  apply_acquire-IsSound a (some buffer) replaced s v = elim (Bool-cases (must_wait a)) [
    | inl e ↦ simp e (apply_points-IsSound a buffer replaced s v)
    | inr e ↦ simp e (go_up-IsSound a.gpu a.applying_cached s v)
  ]

  apply_known-IsSound :
      (a : Answers) (rest : Option ℕ) (s : Synced)
      → IsSound others s
      → IsSound others (apply_known a rest s).0
  unfolding apply_known
  apply_known-IsSound a rest s v = elim (Bool-cases (commit_of a.applying_cached s).has_acquire) [
    | inl e ↦ simp e (apply_acquire-IsSound a a.now.buffer rest s v)
    | inr e ↦ simp e (apply_null-IsSound a s v)
  ]

  -- On every branch of applying a commit.
  pub apply_commit-IsSound :
      (a : Answers) (attached : Bool) (replaced : Option ℕ) (s : Synced)
      → IsSound others s
      → IsSound others (drm_syncobj_surface_apply_commit a attached replaced s).0
  unfolding drm_syncobj_surface_apply_commit
  apply_commit-IsSound a false replaced s v = v
  apply_commit-IsSound a true replaced s (b, o) = apply_known-IsSound a _ _ (
      forget_attached-IsSound a.now.resource (record s { failed_acquire = false })
        (b, record { surface = o.surface; bounded = o.bounded; unowed = o.unowed }))
