-- ===== src/Syncobj/DueApply.antt =====
-- The release point of a commit in libswc/drm_syncobj.c, on every branch of applying it.
use neuswc.Prelude.{
  ℕ, zero, suc, ◌+◌, ◌≡◌, refl, ap, ◌∙◌, inl, inr, Bool, true, false, Option, none, some, arith,
  Bool-cases, Option-cases, length,
}
use neuswc.Syncobj.World.{Gpu, get_at}
use neuswc.Syncobj.Queue.{
  Commit, Pending, Synced, is_pointer, is_queued, held_set, held_clear, owed_release, shown_release,
  queue_drop, drop_last, queue_clear, forget_loop, forget_resource,
}
use neuswc.Syncobj.Commits.{acquire_ready, Answers, new_pending, queue_add}
use neuswc.Syncobj.Apply.{
  commit_of, disown, forget_attached, keep_replaced, go_up, apply_points, must_wait, apply_acquire,
  apply_known, drm_syncobj_surface_apply_commit,
}
use neuswc.Syncobj.Life.{drm_syncobj_surface_finish}
use neuswc.Syncobj.Balance.{total}
use neuswc.Syncobj.Shape.{
  IsOpen, shown_release-none, shown_release-queue, queue_clear-IsOpen, queue_clear-nil,
  forget_resource-IsOpen,
}
use neuswc.Syncobj.Due.{
  count, ended, due, surrender-ended, count-null, held_clear-due, shown_release-due,
  queue_clear-due,
}
use neuswc.Syncobj.DueQueue.{forget_resource-due}
use neuswc.Syncobj.DueCommits.{queue_add-due, clear_commit-due, fail_commit-due, take_points-due}

-- The commit is left alone until it is cleared.
module _ (cached : Bool) where
  commit_of-queue_drop :
      (i : ℕ) (release : Bool) (s : Synced)
      → commit_of cached (queue_drop i release s) ≡ commit_of cached s
  unfolding queue_drop
  commit_of-queue_drop i release s = elim (Option-cases (get_at s.queue i)) [
    | inl e ↦ simp e refl
    | inr (p, e) ↦ simp e refl
  ]

  commit_of-drop_last : (n : ℕ) (s : Synced) → commit_of cached (drop_last n s) ≡ commit_of cached s
  unfolding drop_last
  commit_of-drop_last zero s = refl
  commit_of-drop_last (suc n) s =
      commit_of-drop_last n (queue_drop n true s) ∙ commit_of-queue_drop n true s

  commit_of-shown_release :
      (gpu : Gpu) (s : Synced) → commit_of cached (shown_release gpu s) ≡ commit_of cached s
  unfolding shown_release held_clear owed_release
  commit_of-shown_release gpu s = elim (Bool-cases s.has_release) [
    | inl e ↦ simp e refl
    | inr e ↦ simp e refl
  ]

  commit_of-down :
      (gpu : Gpu) (s : Synced)
      → commit_of cached (shown_release gpu (queue_clear s)) ≡ commit_of cached s
  unfolding queue_clear
  commit_of-down gpu s =
      commit_of-shown_release gpu (queue_clear s) ∙ commit_of-drop_last (length s.queue) s

  commit_of-forget_loop :
      (n r : ℕ) (s : Synced) → commit_of cached (forget_loop n r s) ≡ commit_of cached s
  unfolding forget_loop
  commit_of-forget_loop zero r s = refl
  commit_of-forget_loop (suc n) r s = elim (Bool-cases (is_queued r (get_at s.queue n))) [
    | inl e ↦
        simp e (commit_of-forget_loop n r (queue_drop n false s) ∙ commit_of-queue_drop n false s)
    | inr e ↦ simp e (commit_of-forget_loop n r s)
  ]

  commit_of-forget_attached :
      (o : Option ℕ) (s : Synced) → commit_of cached (forget_attached o s) ≡ commit_of cached s
  unfolding forget_resource held_clear
  commit_of-forget_attached none s = refl
  commit_of-forget_attached (some r) s = elim (Bool-cases (is_pointer s.held r)) [
    | inl e ↦ simp e (commit_of-forget_loop (length s.queue) r (held_clear false s))
    | inr e ↦ simp e (commit_of-forget_loop (length s.queue) r s)
  ]

module _ (t v : ℕ) where
  down-due : (gpu : Gpu) (s : Synced) → due t v (shown_release gpu (queue_clear s)) ≡ due t v s
  down-due gpu s = shown_release-due t v gpu (queue_clear s) ∙ queue_clear-due t v s

  go_up-due :
      (gpu : Gpu) (cached : Bool) (s : Synced)
      → IsOpen s
      → due t v (go_up gpu cached s) ≡ due t v s + count t v (commit_of cached s).release
  unfolding go_up
  go_up-due gpu cached s o =
      let down : Synced = shown_release gpu (queue_clear s) in
      omega (
        arith,
        take_points-due t v cached down
            (shown_release-none gpu (queue_clear s) (queue_clear-IsOpen s o)),
        down-due gpu s,
        ap (λ (c : Commit). count t v c.release) (commit_of-down cached gpu s),
      )

  keep_replaced-due :
      (on_view : Bool) (replaced : Option ℕ) (s : Synced)
      → due t v (keep_replaced on_view replaced s).0 ≡ due t v s
  unfolding held_set
  keep_replaced-due on_view none s = refl
  keep_replaced-due true (some r) s = held_clear-due t v true s
  keep_replaced-due false (some r) s = refl

  apply_points-due :
      (a : Answers) (buffer : ℕ) (replaced : Option ℕ) (s : Synced)
      → IsOpen s
      → due t v (apply_points a buffer replaced s).0
        ≡ due t v s + count t v (commit_of a.applying_cached s).release
  unfolding apply_points
  apply_points-due a buffer replaced s o = elim (Bool-cases a.granted) [
    | inl e ↦
        let p : Pending =
          new_pending a.now a.address buffer (acquire_ready a.export).1
            (commit_of a.applying_cached s) in
        simp e (
          clear_commit-due t v a.applying_cached
            (keep_replaced a.on_view replaced (queue_add p s)).0
          ∙ keep_replaced-due a.on_view replaced (queue_add p s)
          ∙ queue_add-due t v p s)
    | inr e ↦ elim (Bool-cases a.signals) [
      | inl h ↦ simp (e, h) (go_up-due a.gpu a.applying_cached s o)
      | inr h ↦ simp (e, h) (fail_commit-due t v a.applying_cached s)
    ]
  ]

  apply_acquire-due :
      (a : Answers) (buffer replaced : Option ℕ) (s : Synced)
      → IsOpen s
      → due t v (apply_acquire a buffer replaced s).0
        ≡ due t v s + count t v (commit_of a.applying_cached s).release
  unfolding apply_acquire
  apply_acquire-due a none replaced s o = go_up-due a.gpu a.applying_cached s o
  apply_acquire-due a (some buffer) replaced s o = elim (Bool-cases (must_wait a)) [
    | inl e ↦ simp e (apply_points-due a buffer replaced s o)
    | inr e ↦ simp e (go_up-due a.gpu a.applying_cached s o)
  ]

  apply_known-due :
      (a : Answers) (rest : Option ℕ) (s : Synced)
      → IsOpen s
      → (commit_of a.applying_cached s).has_acquire ≡ true
      → due t v (apply_known a rest s).0
        ≡ due t v s + count t v (commit_of a.applying_cached s).release
  unfolding apply_known
  apply_known-due a rest s o h = simp h (apply_acquire-due a a.now.buffer rest s o)

  forget_attached-due : (o : Option ℕ) (s : Synced) → due t v (forget_attached o s) ≡ due t v s
  forget_attached-due none s = refl
  forget_attached-due (some r) s = forget_resource-due t v r s

  forget_attached-IsOpen : (r : Option ℕ) (s : Synced) → IsOpen s → IsOpen (forget_attached r s)
  forget_attached-IsOpen none s o = o
  forget_attached-IsOpen (some r) s o = forget_resource-IsOpen r s o

  -- When a commit with an acquire point is applied to a surface that is there, its release point is then owed once
  -- more, for the buffer that waits or is on screen, or has come to one more end; every other point
  -- that was owed still is, or has come to one end. This holds whether the buffer goes up at once,
  -- waits, or the wait fails.
  pub apply_commit-due :
      (a : Answers) (replaced : Option ℕ) (s : Synced)
      → IsOpen s
      → (commit_of a.applying_cached s).has_acquire ≡ true
      → due t v (drm_syncobj_surface_apply_commit a true replaced s).0
        ≡ due t v s + count t v (commit_of a.applying_cached s).release
  unfolding drm_syncobj_surface_apply_commit
  apply_commit-due a replaced s o h =
      let fresh : Synced = record s { failed_acquire = false } in
      let known : Synced = forget_attached a.now.resource fresh in
      let same = commit_of-forget_attached a.applying_cached a.now.resource fresh in
      omega (
        arith,
        apply_known-due a (disown replaced known) known
            (forget_attached-IsOpen a.now.resource fresh
              (record { surface = o.surface; bounded = o.bounded; unowed = o.unowed }))
            (ap (λ (c : Commit). c.has_acquire) same ∙ h),
        forget_attached-due a.now.resource fresh,
        ap (λ (c : Commit). count t v c.release) same,
      )

  -- When a surface ends, every release point that was owed for one of its buffers, or by its cached
  -- commit, comes to exactly one end.
  pub finish_settles :
      (gpu : Gpu) (s : Synced)
      → IsOpen s
      → ended t v (drm_syncobj_surface_finish gpu s).world ≡ due t v s + count t v s.cached.release
  unfolding drm_syncobj_surface_finish
  finish_settles gpu s o =
      let down : Synced = shown_release gpu (queue_clear s) in
      omega (
        arith,
        surrender-ended t v down.cached down.world,
        down-due gpu s,
        ap (λ (c : Commit). count t v c.release) (commit_of-down true gpu s),
        ap (total (λ (p : Pending). count t v p.release))
            (shown_release-queue gpu (queue_clear s) ∙ queue_clear-nil s),
        count-null t v down.release
            (shown_release-none gpu (queue_clear s) (queue_clear-IsOpen s o)),
      )
