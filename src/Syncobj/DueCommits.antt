-- ===== src/Syncobj/DueCommits.antt =====
-- Release points of commits in libswc/drm_syncobj.c.
use neuswc.Prelude.{
  ℕ, ◌+◌, ◌-◌, ◌≡◌, refl, inl, inr, Bool, true, false, [], ◌∷◌, none, ◌==◌, arith, Bool-cases,
  length,
}
use neuswc.Syncobj.World.{posted, referenced, World, null_point, note, point_set, point_clear}
use neuswc.Syncobj.Queue.{
  max_pending_buffers, Commit, null_commit, discard, surrender, Pending, Synced,
}
use neuswc.Syncobj.Commits.{make_room, hold_points, queue_add}
use neuswc.Syncobj.Apply.{commit_of, with_commit, clear_commit, fail_commit, take_points}
use neuswc.Syncobj.Applied.{total-append}
use neuswc.Syncobj.Due.{
  count, due, point_set-ended, discard-ended, surrender-ended, unref-ended, count-null,
  queue_drop-due,
}

module _ (t v : ℕ) where
  make_room-due : (s : Synced) → due t v (make_room s) ≡ due t v s
  make_room-due s = elim (Bool-cases (length s.queue == max_pending_buffers)) [
    | inl e ↦ simp e (queue_drop-due t v (max_pending_buffers - 1) true s)
    | inr e ↦ simp e refl
  ]

  hold_points-due : (p : Pending) (s : Synced) → due t v (hold_points p s) ≡ due t v s
  unfolding hold_points
  hold_points-due p s =
      let noted : World = note (referenced p.buffer) s.world in
      omega (
        arith,
        point_set-ended t v null_point p.release (point_set null_point p.acquire noted),
        point_set-ended t v null_point p.acquire noted,
      )

  pub queue_add-due :
      (p : Pending) (s : Synced) → due t v (queue_add p s) ≡ due t v s + count t v p.release
  unfolding queue_add
  queue_add-due p s = omega (
    arith,
    make_room-due (hold_points p s),
    hold_points-due p s,
    total-append (λ (p : Pending). count t v p.release) (make_room (hold_points p s)).queue
        (p ∷ []),
  )

  with_commit-due :
      (cached : Bool) (c : Commit) (s : Synced) → due t v (with_commit cached c s) ≡ due t v s
  with_commit-due true c s = refl
  with_commit-due false c s = refl

  pub clear_commit-due : (cached : Bool) (s : Synced) → due t v (clear_commit cached s) ≡ due t v s
  unfolding clear_commit
  clear_commit-due cached s =
      let c : Commit = commit_of cached s in
      omega (
        arith,
        with_commit-due cached null_commit (record s { world = discard c s.world }),
        discard-ended t v c s.world,
      )

  pub fail_commit-due :
      (cached : Bool) (s : Synced)
      → due t v (fail_commit cached s) ≡ due t v s + count t v (commit_of cached s).release
  unfolding fail_commit
  fail_commit-due cached s =
      let c : Commit = commit_of cached s in
      let w : World = surrender c (note posted s.world) in
      omega (
        arith,
        with_commit-due cached null_commit (record s { failed_acquire = true; world = w }),
        surrender-ended t v c (note posted s.world),
      )

  pub take_points-due :
      (cached : Bool) (s : Synced)
      → s.release.timeline ≡ none
      → due t v (take_points cached s) ≡ due t v s + count t v (commit_of cached s).release
  unfolding take_points
  take_points-due cached s e =
      let c : Commit = commit_of cached s in
      let w : World = point_set s.release c.release (point_clear c.acquire s.world) in
      omega (
        arith,
        with_commit-due cached null_commit
            (record s { release = c.release; has_release = true; world = point_clear c.release w }),
        unref-ended t v c.release.timeline w,
        point_set-ended t v s.release c.release (point_clear c.acquire s.world),
        unref-ended t v c.acquire.timeline s.world,
        count-null t v s.release e,
      )
