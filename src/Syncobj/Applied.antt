-- ===== src/Syncobj/Applied.antt =====
-- Applying a commit in libswc/drm_syncobj.c keeps the references and the bound.
use neuswc.Prelude.{
  ℕ, ◌+◌, ◌-◌, ◌≤◌, ◌≡◌, inl, inr, Bool, true, false, List, [], ◌∷◌, ◌++◌, ◌==◌, arith, Bool-cases,
  length,
}
use neuswc.Syncobj.World.{Point, posted, referenced, World, null_point, Gpu}
use neuswc.Syncobj.Queue.{
  max_pending_buffers, Commit, null_commit, discard, surrender, Pending, Synced, shown_release,
  queue_clear,
}
use neuswc.Syncobj.Commits.{make_room, hold_points, queue_add}
use neuswc.Syncobj.Apply.{
  commit_of, with_commit, clear_commit, clear_release, fail_commit, take_points, go_up,
}
use neuswc.Syncobj.Balance.{
  total, names, IsBalanced, recount, note-IsBalanced, timeline_unref-IsBalanced,
  point_set-IsBalanced, counted_le-IsAlive, counted-IsAlive, point_signal-IsBalanced,
}
use neuswc.Syncobj.QueueBalance.{
  commit_names, pending_names, holds, IsAccounted, shown_release-IsAccounted,
  queue_drop-IsAccounted, queue_clear-IsAccounted,
}

pub total-append {ℓ} :
    {A : Type ℓ} (f : A → ℕ) (xs ys : List A) → total f (xs ++ ys) ≡ total f xs + total f ys
total-append f [] ys = omega arith
total-append f (x ∷ xs) ys = omega (arith, total-append f xs ys)

with_commit-holds :
    (t : ℕ) (cached : Bool) (d : Commit) (s : Synced)
    → holds t (with_commit cached d s) + commit_names t (commit_of cached s)
      ≡ holds t s + commit_names t d
with_commit-holds t true d s = omega arith
with_commit-holds t false d s = omega arith

pub discard-IsBalanced :
    (c : ℕ → ℕ) (d : Commit) (w : World)
    → IsBalanced (λ t. c t + commit_names t d) w
    → IsBalanced c (discard d w)
discard-IsBalanced c d w b = timeline_unref-IsBalanced c d.release.timeline _ (
    timeline_unref-IsBalanced (λ t. c t + names t d.release) d.acquire.timeline w
      (recount _ _ w (λ t. omega arith) b))

pub surrender-IsBalanced :
    (c : ℕ → ℕ) (d : Commit) (w : World)
    → IsBalanced (λ t. c t + commit_names t d) w
    → IsBalanced c (surrender d w)
surrender-IsBalanced c d w b = point_signal-IsBalanced c d.release _ (
    timeline_unref-IsBalanced (λ t. c t + names t d.release) d.acquire.timeline w
      (recount _ _ w (λ t. omega arith) b))

module _ (others : ℕ → ℕ) where
  make_room-IsAccounted : (s : Synced) → IsAccounted others s → IsAccounted others (make_room s)
  make_room-IsAccounted s b = elim (Bool-cases (length s.queue == max_pending_buffers)) [
    | inl e ↦ simp e (queue_drop-IsAccounted others (max_pending_buffers - 1) true s b)
    | inr e ↦ simp e b
  ]

  -- The struct takes references of its own to points that the commit holds.
  hold_points-IsBalanced :
      (p : Pending) (s : Synced)
      → ((t : ℕ) → pending_names t p ≤ holds t s)
      → IsAccounted others s
      → IsAccounted (λ t. others t + pending_names t p) (hold_points p s)
  unfolding hold_points
  hold_points-IsBalanced p s h b =
      let c : ℕ → ℕ = λ t. others t + holds t s in
      let noted = note-IsBalanced _ (referenced p.buffer) s.world b in
      let one =
        point_set-IsBalanced c null_point p.acquire _
          (counted_le-IsAlive c p.acquire.timeline _ noted (λ t. omega (arith, h t)))
          (recount _ _ _ (λ t. omega arith) noted) in
      recount _ _ _ (λ t. omega arith)
        (point_set-IsBalanced (λ t. c t + names t p.acquire) null_point p.release _
          (counted_le-IsAlive _ p.release.timeline _ one (λ t. omega (arith, h t)))
          (recount _ _ _ (λ t. omega arith) one))

  -- A commit that is replaced, when the world already accounts for that.
  replaced-IsAccounted :
      (cached : Bool) (d : Commit) (s : Synced) (w : World)
      → IsBalanced (λ t. others t + holds t (with_commit cached d s)) w
      → IsAccounted others (with_commit cached d (record s { world = w }))
  replaced-IsAccounted true d s w b = b
  replaced-IsAccounted false d s w b = b

  pub clear_commit-IsAccounted :
      (cached : Bool) (s : Synced)
      → IsAccounted others s
      → IsAccounted others (clear_commit cached s)
  unfolding clear_commit
  clear_commit-IsAccounted cached s b = replaced-IsAccounted cached null_commit s _ (
      discard-IsBalanced _ (commit_of cached s) s.world
        (recount _ _ s.world (λ t. omega (arith, with_commit-holds t cached null_commit s)) b))

  pub fail_commit-IsAccounted :
      (cached : Bool) (s : Synced)
      → IsAccounted others s
      → IsAccounted others (fail_commit cached s)
  unfolding fail_commit
  fail_commit-IsAccounted cached s b =
      replaced-IsAccounted cached null_commit (record s { failed_acquire = true }) _
        (surrender-IsBalanced _ (commit_of cached s) _ (
          note-IsBalanced _ posted s.world (
            recount _ _ s.world
              (λ t. omega (
                arith,
                with_commit-holds t cached null_commit (record s { failed_acquire = true }),
              ))
              b)))

  pub clear_release-IsAccounted :
      (cached : Bool) (s : Synced)
      → IsAccounted others s
      → IsAccounted others (clear_release cached s)
  unfolding clear_release
  clear_release-IsAccounted cached s b =
      let c : Commit = commit_of cached s in
      let d : Commit = record c { release = null_point; has_release = false } in
      replaced-IsAccounted cached d s _ (
        timeline_unref-IsBalanced _ c.release.timeline s.world
          (recount _ _ s.world (λ t. omega (arith, with_commit-holds t cached d s)) b))

pub commit_of-le :
    (t : ℕ) (cached : Bool) (s : Synced) → commit_names t (commit_of cached s) ≤ holds t s
commit_of-le t true s = omega arith
commit_of-le t false s = omega arith

abbrev with_release : Point → Synced → Synced
with_release p s = record s { release = p; has_release = true }

with_release-holds :
    (t : ℕ) (cached : Bool) (s : Synced) (p : Point)
    → holds t (with_commit cached null_commit (with_release p s))
      ≡ holds t (with_commit cached null_commit (with_release null_point s)) + names t p
with_release-holds t true s p = omega arith
with_release-holds t false s p = omega arith

taken-holds :
    (t : ℕ) (cached : Bool) (s : Synced)
    → holds t s
      ≡ holds t (with_commit cached null_commit (with_release null_point s))
        + names t s.release
        + commit_names t (commit_of cached s)
taken-holds t true s = omega arith
taken-holds t false s = omega arith

module _ (others : ℕ → ℕ) where
  pub queue_add-IsAccounted :
      (p : Pending) (s : Synced)
      → ((t : ℕ) → pending_names t p ≤ holds t s)
      → IsAccounted others s
      → IsAccounted others (queue_add p s)
  unfolding queue_add
  queue_add-IsAccounted p s h b =
      let held = hold_points-IsBalanced others p s h b in
      let room = make_room-IsAccounted (λ t. others t + pending_names t p) (hold_points p s) held in
      recount _ _ _
        (λ t.
          omega
            (arith, total-append (pending_names t) (make_room (hold_points p s)).queue (p ∷ [])))
        room

  take_points-IsAccounted :
      (cached : Bool) (s : Synced)
      → IsAccounted others s
      → IsAccounted others (take_points cached s)
  unfolding take_points
  take_points-IsAccounted cached s b =
      let c : Commit = commit_of cached s in
      let k : ℕ → ℕ =
        λ t. others t + holds t (with_commit cached null_commit (with_release null_point s)) in
      let cleared =
        timeline_unref-IsBalanced (λ t. k t + names t s.release + names t c.release)
          c.acquire.timeline s.world
          (recount _ _ s.world (λ t. omega (arith, taken-holds t cached s)) b) in
      let set =
        point_set-IsBalanced (λ t. k t + names t c.release) s.release c.release _
          (counted-IsAlive (λ t. k t + names t s.release) c.release.timeline _ cleared)
          (recount _ _ _ (λ t. omega arith) cleared) in
      replaced-IsAccounted others cached null_commit (with_release c.release s) _ (
        timeline_unref-IsBalanced _ c.release.timeline _
          (recount _ _ _ (λ t. omega (arith, with_release-holds t cached s c.release)) set))

  pub go_up-IsAccounted :
      (gpu : Gpu) (cached : Bool) (s : Synced)
      → IsAccounted others s
      → IsAccounted others (go_up gpu cached s)
  unfolding go_up
  go_up-IsAccounted gpu cached s b =
      take_points-IsAccounted cached (shown_release gpu (queue_clear s))
        (shown_release-IsAccounted others gpu (queue_clear s) (queue_clear-IsAccounted others s b))
