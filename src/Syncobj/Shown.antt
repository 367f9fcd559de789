-- ===== src/Syncobj/Shown.antt =====
-- libswc/drm_syncobj.c: what goes up when the wait for an acquire point is over, and what it replaces.
use neuswc.Prelude.{
  ℕ, ◌+◌, ◌≡◌, ◌≢◌, refl, ap, ◌∙◌, inl, inr, List, [], ◌∷◌, ◌++◌, Option, none, some, All, arith,
  Bool-cases, length,
}
use neuswc.Syncobj.World.{Gpu}
use neuswc.Syncobj.Queue.{
  Pending, Synced, Committed, is_pointer, held_set, held_clear, owed_release, shown_release,
  hold_older, owe, put_up, show_walk, queue_show, queue_index, Wait, ready, handle_acquire,
}
use neuswc.Syncobj.Balance.{total}
use neuswc.Syncobj.Shape.{IsOpen}
use neuswc.Syncobj.Due.{count, ended, due}
use neuswc.Syncobj.DueQueue.{handle_acquire-due}

shown_release-queue : (gpu : Gpu) (s : Synced) → (shown_release gpu s).queue ≡ s.queue
unfolding shown_release held_clear owed_release
shown_release-queue gpu s = elim (Bool-cases s.has_release) [
  | inl e ↦ simp e refl
  | inr e ↦ simp e refl
]

hold_older-keeps :
    (now : Committed) (o : Option ℕ) (s : Synced)
    → ((hold_older now o s).queue ≡ s.queue) × ((hold_older now o s).release ≡ s.release)
unfolding held_set
hold_older-keeps now none s = (refl, refl)
hold_older-keeps now (some r) s = elim (Bool-cases (is_pointer now.resource r)) [
  | inl e ↦ simp e (refl, refl)
  | inr e ↦ simp e (refl, refl)
]

put_up-shows :
    (gpu : Gpu) (now : Committed) (p : Pending) (s : Synced)
    → ((put_up gpu now p s).queue ≡ s.queue) × ((put_up gpu now p s).release ≡ p.release)
unfolding put_up owe
put_up-shows gpu now p s =
    let (q, r) = hold_older-keeps now p.resource (owe p (shown_release gpu s)) in
    (q ∙ shown_release-queue gpu s, r)

show_walk-shows :
    (gpu : Gpu) (now : Committed) (before : List Pending) (p : Pending) (rest : List Pending)
    (s : Synced)
    → ((show_walk gpu now (length before) (before ++ p ∷ rest) s).queue ≡ rest)
      × ((show_walk gpu now (length before) (before ++ p ∷ rest) s).release ≡ p.release)
unfolding show_walk
show_walk-shows gpu now [] p rest s = put_up-shows gpu now p (record s { queue = rest })
show_walk-shows gpu now (b ∷ bs) p rest s = show_walk-shows gpu now bs p rest _

queue_index-length :
    (before : List Pending) (p : Pending) (rest : List Pending)
    → All (λ (q : Pending). q.id ≢ p.id) before
    → queue_index p.id (before ++ p ∷ rest) ≡ length before
unfolding queue_index
queue_index-length [] p rest h = ground arith
queue_index-length (b ∷ bs) p rest (n, h) = ground (arith, queue_index-length bs p rest h)

total-append :
    (f : Pending → ℕ) (xs ys : List Pending) → total f (xs ++ ys) ≡ total f xs + total f ys
total-append f [] ys = omega arith
total-append f (x ∷ xs) ys = omega (arith, total-append f xs ys)

ready-shows :
    (gpu : Gpu) (now : Committed) (s : Synced) (before : List Pending) (p : Pending)
    (rest : List Pending)
    → s.queue ≡ before ++ p ∷ rest
    → All (λ (q : Pending). q.id ≢ p.id) before
    → ((handle_acquire gpu now ready p s).queue ≡ rest)
      × ((handle_acquire gpu now ready p s).release ≡ p.release)
unfolding handle_acquire queue_show
ready-shows gpu now s before p rest e h =
    rw (e, queue_index-length before p rest h)
      (show_walk-shows gpu now before p rest (record s { queue = before ++ p ∷ rest }))

-- Whatever comes of the wait for the acquire point of a buffer in the queue, each release point is owed or
-- has ended as often as before. Once the fence is signalled, the buffers before that one and itself have
-- left the queue, its release point is the one that is owed, and the ones of the buffers before it and of
-- the buffer that was on screen have ended, once each.
pub handle_acquire_exact :
    (t v : ℕ) (gpu : Gpu) (now : Committed) (wait : Wait) (s : Synced) (before : List Pending)
    (p : Pending) (rest : List Pending)
    → IsOpen s
    → s.queue ≡ before ++ p ∷ rest
    → All (λ (q : Pending). q.id ≢ p.id) before
    → (due t v (handle_acquire gpu now wait p s) ≡ due t v s)
      × ((handle_acquire gpu now ready p s).queue ≡ rest)
      × ((handle_acquire gpu now ready p s).release ≡ p.release)
      × (ended t v (handle_acquire gpu now ready p s).world
          ≡ ended t v s.world + total (λ q. count t v q.release) before + count t v s.release)
handle_acquire_exact t v gpu now wait s before p rest o e h =
    let (q, r) = ready-shows gpu now s before p rest e h in
    (
      handle_acquire-due t v gpu now wait p s o,
      q,
      r,
      omega (
        arith,
        handle_acquire-due t v gpu now ready p s o,
        ap (total owed) q,
        ap (λ c. count t v c) r,
        ap (total owed) e,
        total-append owed before (p ∷ rest),
      ),
    )
  where
    owed : Pending → ℕ
    owed q = count t v q.release
