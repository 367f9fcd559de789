-- ===== src/Syncobj/DueQueue.antt =====
-- Release points of the queue in libswc/drm_syncobj.c: none is lost, and none comes to two ends.
use neuswc.Prelude.{
  ℕ, zero, suc, ◌+◌, ◌≡◌, refl, ap, ◌∙◌, inl, inr, true, false, List, [], ◌∷◌, Option, none, some,
  arith, Bool-cases, length,
}
use neuswc.Syncobj.World.{World, note, Gpu, get_at, referenced}
use neuswc.Syncobj.Queue.{
  Pending, Synced, Committed, is_pointer, held_set, held_clear, shown_release, drop_pending,
  queue_drop, hold_older, owe, show_buffer, put_up, show_walk, queue_show, is_queued, forget_loop,
  forget_resource, queue_index, Wait, ready, waiting, failed, note_failure, handle_acquire,
}
use neuswc.Syncobj.Balance.{total}
use neuswc.Syncobj.Shape.{IsOpen, shown_release-none, behind-IsOpen}
use neuswc.Syncobj.Due.{
  count, ended, due, point_set-ended, count-null, pending_free-ended, drop_pending-ended,
  held_clear-due, shown_release-due, queue_drop-due,
}

module _ (t v : ℕ) where
  hold_older-due :
      (now : Committed) (o : Option ℕ) (s : Synced) → due t v (hold_older now o s) ≡ due t v s
  unfolding held_set
  hold_older-due now none s = refl
  hold_older-due now (some r) s = elim (Bool-cases (is_pointer now.resource r)) [
    | inl e ↦ simp e refl
    | inr e ↦ simp e refl
  ]

  owe-due :
      (p : Pending) (s : Synced)
      → s.release.timeline ≡ none
      → due t v (owe p s) ≡ due t v s + count t v p.release
  unfolding owe
  owe-due p s e =
      omega (arith, point_set-ended t v s.release p.release s.world, count-null t v s.release e)

  show_buffer-ended : (p : Pending) (w : World) → ended t v (show_buffer p w) ≡ ended t v w
  show_buffer-ended p w = omega (arith, pending_free-ended t v p (note (referenced p.buffer) w))

  put_up-due :
      (gpu : Gpu) (now : Committed) (p : Pending) (s : Synced)
      → IsOpen s
      → due t v (put_up gpu now p s) ≡ due t v s + count t v p.release
  unfolding put_up
  put_up-due gpu now p s o =
      let down : Synced = shown_release gpu s in
      let held : Synced = hold_older now p.resource (owe p down) in
      omega (
        arith,
        show_buffer-ended p held.world,
        hold_older-due now p.resource (owe p down),
        owe-due p down (shown_release-none gpu s o),
        shown_release-due t v gpu s,
      )

  show_walk-due :
      (gpu : Gpu) (now : Committed) (i : ℕ) (q : List Pending) (s : Synced)
      → s.queue ≡ q
      → IsOpen s
      → due t v (show_walk gpu now i q s) ≡ due t v s
  unfolding show_walk
  show_walk-due gpu now i [] s e o = refl
  show_walk-due gpu now zero (p ∷ ps) s e o = omega (
    arith,
    put_up-due gpu now p (record s { queue = ps }) (behind-IsOpen s p ps s.world e o),
    ap (total (λ (p : Pending). count t v p.release)) e,
  )
  show_walk-due gpu now (suc i) (p ∷ ps) s e o =
      let rest : Synced = record s { queue = ps; world = drop_pending true p s.world } in
      omega (
        arith,
        show_walk-due gpu now i ps rest refl (behind-IsOpen s p ps _ e o),
        drop_pending-ended t v true p s.world,
        ap (total (λ (p : Pending). count t v p.release)) e,
      )

  pub queue_show-due :
      (gpu : Gpu) (now : Committed) (i : ℕ) (s : Synced)
      → IsOpen s
      → due t v (queue_show gpu now i s) ≡ due t v s
  unfolding queue_show
  queue_show-due gpu now i s o = show_walk-due gpu now i s.queue s refl o

  forget_loop-due : (n r : ℕ) (s : Synced) → due t v (forget_loop n r s) ≡ due t v s
  unfolding forget_loop
  forget_loop-due zero r s = refl
  forget_loop-due (suc n) r s = elim (Bool-cases (is_queued r (get_at s.queue n))) [
    | inl e ↦ simp e (forget_loop-due n r (queue_drop n false s) ∙ queue_drop-due t v n false s)
    | inr e ↦ simp e (forget_loop-due n r s)
  ]

  pub forget_resource-due : (r : ℕ) (s : Synced) → due t v (forget_resource r s) ≡ due t v s
  unfolding forget_resource
  forget_resource-due r s = elim (Bool-cases (is_pointer s.held r)) [
    | inl e ↦ simp e (
        forget_loop-due (length (held_clear false s).queue) r (held_clear false s)
        ∙ held_clear-due t v false s)
    | inr e ↦ simp e (forget_loop-due (length s.queue) r s)
  ]

  -- Whatever comes of the wait for an acquire point, what is owed or has ended stays as much.
  pub handle_acquire-due :
      (gpu : Gpu) (now : Committed) (wait : Wait) (p : Pending) (s : Synced)
      → IsOpen s
      → due t v (handle_acquire gpu now wait p s) ≡ due t v s
  unfolding handle_acquire
  handle_acquire-due gpu now ready p s o = queue_show-due gpu now (queue_index p.id s.queue) s o
  handle_acquire-due gpu now waiting p s o = refl
  handle_acquire-due gpu now failed p s o =
      omega (arith, queue_drop-due t v (queue_index p.id s.queue) true (note_failure now p s))
