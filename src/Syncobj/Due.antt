-- ===== src/Syncobj/Due.antt =====
-- Where release points are in libswc/drm_syncobj.c: owed, or at an end.
use neuswc.Prelude.{
  ℕ, zero, suc, ◌+◌, ◌≡◌, refl, ap, ◌∙◌, inl, inr, Bool, true, false, ◌&&◌, ◌∷◌, Option, none, some,
  if◌then◌else◌, ◌==◌, arith, Bool-cases, Option-cases, length,
}
use neuswc.Syncobj.World.{
  Point, Event, signalled, fenced, abandoned, released, shown, referenced, unreferenced, posted,
  World, null_point, note, timeline_ref, timeline_unref, point_clear, ref_point, point_set,
  point_signal, Gpu, finished, fence, defer_release, abandon, release_behind, point_release, get_at,
}
use neuswc.Syncobj.Queue.{
  Commit, discard, surrender, Pending, Synced, send_release, held_clear, owed_release,
  shown_release, pending_free, drop_pending, queue_drop, drop_last, queue_clear,
}
use neuswc.Syncobj.Balance.{total, timeline_unref-deferred, ref_point-deferred}
use neuswc.Syncobj.QueueBalance.{total-remove_at}

abbrev count_at : (t v : ℕ) → Option ℕ → ℕ → ℕ
count_at t v none value = 0
count_at t v (some u) value = if u == t && value == v then 1 else 0

-- Whether a point is that of a timeline at a value.
abbrev pub count : (t v : ℕ) → Point → ℕ
count t v p = count_at t v p.timeline p.value

-- The ends of the point among the events.
abbrev pub ends : (t v : ℕ) → Event → ℕ
ends t v (signalled p) = count t v p
ends t v (fenced p) = count t v p
ends t v (abandoned p) = count t v p
ends t v (released r) = 0
ends t v (shown b c d) = 0
ends t v (referenced b) = 0
ends t v (unreferenced b) = 0
ends t v posted = 0

-- How often the point has come to an end, the deferred release being one.
abbrev pub ended : (t v : ℕ) → World → ℕ
ended t v w = total (ends t v) w.log + total (count t v) w.deferred

-- And that together with how often it is owed, for a buffer that waits or the one on screen.
abbrev pub due : (t v : ℕ) → Synced → ℕ
due t v s = ended t v s.world + total (λ p. count t v p.release) s.queue + count t v s.release

unref-log : (o : Option ℕ) (w : World) → (timeline_unref o w).log ≡ w.log
unfolding timeline_unref
unref-log none w = refl
unref-log (some u) w = elim (Bool-cases (w.refs u == 0)) [ inl e ↦ simp e | inr e ↦ simp e ]

ref_point-log : (o : Option ℕ) (w : World) → (ref_point o w).log ≡ w.log
unfolding ref_point timeline_ref
ref_point-log none w = refl
ref_point-log (some u) w = elim (Bool-cases (w.refs u == 0)) [ inl e ↦ simp e | inr e ↦ simp e ]

module _ (t v : ℕ) where
  pub unref-ended : (o : Option ℕ) (w : World) → ended t v (timeline_unref o w) ≡ ended t v w
  unref-ended o w = omega (
    arith,
    ap (total (ends t v)) (unref-log o w),
    ap (total (count t v)) (timeline_unref-deferred o w),
  )

  ref_point-ended : (o : Option ℕ) (w : World) → ended t v (ref_point o w) ≡ ended t v w
  ref_point-ended o w = omega (
    arith,
    ap (total (ends t v)) (ref_point-log o w),
    ap (total (count t v)) (ref_point-deferred o w),
  )

  pub point_set-ended : (old p : Point) (w : World) → ended t v (point_set old p w) ≡ ended t v w
  point_set-ended old p w =
      unref-ended old.timeline (ref_point p.timeline w) ∙ ref_point-ended p.timeline w

  pub discard-ended : (c : Commit) (w : World) → ended t v (discard c w) ≡ ended t v w
  discard-ended c w =
      unref-ended c.release.timeline (point_clear c.acquire w) ∙ unref-ended c.acquire.timeline w

  pub count-null : (p : Point) → p.timeline ≡ none → count t v p ≡ 0
  count-null p e = simp e refl

  -- A point that is signalled has come to an end, if it is one.
  pub point_signal-ended :
      (p : Point) (w : World) → ended t v (point_signal p w) ≡ ended t v w + count t v p
  unfolding point_signal
  point_signal-ended p w = elim (Option-cases p.timeline) [
    | inl e ↦ simp e (omega arith)
    | inr (u, e) ↦ simp e (
        omega (
          arith,
          unref-ended (some u) (note (signalled p) w),
          ap (λ (o : Option ℕ). count_at t v o p.value) e,
        ))
  ]

  pub surrender-ended :
      (c : Commit) (w : World) → ended t v (surrender c w) ≡ ended t v w + count t v c.release
  surrender-ended c w = omega (
    arith,
    point_signal-ended c.release (point_clear c.acquire w),
    unref-ended c.acquire.timeline w,
  )

  deferred-ended :
      (p : Point) (w : World) → ended t v (defer_release p w) ≡ ended t v w + count t v p
  unfolding defer_release
  deferred-ended p w =
      let set : World = point_set null_point p w in
      omega (
        arith,
        unref-ended p.timeline (record set { deferred = p ∷ w.deferred }),
        ap (total (ends t v))
            (unref-log none (ref_point p.timeline w) ∙ ref_point-log p.timeline w),
      )

  release_behind-ended :
      (gpu : Gpu) (p : Point) (w : World)
      → ended t v (release_behind gpu p w) ≡ ended t v w + count t v p
  unfolding release_behind abandon
  release_behind-ended finished p w = point_signal-ended p w
  release_behind-ended (fence true readable watchable) p w =
      omega (arith, unref-ended p.timeline (note (fenced p) w))
  release_behind-ended (fence false true watchable) p w = point_signal-ended p w
  release_behind-ended (fence false false true) p w = deferred-ended p w
  release_behind-ended (fence false false false) p w =
      omega (arith, unref-ended p.timeline (note (abandoned p) w))

  point_release-ended :
      (gpu : Gpu) (p : Point) (w : World)
      → ended t v (point_release gpu p w) ≡ ended t v w + count t v p
  unfolding point_release
  point_release-ended gpu p w = elim (Option-cases p.timeline) [
    | inl e ↦ simp e (omega arith)
    | inr (u, e) ↦ simp e (
        omega
          (arith, release_behind-ended gpu p w, ap (λ (o : Option ℕ). count_at t v o p.value) e))
  ]

  send_release-ended :
      (release : Bool) (o : Option ℕ) (w : World)
      → ended t v (send_release release o w) ≡ ended t v w
  send_release-ended release none w = refl
  send_release-ended true (some r) w = omega arith
  send_release-ended false (some r) w = refl

  pub pending_free-ended : (p : Pending) (w : World) → ended t v (pending_free p w) ≡ ended t v w
  unfolding pending_free
  pending_free-ended p w = omega (
    arith,
    unref-ended p.acquire.timeline (point_clear p.release w),
    unref-ended p.release.timeline w,
  )

  -- A buffer that is dropped unseen gives its release point an end.
  pub drop_pending-ended :
      (release : Bool) (p : Pending) (w : World)
      → ended t v (drop_pending release p w) ≡ ended t v w + count t v p.release
  unfolding drop_pending
  drop_pending-ended release p w = omega (
    arith,
    pending_free-ended (record p { release = null_point })
        (point_signal p.release (send_release release p.resource w)),
    point_signal-ended p.release (send_release release p.resource w),
    send_release-ended release p.resource w,
  )

  pub held_clear-due : (release : Bool) (s : Synced) → due t v (held_clear release s) ≡ due t v s
  unfolding held_clear
  held_clear-due release s = omega (arith, send_release-ended release s.held s.world)

  owed_release-due : (gpu : Gpu) (s : Synced) → due t v (owed_release gpu s) ≡ due t v s
  unfolding owed_release
  owed_release-due gpu s = elim (Bool-cases s.has_release) [
    | inl e ↦ simp e (omega (arith, point_release-ended gpu s.release s.world))
    | inr e ↦ simp e refl
  ]

  pub shown_release-due : (gpu : Gpu) (s : Synced) → due t v (shown_release gpu s) ≡ due t v s
  unfolding shown_release
  shown_release-due gpu s = held_clear-due true (owed_release gpu s) ∙ owed_release-due gpu s

  pub queue_drop-due :
      (i : ℕ) (release : Bool) (s : Synced) → due t v (queue_drop i release s) ≡ due t v s
  unfolding queue_drop
  queue_drop-due i release s = elim (Option-cases (get_at s.queue i)) [
    | inl e ↦ simp e refl
    | inr (p, e) ↦ simp e (
        omega (
          arith,
          drop_pending-ended release p s.world,
          total-remove_at (λ (p : Pending). count t v p.release) s.queue i p e,
        ))
  ]

  drop_last-due : (n : ℕ) (s : Synced) → due t v (drop_last n s) ≡ due t v s
  unfolding drop_last
  drop_last-due zero s = refl
  drop_last-due (suc n) s = drop_last-due n (queue_drop n true s) ∙ queue_drop-due n true s

  pub queue_clear-due : (s : Synced) → due t v (queue_clear s) ≡ due t v s
  unfolding queue_clear
  queue_clear-due s = drop_last-due (length s.queue) s
