-- ===== src/Syncobj/QueueBalance.antt =====
-- The references that the queue of libswc/drm_syncobj.c holds.
use neuswc.Prelude.{
  ℕ, zero, suc, ◌+◌, ◌≡◌, refl, ap, inl, inr, Bool, true, false, List, [], ◌∷◌, Option, none, some,
  arith, Bool-cases, Option-cases, length,
}
use neuswc.Syncobj.World.{
  released, shown, referenced, unreferenced, World, null_point, Gpu, remove_at, get_at,
}
use neuswc.Syncobj.Queue.{
  Commit, Pending, Synced, Committed, is_pointer, held_set, send_release, held_clear, owed_release,
  shown_release, pending_free, drop_pending, queue_drop, drop_last, queue_clear, hold_older, owe,
  put_up, show_walk, queue_show, is_queued, forget_loop, forget_resource,
}
use neuswc.Syncobj.Balance.{
  total, names, IsBalanced, recount, note-IsBalanced, timeline_unref-IsBalanced,
  point_set-IsBalanced, counted-IsAlive, point_signal-IsBalanced, point_release-IsBalanced,
}

abbrev pub commit_names : ℕ → Commit → ℕ
commit_names t c = names t c.acquire + names t c.release

abbrev pub pending_names : ℕ → Pending → ℕ
pending_names t p = names t p.release + names t p.acquire

-- How often the object of a surface points to a timeline.
abbrev pub holds : ℕ → Synced → ℕ
holds t s =
    commit_names t s.pending
    + commit_names t s.cached
    + names t s.release
    + total (pending_names t) s.queue

-- The references are those of the object and the `others`.
abbrev pub IsAccounted : (others : ℕ → ℕ) → Synced → Type 0
IsAccounted others s = IsBalanced (λ t. others t + holds t s) s.world

send_release-IsBalanced :
    (release : Bool) (o : Option ℕ) (c : ℕ → ℕ) (w : World)
    → IsBalanced c w
    → IsBalanced c (send_release release o w)
send_release-IsBalanced release none c w b = b
send_release-IsBalanced true (some r) c w b = note-IsBalanced c (released r) w b
send_release-IsBalanced false (some r) c w b = b

pub pending_free-IsBalanced :
    (c : ℕ → ℕ) (p : Pending) (w : World)
    → IsBalanced (λ t. c t + pending_names t p) w
    → IsBalanced c (pending_free p w)
unfolding pending_free
pending_free-IsBalanced c p w b = note-IsBalanced c (unreferenced p.buffer) _ (
    timeline_unref-IsBalanced c p.acquire.timeline _ (
      timeline_unref-IsBalanced (λ t. c t + names t p.acquire) p.release.timeline w
        (recount _ _ w (λ t. omega arith) b)))

pub drop_pending-IsBalanced :
    (release : Bool) (c : ℕ → ℕ) (p : Pending) (w : World)
    → IsBalanced (λ t. c t + pending_names t p) w
    → IsBalanced c (drop_pending release p w)
unfolding drop_pending
drop_pending-IsBalanced release c p w b =
    pending_free-IsBalanced c (record p { release = null_point }) _
      (point_signal-IsBalanced (λ t. c t + pending_names t (record p { release = null_point }))
        p.release _
        (send_release-IsBalanced release p.resource _ w (recount _ _ w (λ t. omega arith) b)))

some_eq {ℓ} : {A : Type ℓ} (a b : A) → some a ≡ some b → a ≡ b
some_eq a b e = cc

pub total-remove_at {ℓ} :
    {A : Type ℓ} (f : A → ℕ) (xs : List A) (i : ℕ) (x : A)
    → get_at xs i ≡ some x
    → total f (remove_at i xs) + f x ≡ total f xs
unfolding get_at remove_at
total-remove_at f [] i x e = cc
total-remove_at f (y ∷ ys) zero x e = omega (arith, ap f (some_eq y x e))
total-remove_at f (y ∷ ys) (suc i) x e = omega (arith, total-remove_at f ys i x e)

module _ (others : ℕ → ℕ) where
  pub held_clear-IsAccounted :
      (release : Bool) (s : Synced)
      → IsAccounted others s
      → IsAccounted others (held_clear release s)
  unfolding held_clear
  held_clear-IsAccounted release s b = send_release-IsBalanced release s.held _ s.world b

  owed_release-IsAccounted :
      (gpu : Gpu) (s : Synced) → IsAccounted others s → IsAccounted others (owed_release gpu s)
  unfolding owed_release
  owed_release-IsAccounted gpu s b = elim (Bool-cases s.has_release) [
    | inl e ↦ simp e (
        point_release-IsBalanced _ s.release s.world (recount _ _ s.world (λ t. omega arith) b) gpu)
    | inr e ↦ simp e b
  ]

  pub shown_release-IsAccounted :
      (gpu : Gpu) (s : Synced) → IsAccounted others s → IsAccounted others (shown_release gpu s)
  unfolding shown_release
  shown_release-IsAccounted gpu s b =
      held_clear-IsAccounted true (owed_release gpu s) (owed_release-IsAccounted gpu s b)

  pub queue_drop-IsAccounted :
      (i : ℕ) (release : Bool) (s : Synced)
      → IsAccounted others s
      → IsAccounted others (queue_drop i release s)
  unfolding queue_drop
  queue_drop-IsAccounted i release s b = elim (Option-cases (get_at s.queue i)) [
    | inl e ↦ simp e b
    | inr (p, e) ↦ simp e (
        drop_pending-IsBalanced release _ p s.world (
          recount _ _ s.world (λ t. omega (arith, total-remove_at (pending_names t) s.queue i p e))
            b))
  ]

  drop_last-IsAccounted :
      (n : ℕ) (s : Synced) → IsAccounted others s → IsAccounted others (drop_last n s)
  unfolding drop_last
  drop_last-IsAccounted zero s b = b
  drop_last-IsAccounted (suc n) s b =
      drop_last-IsAccounted n (queue_drop n true s) (queue_drop-IsAccounted n true s b)

  pub queue_clear-IsAccounted :
      (s : Synced) → IsAccounted others s → IsAccounted others (queue_clear s)
  unfolding queue_clear
  queue_clear-IsAccounted s b = drop_last-IsAccounted (length s.queue) s b

  hold_older-IsAccounted :
      (now : Committed) (o : Option ℕ) (s : Synced)
      → IsAccounted others s
      → IsAccounted others (hold_older now o s)
  unfolding held_set
  hold_older-IsAccounted now none s b = b
  hold_older-IsAccounted now (some r) s b = elim (Bool-cases (is_pointer now.resource r)) [
    | inl e ↦ simp e b
    | inr e ↦ simp e b
  ]

  pub forget_loop-IsAccounted :
      (n r : ℕ) (s : Synced) → IsAccounted others s → IsAccounted others (forget_loop n r s)
  unfolding forget_loop
  forget_loop-IsAccounted zero r s b = b
  forget_loop-IsAccounted (suc n) r s b = elim (Bool-cases (is_queued r (get_at s.queue n))) [
    | inl e ↦
        simp e
          (forget_loop-IsAccounted n r (queue_drop n false s) (queue_drop-IsAccounted n false s b))
    | inr e ↦ simp e (forget_loop-IsAccounted n r s b)
  ]

  -- However many claims there are on a buffer that is attached again.
  pub forget_resource-IsAccounted :
      (r : ℕ) (s : Synced) → IsAccounted others s → IsAccounted others (forget_resource r s)
  unfolding forget_resource
  forget_resource-IsAccounted r s b = elim (Bool-cases (is_pointer s.held r)) [
    | inl e ↦ simp e (forget_loop-IsAccounted _ r _ (held_clear-IsAccounted false s b))
    | inr e ↦ simp e (forget_loop-IsAccounted _ r s b)
  ]

module _ (others : ℕ → ℕ) where
  owe-IsBalanced :
      (p : Pending) (s : Synced)
      → IsBalanced (λ t. others t + holds t s + pending_names t p) s.world
      → IsBalanced (λ t. others t + holds t (owe p s) + pending_names t p) (owe p s).world
  unfolding owe
  owe-IsBalanced p s b =
      recount _ _ _ (λ t. omega arith)
        (point_set-IsBalanced
          (λ t.
            others t
            + (commit_names t s.pending + commit_names t s.cached + total (pending_names t) s.queue)
            + pending_names t p)
          s.release p.release s.world
          (counted-IsAlive (λ t. others t + holds t s + names t p.acquire) p.release.timeline
            s.world (recount _ _ s.world (λ t. omega arith) b))
          (recount _ _ s.world (λ t. omega arith) b))

  -- A buffer that has left the queue is counted apart.
  pub put_up-IsAccounted :
      (gpu : Gpu) (now : Committed) (p : Pending) (s : Synced)
      → IsBalanced (λ t. others t + holds t s + pending_names t p) s.world
      → IsAccounted others (put_up gpu now p s)
  unfolding put_up
  put_up-IsAccounted gpu now p s b =
      let with_p : ℕ → ℕ = λ t. others t + pending_names t p in
      let down =
        shown_release-IsAccounted with_p gpu s (recount _ _ s.world (λ t. omega arith) b) in
      let owing = owe-IsBalanced p (shown_release gpu s) (recount _ _ _ (λ t. omega arith) down) in
      let held =
        hold_older-IsAccounted with_p now p.resource (owe p (shown_release gpu s))
          (recount _ _ _ (λ t. omega arith) owing) in
      note-IsBalanced _ (unreferenced p.buffer) _ (
        note-IsBalanced _ (shown p.buffer p.scale p.transform) _ (
          pending_free-IsBalanced _ p _
            (note-IsBalanced _ (referenced p.buffer) _ (recount _ _ _ (λ t. omega arith) held))))

  show_walk-IsAccounted :
      (gpu : Gpu) (now : Committed) (i : ℕ) (q : List Pending) (s : Synced)
      → s.queue ≡ q
      → IsAccounted others s
      → IsAccounted others (show_walk gpu now i q s)
  unfolding show_walk
  show_walk-IsAccounted gpu now i [] s e b = b
  show_walk-IsAccounted gpu now zero (p ∷ ps) s e b =
      put_up-IsAccounted gpu now p (record s { queue = ps })
        (recount _ _ s.world (λ t. omega (arith, ap (total (pending_names t)) e)) b)
  show_walk-IsAccounted gpu now (suc i) (p ∷ ps) s e b =
      show_walk-IsAccounted gpu now i ps
        (record s { queue = ps; world = drop_pending true p s.world }) refl
        (drop_pending-IsBalanced true _ p s.world
          (recount _ _ s.world (λ t. omega (arith, ap (total (pending_names t)) e)) b))

  pub queue_show-IsAccounted :
      (gpu : Gpu) (now : Committed) (i : ℕ) (s : Synced)
      → IsAccounted others s
      → IsAccounted others (queue_show gpu now i s)
  unfolding queue_show
  queue_show-IsAccounted gpu now i s b = show_walk-IsAccounted gpu now i s.queue s refl b
