-- ===== src/Syncobj/Shape.antt =====
-- The bound of the queue of libswc/drm_syncobj.c, and when a release point is owed.
use neuswc.Prelude.{
  ℕ, zero, suc, ◌-◌, ◌≤◌, ◌<◌, ◌≡◌, refl, ap, inl, inr, Bool, true, false, List, [], ◌∷◌, Option,
  none, some, ◌==◌, arith, Bool-cases, Option-cases, length, length-append,
}
use neuswc.Syncobj.World.{World, Gpu, remove_at, get_at}
use neuswc.Syncobj.Queue.{
  drop_pending, max_pending_buffers, Pending, Synced, Committed, is_pointer, held_set, held_clear,
  owed_release, shown_release, queue_drop, drop_last, queue_clear, hold_older, owe, put_up,
  show_walk, queue_show, is_queued, forget_loop, forget_resource,
}
use neuswc.Syncobj.Commits.{make_room, hold_points, queue_add}

-- The surface is there, at most two buffers wait, and the release point is null if none is owed.
pub record IsOpen (s : Synced) : Type 0 where
  pub surface : s.has_surface ≡ true
  pub bounded : length s.queue ≤ max_pending_buffers
  pub unowed : s.has_release ≡ false → s.release.timeline ≡ none

pub length-remove_at {ℓ} :
    {A : Type ℓ} (xs : List A) (i : ℕ) (x : A)
    → get_at xs i ≡ some x
    → suc (length (remove_at i xs)) ≡ length xs
unfolding get_at remove_at
length-remove_at [] i x e = cc
length-remove_at (y ∷ ys) zero x e = refl
length-remove_at (y ∷ ys) (suc i) x e = omega (arith, length-remove_at ys i x e)

get_at-some {ℓ} :
    {A : Type ℓ} (xs : List A) (i : ℕ) → i < length xs → (x : A) × (get_at xs i ≡ some x)
unfolding get_at
get_at-some [] i h = absurd (omega (arith, h))
get_at-some (y ∷ ys) zero h = (y, refl)
get_at-some (y ∷ ys) (suc i) h = get_at-some ys i (omega (arith, h))

pub held_clear-IsOpen : (release : Bool) (s : Synced) → IsOpen s → IsOpen (held_clear release s)
unfolding held_clear
held_clear-IsOpen release s o = record {
  surface = o.surface;
  bounded = o.bounded;
  unowed = o.unowed;
}

owed_release-IsOpen : (gpu : Gpu) (s : Synced) → IsOpen s → IsOpen (owed_release gpu s)
unfolding owed_release
owed_release-IsOpen gpu s o = elim (Bool-cases s.has_release) [
  | inl e ↦ simp e (record { surface = o.surface; bounded = o.bounded; unowed = λ h. refl })
  | inr e ↦ simp e o
]

pub shown_release-IsOpen : (gpu : Gpu) (s : Synced) → IsOpen s → IsOpen (shown_release gpu s)
unfolding shown_release
shown_release-IsOpen gpu s o = held_clear-IsOpen true _ (owed_release-IsOpen gpu s o)

-- Nothing is owed any more.
pub shown_release-none :
    (gpu : Gpu) (s : Synced) → IsOpen s → (shown_release gpu s).release.timeline ≡ none
unfolding shown_release held_clear owed_release
shown_release-none gpu s o = elim (Bool-cases s.has_release) [
  | inl e ↦ simp e
  | inr e ↦ simp e (o.unowed e)
]

pub shown_release-queue : (gpu : Gpu) (s : Synced) → (shown_release gpu s).queue ≡ s.queue
unfolding shown_release held_clear owed_release
shown_release-queue gpu s = elim (Bool-cases s.has_release) [ inl e ↦ simp e | inr e ↦ simp e ]

pub queue_drop-IsOpen :
    (i : ℕ) (release : Bool) (s : Synced) → IsOpen s → IsOpen (queue_drop i release s)
unfolding queue_drop
queue_drop-IsOpen i release s o = elim (Option-cases (get_at s.queue i)) [
  | inl e ↦ simp e o
  | inr (p, e) ↦ simp e (record {
    surface = o.surface;
    bounded = omega (arith, o.bounded, length-remove_at s.queue i p e);
    unowed = o.unowed;
  })
]

-- A drop within the queue takes one buffer off.
length-queue_drop :
    (i : ℕ) (release : Bool) (s : Synced)
    → i < length s.queue
    → suc (length (queue_drop i release s).queue) ≡ length s.queue
unfolding queue_drop
length-queue_drop i release s h =
    let (p, e) = get_at-some s.queue i h in simp e (length-remove_at s.queue i p e)

drop_last-IsOpen : (n : ℕ) (s : Synced) → IsOpen s → IsOpen (drop_last n s)
unfolding drop_last
drop_last-IsOpen zero s o = o
drop_last-IsOpen (suc n) s o =
    drop_last-IsOpen n (queue_drop n true s) (queue_drop-IsOpen n true s o)

pub queue_clear-IsOpen : (s : Synced) → IsOpen s → IsOpen (queue_clear s)
unfolding queue_clear
queue_clear-IsOpen s o = drop_last-IsOpen (length s.queue) s o

drop_last-nil : (n : ℕ) (s : Synced) → length s.queue ≡ n → length (drop_last n s).queue ≡ 0
unfolding drop_last
drop_last-nil zero s e = e
drop_last-nil (suc n) s e =
    drop_last-nil n (queue_drop n true s)
      (omega (arith, length-queue_drop n true s (omega (arith, e)), e))

nil {ℓ} : {A : Type ℓ} (xs : List A) → length xs ≡ 0 → xs ≡ []
nil [] e = refl
nil (x ∷ xs) e = absurd (omega (arith, e))

pub queue_clear-nil : (s : Synced) → (queue_clear s).queue ≡ []
unfolding queue_clear
queue_clear-nil s = nil _ (drop_last-nil (length s.queue) s refl)

hold_older-IsOpen :
    (now : Committed) (o : Option ℕ) (s : Synced) → IsOpen s → IsOpen (hold_older now o s)
unfolding held_set
hold_older-IsOpen now none s o = o
hold_older-IsOpen now (some r) s o = elim (Bool-cases (is_pointer now.resource r)) [
  | inl e ↦ simp e o
  | inr e ↦ simp e (record { surface = o.surface; bounded = o.bounded; unowed = o.unowed })
]

owe-IsOpen : (p : Pending) (s : Synced) → IsOpen s → IsOpen (owe p s)
unfolding owe
owe-IsOpen p s o = record { surface = o.surface; bounded = o.bounded; unowed = λ h. cc }

put_up-IsOpen :
    (gpu : Gpu) (now : Committed) (p : Pending) (s : Synced)
    → IsOpen s
    → IsOpen (put_up gpu now p s)
unfolding put_up
put_up-IsOpen gpu now p s o =
    let held = hold_older-IsOpen now p.resource _ (owe-IsOpen p _ (shown_release-IsOpen gpu s o)) in
    record { surface = held.surface; bounded = held.bounded; unowed = held.unowed }

-- The front of the queue taken off.
pub behind-IsOpen :
    (s : Synced) (p : Pending) (ps : List Pending) (w : World)
    → s.queue ≡ p ∷ ps
    → IsOpen s
    → IsOpen (record s { queue = ps; world = w })
behind-IsOpen s p ps w e o = record {
  surface = o.surface;
  bounded = omega (arith, o.bounded, ap (λ (q : List Pending). length q) e);
  unowed = o.unowed;
}

show_walk-IsOpen :
    (gpu : Gpu) (now : Committed) (i : ℕ) (q : List Pending) (s : Synced)
    → s.queue ≡ q
    → IsOpen s
    → IsOpen (show_walk gpu now i q s)
unfolding show_walk
show_walk-IsOpen gpu now i [] s e o = o
show_walk-IsOpen gpu now zero (p ∷ ps) s e o =
    put_up-IsOpen gpu now p (record s { queue = ps }) (behind-IsOpen s p ps s.world e o)
show_walk-IsOpen gpu now (suc i) (p ∷ ps) s e o =
    show_walk-IsOpen gpu now i ps (record s { queue = ps; world = drop_pending true p s.world })
      refl (behind-IsOpen s p ps _ e o)

pub queue_show-IsOpen :
    (gpu : Gpu) (now : Committed) (i : ℕ) (s : Synced) → IsOpen s → IsOpen (queue_show gpu now i s)
unfolding queue_show
queue_show-IsOpen gpu now i s o = show_walk-IsOpen gpu now i s.queue s refl o

forget_loop-IsOpen : (n r : ℕ) (s : Synced) → IsOpen s → IsOpen (forget_loop n r s)
unfolding forget_loop
forget_loop-IsOpen zero r s o = o
forget_loop-IsOpen (suc n) r s o = elim (Bool-cases (is_queued r (get_at s.queue n))) [
  | inl e ↦ simp e (forget_loop-IsOpen n r _ (queue_drop-IsOpen n false s o))
  | inr e ↦ simp e (forget_loop-IsOpen n r s o)
]

pub forget_resource-IsOpen : (r : ℕ) (s : Synced) → IsOpen s → IsOpen (forget_resource r s)
unfolding forget_resource
forget_resource-IsOpen r s o = elim (Bool-cases (is_pointer s.held r)) [
  | inl e ↦ simp e (forget_loop-IsOpen _ r _ (held_clear-IsOpen false s o))
  | inr e ↦ simp e (forget_loop-IsOpen _ r s o)
]

make_room-IsOpen : (s : Synced) → IsOpen s → IsOpen (make_room s)
make_room-IsOpen s o = elim (Bool-cases (length s.queue == max_pending_buffers)) [
  | inl e ↦ simp e (queue_drop-IsOpen (max_pending_buffers - 1) true s o)
  | inr e ↦ simp e o
]

length-make_room : (s : Synced) → IsOpen s → length (make_room s).queue < max_pending_buffers
length-make_room s o = elim (Bool-cases (length s.queue == max_pending_buffers)) [
  | inl e ↦ simp e (ground (arith, length-queue_drop (max_pending_buffers - 1) true s, o.bounded))
  | inr e ↦ simp e (ground (arith, o.bounded))
]

-- There are never more than two, the newest one being put last.
hold_points-IsOpen : (p : Pending) (s : Synced) → IsOpen s → IsOpen (hold_points p s)
unfolding hold_points
hold_points-IsOpen p s o = record { surface = o.surface; bounded = o.bounded; unowed = o.unowed }

pub queue_add-IsOpen : (p : Pending) (s : Synced) → IsOpen s → IsOpen (queue_add p s)
unfolding queue_add
queue_add-IsOpen p s o =
    let held = hold_points-IsOpen p s o in
    let room = make_room-IsOpen (hold_points p s) held in
    record {
      surface = room.surface;
      bounded = omega (
        arith,
        length-make_room (hold_points p s) held,
        length-append (make_room (hold_points p s)).queue (p ∷ []),
      );
      unowed = room.unowed;
    }
