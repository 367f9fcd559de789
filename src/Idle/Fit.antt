-- ===== src/Idle/Fit.antt =====
-- Each operation of libswc/idle_notify.c and idle_inhibit.c keeps the inhibition and the notifications
-- that fit what is seen.
use neuswc.Prelude.{
  ℕ, ◌≡◌, ◌≢◌, refl, sym, subst, Bool, true, false, List, [], ◌∷◌, ◌==◌, arith, Bool-cases, inl,
  inr, All,
}
use neuswc.Idle.Notify.{
  Notification, same, activity, inhibit_changed, destroy_notification, get_notification,
}
use neuswc.Idle.Inhibit.{
  Views, Idle, idle_inhibit_active, idle_notify_activity, idle_notify_inhibit_changed,
  idle_inhibit_update, create_inhibitor, inhibitor_resource_destroy, destroy_inhibitors, expire_at,
}
use neuswc.Idle.Clock.{
  IsSound, IsKept, arm-IsKept, arm_aware-IsKept, expire-IsKept, new_notification-IsSound,
}

-- Both globals exist, `effective_inhibition` is what is seen, and the notifications fit it.
pub record IsFit (views : Views) (s : Idle) : Type 0 where
  pub running : s.initialized ≡ true
  pub ready : s.inhibitors_ready ≡ true
  pub effective : s.effective_inhibition ≡ idle_inhibit_active views s
  pub kept : All (IsKept s.effective_inhibition) s.notifications

-- The same before an update, when the flag may be stale.
pub record IsStale (s : Idle) : Type 0 where
  pub running : s.initialized ≡ true
  pub ready : s.inhibitors_ready ≡ true
  pub kept : All (IsKept s.effective_inhibition) s.notifications

All-activity :
    (before active : Bool) (ns : List Notification)
    → All (IsKept before) ns
    → All (IsKept active) (activity active ns)
unfolding activity
All-activity before active [] v = tt
All-activity before active (n ∷ ns) v =
    (arm-IsKept active n v.0.sound, All-activity before active ns v.1)

All-changed :
    (before active : Bool) (ns : List Notification)
    → All (IsKept before) ns
    → All (IsKept active) (inhibit_changed active ns)
unfolding inhibit_changed
All-changed before active [] v = tt
All-changed before active (n ∷ ns) v =
    (arm_aware-IsKept before active n v.0, All-changed before active ns v.1)

update-changed :
    (views : Views) (s : Idle)
    → s.initialized ≡ true
    → same (idle_inhibit_active views s) s.effective_inhibition ≡ false
    → let active = idle_inhibit_active views s in
      idle_inhibit_update views s ≡ record s {
        notifications = inhibit_changed active s.notifications;
        effective_inhibition = active;
      }
unfolding idle_inhibit_update idle_notify_inhibit_changed
update-changed views s r e = simp (e, r)

same-eq : (a b : Bool) → same a b ≡ true → b ≡ a
same-eq a b e = ground arith

eq-same : (a b : Bool) → b ≡ a → same a b ≡ true
eq-same a b e = ground arith

pub update-IsFit :
    (views : Views) (s : Idle) → IsStale s → IsFit views (idle_inhibit_update views s)
unfolding idle_inhibit_update
update-IsFit views s v =
    elim (Bool-cases (same (idle_inhibit_active views s) s.effective_inhibition)) [
      | inl e ↦ rw e (record {
        running = v.running;
        ready = v.ready;
        effective = same-eq _ _ e;
        kept = v.kept;
      })
      | inr e ↦ subst (IsFit views) (sym (update-changed views s v.running e)) (record {
        running = v.running;
        ready = v.ready;
        effective = refl;
        kept =
            All-changed s.effective_inhibition (idle_inhibit_active views s) s.notifications v.kept;
      })
    ]

pub fit-IsStale : {views : Views} {s : Idle} → IsFit views s → IsStale s
fit-IsStale v = record { running = v.running; ready = v.ready; kept = v.kept }

activity-runs :
    (views : Views) (s : Idle)
    → s.initialized ≡ true
    → idle_notify_activity views s
      ≡ record s { notifications = activity (idle_inhibit_active views s) s.notifications }
unfolding idle_notify_activity
activity-runs views s r = simp r

pub activity-IsFit :
    (views : Views) (s : Idle) → IsFit views s → IsFit views (idle_notify_activity views s)
unfolding idle_inhibit_active
activity-IsFit views s v = subst (IsFit views) (sym (activity-runs views s v.running)) (record {
  running = v.running;
  ready = v.ready;
  effective = v.effective;
  kept = rw v.effective (All-activity s.effective_inhibition _ s.notifications v.kept);
})

pub All-ask :
    (active granted : Bool) (id timeout : ℕ) (i : Bool) (ns : List Notification)
    → All (IsKept active) ns
    → All (IsKept active) (get_notification active granted id timeout i ns)
unfolding get_notification
All-ask active true id timeout i ns v =
    (arm-IsKept active _ (new_notification-IsSound id timeout i), v)
All-ask active false id timeout i ns v = v

pub All-destroy :
    (active : Bool) (r : ℕ) (ns : List Notification)
    → All (IsKept active) ns
    → All (IsKept active) (destroy_notification r ns)
unfolding destroy_notification
All-destroy active r [] v = tt
All-destroy active r (n ∷ ns) v = elim (Bool-cases (n.resource == r)) [
  | inl e ↦ rw e v.1
  | inr e ↦ rw e (v.0, All-destroy active r ns v.1)
]

pub All-expire :
    (active : Bool) (r : ℕ) (ns : List Notification)
    → All (IsKept active) ns
    → All (IsKept active) (expire_at r ns)
unfolding expire_at
All-expire active r [] v = tt
All-expire active r (n ∷ ns) v = elim (Bool-cases (n.resource == r)) [
  | inl e ↦ rw e (expire-IsKept active n v.0, v.1)
  | inr e ↦ rw e (v.0, All-expire active r ns v.1)
]

pub release-IsFit :
    (r : ℕ) (views : Views) (s : Idle)
    → IsStale s
    → IsFit views (inhibitor_resource_destroy r views s)
unfolding inhibitor_resource_destroy
release-IsFit r views s v =
    update-IsFit views _ (record { running = v.running; ready = v.ready; kept = v.kept })

pub destroy_inhibitors-IsFit :
    (rs : List ℕ) (views : Views) (s : Idle)
    → IsFit views s
    → IsFit views (destroy_inhibitors rs views s)
unfolding destroy_inhibitors
destroy_inhibitors-IsFit [] views s v = v
destroy_inhibitors-IsFit (r ∷ rs) views s v =
    destroy_inhibitors-IsFit rs views _ (release-IsFit r views s (fit-IsStale v))

pub create-IsFit :
    (granted : Bool) (id surface : ℕ) (views : Views) (s : Idle)
    → IsFit views s
    → IsFit views (create_inhibitor granted id surface views s)
unfolding create_inhibitor
create-IsFit true id surface views s v =
    update-IsFit views
      (record s { inhibitors = record { resource = id; surface = surface } ∷ s.inhibitors })
      (record { running = v.running; ready = v.ready; kept = v.kept })
create-IsFit false id surface views s v = v

-- Both globals exist, and the notifications are sound, whatever is seen.
pub record IsRunning (s : Idle) : Type 0 where
  pub running : s.initialized ≡ true
  pub ready : s.inhibitors_ready ≡ true
  pub kept : All (IsKept false) s.notifications

All-loose :
    (active : Bool) (ns : List Notification) → All (IsKept active) ns → All (IsKept false) ns
All-loose active [] v = tt
All-loose active (n ∷ ns) v =
    (record { sound = v.0.sound; awake = λ e. cc }, All-loose active ns v.1)

pub All-IsSound : (active : Bool) (ns : List Notification) → All (IsKept active) ns → All IsSound ns
All-IsSound active [] v = tt
All-IsSound active (n ∷ ns) v = (v.0.sound, All-IsSound active ns v.1)

pub update-IsRunning :
    (views : Views) (s : Idle) → IsRunning s → IsRunning (idle_inhibit_update views s)
unfolding idle_inhibit_update
update-IsRunning views s v =
    elim (Bool-cases (same (idle_inhibit_active views s) s.effective_inhibition)) [
      | inl e ↦ rw e v
      | inr e ↦ subst IsRunning (sym (update-changed views s v.running e)) (record {
        running = v.running;
        ready = v.ready;
        kept =
            All-loose _ _ (All-changed false (idle_inhibit_active views s) s.notifications v.kept);
      })
    ]

-- An update that finds a change makes everything fit what is seen.
pub changed-IsFit :
    (views : Views) (s : Idle)
    → IsRunning s
    → s.effective_inhibition ≢ idle_inhibit_active views s
    → IsFit views (idle_inhibit_update views s)
unfolding idle_inhibit_active
changed-IsFit views s v h =
    elim (Bool-cases (same (idle_inhibit_active views s) s.effective_inhibition)) [
      | inl e ↦ absurd (h (same-eq _ _ e))
      | inr e ↦ subst (IsFit views) (sym (update-changed views s v.running e)) (record {
        running = v.running;
        ready = v.ready;
        effective = refl;
        kept = All-changed false (idle_inhibit_active views s) s.notifications v.kept;
      })
    ]

pub activity-IsRunning :
    (views : Views) (s : Idle) → IsRunning s → IsRunning (idle_notify_activity views s)
activity-IsRunning views s v = subst IsRunning (sym (activity-runs views s v.running)) (record {
  running = v.running;
  ready = v.ready;
  kept = All-loose _ _ (All-activity false (idle_inhibit_active views s) s.notifications v.kept);
})

pub All-asked :
    (active granted : Bool) (id timeout : ℕ) (i : Bool) (ns : List Notification)
    → All (IsKept false) ns
    → All (IsKept false) (get_notification active granted id timeout i ns)
unfolding get_notification
All-asked active true id timeout i ns v = (
  record {
    sound = (arm-IsKept active _ (new_notification-IsSound id timeout i)).sound;
    awake = λ e. cc;
  },
  v,
)
All-asked active false id timeout i ns v = v

pub release-IsRunning :
    (r : ℕ) (views : Views) (s : Idle)
    → IsRunning s
    → IsRunning (inhibitor_resource_destroy r views s)
unfolding inhibitor_resource_destroy
release-IsRunning r views s v =
    update-IsRunning views _ (record { running = v.running; ready = v.ready; kept = v.kept })

pub destroy_inhibitors-IsRunning :
    (rs : List ℕ) (views : Views) (s : Idle)
    → IsRunning s
    → IsRunning (destroy_inhibitors rs views s)
unfolding destroy_inhibitors
destroy_inhibitors-IsRunning [] views s v = v
destroy_inhibitors-IsRunning (r ∷ rs) views s v =
    destroy_inhibitors-IsRunning rs views _ (release-IsRunning r views s v)

pub create-IsRunning :
    (granted : Bool) (id surface : ℕ) (views : Views) (s : Idle)
    → IsRunning s
    → IsRunning (create_inhibitor granted id surface views s)
unfolding create_inhibitor
create-IsRunning true id surface views s v =
    update-IsRunning views
      (record s { inhibitors = record { resource = id; surface = surface } ∷ s.inhibitors })
      (record { running = v.running; ready = v.ready; kept = v.kept })
create-IsRunning false id surface views s v = v
