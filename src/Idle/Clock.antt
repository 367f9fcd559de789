-- ===== src/Idle/Clock.antt =====
-- One notification: its clock, and the events that its client sees.
use mathlib.Core.Bool.{false≢true}
use neuswc.Prelude.{
  ℕ, ◌<◌, ◌≡◌, refl, sym, ◌∙◌, ◌⊎◌, inl, Bool, true, false, not, List, [], ◌∷◌, if◌then◌else◌, ltb,
  Option, none, some, arith, Bool-cases, inr,
}
use neuswc.Idle.Notify.{
  Sent, Notification, int_max, set_idle, arm, arm_aware, expire, event_of, new_notification,
}

-- Idle and resumed take turns, idle first; the list is newest first, and `now` is the state that its
-- client has been told.
abbrev pub Alternates : Bool → List Sent → Type 0
Alternates now [] = now ≡ false
Alternates now (e ∷ es) = (event_of now ≡ e) × Alternates (not now) es

abbrev pub is_armed : Option ℕ → Bool
is_armed none = false
is_armed (some _) = true

-- The delay that the timer may be armed with: the timeout, in what an `int` holds.
abbrev pub clamped : ℕ → ℕ
clamped t = if ltb int_max t then int_max else t

pub record IsSound (n : Notification) : Type 0 where
  pub told : Alternates n.idled n.sent
  pub quiet : n.idled ≡ true → n.timer ≡ none
  pub armed : (n.timer ≡ none) ⊎ ((n.timer ≡ some (clamped n.timeout_ms)) × (0 < n.timeout_ms))

-- Under an effective inhibition a client that minds inhibitors is not idle, and no timer runs for it.
abbrev pub IsAwake : Bool → Notification → Type 0
IsAwake active n =
    active ≡ true → n.ignore_inhibitors ≡ false → (n.idled ≡ false) × (n.timer ≡ none)

set_idle-Alternates :
    (b : Bool) (n : Notification)
    → Alternates n.idled n.sent
    → Alternates (set_idle b n).idled (set_idle b n).sent
unfolding set_idle
set_idle-Alternates b n h = ground arith

arm-IsSound : (active : Bool) (n : Notification) → IsSound n → IsSound (arm active n)
unfolding arm
arm-IsSound active n v = record { told = ground arith; quiet = ground arith; armed = ground arith }

arm-IsAwake : (active : Bool) (n : Notification) → IsAwake active (arm active n)
unfolding arm
arm-IsAwake active n a i = ground arith

expire-IsSound : (n : Notification) → IsSound n → IsSound (expire n)
unfolding expire
expire-IsSound n v = record { told = ground arith; quiet = ground arith; armed = ground arith }

expire-ignore_inhibitors : (n : Notification) → (expire n).ignore_inhibitors ≡ n.ignore_inhibitors
unfolding expire
expire-ignore_inhibitors n = ground arith

expire-IsAwake : (active : Bool) (n : Notification) → IsAwake active n → IsAwake active (expire n)
unfolding expire
expire-IsAwake active n h a i = ground (arith, h a (sym (expire-ignore_inhibitors n) ∙ i))

pub new_notification-IsSound : (id timeout : ℕ) (i : Bool) → IsSound (new_notification id timeout i)
new_notification-IsSound id timeout i = record { told = refl; quiet = λ e. cc; armed = inl refl }

-- What holds of a notification while `active` is the state of inhibition.
pub record IsKept (active : Bool) (n : Notification) : Type 0 where
  pub sound : IsSound n
  pub awake : IsAwake active n

pub arm-IsKept : (active : Bool) (n : Notification) → IsSound n → IsKept active (arm active n)
arm-IsKept active n v = record { sound = arm-IsSound active n v; awake = arm-IsAwake active n }

pub expire-IsKept : (active : Bool) (n : Notification) → IsKept active n → IsKept active (expire n)
expire-IsKept active n v = record {
  sound = expire-IsSound n v.sound;
  awake = expire-IsAwake active n v.awake;
}

-- A change of inhibition reaches those that mind it, and leaves the others be.
pub arm_aware-IsKept :
    (before active : Bool) (n : Notification) → IsKept before n → IsKept active (arm_aware active n)
arm_aware-IsKept before active n v = elim (Bool-cases n.ignore_inhibitors) [
  | inl e ↦ simp e (record { sound = v.sound; awake = λ a i. absurd (false≢true (sym i ∙ e)) })
  | inr e ↦ simp e (arm-IsKept active n v.sound)
]
