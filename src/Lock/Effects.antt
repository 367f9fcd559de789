-- ===== src/Lock/Effects.antt =====
-- What a lock's begin, its end and the frames do in libswc/session_lock.c.
use neuswc.Prelude.{
  if_intro, ℕ, ◌≡◌, refl, ap, sym, ◌∙◌, ◌⊎◌, inl, inr, Bool, true, false, not, List, [], ◌∷◌,
  Option, none, some, ==_iff, Bool-cases,
}
use neuswc.Lock.State.{
  LockSurface, damage_all, Lock, say, clear_saved_focus, keyboard_set_focus, save_focus,
  next_generation, hide_for_lock, restore_after_lock, begin_lock, end_lock,
}
use neuswc.Lock.Surfaces.{handle_lock_screen_destroy}
use neuswc.Lock.Requests.{is_holder, unlock_and_destroy, same_screen}
use neuswc.Lock.Near.{
  IsShown, hidden-append, MayTell, may_tell_on, IsNear, same-IsNear, trans-IsNear,
  maybe_send_locked-IsNear, keyboard_set_focus-IsNear, screen_destroy-IsNear,
}
use neuswc.Lock.Session.{tell_surfaces}

-- The lock as `begin_lock` leaves it before it tells the holder.
abbrev started : Lock → Lock
started l = record l {
  locked = true;
  generation = next_generation l.generation;
  sent_locked = false;
}

abbrev covered : (Option ℕ → Option ℕ) → Lock → Lock
covered owner l =
    say damage_all (hide_for_lock (keyboard_set_focus none (save_focus owner (started l))))

save_focus-IsNear : (owner : Option ℕ → Option ℕ) (l : Lock) → IsNear l (save_focus owner l)
unfolding save_focus
save_focus-IsNear owner l = same-IsNear l _ _ _ _ _ refl

hide_for_lock-kept :
    (l : Lock)
    → ((hide_for_lock l).locked ≡ l.locked)
      × ((hide_for_lock l).views_hidden ≡ true)
      × ((hide_for_lock l).resource ≡ l.resource)
      × ((hide_for_lock l).generation ≡ l.generation)
      × ((hide_for_lock l).screens ≡ l.screens)
      × ((hide_for_lock l).sent_locked ≡ l.sent_locked)
hide_for_lock-kept l = elim (Bool-cases l.views_hidden) [
  | inl e ↦ simp e (refl, refl, refl, refl, refl, refl)
  | inr e ↦ simp e (refl, refl, refl, refl, refl, refl)
]

pub near-IsShown : {l t : Lock} → IsNear l t → IsShown l → IsShown t
near-IsShown n h = n.told_views ∙ h ∙ sym n.hidden_eq

pub damage-IsShown : (l : Lock) → IsShown l → IsShown (say damage_all l)
damage-IsShown l h = hidden-append false l.sent _ ∙ h

hide_for_lock-IsShown : (l : Lock) → IsShown l → IsShown (hide_for_lock l)
hide_for_lock-IsShown l h = elim (Bool-cases l.views_hidden) [
  | inl e ↦ simp e (h ∙ e)
  | inr e ↦ simp e (hidden-append false l.sent _)
]

restore_after_lock-IsShown : (l : Lock) → IsShown l → IsShown (restore_after_lock l)
restore_after_lock-IsShown l h = elim (Bool-cases l.views_hidden) [
  | inl e ↦ simp e (hidden-append false l.sent _)
  | inr e ↦ simp e (h ∙ e)
]

-- The lock has begun: it is locked and the views are hidden; it is told to the holder only if every
-- screen has shown its cover in the new generation.
pub record HasBegun (l t : Lock) : Type 0 where
  pub locked : t.locked ≡ true
  pub hidden : t.views_hidden ≡ true
  pub resource_eq : t.resource ≡ l.resource
  pub generation_eq : t.generation ≡ next_generation l.generation
  pub screens_eq : t.screens ≡ l.screens
  pub told : (t.sent_locked ≡ false) ⊎ MayTell t
  pub shows : IsShown l → IsShown t

quiet : (o : Option ℕ) (l : Lock) → (keyboard_set_focus o l).sent_locked ≡ l.sent_locked
quiet o l = elim (Bool-cases l.has_keyboard) [ inl e ↦ simp e refl | inr e ↦ simp e refl ]

pub begin_lock-HasBegun : (owner : Option ℕ → Option ℕ) (l : Lock) → HasBegun l (begin_lock owner l)
unfolding begin_lock
begin_lock-HasBegun owner l =
    let base =
      trans-IsNear (started l) (save_focus owner (started l)) _
        (save_focus-IsNear owner (started l)) (keyboard_set_focus-IsNear none _) in
    let (kl, kv, kr, kg, ks, kt) =
      hide_for_lock-kept (keyboard_set_focus none (save_focus owner (started l))) in
    let near = maybe_send_locked-IsNear (covered owner l) in
    record {
      locked = near.locked_eq ∙ kl ∙ base.locked_eq;
      hidden = near.hidden_eq ∙ kv;
      resource_eq = near.resource_eq ∙ kr ∙ base.resource_eq;
      generation_eq = near.generation_eq ∙ kg ∙ base.generation_eq;
      screens_eq = near.screens_eq ∙ ks ∙ base.screens_eq;
      told = elim (near.told) [
        | inl e ↦ inl (e ∙ kt ∙ quiet none (save_focus owner (started l)))
        | inr (e, m) ↦ inr (may_tell_on (covered owner l) _ near m)
      ];
      shows = λ h.
          let focused : Lock = keyboard_set_focus none (save_focus owner (started l)) in
          near-IsShown {l = covered owner l} near (
            damage-IsShown (hide_for_lock focused)
              (hide_for_lock-IsShown focused (near-IsShown {l = started l} {t = focused} base h)));
    }

-- The lock has ended.
pub record HasEnded (t : Lock) : Type 0 where
  pub unlocked : t.locked ≡ false
  pub vacant : t.resource ≡ none
  pub untold : t.sent_locked ≡ false
  pub restored : t.views_hidden ≡ false

pub end_lock-HasEnded : (l : Lock) → HasEnded (end_lock l)
unfolding end_lock
end_lock-HasEnded l = elim (Bool-cases l.views_hidden) [
  | inl e ↦ elim (Bool-cases l.has_keyboard) [
    | inl h ↦
        simp (e, h) (record { unlocked = refl; vacant = refl; untold = refl; restored = refl })
    | inr h ↦
        simp (e, h) (record { unlocked = refl; vacant = refl; untold = refl; restored = refl })
  ]
  | inr e ↦ elim (Bool-cases l.has_keyboard) [
    | inl h ↦
        simp (e, h) (record { unlocked = refl; vacant = refl; untold = refl; restored = refl })
    | inr h ↦
        simp (e, h) (record { unlocked = refl; vacant = refl; untold = refl; restored = refl })
  ]
]

pub end_lock-IsShown : (l : Lock) → IsShown l → IsShown (end_lock l)
unfolding end_lock
end_lock-IsShown l h =
    let ended : Lock = record l { locked = false; sent_locked = false; resource = none } in
    let cleared : Lock = clear_saved_focus (restore_after_lock ended) in
    let focused : Lock = keyboard_set_focus l.saved_focus cleared in
    damage-IsShown focused (
      near-IsShown {l = cleared} {t = focused} (keyboard_set_focus-IsNear l.saved_focus cleared)
        (restore_after_lock-IsShown ended h))

not-false : (b : Bool) → not b ≡ false → b ≡ true
not-false true e = refl
not-false false e = cc

holder : (r : ℕ) (o : Option ℕ) → is_holder r o ≡ true → o ≡ some r
holder r none e = cc
holder r (some q) e = ap some ((==_iff q r).0 e)

-- `unlock_and_destroy` ends the lock for its holder, once that was told of it, and for nobody else.
pub unlock_cases :
    (r : ℕ) (l : Lock)
    → IsNear l (unlock_and_destroy r l)
      ⊎ ((l.resource ≡ some r) × (l.sent_locked ≡ true) × HasEnded (unlock_and_destroy r l))
unfolding unlock_and_destroy
unlock_cases r l =
    let P : Lock → Type 0 =
      λ t. IsNear l t ⊎ ((l.resource ≡ some r) × (l.sent_locked ≡ true) × HasEnded t) in
    if_intro P (not (is_holder r l.resource)) _ _
      (λ e. inl (same-IsNear l _ _ _ _ _ (hidden-append false l.sent _)))
      (λ e.
        if_intro P (not l.sent_locked) _ _
          (λ f. inl (same-IsNear l _ _ _ _ _ (hidden-append false l.sent _)))
          (λ f. inr (holder r l.resource (not-false _ e), not-false _ f, end_lock-HasEnded l)))

-- The walk over the surfaces when a screen ends.
pub tell_surfaces-IsNear :
    (n : ℕ) (ss : List LockSurface) (l : Lock) → IsNear l (tell_surfaces n ss l)
unfolding tell_surfaces
tell_surfaces-IsNear n [] l = same-IsNear l _ _ _ _ _ refl
tell_surfaces-IsNear n (s ∷ ss) l = elim (Bool-cases (same_screen (some n) s.screen)) [
  | inl e ↦ rw e (
      trans-IsNear l (handle_lock_screen_destroy s l) _ (screen_destroy-IsNear s l)
        (tell_surfaces-IsNear n ss (handle_lock_screen_destroy s l)))
  | inr e ↦ rw e (tell_surfaces-IsNear n ss l)
]
