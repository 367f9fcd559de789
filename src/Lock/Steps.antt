-- ===== src/Lock/Steps.antt =====
-- What each event of libswc/session_lock.c may do to the lock.
use neuswc.Prelude.{
  if_intro, ℕ, ◌≡◌, refl, sym, subst, ◌∙◌, inl, inr, Bool, true, false, not, ◌||◌, List, ◌∷◌,
  Option, none, some, ◌==◌, Bool-cases,
}
use neuswc.Lock.State.{Screen, Lock}
use neuswc.Lock.Requests.{
  is_holder, unlock_and_destroy, destroy_lock, manager_lock, set_presented,
  session_lock_frame_presented,
}
use neuswc.Lock.Near.{
  hidden-append, IsShown, IsNear, same-IsNear, maybe_send_locked-IsNear, get_lock_surface-IsNear,
  lock_surface_ack_configure-IsNear, commit-IsNear, destroy_lock_surface-IsNear,
}
use neuswc.Lock.Effects.{
  damage-IsShown, end_lock-IsShown, HasBegun, begin_lock-HasBegun, HasEnded, unlock_cases,
  tell_surfaces-IsNear,
}
use neuswc.Lock.Session.{
  drop_screen, end_screen, Step, ask, unlock, leave, get, ack, commit, end_surface, present, plug,
  unplug, end_focus,
}

-- What an event may be: a begin of the lock when it was not locked; an end by the holder, once it
-- was told; or one that leaves the lock alone, but for the screens, which tells the holder only when
-- all of them have shown their cover, and after which the holder may be gone.
pub data Effect (l t : Lock) : Type 0 where
  begins :
      l.locked ≡ false
      → (m : Lock) → HasBegun m t
      → (r : ℕ) → t.resource ≡ some r
      → (IsShown l → IsShown t)
      → Effect l t
  ends :
      (r : ℕ)
      → l.resource ≡ some r
      → l.sent_locked ≡ true
      → HasEnded t
      → unlock_and_destroy r l ≡ t
      → (IsShown l → IsShown t)
      → Effect l t
  stays : (ss : List Screen) → IsNear (record l { screens = ss }) t → Effect l t
  orphans :
      t.resource ≡ none
      → t.locked ≡ l.locked
      → t.views_hidden ≡ l.views_hidden
      → t.sent_locked ≡ l.sent_locked
      → (IsShown l → IsShown t)
      → Effect l t

near : (l t u : Lock) → t ≡ u → IsNear l t → Effect l u
near l t u e n = stays l.screens (subst (IsNear l) e n)

ask-Effect :
    (granted : Bool) (id : ℕ) (owner : Option ℕ → Option ℕ) (l : Lock)
    → Effect l (manager_lock granted id owner l)
unfolding manager_lock
ask-Effect false id owner l =
    stays l.screens (same-IsNear l _ _ _ _ _ (hidden-append false l.sent _))
ask-Effect true id owner l =
    if_intro (Effect l) l.locked _ _
      (λ e. stays l.screens (same-IsNear l _ _ _ _ _ (hidden-append false l.sent _)))
      (λ e.
        let begun = begin_lock-HasBegun owner (record l { resource = some id }) in
        begins e (record l { resource = some id }) begun id begun.resource_eq begun.shows)

leave-Effect : (r : ℕ) (l : Lock) → Effect l (destroy_lock r l)
unfolding destroy_lock
leave-Effect r l = elim (Bool-cases (is_holder r l.resource)) [
  | inl e ↦ elim (Bool-cases l.locked) [
    | inl h ↦
        simp (e, h) (orphans refl (sym h) refl refl (damage-IsShown (record l { resource = none })))
    | inr h ↦ simp (e, h) (orphans refl (sym h) refl refl (λ k. k))
  ]
  | inr e ↦ simp e (stays l.screens (same-IsNear l _ _ _ _ _ refl))
]

unlock-IsShown : (r : ℕ) (l : Lock) → IsShown l → IsShown (unlock_and_destroy r l)
unfolding unlock_and_destroy
unlock-IsShown r l h =
    if_intro IsShown (not (is_holder r l.resource)) _ _ (λ _. hidden-append false l.sent _ ∙ h)
      (λ _.
        if_intro IsShown (not l.sent_locked) _ _ (λ _. hidden-append false l.sent _ ∙ h)
          (λ _. end_lock-IsShown l h))

unlock-Effect : (r : ℕ) (l t : Lock) → unlock_and_destroy r l ≡ t → Effect l t
unlock-Effect r l t e = elim (unlock_cases r l) [
  | inl n ↦ near l _ t e n
  | inr (h, s, d) ↦ ends r h s (subst HasEnded e d) e (λ k. subst IsShown e (unlock-IsShown r l k))
]

present-Effect : (n g : ℕ) (l : Lock) → Effect l (session_lock_frame_presented n g l)
unfolding session_lock_frame_presented
present-Effect n g l = elim (Bool-cases (not l.locked || g == 0 || not (g == l.generation))) [
  | inl e ↦ simp e (stays l.screens (same-IsNear l _ _ _ _ _ refl))
  | inr e ↦ simp e (
      stays (set_presented n g l.screens)
        (maybe_send_locked-IsNear (record l { screens = set_presented n g l.screens })))
]

unplug-Effect : (n : ℕ) (l : Lock) → Effect l (end_screen n l)
unfolding end_screen
unplug-Effect n l = stays (drop_screen n l.screens) (tell_surfaces-IsNear n l.surfaces _)

-- Every event is one of these.
pub Step-Effect : {l t : Lock} → Step l t → Effect l t
Step-Effect {l} (ask granted id owner e) = subst (Effect l) e (ask-Effect granted id owner l)
Step-Effect {l} {t} (unlock r e) = unlock-Effect r l t e
Step-Effect {l} (leave r e) = subst (Effect l) e (leave-Effect r l)
Step-Effect {l} {t} (get r id f screen e) = near l _ t e (get_lock_surface-IsNear r id f screen l)
Step-Effect {l} {t} (ack r serial e) = near l _ t e (lock_surface_ack_configure-IsNear r serial l)
Step-Effect {l} {t} (commit under b w h s m e) = near l _ t e (commit-IsNear under b w h s l)
Step-Effect {l} {t} (end_surface s m e) = near l _ t e (destroy_lock_surface-IsNear s l)
Step-Effect {l} (present n g e) = subst (Effect l) e (present-Effect n g l)
Step-Effect {l} (plug s z e) =
    subst (Effect l) e
      (stays (s ∷ l.screens) (same-IsNear (record l { screens = s ∷ l.screens }) _ _ _ _ _ refl))
Step-Effect {l} (unplug n e) = subst (Effect l) e (unplug-Effect n l)
Step-Effect {l} (end_focus e) = subst (Effect l) e (stays l.screens (same-IsNear l _ _ _ _ _ refl))
