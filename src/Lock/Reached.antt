-- ===== src/Lock/Reached.antt =====
-- What holds after any sequence of events of libswc/session_lock.c, and who may end a lock.
use neuswc.Prelude.{ℕ, ◌≡◌, ◌∙◌, ◌⊎◌, inl, inr, true, false, some}
use neuswc.Lock.State.{Screen, Lock}
use neuswc.Lock.Requests.{unlock_and_destroy}
use neuswc.Lock.Near.{hidden_after, IsShown}
use neuswc.Lock.Effects.{HasEnded}
use neuswc.Lock.Session.{Step}
use neuswc.Lock.Steps.{begins, ends, stays, orphans, Step-Effect}

-- While the session is locked the compositor was told to hide the views, and not yet to restore them, and
-- the flag agrees with that at any time; there is a holder, or it was told, only while the
-- session is locked.
pub record IsGuarded (l : Lock) : Type 0 where
  pub hidden : l.locked ≡ true → hidden_after false l.sent ≡ true
  pub flag : IsShown l
  pub held : (r : ℕ) → l.resource ≡ some r → l.locked ≡ true
  pub sent : l.sent_locked ≡ true → l.locked ≡ true

-- No event ends a lock, except that the holder unlocks it, after it was told that it is locked.
pub locked_stays :
    {l t : Lock}
    → Step l t
    → l.locked ≡ true
    → (t.locked ≡ true)
      ⊎ ((r : ℕ) × (l.resource ≡ some r)
          × (l.sent_locked ≡ true)
          × (unlock_and_destroy r l ≡ t)
          × HasEnded t)
locked_stays st h = elim (Step-Effect st) [
  | begins u m b r e k ↦ inl b.locked
  | ends r e s d f k ↦ inr (r, e, s, f, d)
  | stays ss n ↦ inl (n.locked_eq ∙ h)
  | orphans v k x s f ↦ inl (k ∙ h)
]

-- The screen has shown its cover in this generation.
abbrev pub HasShown : ℕ → Screen → Type 0
HasShown generation s = s.presented ≡ generation
